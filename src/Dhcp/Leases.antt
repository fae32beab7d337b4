-- ===== src/Dhcp/Leases.antt =====
-- The addresses that the tables of dhcp/store.rs say are in use, and the changes that the server may
-- make to them.
pub mod Holders
mod Sources
mod Changes
pub mod Lookup
pub use Holders.{Holds, Reserves, IsConsistent, later-IsConsistent}
pub use Changes.{Change, same, stored, marked, pruned, Change-IsConsistent}
