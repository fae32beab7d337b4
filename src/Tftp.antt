-- ===== src/Tftp.antt =====
-- The TFTP server: rack-director/src/tftp.
pub mod Decimal
pub mod Unicode
pub mod Options
pub mod Packet
pub mod Reader
pub mod State
pub mod Connection
