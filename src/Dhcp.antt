-- ===== src/Dhcp.antt =====
-- rack-director/src/dhcp: the addresses that the DHCP server gives out.
pub mod Ipv4
pub mod Store
pub mod Subnet
pub mod Message
pub mod Request
pub mod DeviceResolution
pub mod BootConfig
pub mod MessageBuilder
pub mod Interface
pub mod Leases
pub mod Handler
pub mod Allocator
