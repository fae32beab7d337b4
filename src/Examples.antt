-- ===== src/Examples.antt =====
-- Concrete runs of the code, on which the theorems are applied.
mod Memory
mod Transfers
mod Packets
mod Files
mod Devices
mod Discovery
mod Addresses
mod Layouts
mod Disks
mod Dhcp
mod Offers
mod Networks
mod Partitions
