-- ===== src/Agent.antt =====
-- rack-agent/src/partition.rs: what the agent does with a disk layout.
pub mod Sizes
pub mod Offsets
pub mod Commands
pub mod Layouts
