-- ===== src/Networks.antt =====
-- rack-director/src/http/ui/networks.rs and validation.rs: the networks that the operator sets up.
pub mod Validation
pub mod Store
pub mod Requests
pub mod Handlers
