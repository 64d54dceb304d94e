-- ===== src/Pairing.antt =====
-- src/hermes_link/pairing/: the store of one-time tickets and paired devices, and its HTTP
-- boundary.
pub mod Profiles
pub mod Validation
pub mod Store
pub mod Http
