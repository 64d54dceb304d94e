-- ===== src/Export.antt =====
-- The exporters that run beside the Server.
pub mod Models
