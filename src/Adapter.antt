-- ===== src/Adapter.antt =====
-- src/hermes_link/integrations/hermes_agent/adapter.py: the boundary to the Hermes Agent.
pub mod Paths
pub mod Headers
pub mod Client
