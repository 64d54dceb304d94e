-- ===== src/Bridge.antt =====
-- src/hermes_link/integrations/hermes_agent/bridge.py: the HTTP facade.
pub mod Sse
pub mod Trace
pub mod Relay
pub mod Access
pub mod Cloud
pub mod Models
pub mod Pair
pub mod Proxy
pub mod Upstream
pub mod Routes
pub mod Tasks
pub mod Stream
