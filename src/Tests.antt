-- ===== src/Tests.antt =====
-- Runs of the models at concrete inputs, and the theorems applied at them.
pub mod Pairing
pub mod Notifications
pub mod Adapter
pub mod Bridge
pub mod Cloud
pub mod Proxy
pub mod Routes
pub mod Release
pub mod Stream
pub mod Export
pub mod Sender
pub mod Client
