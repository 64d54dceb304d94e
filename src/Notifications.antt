-- ===== src/Notifications.antt =====
-- src/hermes_link/notifications/: event validation and the DIRECT notification stream.
pub mod Floats
pub mod Events
pub mod Direct
pub mod Cloud
