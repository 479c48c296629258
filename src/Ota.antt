-- ===== src/Ota.antt =====
-- components/ota-service: the update service.
pub mod Types
pub mod Events
pub mod Manifest
pub mod Version
pub mod Download
pub mod Task
pub mod Control
