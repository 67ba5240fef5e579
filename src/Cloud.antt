-- ===== src/Cloud.antt =====
-- The REST calls of the cloud API.
pub mod Json
pub mod Wire
pub mod Cameras
pub mod Actions
pub mod States
pub mod Put
pub mod Events
pub mod Settings
pub mod Live
pub mod Client
