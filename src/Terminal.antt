-- ===== src/Terminal.antt =====
-- api/http/management.go: a user's terminal session, between the user's websocket and the device.
pub mod Resize
pub mod UserLoop
pub mod DeviceLoop
pub mod Connect
pub mod Playback
