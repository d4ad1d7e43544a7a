-- ===== src/Server.antt =====
-- The relay server: server/src/config.rs, server/src/server.rs, server/src/service.rs and
-- server/src/websocket.rs.
pub mod Config
pub mod State
pub mod Send
pub mod Lifecycle
pub mod Service
pub mod Requests
pub mod Polling
pub mod Wiring
pub mod Reaping
pub mod Closing
pub mod Relaying
pub mod Distinct
