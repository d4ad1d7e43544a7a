-- ===== src/Server/Wiring.antt =====
-- The connections that `ServerState::active` of server/src/server.rs holds, their public keys and
-- their protocol states, through the life of a server.
mod Kept
pub mod Handlers
pub mod Handshake
mod Turns
pub mod Reachable
