-- ===== src/Client.antt =====
-- The client: client/src/lib.rs, client/src/client.rs, client/src/event_loop.rs, client/src/native.rs
-- and client/src/error.rs.
pub mod State
pub mod Options
pub mod Calls
pub mod Incoming
pub mod Turns
pub mod Serving
pub mod Peering
pub mod Handshake
pub mod Stays
pub mod Kept
pub mod Established
pub mod Failing
pub mod Ending
pub mod Filling
pub mod Broadcasting
pub mod Spreading
