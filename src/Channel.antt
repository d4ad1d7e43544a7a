-- ===== src/Channel.antt =====
-- Encrypted payloads: `Chunk` of protocol/src/protocol.rs and the channels over it,
-- protocol/src/channel.rs and the peer channel of client/src/lib.rs.
pub mod Noise
pub mod Chunks
pub mod Envelopes
pub mod Counter
