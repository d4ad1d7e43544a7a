-- ===== src/Encoding/RoundTrip.antt =====
-- Encoding and decoding of protocol/src/encoding/v1/mod.rs, taken together.
mod Parts
mod Server
pub mod Messages
