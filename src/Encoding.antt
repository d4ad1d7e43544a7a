-- ===== src/Encoding.antt =====
-- The binary encoding of the messages: protocol/src/encoding/mod.rs and
-- protocol/src/encoding/v1/mod.rs. The codecs stand in the children, and their properties below them.
pub mod Buffers
pub mod Encode
pub mod Decode
pub mod Valid
pub mod Untrusted
pub mod Limits
pub mod Preamble
pub mod RoundTrip
