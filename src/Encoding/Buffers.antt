-- ===== src/Encoding/Buffers.antt =====
-- The length-prefixed buffers and the preamble: `encode_buffer`, `decode_buffer`, `encode_payload`
-- and `decode_payload` of protocol/src/encoding/v1/mod.rs, `encode_preamble` and `decode_preamble`
-- of protocol/src/encoding/mod.rs.
mod Encode
mod Decode
pub mod Laws
unfoldable pub use Encode.*
unfoldable pub use Decode.*
