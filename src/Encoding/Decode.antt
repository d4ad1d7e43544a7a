-- ===== src/Encoding/Decode.antt =====
-- The `Decodable` implementations of protocol/src/encoding/v1/mod.rs and `decode` of
-- protocol/src/encoding/mod.rs.
mod Parts
mod Server
mod Messages
unfoldable pub use Parts.*
unfoldable pub use Server.*
unfoldable pub use Messages.*
