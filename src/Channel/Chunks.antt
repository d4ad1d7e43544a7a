-- ===== src/Channel/Chunks.antt =====
-- `Chunk::split` and `Chunk::join` of protocol/src/protocol.rs.
mod Defs
pub mod Pieces
pub mod RoundTrip
pub mod Malformed
unfoldable pub use Defs.*
