-- ===== src/Wire.antt =====
-- What the encoding stands on: the errors of protocol/src/error.rs, the primitives of the crate
-- `binary_stream` as an interface, and the two monads of a `BinaryWriter` and a `BinaryReader`.
mod Defs
pub mod Writer
pub mod Reader
pub mod Carries
pub mod LittleEndian
pub mod NoPanic
pub use Defs.*
