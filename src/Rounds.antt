-- ===== src/Rounds.antt =====
-- The rounds of a protocol as the driver keeps them: driver/src/round.rs.
mod Defs
pub mod Arrivals
unfoldable pub use Defs.*
