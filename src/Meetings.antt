-- ===== src/Meetings.antt =====
-- Meeting points, from protocol/src/protocol.rs: `Meeting` and `MeetingManager`.
mod Defs
pub mod Slots
unfoldable pub use Defs.*
