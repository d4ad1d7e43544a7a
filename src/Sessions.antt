-- ===== src/Sessions.antt =====
-- Sessions, from protocol/src/protocol.rs: `SessionState` as the clients see a session, `Session`
-- and `SessionManager` as the server keeps them.
mod State
mod Entry
mod Manager
pub mod Parties
pub mod Mesh
pub mod Active
unfoldable pub use State.*
unfoldable pub use Entry.*
unfoldable pub use Manager.*
