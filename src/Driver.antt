-- ===== src/Driver.antt =====
-- The driver: driver/src/round.rs, driver/src/bridge.rs, driver/src/session.rs and driver/src/gg20.
pub mod State
pub mod Bridge
pub mod Waiting
pub mod Session
pub mod Connecting
pub mod Gg20
pub mod Holding
pub mod Outputs
pub mod Reaching
