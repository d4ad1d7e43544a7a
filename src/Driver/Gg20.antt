-- ===== src/Driver/Gg20.antt =====
-- The drivers of driver/src/gg20, over the state machines of the crate `cggmp-threshold-ecdsa`.
pub mod Participants
pub mod Machines
pub mod Online
pub mod Starting
pub mod Flows
pub mod Driving
pub mod Verified
pub mod Gathering
pub mod Agreement
