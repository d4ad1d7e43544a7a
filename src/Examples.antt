-- ===== src/Examples.antt =====
-- Runs of the models at concrete inputs.
mod Messages
mod Channels
mod Sessions
mod Rounds
mod Server
mod Clients
mod Drivers
mod Pems
mod Signing
