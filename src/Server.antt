-- ===== src/Server.antt =====
-- class LightningCastServer.
pub mod State
pub mod Handlers
pub mod Opening
pub mod Handshake
pub mod Loop
pub mod Turn
pub mod Reported
pub mod Descriptors
pub mod Refusal
pub mod Capacity
pub mod Exit
