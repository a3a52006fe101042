-- ===== src/Snapcast.antt =====
-- class SnapcastComm.
pub mod State
pub mod Parse
pub mod Calls
pub mod Answers
pub mod Untouched
pub mod Link
pub mod Interleaving
pub mod Stop
