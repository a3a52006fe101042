-- ===== src/Examples.antt =====
-- The theorems at concrete inputs, and tests of the definitions.
mod Data
mod Wire
mod Client
mod Session
mod Snapcast
mod Server
mod Device
mod Channel
mod Player
mod Program
mod Hangs
mod Handshake
mod Clock
mod Limits
mod Sharing
mod Unheard
mod Wakeups
mod Contract
