-- ===== src/Client.antt =====
-- class LightningCastClient.
pub mod Commands
pub mod State
pub mod Version
pub mod MusicInfo
pub mod Handlers
pub mod Send
pub mod Sharing
pub mod Dispatch
pub mod Footprint
pub mod Metadata
pub mod Session
pub mod Lifecycle
pub mod Silence
pub mod Complete
pub mod Calls
pub mod Channel
pub mod Requests
pub mod Player
pub mod Reopening
pub mod Contract
pub mod Replies
pub mod Unconvertible
