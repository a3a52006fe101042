-- ===== src/Wire.antt =====
-- The framing that the three socket classes share.
pub mod Header
pub mod Send
pub mod Receive
pub mod Stream
pub mod RoundTrip
pub mod Shared
pub mod Ordered
pub mod Whole
pub mod Alone
