-- ===== src/Publisher.antt =====
-- class ServicePublisher.
pub mod Register
pub mod Published
pub mod Lifecycle
