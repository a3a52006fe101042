-- ===== src/Device.antt =====
-- LightningCastDeviceSample.cpp.
pub mod Keys
pub mod Place
pub mod Signals
pub mod Volume
pub mod Meaning
pub mod Typing
pub mod Overflow
