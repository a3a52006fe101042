-- ===== src/Util.antt =====
-- Util.h and Util.cpp.
pub mod Time
pub mod Clock
pub mod EventFd
pub mod FdSet
