-- ===== src/DataLib.antt =====
-- The event-building data classes (src/BMDDataHeaders.h, src/BMDDataLib.h, src/BMDDataLib-inl.h and
-- src/BMDDataLib.cpp).
pub mod Headers
pub mod MemBank
pub mod Fragment
