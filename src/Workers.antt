-- ===== src/Workers.antt =====
-- The workers of the data acquisition (src/BMDWorkers.h, src/BMDWorkers.cpp).
pub mod Status
pub mod Readout
pub mod Scanner
pub mod EventBuilder
pub mod Pipeline
