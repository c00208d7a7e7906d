-- ===== src/Tests.antt =====
-- Concrete libraries, runs of the code and the theorems at concrete inputs.
mod Toy
mod Fragments
mod Machine
mod Banks
mod Spills
mod Data
mod Workers
mod Runs
mod Whole
mod Failures
mod Ring
mod Controls
mod States
