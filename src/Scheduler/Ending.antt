-- ===== src/Scheduler/Ending.antt =====
-- That cycle of src/main.c ends: the work that is left, and the rounds that it takes.
pub mod Work
pub mod Waiting
pub mod Advance
pub mod Late
pub mod Enough
pub mod AnyQueue
pub mod Termination
