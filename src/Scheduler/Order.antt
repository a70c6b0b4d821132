-- ===== src/Scheduler/Order.antt =====
-- The order in which cycle of src/main.c finishes the processes.
pub mod Turns
pub mod Fair
pub mod ShortestFirst
pub mod Jobs
pub mod Line
pub mod RoundRobin
pub mod Rotation
pub mod TakingTurns
