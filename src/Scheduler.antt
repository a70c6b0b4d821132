-- ===== src/Scheduler.antt =====
-- src/main.c: the simulation of one scheduler over the ready queue, the memory and the processes that
-- it has started. Real holds the functions that talk to a started process, System those that a round
-- calls, and Cycle the rounds.
pub mod Real
pub mod System
pub mod Cycle
pub mod Statistics
pub mod Greatest
mod Hundredths
pub mod Ceiling
pub mod Arrivals
mod Protocol
mod Pids
pub mod Ending
pub mod Steps
pub mod Ahead
pub mod Timely
mod Running
mod Finish
mod Loops
mod Sound
mod FinishRound
mod FullRound
pub mod Rounds
mod Runs
mod Order
mod Faults
mod Tests
mod RunTests
