-- ===== src/Coro.antt =====
-- homework01/libcoro.c: coroutines and their scheduler.
pub mod State
pub mod Api
pub mod Wait
pub mod Jobs
pub mod Round
pub mod Finding
pub mod Rounds
pub mod Returned
pub mod New
pub mod Program
pub mod Ended
pub mod WaitAll
pub mod Stacks
mod StackLaws
mod StackTests
mod Tests
