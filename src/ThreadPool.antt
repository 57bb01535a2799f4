-- ===== src/ThreadPool.antt =====
-- homework04/thread_pool.c: a pool of threads that run tasks.
pub mod State
pub mod Tasks
pub mod Pool
pub mod Worker
pub mod Api
pub mod Take
pub mod Push
pub mod Stack
pub mod Remove
pub mod Delete
pub mod Deleted
pub mod Finish
pub mod System
pub mod Counts
pub mod Threads
pub mod Bounds
pub mod Shutdown
pub mod Join
mod Tests
