-- ===== src/HeapHelp.antt =====
-- utils/heap_help/heap_help.c: a leak detector that stands in for the allocation functions.
pub mod State
pub mod Trace
pub mod Static
pub mod Api
pub mod Report
mod Malloc
mod Free
mod Realloc
mod Start
mod Leaks
mod Exit
mod Tests
