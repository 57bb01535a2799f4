-- ===== src/Sorter.antt =====
-- homework01/solution.c: files of integers are sorted by coroutines and merged.
pub mod Merge
pub mod MergeLaws
pub mod Sort
pub mod SortLaws
pub mod Time
pub mod Input
mod InputLaws
pub mod Claims
pub mod ClaimLaws
pub mod ClaimEnd
pub mod Measure
pub mod Crews
pub mod Files
pub mod FileLaws
pub mod Main
pub mod Finish
pub mod Starting
pub mod MainLaws
mod Tests
