-- ===== src/Lib.antt =====
-- A verification library for the parts of this repository that carry its logic: the user file system
-- (homework03), the sorter of number files and its coroutines (homework01), the thread pool (homework04)
-- and the leak detector (utils/heap_help). They are separate programs that share no state; the sorter
-- runs on the coroutines, and the leak detector takes the place of the allocation functions of the
-- programs it is built into.
--
-- Base        names shared by all, lists and integers over native numbers, overwriting a slice of a list
-- Memory      Store: allocated objects by address, and what is relied on of `malloc`
--             Run: commands over a state that end with a result, a fault or out of fuel
--             Chain: doubly linked lists in a store. Relink, Rotate: writes to their links
-- UserFs      homework03/userfs.c, with the constants of homework03/userfs.h
--             State: `struct block`, `struct file`, `struct filedesc`, the global variables (Fs), loads and
--             stores through pointers, which are faults at NULL and at freed addresses
--             Names: search_file, append_file. Table: get_fd, is_valid_fd
--             Blocks: create_block, free_file_memory, and the loops of ufs_write, ufs_read, ufs_resize
--             Api: ufs_errno, ufs_open, ufs_write, ufs_read, ufs_close, ufs_delete, ufs_resize, ufs_destroy
--             Content, Layout: the bytes that the blocks of a file stand for, and the file in memory
--             Listed: the file list in memory, and the directory that it stands for
--             Create, Round, Write, WriteCall, Read, ReadCall, Open, Places, Descriptors, Invalid,
--             Endless, Append, OpenCall, Unlink, Freed, Delete, Unlinked, Close,
--             Destroy: proofs
--             Tests, ListTests: runs
-- Sorter      homework01/solution.c
--             Input: read_numbers_from_file. Merge: merge_sorted_arrays. Sort: get_sorted_numbers
--             Time: get_time_diff, update_coro_work_time
--             Claims: coroutine_func_f, from one yield to the next, as the coroutines run it in turns
--             Files: the arrays of main, write_numbers_to_file. Main: main, on the scheduler of Coro
--             MergeLaws, SortLaws, InputLaws, ClaimLaws, ClaimEnd, Measure, Crews, FileLaws, Starting,
--             Finish, MainLaws: proofs. Tests: runs
-- Coro        homework01/libcoro.c
--             State: `struct coro`, the global variables (Sched), and what coroutines run
--             Api: the list of coroutines, coro_new and the functions that read a coroutine
--             Wait: coro_yield, coro_yield_to, the end of coro_body, coro_sched_wait
--             Jobs: the list in memory, and a round of the scheduler on lists
--             WaitAll: the loop of main that waits for all coroutines
--             Stacks: coro_body and what coro_new does with signals, over the calls of the system
--             Program: what a program promises of its coroutines, the interface that Sorter.Crews fills
--             Round, Finding, Rounds, Returned, New, Ended, StackLaws: proofs
--             Tests, StackTests: runs
-- ThreadPool  homework04/thread_pool.c, with the constants of homework04/thread_pool.h
--             State: `struct thread_task`, `struct thread_pool_task`, `struct thread_pool` (Tp), the mutex,
--             and where each thread is
--             Tasks: get_tp_task, make_thread_pool_task, thread_task_new, get_task, delete_task
--             Worker: thread_pool_worker. Api: the other functions
--             Pool: the list of the tasks in memory. System: threads and callers that take turns
--             Take, Push, Stack, Remove, Delete, Deleted, Finish, Join, Counts, Threads, Bounds,
--             Shutdown: proofs. Tests: runs
-- HeapHelp    utils/heap_help/heap_help.c
--             State: the global variables (Hh), heaph_assert, the spinlocks, heaph_lock and heaph_unlock
--             Trace: alloc_trace_new, alloc_free. Static: the static allocator, heaph_init, heaph_touch
--             Api: malloc, calloc, realloc, free, strdup, getline, getaddrinfo, freeaddrinfo,
--             heaph_get_alloc_count. Report: heaph_atexit
--             Start, Malloc, Free, Realloc, Leaks, Exit: proofs. Tests: runs
--
-- Correspondence. A function of the source is a command or a function of the same name; a part of a
-- long function that the source does not name has a name that says what it does. The variables that
-- a C function changes are the state that a command returns. A loop is recursion over the list it goes
-- through, or over fuel: a loop of the file system takes a bound on its rounds, and its theorems say
-- that more fuel than blocks and bytes is enough; a merge has one unit of fuel for each element and one
-- more; the sort has a depth, and the length of the array is enough; a loop over the tasks of the pool or
-- over the coroutines needs more fuel than there are of them. Running out of fuel is a result of its own,
-- out_of_fuel or none, and never counts as a return.
--
-- Threads. What a function of the thread pool does between lock and unlock is one section, which no
-- other section interrupts, since the mutex is held. A function that waits on a condition variable is
-- two sections, up to the wait and from the wake-up on; a wake-up may come at any time, as the standard
-- allows. The call of the function of a task is a step of its own, with no lock held. System orders the
-- sections of all threads and callers in any way. The pool's store holds the tasks of one pool, and
-- what the source reaches through `pool` of a task is that pool.
--
-- Coroutines. A coroutine is given by what it does from a resume to its next switch (Coro.State.Env):
-- it changes the state of what it runs and yields or returns. Sorter.Claims gives the coroutines of the
-- sorter in this form; their clock and their lines of output are left out. What a coroutine reads from a
-- file and sorts depends on the file alone, so that Sorter.Main computes it first, and the coroutines
-- then yield as often as that sort does. The rounds of a wait are bounded by the yields that are left, and
-- a sort yields fewer times than twice the length of its array. A switch is the jump to the coroutine that
-- the source names, and a coroutine that has finished has no context to jump to, so that a resume of one
-- is a fault.
--
-- Numbers. Sizes, offsets and addresses are natural numbers. The unsigned new_size of ufs_resize wraps
-- round at 2^64 (Blocks.sub_size), and so does bytes_left where it is subtracted from. The int and
-- ssize_t variables of the file system stay far below their limits, by the limit of a file. The numbers
-- that the sorter sorts are integers without a bound, since it only compares them; its time arithmetic
-- has no bound either, and neither have the counters of switches and the length of the array of all
-- numbers.
--
-- Parameters. `malloc` gives an address that is not NULL and not in use, and memory with any content
-- (Memory.Store.Malloc, UserFs.State.Env). The functions of the system that the leak detector calls
-- are given by their results, and dladdr by a function that gives no symbol where it fails. The calls
-- about signals that coro_new makes are the interface Coro.Stacks.System: a call that succeeds
-- changes what POSIX says, and nothing else. The functions of the tasks of the pool are given by
-- their results.
--
-- Not modelled. What siglongjmp does to a stack: a jump is the switch to the coroutine that the
-- source names, and of a saved context only its stack is kept. The names of the coroutines of
-- homework01/solution.c, when its clock is read, and the contexts apart from what Sorter.Main says: a
-- context needs memory that `malloc` need not give, and a run without it is a fault. The waits of the
-- pool: a thread that waits may wake at any time, as POSIX allows, so that pthread_cond_signal and
-- pthread_cond_broadcast change nothing in the model, and nothing is shown of when a thread wakes.
-- Several pools, and a thread_pool_new while the model's pool is in use. Several threads in the leak
-- detector and in the file system: a lock that is held is waited for without end. Printing, apart
-- from the lines of the report, and the clock. A file of the sorter is the list of the numbers that
-- fscanf reads before the end, and the file of results the list of those printed; text that is no
-- number is left out.
pub mod Base
pub mod Memory
pub mod UserFs
pub mod Sorter
pub mod HeapHelp
pub mod ThreadPool
pub mod Coro
