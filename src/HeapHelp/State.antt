-- ===== src/HeapHelp/State.antt =====
-- The types, global variables, assertions and locks of utils/heap_help/heap_help.c.
use sysprog_labs_f.Base.{
  ℕ, ◌+◌, ◌-◌, Bool, true, false, not, ◌&&◌, List, Option, ◌==◌, leb, ltb, if◌then◌else◌,
}
use sysprog_labs_f.Memory.Store.{Ptr, null}
use sysprog_labs_f.Memory.Run.{Cmd, ok, fault, out_of_fuel, pure, crash, modify, ◌>>◌}

abbrev pub allocation_batch_size : ℕ
allocation_batch_size = 1024

-- `enum report_mode`.
pub data ReportMode : Type 0 where
  mode_verbose mode_leaks mode_quiet : ReportMode

-- `struct allocation`; a list of them stands for the `next` pointers. `trace` is what `backtrace`
-- recorded, and `trace_size` its length.
pub record Allocation : Type 0 where
  pub trace : List Ptr
  pub trace_size : ℕ
  pub mem : Ptr
  pub size : ℕ

-- What the `default_` pointers hold: nothing, the static allocator, or the functions of the system.
pub data Defaults : Type 0 where
  unset static_ones real_ones : Defaults

-- The variables of one thread and of the process. `batch_used` is `alloc_batch->used`.
pub record Hh : Type 0 where
  pub init_lock : Bool
  pub is_init_done : Bool
  pub is_exit_done : Bool
  pub init_lock_count : ℕ
  pub depth : ℕ
  pub report_mode : ReportMode
  pub static_size : ℕ
  pub static_used : ℕ
  pub static_buf : Ptr
  pub allocs_lock : Bool
  pub alloc_count : ℕ
  pub alloc_count_total : ℕ
  pub allocs : List Allocation
  pub alloc_pool : List Allocation
  pub batch_used : Option ℕ
  pub defaults : Defaults

-- `heaph_assert`: the process is aborted, a fault of the model.
abbrev pub heaph_assert : {S : Type 0} → Bool → Cmd S (Unit {0})
heaph_assert flag = if flag then pure tt else crash

-- `spinlock_acq` and `spinlock_rel`, for one thread: a lock that is held is waited for without end.
abbrev pub acquire_allocs : Cmd Hh (Unit {0})
acquire_allocs s = if s.allocs_lock then out_of_fuel else ok tt (record s { allocs_lock = true })

abbrev pub release_allocs : Cmd Hh (Unit {0})
release_allocs s = if s.allocs_lock then ok tt (record s { allocs_lock = false }) else fault

abbrev pub acquire_init : Cmd Hh (Unit {0})
acquire_init s = if s.init_lock then out_of_fuel else ok tt (record s { init_lock = true })

abbrev pub release_init : Cmd Hh (Unit {0})
release_init s = if s.init_lock then ok tt (record s { init_lock = false }) else fault

unfoldable pub alloc_is_static : Ptr → Hh → Bool
alloc_is_static ptr s =
    not (ptr == null) && leb s.static_buf ptr && leb ptr (s.static_buf + s.static_size)

abbrev pub enter : Cmd Hh (Unit {0})
enter = modify λ s. record s { depth = s.depth + 1 }

abbrev pub leave : Cmd Hh (Unit {0})
leave = modify λ s. record s { depth = s.depth - 1 }

unfoldable pub heaph_lock : Cmd Hh (Unit {0})
heaph_lock =
    (λ s. (if s.init_lock_count == 0 then acquire_init else pure tt) s)
    >> modify λ s. record s { init_lock_count = s.init_lock_count + 1 }

unfoldable pub heaph_unlock : Cmd Hh (Unit {0})
heaph_unlock = do
  λ s. heaph_assert (ltb 0 s.init_lock_count) s
  modify λ s. record s { init_lock_count = s.init_lock_count - 1 }
  λ s. (if s.init_lock_count == 0 then release_init else pure tt) s
