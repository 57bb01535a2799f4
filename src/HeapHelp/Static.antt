-- ===== src/HeapHelp/Static.antt =====
-- The allocator of utils/heap_help/heap_help.c that serves until the system's one is known, and the
-- start of the detector.
use Prim.Native.String.{String}
use text.Mathlib.Text.{◌==◌ as str_eq}
use sysprog_labs_f.Base.{
  ℕ, ◌+◌, ◌-◌, ◌*◌, true, not, Option, none, some, ◌==◌, ltb, leb, if◌then◌else◌,
}
use sysprog_labs_f.Memory.Store.{Ptr, null}
use sysprog_labs_f.Memory.Run.{Cmd, pure, read_state, modify, ◌>>=◌, ◌>>◌}
use sysprog_labs_f.HeapHelp.State.{
  Hh, ReportMode, mode_verbose, mode_leaks, mode_quiet, static_ones, real_ones, heaph_assert,
  alloc_is_static, heaph_lock, heaph_unlock,
}

-- `region` is what `mmap` returns.
unfoldable pub static_allocator_touch : Ptr → Cmd Hh (Unit {0})
static_allocator_touch region s =
    (if not (s.static_buf == null)
        then pure tt
        else modify (λ t. record t { static_size = 16 * 1024; static_buf = region }))
      s

unfoldable pub static_malloc : Ptr → ℕ → Cmd Hh Ptr
unfolding static_allocator_touch
static_malloc region size = do
  λ s. heaph_assert (not s.is_init_done) s
  λ s. heaph_assert s.init_lock s
  static_allocator_touch region
  λ s. heaph_assert (leb s.static_used s.static_size) s
  λ s. heaph_assert (ltb size (s.static_size - s.static_used)) s
  res ← read_state (λ s. s.static_buf + s.static_used)
  modify λ s. record s { static_used = s.static_used + size }
  pure res

unfoldable pub static_free : Ptr → Ptr → Cmd Hh (Unit {0})
unfolding static_allocator_touch
static_free region ptr = do
  λ s. heaph_assert (not s.is_init_done) s
  λ s. heaph_assert s.init_lock s
  static_allocator_touch region
  λ s. (if ptr == null then pure tt else heaph_assert (alloc_is_static ptr s)) s

unfoldable pub static_calloc : Ptr → ℕ → ℕ → Cmd Hh Ptr
unfolding static_malloc
static_calloc region count size = static_malloc region (size * count)

-- The mode that the environment variable `HHREPORT` asks for.
unfoldable pub mode_of : Option String → ReportMode → ReportMode
mode_of none old = old
mode_of (some v) old =
    if str_eq v "v"
    then mode_verbose
    else if str_eq v "l"
    then mode_leaks
    else if str_eq v "q"
    then mode_quiet
    else old

-- `heaph_init`. The `dlsym` calls that look for the system's functions may allocate in between, by
-- the static allocator.
unfoldable pub heaph_init : Option String → Cmd Hh (Unit {0})
unfolding mode_of
heaph_init hh_report = do
  modify λ s. record s { defaults = static_ones }
  modify λ s. record s { defaults = real_ones }
  modify λ s. record s { report_mode = mode_of hh_report s.report_mode }

unfoldable pub heaph_touch : Option String → Cmd Hh (Unit {0})
unfolding heaph_init heaph_lock heaph_unlock
heaph_touch hh_report s =
    if s.is_init_done
    then pure tt s
    else if ltb 0 s.init_lock_count
    then pure tt s
    else (do
      heaph_lock
      heaph_init hh_report
      old ← read_state (λ t. t.is_init_done)
      modify λ t. record t { is_init_done = true }
      heaph_unlock
      heaph_assert (not old))
        s
