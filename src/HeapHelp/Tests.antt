-- ===== src/HeapHelp/Tests.antt =====
-- The functions of utils/heap_help/heap_help.c on concrete calls.
use sysprog_labs_f.Base.{
  Option, List, ◌≡◌, refl, true, false, if◌then◌else◌, ◌==◌, [], ◌∷◌, none, some, arith,
}
use sysprog_labs_f.Memory.Store.{Ptr, null}
use sysprog_labs_f.Memory.Run.{Run, Cmd, out_of_fuel, ok, fault, Returns, pure, ◌>>=◌, ◌>>◌}
use sysprog_labs_f.HeapHelp.State.{
  heaph_lock, heaph_unlock, Hh, Allocation, mode_leaks, unset, real_ones, alloc_is_static,
}
use sysprog_labs_f.HeapHelp.Api.{Outside, malloc, free, realloc}
use sysprog_labs_f.HeapHelp.Report.{
  Line, found_leaks, suppressed_leaks, total_allocations, Symbol, Tally, heaph_atexit,
}
use sysprog_labs_f.HeapHelp.Static.{heaph_touch, heaph_init, mode_of, static_malloc}
use sysprog_labs_f.HeapHelp.Trace.{alloc_trace_new, alloc_free}
use sysprog_labs_f.HeapHelp.Start.{Regions, static_malloc_lem}
use sysprog_labs_f.HeapHelp.Malloc.{IsReady, Traced, entry, malloc_lem}
use sysprog_labs_f.HeapHelp.Free.{free_untracked, nil, cons, Forgotten, free_lem, free-malloc}
use sysprog_labs_f.HeapHelp.Realloc.{Moved, realloc_lem, realloc_failed}
use sysprog_labs_f.HeapHelp.Exit.{report_of, heaph_atexit_lem}

-- A process that has allocated nothing.
abbrev fresh : Hh
fresh = record {
  init_lock = false;
  is_init_done = false;
  is_exit_done = false;
  init_lock_count = 0;
  depth = 0;
  report_mode = mode_leaks;
  static_size = 0;
  static_used = 0;
  static_buf = 0;
  allocs_lock = false;
  alloc_count = 0;
  alloc_count_total = 0;
  allocs = [];
  alloc_pool = [];
  batch_used = none;
  defaults = unset;
}

abbrev outside : Outside
outside = record { hh_report = some "v"; trace = 71 ∷ 72 ∷ [] }

abbrev first_entry : Allocation
first_entry = entry (71 ∷ 72 ∷ []) 9000 64

abbrev second_entry : Allocation
second_entry = entry (73 ∷ []) 9100 16

-- Two live allocations.
abbrev busy : Hh
busy = record fresh {
  is_init_done = true;
  static_size = 16384;
  static_buf = 100000;
  alloc_count = 2;
  alloc_count_total = 2;
  allocs = second_entry ∷ first_entry ∷ [];
  batch_used = some 2;
  defaults = real_ones;
}

busy-IsReady : IsReady busy
busy-IsReady = record {
  started = refl;
  running = refl;
  unlocked = refl;
  outside = refl;
  counted = refl;
  batch = ground arith;
}

-- The symbol at 72 is one of the C library, and there is none at 73.
abbrev resolve : Ptr → Option Symbol
resolve ptr =
    if ptr == 72
    then some (record { file = none; name = some "puts" })
    else if ptr == 73
    then none
    else some (record { file = some "main"; name = some "run" })

out_9200 : alloc_is_static 9200 busy ≡ false
unfolding alloc_is_static
out_9200 = refl

malloc_lem_example :
    Returns
      (λ r t. (r ≡ 9200) × Traced busy (entry (71 ∷ 72 ∷ []) 9200 32) t)
      (malloc outside 9200 32 busy)
malloc_lem_example = malloc_lem outside 9200 32 busy busy-IsReady (ground arith) out_9200

out_9100 : alloc_is_static 9100 busy ≡ false
unfolding alloc_is_static
out_9100 = refl

out_9000 : alloc_is_static 9000 busy ≡ false
unfolding alloc_is_static
out_9000 = refl

free_lem_example : Returns (λ r t. Forgotten busy (second_entry ∷ []) t) (free outside 9000 busy)
free_lem_example =
    free_lem outside 9000 busy (second_entry ∷ []) [] first_entry busy-IsReady refl
      (cons (ground arith) nil) refl (ground arith) out_9000

free_untracked_example : free outside 9200 busy ≡ fault
free_untracked_example =
    free_untracked outside 9200 busy busy-IsReady (cons (ground arith) (cons (ground arith) nil))
      (ground arith) out_9200

free-malloc_example :
    Returns
      (λ r t. (t.allocs ≡ busy.allocs) × (t.alloc_count ≡ 2) × IsReady t)
      ((malloc outside 9200 32 >>= λ ptr. free outside ptr) busy)
free-malloc_example = free-malloc outside 9200 32 busy busy-IsReady (ground arith) out_9200

realloc_lem_example :
    Returns
      (λ r t. (r ≡ 9200) × Moved busy (entry (71 ∷ 72 ∷ []) 9200 128) (second_entry ∷ []) t)
      (realloc outside 9000 9200 128 busy)
realloc_lem_example =
    realloc_lem outside 9000 9200 128 busy (second_entry ∷ []) [] first_entry busy-IsReady refl
      (cons (ground arith) nil) refl (ground arith) (ground arith) (ground arith) out_9000 out_9200

realloc_failed_example :
    Returns
      (λ r t. (r ≡ null) × Forgotten busy (first_entry ∷ []) t)
      (realloc outside 9100 null 1000 busy)
realloc_failed_example =
    realloc_failed outside 9100 1000 busy [] (first_entry ∷ []) second_entry busy-IsReady refl nil
      refl (ground arith) out_9100

abbrev no_tally : Tally
no_tally = record { count = 2; report_count = 0; leak_size = 0; lines = [] }

heaph_atexit_lem_example :
    Returns
      (λ out t. (out ≡ report_of resolve busy) × (t ≡ record busy { is_exit_done = true }))
      (heaph_atexit resolve busy)
heaph_atexit_lem_example = heaph_atexit_lem resolve busy refl refl refl

-- The lock is held, and 100 bytes of the buffer are used.
abbrev at_start : Hh
at_start = record fresh {
  init_lock = true;
  static_buf = 100000;
  static_size = 16384;
  static_used = 100;
}

static_malloc_lem_example :
    Returns
      (λ (p, q) t. Regions at_start 10 20 p q t)
      ((static_malloc 0 10 >>= λ p. static_malloc 0 20 >>= λ q. pure (p, q)) at_start)
static_malloc_lem_example =
    static_malloc_lem 0 10 20 at_start refl refl (ground arith) (ground arith)

-- Two allocations from within `puts`, one of which is not freed.
session : Cmd Hh (List Line)
session = do
  a ← malloc outside 9000 64
  b ← malloc outside 9100 16
  free outside a
  heaph_atexit resolve

abbrev printed : Run Hh (List Line) → List Line
printed (ok lines s) = lines
printed fault = []
printed out_of_fuel = []

session_output :
    printed (session fresh) ≡ found_leaks 0 0 ∷ suppressed_leaks 1 ∷ total_allocations 2 ∷ []
unfolding session malloc free heaph_touch heaph_init heaph_lock heaph_unlock mode_of alloc_trace_new
    alloc_free alloc_is_static heaph_atexit
session_output = refl
