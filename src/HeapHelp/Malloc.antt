-- ===== src/HeapHelp/Malloc.antt =====
-- What `malloc` of utils/heap_help/heap_help.c do to the list of live allocations.
use sysprog_labs_f.Base.{
  ℕ, ◌+◌, ◌≤◌, ◌≡◌, ◌≢◌, refl, sym, subst, true, false, List, [], ◌∷◌, Option, none, some, arith,
  length, ltb, ◌==◌, Bool-cases, inl, inr,
}
use sysprog_labs_f.Memory.Store.{Ptr, null}
use sysprog_labs_f.Memory.Run.{Returns, returns}
use sysprog_labs_f.HeapHelp.State.{Hh, Allocation, allocation_batch_size, alloc_is_static}
use sysprog_labs_f.HeapHelp.Trace.{alloc_trace_new, used_of}
use sysprog_labs_f.HeapHelp.Static.{heaph_touch}
use sysprog_labs_f.HeapHelp.Api.{Outside, malloc}

-- Between calls, once the detector has started: no lock is held, the depth is zero, and
-- `alloc_count` counts the list of live allocations.
pub record IsReady (s : Hh) : Type 0 where
  pub started : s.is_init_done ≡ true
  pub running : s.is_exit_done ≡ false
  pub unlocked : s.allocs_lock ≡ false
  pub outside : s.depth ≡ 0
  pub counted : s.alloc_count ≡ length s.allocs
  pub batch : used_of s.batch_used ≤ allocation_batch_size

-- The same state with the members written out that the calls branch on.
abbrev pub ready : List Allocation → Option ℕ → Hh → Hh
ready pool used s = record s {
  is_init_done = true;
  is_exit_done = false;
  allocs_lock = false;
  depth = 0;
  alloc_pool = pool;
  batch_used = used;
}

pub ready-eq : (s : Hh) → IsReady s → s ≡ ready s.alloc_pool s.batch_used s
ready-eq s r i = record s {
  is_init_done = r.started i;
  is_exit_done = r.running i;
  allocs_lock = r.unlocked i;
  depth = r.outside i;
}

-- What `t` shares with `s` whatever is allocated.
pub record Same (s t : Hh) : Type 0 where
  pub static_buf : t.static_buf ≡ s.static_buf
  pub static_size : t.static_size ≡ s.static_size
  pub report_mode : t.report_mode ≡ s.report_mode

-- A new entry at the head of the list.
pub record Traced (s : Hh) (a : Allocation) (t : Hh) : Type 0 where
  pub allocs : t.allocs ≡ a ∷ s.allocs
  pub total : t.alloc_count_total ≡ s.alloc_count_total + 1
  pub still : IsReady t
  pub same : Same s t

abbrev pub entry : List Ptr → Ptr → ℕ → Allocation
entry trace ptr size = record { trace = trace; trace_size = length trace; mem = ptr; size = size }

-- A recorded allocation, whatever object it takes: `pool` and `used` are what is left.
recorded :
    (trace : List Ptr) (res : Ptr) (size : ℕ) (s : Hh)
    → s.alloc_count ≡ length s.allocs
    → (pool old : List Allocation) (used before : Option ℕ) → used_of used ≤ allocation_batch_size
    → Traced (ready old before s) (entry trace res size) (record (ready pool used s) {
      allocs = entry trace res size ∷ s.allocs;
      alloc_count = s.alloc_count + 1;
      alloc_count_total = s.alloc_count_total + 1;
    })
recorded trace res size s count pool old used before batch = record {
  allocs = refl;
  total = refl;
  still = record {
    started = refl;
    running = refl;
    unlocked = refl;
    outside = refl;
    counted = omega arith;
    batch = batch;
  };
  same = record { static_buf = refl; static_size = refl; report_mode = refl };
}

malloc-ready :
    (o : Outside) (res : Ptr) (size : ℕ) (s : Hh) (pool : List Allocation) (used : Option ℕ)
    → s.alloc_count ≡ length s.allocs
    → used_of used ≤ allocation_batch_size
    → (res == null) ≡ false
    → alloc_is_static res s ≡ false
    → Returns
        (λ r t. (r ≡ res) × Traced (ready pool used s) (entry o.trace res size) t)
        (malloc o res size (ready pool used s))
unfolding malloc heaph_touch alloc_trace_new alloc_is_static
malloc-ready o res size s [] none count batch live out =
    rw (live, out)
      (returns (refl, recorded o.trace res size s count [] [] (some 1) none (ground arith)))
malloc-ready o res size s [] (some n) count batch live out =
    elim (Bool-cases (n == allocation_batch_size)) [
      | inl full ↦
          rw (live, out, full)
            (returns
              (refl, recorded o.trace res size s count [] [] (some 1) (some n) (ground arith)))
      | inr more ↦
          let below : ltb n allocation_batch_size ≡ true = ground arith in
          rw (live, out, more, below)
            (returns (
              refl,
              recorded o.trace res size s count [] [] (some (n + 1)) (some n) (ground arith),
            ))
    ]
malloc-ready o res size s (a ∷ pool) used count batch live out =
    rw (live, out)
      (returns (refl, recorded o.trace res size s count pool (a ∷ pool) used used batch))

-- Once the detector has started and no call is under way, a `malloc` that the system serves,
-- outside the static buffer, returns the system's pointer, puts an entry with the recorded stack,
-- the pointer and the size at the head of the list, and counts it in both counters. The detector
-- stays ready, and the report mode and the static buffer stay.
pub malloc_lem :
    (o : Outside) (res : Ptr) (size : ℕ) (s : Hh)
    → IsReady s
    → res ≢ null
    → alloc_is_static res s ≡ false
    → Returns (λ r t. (r ≡ res) × Traced s (entry o.trace res size) t) (malloc o res size s)
unfolding alloc_is_static
malloc_lem o res size s r ne out =
    subst
      (λ u. Returns (λ p t. (p ≡ res) × Traced u (entry o.trace res size) t) (malloc o res size u))
      (sym (ready-eq s r))
      (malloc-ready o res size s s.alloc_pool s.batch_used r.counted r.batch (ground arith) out)
