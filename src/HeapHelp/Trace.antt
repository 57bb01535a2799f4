-- ===== src/HeapHelp/Trace.antt =====
-- `alloc_trace_new` and `alloc_free` of utils/heap_help/heap_help.c: the list of live allocations.
use sysprog_labs_f.Base.{
  ℕ, ◌+◌, ◌-◌, Bool, true, List, [], ◌∷◌, Option, none, some, ◌==◌, ltb, if◌then◌else◌, length,
}
use sysprog_labs_f.Memory.Store.{Ptr}
use sysprog_labs_f.Memory.Run.{Cmd, pure, crash, read_state, modify, ◌>>=◌, ◌>>◌}
use sysprog_labs_f.HeapHelp.State.{
  Hh, Allocation, allocation_batch_size, heaph_assert, acquire_allocs, release_allocs,
  alloc_is_static,
}

-- `alloc_batch == NULL || alloc_batch->used == ALLOCATION_BATCH_SIZE`.
abbrev pub batch_full : Option ℕ → Bool
batch_full none = true
batch_full (some used) = used == allocation_batch_size

abbrev pub used_of : Option ℕ → ℕ
used_of none = 0
used_of (some used) = used

-- An unused allocation object is taken from the pool, or from the batch.
unfoldable pub take_object : Cmd Hh (Unit {0})
take_object s = elim s.alloc_pool [
  | a ∷ pool ↦ modify (λ t. record t { alloc_pool = pool }) s
  | [] ↦
      if batch_full s.batch_used
      then modify (λ t. record t { batch_used = some 1 }) s
      else (do
        heaph_assert (ltb (used_of s.batch_used) allocation_batch_size)
        modify λ t. record t { batch_used = some (used_of s.batch_used + 1) })
          s
]

-- `alloc_trace_new`, behind the tests that leave it early. `trace` is what `backtrace` records.
unfoldable pub record_allocation : List Ptr → Ptr → ℕ → Cmd Hh (Unit {0})
unfolding take_object
record_allocation trace ptr size = do
  acquire_allocs
  take_object
  release_allocs
  acquire_allocs
  modify λ s. record s {
    allocs =
        record {
          trace = if s.depth == 1 then trace else [];
          trace_size = if s.depth == 1 then length trace else 0;
          mem = ptr;
          size = size;
        }
        ∷ s.allocs;
    alloc_count = s.alloc_count + 1;
    alloc_count_total = s.alloc_count_total + 1;
  }
  release_allocs

unfoldable pub alloc_trace_new : List Ptr → Ptr → ℕ → Cmd Hh (Unit {0})
unfolding record_allocation
alloc_trace_new trace ptr size s =
    if alloc_is_static ptr s
    then pure tt s
    else if ltb 1 s.depth
    then pure tt s
    else (do
      heaph_assert (ltb 0 s.depth)
      heaph_assert s.is_init_done
      if s.is_exit_done then pure tt else record_allocation trace ptr size)
        s

-- The first allocation at `ptr`, and the list without it.
unfoldable pub unlink_allocation : Ptr → List Allocation → Option (Allocation × List Allocation)
unlink_allocation ptr [] = none
unlink_allocation ptr (a ∷ rest) =
    if a.mem == ptr
    then some (a, rest)
    else elim (unlink_allocation ptr rest) [ none ↦ none | some (b, others) ↦ some (b, a ∷ others) ]

-- `alloc_free`, behind the tests that leave it early. `--alloc_count` would fall below zero if it was
-- not positive.
unfoldable pub forget_allocation : Ptr → Cmd Hh (Unit {0})
unfolding unlink_allocation
forget_allocation ptr = do
  acquire_allocs
  found ← read_state (λ s. unlink_allocation ptr s.allocs)
  elim found [
    | none ↦ release_allocs >> crash
    | some (a, rest) ↦ do
      positive ← read_state (λ s. ltb 0 s.alloc_count)
      modify λ s. record s {
        allocs = rest;
        alloc_pool = a ∷ s.alloc_pool;
        alloc_count = s.alloc_count - 1;
      }
      release_allocs
      heaph_assert positive
  ]

unfoldable pub alloc_free : Ptr → Cmd Hh (Unit {0})
unfolding forget_allocation
alloc_free ptr s =
    if alloc_is_static ptr s
    then pure tt s
    else if ltb 1 s.depth
    then pure tt s
    else (do heaph_assert s.is_init_done; if s.is_exit_done then pure tt else forget_allocation ptr)
        s
