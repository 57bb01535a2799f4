-- ===== src/HeapHelp/Realloc.antt =====
-- What `realloc` of utils/heap_help/heap_help.c does to the list of live allocations.
use sysprog_labs_f.Base.{
  ℕ, ◌++◌, ◌+◌, ◌≤◌, ◌≡◌, ◌≢◌, refl, sym, ap, ◌∙◌, subst, true, false, List, ◌∷◌, Option, some,
  arith, length, ltb, ◌==◌,
}
use sysprog_labs_f.Memory.Store.{Ptr, null}
use sysprog_labs_f.Memory.Run.{Returns, returns}
use sysprog_labs_f.HeapHelp.State.{Hh, Allocation, allocation_batch_size, alloc_is_static}
use sysprog_labs_f.HeapHelp.Trace.{
  alloc_trace_new, unlink_allocation, forget_allocation, alloc_free, used_of,
}
use sysprog_labs_f.HeapHelp.Static.{heaph_touch}
use sysprog_labs_f.HeapHelp.Api.{Outside, realloc, trace_realloc}
use sysprog_labs_f.HeapHelp.Malloc.{IsReady, ready, ready-eq, Same, entry}
use sysprog_labs_f.HeapHelp.Free.{NoneAt, Forgotten, unlink_allocation-found, length-insert}

-- The entry of the old block is replaced by one at the head, for the new block.
pub record Moved (s : Hh) (a : Allocation) (rest : List Allocation) (t : Hh) : Type 0 where
  pub allocs : t.allocs ≡ a ∷ rest
  pub total : t.alloc_count_total ≡ s.alloc_count_total + 1
  pub still : IsReady t
  pub same : Same s t

realloc-ready :
    (o : Outside) (old res : Ptr) (size : ℕ) (s : Hh) (pool : List Allocation) (used : Option ℕ)
    → (a : Allocation) (rest : List Allocation) → unlink_allocation old s.allocs ≡ some (a, rest)
    → s.alloc_count ≡ length rest + 1
    → used_of used ≤ allocation_batch_size
    → (old == null) ≡ false
    → (res == null) ≡ false
    → (res == old) ≡ false
    → alloc_is_static old s ≡ false
    → alloc_is_static res s ≡ false
    → Returns
        (λ r t. (r ≡ res) × Moved (ready pool used s) (entry o.trace res size) rest t)
        (realloc o old res size (ready pool used s))
unfolding realloc heaph_touch trace_realloc alloc_free alloc_trace_new forget_allocation
    alloc_is_static
realloc-ready o old res size s pool used a rest found count batch live new moved out clear =
    let positive : ltb 0 s.alloc_count ≡ true = ground arith in
    rw (out, live, new, moved, out, found, positive, clear)
      (returns (
        refl,
        record {
          allocs = refl;
          total = refl;
          still = record {
            started = refl;
            running = refl;
            unlocked = refl;
            outside = refl;
            counted = omega arith;
            batch = batch;
          };
          same = record { static_buf = refl; static_size = refl; report_mode = refl };
        },
      ))

realloc_failed_ready :
    (o : Outside) (old : Ptr) (size : ℕ) (s : Hh) (pool : List Allocation) (used : Option ℕ)
    → (a : Allocation) (rest : List Allocation) → unlink_allocation old s.allocs ≡ some (a, rest)
    → s.alloc_count ≡ length rest + 1
    → used_of used ≤ allocation_batch_size
    → (old == null) ≡ false
    → alloc_is_static old s ≡ false
    → Returns
        (λ r t. (r ≡ null) × Forgotten (ready pool used s) rest t)
        (realloc o old null size (ready pool used s))
unfolding realloc heaph_touch trace_realloc alloc_free alloc_trace_new forget_allocation
    alloc_is_static
realloc_failed_ready o old size s pool used a rest found count batch live out =
    let positive : ltb 0 s.alloc_count ≡ true = ground arith in
    rw (out, live, out, found, positive)
      (returns (
        refl,
        record {
          allocs = refl;
          total = refl;
          still = record {
            started = refl;
            running = refl;
            unlocked = refl;
            outside = refl;
            counted = omega arith;
            batch = batch;
          };
          same = record { static_buf = refl; static_size = refl; report_mode = refl };
        },
      ))

-- Once the detector has started and no call is under way, a `realloc` that moves a block with an
-- entry to another address, neither of them NULL or static: the first entry of the old block leaves
-- the list, and an entry for the new block, with the new size, stands at the head. The result is
-- the new block, and the detector stays ready.
pub realloc_lem :
    (o : Outside) (old res : Ptr) (size : ℕ) (s : Hh) (xs ys : List Allocation) (a : Allocation)
    → IsReady s
    → s.allocs ≡ xs ++ a ∷ ys
    → NoneAt old xs
    → a.mem ≡ old
    → old ≢ null
    → res ≢ null
    → res ≢ old
    → alloc_is_static old s ≡ false
    → alloc_is_static res s ≡ false
    → Returns
        (λ r t. (r ≡ res) × Moved s (entry o.trace res size) (xs ++ ys) t)
        (realloc o old res size s)
unfolding alloc_is_static
realloc_lem o old res size s xs ys a r e before at live new moved out clear =
    let count : s.alloc_count ≡ length (xs ++ ys) + 1 =
      r.counted ∙ ap length e ∙ length-insert xs ys a in
    let found = ap (unlink_allocation old) e ∙ unlink_allocation-found old xs ys a before at in
    subst
      (λ u.
        Returns (λ p t. (p ≡ res) × Moved u (entry o.trace res size) (xs ++ ys) t)
          (realloc o old res size u))
      (sym (ready-eq s r))
      (realloc-ready o old res size s s.alloc_pool s.batch_used a (xs ++ ys) found count r.batch
        (ground arith) (ground arith) (ground arith) out clear)

-- Once the detector has started and no call is under way, a `realloc` of a block with an entry, not
-- NULL or static, that fails: whatever the size asked for, NULL is returned and the block's first
-- entry leaves the list, as if the block had been freed. The detector stays ready.
pub realloc_failed :
    (o : Outside) (old : Ptr) (size : ℕ) (s : Hh) (xs ys : List Allocation) (a : Allocation)
    → IsReady s
    → s.allocs ≡ xs ++ a ∷ ys
    → NoneAt old xs
    → a.mem ≡ old
    → old ≢ null
    → alloc_is_static old s ≡ false
    → Returns (λ r t. (r ≡ null) × Forgotten s (xs ++ ys) t) (realloc o old null size s)
unfolding alloc_is_static
realloc_failed o old size s xs ys a r e before at live out =
    let count : s.alloc_count ≡ length (xs ++ ys) + 1 =
      r.counted ∙ ap length e ∙ length-insert xs ys a in
    let found = ap (unlink_allocation old) e ∙ unlink_allocation-found old xs ys a before at in
    subst (λ u. Returns (λ p t. (p ≡ null) × Forgotten u (xs ++ ys) t) (realloc o old null size u))
      (sym (ready-eq s r))
      (realloc_failed_ready o old size s s.alloc_pool s.batch_used a (xs ++ ys) found count r.batch
        (ground arith) out)
