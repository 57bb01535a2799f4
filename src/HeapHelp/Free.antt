-- ===== src/HeapHelp/Free.antt =====
-- What `free` of utils/heap_help/heap_help.c do to the list of live allocations.
use sysprog_labs_f.Base.{
  ℕ, ◌++◌, ◌+◌, ◌≤◌, ◌≡◌, ◌≢◌, refl, sym, ap, ◌∙◌, subst, true, false, List, [], ◌∷◌, Option, none,
  some, arith, length, ltb, ◌==◌,
}
use sysprog_labs_f.Memory.Store.{Ptr, null}
use sysprog_labs_f.Memory.Run.{fault, Returns, returns, Returns-weaken, Returns-and_then, ◌>>=◌}
use sysprog_labs_f.HeapHelp.State.{Hh, Allocation, allocation_batch_size, alloc_is_static}
use sysprog_labs_f.HeapHelp.Trace.{unlink_allocation, forget_allocation, alloc_free, used_of}
use sysprog_labs_f.HeapHelp.Static.{heaph_touch}
use sysprog_labs_f.HeapHelp.Api.{Outside, malloc, free}
use sysprog_labs_f.HeapHelp.Malloc.{IsReady, ready, ready-eq, Same, entry, malloc_lem}

-- No live allocation of the list is at `ptr`.
pub data NoneAt (ptr : Ptr) : List Allocation → Type 0 where
  nil : NoneAt ptr []
  cons :
      {a : Allocation} {rest : List Allocation}
      → a.mem ≢ ptr
      → NoneAt ptr rest
      → NoneAt ptr (a ∷ rest)

pub unlink_allocation-found :
    (ptr : Ptr) (xs ys : List Allocation) (a : Allocation)
    → NoneAt ptr xs
    → a.mem ≡ ptr
    → unlink_allocation ptr (xs ++ a ∷ ys) ≡ some (a, xs ++ ys)
unfolding unlink_allocation
unlink_allocation-found ptr [] ys a nil at = ground arith
unlink_allocation-found ptr (x ∷ xs) ys a (cons ne rest) at =
    let other : (x.mem == ptr) ≡ false = ground arith in
    rw (other, unlink_allocation-found ptr xs ys a rest at) refl

pub unlink_allocation-none :
    (ptr : Ptr) (xs : List Allocation) → NoneAt ptr xs → unlink_allocation ptr xs ≡ none
unfolding unlink_allocation
unlink_allocation-none ptr [] nil = refl
unlink_allocation-none ptr (x ∷ xs) (cons ne rest) =
    let other : (x.mem == ptr) ≡ false = ground arith in
    rw (other, unlink_allocation-none ptr xs rest) refl

-- One entry less.
pub record Forgotten (s : Hh) (rest : List Allocation) (t : Hh) : Type 0 where
  pub allocs : t.allocs ≡ rest
  pub total : t.alloc_count_total ≡ s.alloc_count_total
  pub still : IsReady t
  pub same : Same s t

free-ready :
    (o : Outside) (ptr : Ptr) (s : Hh) (pool : List Allocation) (used : Option ℕ)
    → (a : Allocation) (rest : List Allocation) → unlink_allocation ptr s.allocs ≡ some (a, rest)
    → s.alloc_count ≡ length rest + 1
    → used_of used ≤ allocation_batch_size
    → (ptr == null) ≡ false
    → alloc_is_static ptr s ≡ false
    → Returns (λ r t. Forgotten (ready pool used s) rest t) (free o ptr (ready pool used s))
unfolding free heaph_touch alloc_free forget_allocation alloc_is_static
free-ready o ptr s pool used a rest found count batch live out =
    let positive : ltb 0 s.alloc_count ≡ true = ground arith in
    rw (out, live, found, positive)
      (returns record {
        allocs = refl;
        total = refl;
        still = record {
          started = refl;
          running = refl;
          unlocked = refl;
          outside = refl;
          counted = omega arith;
          batch = batch;
        };
        same = record { static_buf = refl; static_size = refl; report_mode = refl };
      })

pub length-insert :
    (xs ys : List Allocation) (a : Allocation) → length (xs ++ a ∷ ys) ≡ length (xs ++ ys) + 1
length-insert [] ys a = omega arith
length-insert (x ∷ xs) ys a = let rest = length-insert xs ys a in omega arith

-- Once the detector has started and no call is under way, a `free` of a pointer that is not NULL or
-- static and has an entry takes the first such entry off the list, keeps the order of the others,
-- and lowers the count. The detector stays ready, and the total count, the report mode and the
-- static buffer stay.
pub free_lem :
    (o : Outside) (ptr : Ptr) (s : Hh) (xs ys : List Allocation) (a : Allocation)
    → IsReady s
    → s.allocs ≡ xs ++ a ∷ ys
    → NoneAt ptr xs
    → a.mem ≡ ptr
    → ptr ≢ null
    → alloc_is_static ptr s ≡ false
    → Returns (λ r t. Forgotten s (xs ++ ys) t) (free o ptr s)
unfolding alloc_is_static
free_lem o ptr s xs ys a r e before at ne out =
    let count : s.alloc_count ≡ length (xs ++ ys) + 1 =
      r.counted ∙ ap length e ∙ length-insert xs ys a in
    let found = ap (unlink_allocation ptr) e ∙ unlink_allocation-found ptr xs ys a before at in
    subst (λ u. Returns (λ p t. Forgotten u (xs ++ ys) t) (free o ptr u)) (sym (ready-eq s r))
      (free-ready o ptr s s.alloc_pool s.batch_used a (xs ++ ys) found count r.batch (ground arith)
        out)

free_untracked_ready :
    (o : Outside) (ptr : Ptr) (s : Hh)
    → unlink_allocation ptr s.allocs ≡ none
    → (ptr == null) ≡ false
    → alloc_is_static ptr s ≡ false
    → free o ptr (ready s.alloc_pool s.batch_used s) ≡ fault
unfolding free heaph_touch alloc_free forget_allocation alloc_is_static
free_untracked_ready o ptr s found live out = rw (out, live, found) refl

-- Once the detector has started and no call is under way, a `free` of a pointer that is not NULL or
-- static and has no entry aborts the process.
pub free_untracked :
    (o : Outside) (ptr : Ptr) (s : Hh)
    → IsReady s
    → NoneAt ptr s.allocs
    → ptr ≢ null
    → alloc_is_static ptr s ≡ false
    → free o ptr s ≡ fault
free_untracked o ptr s r nowhere ne out =
    ap (free o ptr) (ready-eq s r)
    ∙ free_untracked_ready o ptr s (unlink_allocation-none ptr s.allocs nowhere) (ground arith) out

pub out_of_static :
    (ptr : Ptr) (s t : Hh)
    → Same s t
    → alloc_is_static ptr s ≡ false
    → alloc_is_static ptr t ≡ false
unfolding alloc_is_static
out_of_static ptr s t same out = rw (same.static_buf, same.static_size) out

-- Once the detector has started and no call is under way, a `malloc` that the system serves,
-- outside the static buffer, and a `free` of its result leave the list of live allocations and its
-- count as they were, and the detector ready.
pub free-malloc :
    (o : Outside) (res : Ptr) (size : ℕ) (s : Hh)
    → IsReady s
    → res ≢ null
    → alloc_is_static res s ≡ false
    → Returns
        (λ r t. (t.allocs ≡ s.allocs) × (t.alloc_count ≡ s.alloc_count) × IsReady t)
        ((malloc o res size >>= λ ptr. free o ptr) s)
free-malloc o res size s r ne out =
    Returns-and_then (malloc_lem o res size s r ne out) λ p t (e, traced).
      subst
        (λ q.
          Returns (λ _ u. (u.allocs ≡ s.allocs) × (u.alloc_count ≡ s.alloc_count) × IsReady u)
            (free o q t))
        (sym e)
        (Returns-weaken
          (free_lem o res t [] s.allocs (entry o.trace res size) traced.still traced.allocs nil refl
            ne (out_of_static res s t traced.same out))
          λ _ u forgotten. (
            forgotten.allocs,
            forgotten.still.counted ∙ ap length forgotten.allocs ∙ sym r.counted,
            forgotten.still,
          ))
