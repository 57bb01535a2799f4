-- ===== src/Sorter/Finish.antt =====
-- What `main` of homework01/solution.c does when its coroutines are over.
use mathlib.Core.List.{Perm}
use mathlib.Core.List.Perm
use sysprog_labs_f.Base.{
  ℕ, zero, suc, ◌+◌, ◌*◌, ◌≤◌, ◌<◌, ◌≡◌, refl, sym, ap, ◌∙◌, subst, List, [], ◌∷◌, ◌++◌, Option,
  some, length, length-append, Bool-cases, inl, inr, arith,
}
use sysprog_labs_f.Base.Int.{ℤ}
use sysprog_labs_f.Memory.Store.{Ptr}
use sysprog_labs_f.Memory.Run.{demand, and_then, Returns, returns, Returns-and_then, Returns-weaken}
use sysprog_labs_f.Coro.State.{Sched, Env}
use sysprog_labs_f.Coro.Jobs.{Jobs, IsSched}
use sysprog_labs_f.Coro.Program.{Each}
use sysprog_labs_f.Sorter.MergeLaws.{IsSorted}
use sysprog_labs_f.Sorter.Sort.{Outcome}
use sysprog_labs_f.Sorter.SortLaws.{get_sorted_numbers_lem}
use sysprog_labs_f.Sorter.Claims.{over, Crew, outcome_at, sort_files}
use sysprog_labs_f.Sorter.ClaimLaws.{claim_of, IsStart}
use sysprog_labs_f.Sorter.ClaimEnd.{numbers_at, IsRead, coroutine_func_f_lem}
use sysprog_labs_f.Sorter.Measure.{elem, remaining, pending}
use sysprog_labs_f.Sorter.Crews.{Runs}
use sysprog_labs_f.Sorter.Files.{all_numbers}
use sysprog_labs_f.Sorter.FileLaws.{joined, AreRead, all_numbers_lem, write_numbers_to_file_lem}
use sysprog_labs_f.Sorter.Main.{new_crew, sort_all}
use sysprog_labs_f.Sorter.Starting.{Each-at, yield_alone_lem}

-- The sorts of the arrays end, each yields, and all together yield less often than the bound.
pub record AreSorted (arrays : List (List ℤ)) : Type 0 where
  pub outcomes : List Outcome
  pub eq : sort_files arrays ≡ some outcomes
  pub often : (i : ℕ) → i < length outcomes → 0 < (outcome_at outcomes i).yields
  pub bound : remaining outcomes 0 ≤ 2 * length (joined arrays)

pub sort_files-AreSorted : (arrays : List (List ℤ)) → IsRead arrays → AreSorted arrays
unfolding sort_files
sort_files-AreSorted [] full = record {
  outcomes = [];
  eq = refl;
  often = λ i less. absurd (omega arith);
  bound = omega arith;
}
sort_files-AreSorted (array ∷ arrays) full =
    let (o, eq, sorts) = get_sorted_numbers_lem (length array) array full.0 (omega arith) in
    let rest = sort_files-AreSorted arrays full.1 in
    record {
      outcomes = o ∷ rest.outcomes;
      eq = rw (eq, rest.eq) refl;
      often = λ i less. at_index i o rest.outcomes sorts.often rest.often less;
      bound = omega (arith, sorts.bound, rest.bound, length-append array (joined arrays));
    }
  where
    at_index :
        (i : ℕ) (o : Outcome) (os : List Outcome)
        → 0 < o.yields
        → ((j : ℕ) → j < length os → 0 < (outcome_at os j).yields)
        → i < length (o ∷ os)
        → 0 < (outcome_at (o ∷ os) i).yields
    at_index zero o os one others less = one
    at_index (suc i) o os one others less = others i (omega arith)

-- The last sort, of an array that is not empty.
sort_all_lem :
    {W : Type 0} (env : Env W) (fuel : ℕ) (s : Sched W) (xs : Jobs) (numbers : List ℤ)
    → IsSched env s xs
    → 0 < fuel
    → 0 < length numbers
    → Returns (λ r u. IsSorted r × Perm r numbers) (sort_all env fuel numbers s)
unfolding sort_all
sort_all_lem env fuel s xs numbers sched enough some_left =
    let (o, eq, sorts) = get_sorted_numbers_lem (length numbers) numbers some_left (omega arith) in
    rw eq (
      Returns-and_then (yield_alone_lem env fuel o.yields s xs sched enough)
        λ a u t. rw (write_numbers_to_file_lem o.array) (returns (sorts.ascending, sorts.same)))

Perm-some_left : (xs ys : List ℤ) → Perm xs ys → 0 < length ys → 0 < length xs
Perm-some_left [] ys same some_left =
    absurd (let none_left = ap length (Perm.nil-eq same) in omega arith)
Perm-some_left (x ∷ xs) ys same some_left = omega arith

pub pending-new_crew : (ps : List Ptr) → pending ps new_crew.phase ≡ 0
pending-new_crew [] = refl
pending-new_crew (p ∷ ps) = omega (arith, pending-new_crew ps)

-- All the coroutines are over, and there is one: each array has been sorted.
one_sorted :
    (arrays : List (List ℤ)) (outcomes : List Outcome) (p : Ptr) (ps : List Ptr) (t : Crew)
    → IsRead arrays
    → sort_files arrays ≡ some outcomes
    → Runs outcomes (p ∷ ps) new_crew t
    → Each (λ q. t.phase q ≡ over) (p ∷ ps)
    → (i : ℕ) → i < length arrays
    → (numbers : List ℤ) × (t.dest i ≡ some numbers) × Perm numbers (numbers_at arrays i)
one_sorted arrays outcomes p ps t full eq runs ended i less =
    let idle : (q : Ptr) → claim_of (t.phase q) ≡ 0 = λ q. elim (Bool-cases (elem q (p ∷ ps))) [
      | inl mine ↦ ap claim_of (Each-at (λ a. t.phase a ≡ over) (p ∷ ps) ended q mine)
      | inr other ↦ ap claim_of (runs.others q other)
    ] in
    let begin : IsStart outcomes new_crew = record { next_file_idx = refl; phase = λ c. refl } in
    let (numbers, at, up, same) =
      coroutine_func_f_lem arrays outcomes new_crew t p full eq begin runs.reach ended.0 idle i
        less in
    (numbers, at, same)

pub destinations :
    (arrays : List (List ℤ)) (outcomes : List Outcome) (ps : List Ptr) (t : Crew)
    → 0 < length ps
    → IsRead arrays
    → sort_files arrays ≡ some outcomes
    → Runs outcomes ps new_crew t
    → Each (λ q. t.phase q ≡ over) ps
    → (i : ℕ) → i < length arrays
    → (numbers : List ℤ) × (t.dest i ≡ some numbers) × Perm numbers (numbers_at arrays i)
destinations arrays outcomes [] t some_coro full eq runs ended i less = absurd (omega arith)
destinations arrays outcomes (p ∷ ps) t some_coro full eq runs ended i less =
    one_sorted arrays outcomes p ps t full eq runs ended i less

-- What is in the file of results.
pub record IsResult (files : List (List ℤ)) (result : List ℤ) : Type 0 where
  pub ascending : IsSorted result
  pub extra : List ℤ
  pub one_each : length extra ≡ length files
  pub same : Perm result (joined files ++ extra)

-- The arrays are put together and sorted.
pub finish :
    {W : Type 0} (env : Env W) (fuel : ℕ) (s : Sched W) (xs : Jobs) (dest : ℕ → Option (List ℤ))
    (files arrays : List (List ℤ))
    → IsSched env s xs
    → 0 < fuel
    → 0 < length files
    → AreRead files arrays
    → ((i : ℕ)
        → i < length arrays
        → (numbers : List ℤ) × (dest i ≡ some numbers) × Perm numbers (numbers_at arrays i))
    → Returns
        (λ r u. IsResult files r)
        (and_then
          (demand (all_numbers dest 0 (length files)) s)
          (λ numbers. sort_all env fuel numbers))
finish env fuel s xs dest files arrays sched enough some_file read each =
    let (all, eq, same) = all_numbers_lem dest arrays 0 λ j less.
      let at : j ≡ 0 + j = omega arith in
      subst (λ k. (numbers : List ℤ) × (dest k ≡ some numbers) × Perm numbers (numbers_at arrays j))
        at (each j less) in
    let some_left =
      Perm-some_left all (joined files ++ read.extra) (Perm.trans same read.same)
        (omega (arith, length-append (joined files) read.extra, read.one_each)) in
    let eq' : all_numbers dest 0 (length files) ≡ some all =
      ap (all_numbers dest 0) (sym read.count) ∙ eq in
    rw eq' (
      Returns-weaken (sort_all_lem env fuel s xs all sched enough some_left) λ r u t. record {
        ascending = t.0;
        extra = read.extra;
        one_each = read.one_each;
        same = Perm.trans t.1 (Perm.trans same read.same);
      })
