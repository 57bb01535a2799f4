-- ===== src/Sorter/ClaimEnd.antt =====
-- What the coroutines of homework01/solution.c have done when all have ended.
use mathlib.Core.List.{Perm}
use sysprog_labs_f.Base.{
  ℕ, zero, suc, ◌<◌, ◌≡◌, sym, ap, ◌∙◌, subst, List, [], ◌∷◌, some, length, Option-cases, some-eq,
  inl, inr, arith,
}
use sysprog_labs_f.Base.Int.{ℤ}
use sysprog_labs_f.Memory.Store.{Ptr}
use sysprog_labs_f.Sorter.MergeLaws.{IsSorted}
use sysprog_labs_f.Sorter.Sort.{Outcome}
use sysprog_labs_f.Sorter.SortLaws.{Sorts, get_sorted_numbers_lem}
use sysprog_labs_f.Sorter.Claims.{over, Crew, outcome_at, array_of, sort_files, Reach}
use sysprog_labs_f.Sorter.ClaimLaws.{claim_of, is_over, IsStart, IsStart-IsShared, Reach-IsShared}

abbrev pub numbers_at : List (List ℤ) → ℕ → List ℤ
numbers_at [] i = []
numbers_at (numbers ∷ rest) zero = numbers
numbers_at (numbers ∷ rest) (suc i) = numbers_at rest i

abbrev pub IsRead : List (List ℤ) → Type 0
IsRead [] = Unit {0}
IsRead (numbers ∷ rest) = (0 < length numbers) × IsRead rest

-- Each outcome is that of its file.
pub sort_files_lem :
    (files : List (List ℤ)) (outcomes : List Outcome)
    → IsRead files
    → sort_files files ≡ some outcomes
    → (length outcomes ≡ length files)
      × ((i : ℕ) → i < length files → Sorts (numbers_at files i) (outcome_at outcomes i))
unfolding sort_files
sort_files_lem [] outcomes full e =
    (ap length (some-eq outcomes [] (sym e)), λ i less. absurd (omega arith))
sort_files_lem (numbers ∷ rest) outcomes full e =
    let (o, eq, sorts) = get_sorted_numbers_lem (length numbers) numbers full.0 (omega arith) in
    elim (Option-cases (sort_files rest)) [
      | inl failed ↦ absurd (ground (arith, rw (eq, failed) at e))
      | inr (os, more) ↦
          let all : outcomes ≡ o ∷ os = some-eq outcomes (o ∷ os) (sym (rw (eq, more) at e)) in
          let others = sort_files_lem rest os full.1 more in
          (
            ap length all ∙ ap suc others.0,
            λ i less.
                subst (λ l. Sorts (numbers_at (numbers ∷ rest) i) (outcome_at l i)) (sym all)
                  (pick i o os numbers rest sorts others.1 less),
          )
    ]
  where
    pick :
        (i : ℕ) (o : Outcome) (os : List Outcome) (numbers : List ℤ) (rest : List (List ℤ))
        → Sorts numbers o
        → ((j : ℕ) → j < length rest → Sorts (numbers_at rest j) (outcome_at os j))
        → i < length (numbers ∷ rest)
        → Sorts (numbers_at (numbers ∷ rest) i) (outcome_at (o ∷ os) i)
    pick zero o os numbers rest sorts others less = sorts
    pick (suc i) o os numbers rest sorts others less = others i (omega arith)

-- Coroutines that share a list of arrays, none empty, which sort to `outcomes`, run in any order
-- from a state in which none has started, each from one yield to the next: in every state that they
-- reach in which one of them has ended and none is in the sort of a file, the destination of each
-- file holds an array that is ascending and a rearrangement of the array read.
pub coroutine_func_f_lem :
    (files : List (List ℤ)) (outcomes : List Outcome) (s t : Crew) (c : Ptr)
    → IsRead files
    → sort_files files ≡ some outcomes
    → IsStart outcomes s
    → Reach outcomes s t
    → t.phase c ≡ over
    → ((d : Ptr) → claim_of (t.phase d) ≡ 0)
    → (i : ℕ) → i < length files
    → (numbers : List ℤ) × (t.dest i ≡ some numbers)
      × IsSorted numbers
      × Perm numbers (numbers_at files i)
coroutine_func_f_lem files outcomes s t c full sorted begin r ended idle i less =
    let shared = Reach-IsShared outcomes s t (IsStart-IsShared outcomes s begin) r in
    let done = shared.ended c (ap is_over ended) in
    let (total, each) = sort_files_lem files outcomes full sorted in
    let sorts = each i less in
    elim (shared.kept i (omega arith)) [
      | inl stored ↦ (array_of outcomes i, stored, sorts.ascending, sorts.same)
      | inr (d, e) ↦ let none_left = sym (idle d) ∙ e in absurd (omega arith)
    ]
