-- ===== src/Sorter/SortLaws.antt =====
-- `get_sorted_numbers` sorts, on every array but the empty one.
use mathlib.Core.List.{Perm}
use mathlib.Core.List.Perm
use sysprog_labs_f.Base.{
  ℕ, zero, suc, ◌+◌, ◌*◌, ◌/◌, ◌≤◌, ◌<◌, ◌≡◌, refl, false, List, [], ◌∷◌, none, some, arith, length,
  take, drop, length-take, length-drop, take-append-drop, ◌==◌, Bool-cases, inl, inr,
}
use sysprog_labs_f.Base.Int.{ℤ, ltb_ℤ, ltb_ℤ-true, ltb_ℤ-false}
use sysprog_labs_f.Sorter.Merge.{merge_sorted_arrays}
use sysprog_labs_f.Sorter.MergeLaws.{IsSorted, merge_sorted_arrays_lem}
use sysprog_labs_f.Sorter.Sort.{Outcome, sort_two, get_sorted_numbers}

-- The numbers of `numbers` in ascending order; each part that is sorted yields once.
pub record Sorts (numbers : List ℤ) (o : Outcome) : Type 0 where
  pub ascending : IsSorted o.array
  pub same : Perm o.array numbers
  pub often : 0 < o.yields
  pub bound : o.yields < 2 * length numbers

sort_two_lem :
    (numbers : List ℤ)
    → length numbers ≡ 2
    → IsSorted (sort_two numbers) × Perm (sort_two numbers) numbers
unfolding sort_two
sort_two_lem [] e = absurd (omega arith)
sort_two_lem (a ∷ []) e = absurd (omega arith)
sort_two_lem (a ∷ b ∷ []) e = elim (Bool-cases (ltb_ℤ b a)) [
  | inl less ↦ rw less ((ltb_ℤ-true b a less, (tt, tt)), Perm.swap a b [])
  | inr more ↦ rw more ((ltb_ℤ-false b a more, (tt, tt)), Perm.rfl)
]
sort_two_lem (a ∷ b ∷ c ∷ rest) e = absurd (omega arith)

one-IsSorted : (numbers : List ℤ) → length numbers ≡ 1 → IsSorted numbers
one-IsSorted [] e = absurd (omega arith)
one-IsSorted (a ∷ []) e = (tt, tt)
one-IsSorted (a ∷ b ∷ rest) e = absurd (omega arith)

-- The recursive branch.
halves_step :
    (k : ℕ) (numbers : List ℤ) (l r : Outcome) (merged : List ℤ)
    → (length numbers == 1) ≡ false
    → (length numbers == 2) ≡ false
    → get_sorted_numbers k (take (length numbers / 2) numbers) ≡ some l
    → get_sorted_numbers k (drop (length numbers / 2) numbers) ≡ some r
    → merge_sorted_arrays l.array r.array ≡ some merged
    → get_sorted_numbers (suc k) numbers
      ≡ some (record { array = merged; yields = l.yields + r.yields + 1 })
unfolding get_sorted_numbers
halves_step k numbers l r merged one two el er em = rw (one, two, el, er, em) refl

-- On a non-empty array the sort ends within a depth of its length. The result is ascending and a
-- rearrangement of the array, and the sort yields at least once and fewer times than twice the
-- length.
pub get_sorted_numbers_lem :
    (k : ℕ) (numbers : List ℤ)
    → 0 < length numbers
    → length numbers ≤ k
    → (o : Outcome) × (get_sorted_numbers k numbers ≡ some o) × Sorts numbers o
unfolding get_sorted_numbers
get_sorted_numbers_lem zero numbers some_left h = absurd (omega arith)
get_sorted_numbers_lem (suc k) numbers some_left h = elim (Bool-cases (length numbers == 1)) [
  | inl one ↦ (
    record { array = numbers; yields = 1 },
    rw one refl,
    record {
      ascending = one-IsSorted numbers (ground arith);
      same = Perm.rfl;
      often = omega arith;
      bound = ground arith;
    },
  )
  | inr many ↦ elim (Bool-cases (length numbers == 2)) [
    | inl two ↦
        let (up, same) = sort_two_lem numbers (ground arith) in
        (
          record { array = sort_two numbers; yields = 1 },
          rw (many, two) refl,
          record { ascending = up; same = same; often = omega arith; bound = ground arith },
        )
    | inr more ↦
        let n = length numbers in
        let big : 3 ≤ n = ground arith in
        let left_len = length-take (n / 2) numbers in
        let right_len = length-drop (n / 2) numbers in
        let (l, el, sl) =
          get_sorted_numbers_lem k (take (n / 2) numbers) (omega arith) (omega arith) in
        let (r, er, sr) =
          get_sorted_numbers_lem k (drop (n / 2) numbers) (omega arith) (omega arith) in
        let (merged, em, same, up) =
          merge_sorted_arrays_lem l.array r.array sl.ascending sr.ascending in
        (
          record { array = merged; yields = l.yields + r.yields + 1 },
          halves_step k numbers l r merged many more el er em,
          record {
            ascending = up;
            same =
                let halves = Perm.trans same (Perm.append sl.same sr.same) in
                rw (take-append-drop (n / 2) numbers) at halves;
            often = omega arith;
            bound = omega (arith, sl.bound, sr.bound);
          },
        )
  ]
]

-- On an empty array the recursion never ends, whatever its depth.
pub get_sorted_numbers-nil : (k : ℕ) → get_sorted_numbers k [] ≡ none
unfolding get_sorted_numbers
get_sorted_numbers-nil zero = refl
get_sorted_numbers-nil (suc k) = rw (get_sorted_numbers-nil k) refl
