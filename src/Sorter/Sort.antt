-- ===== src/Sorter/Sort.antt =====
-- `get_sorted_numbers` of homework01/solution.c: merge sort that yields to the other coroutines
-- after each part. The depth of the recursion is bounded by fuel.
use sysprog_labs_f.Base.{
  ℕ, zero, suc, ◌+◌, ◌/◌, List, [], ◌∷◌, Option, none, some, length, take, drop, ◌==◌,
  if◌then◌else◌,
}
use sysprog_labs_f.Base.Int.{ℤ, ltb_ℤ}
use sysprog_labs_f.Sorter.Merge.{merge_sorted_arrays}

-- The array that is returned, and how often `coro_yield` was called on the way.
pub record Outcome : Type 0 where
  pub array : List ℤ
  pub yields : ℕ

infixl 5 ◌>>=◌
abbrev pub ◌>>=◌ : {A B : Type 0} → Option A → (A → Option B) → Option B
none >>= f = none
some a >>= f = f a

-- The branch `len == 2`.
unfoldable pub sort_two : List ℤ → List ℤ
sort_two (a ∷ b ∷ rest) = if ltb_ℤ b a then b ∷ a ∷ [] else a ∷ b ∷ []
sort_two rest = rest

unfoldable pub get_sorted_numbers : ℕ → List ℤ → Option Outcome
unfolding sort_two
get_sorted_numbers zero numbers = none
get_sorted_numbers (suc k) numbers =
    let len = length numbers in
    let left_len = len / 2 in
    let halves = do
      left ← get_sorted_numbers k (take left_len numbers)
      right ← get_sorted_numbers k (drop left_len numbers)
      merged ← merge_sorted_arrays left.array right.array
      some (record { array = merged; yields = left.yields + right.yields + 1 })
    in if len == 1
      then some (record { array = numbers; yields = 1 })
      else if len == 2
      then some (record { array = sort_two numbers; yields = 1 })
      else halves
