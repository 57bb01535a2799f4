-- ===== src/Sorter/Merge.antt =====
-- `merge_sorted_arrays` of homework01/solution.c. An index that only moves forward through an array
-- is the suffix that is left; the loop runs on fuel.
use sysprog_labs_f.Base.{
  ℕ, zero, suc, ◌+◌, true, false, List, [], ◌∷◌, ◌++◌, Option, none, some, length,
}
use sysprog_labs_f.Base.Int.{ℤ, leb_ℤ, ltb_ℤ}

-- The inner loops that copy what is left of one array.
unfoldable pub drain : List ℤ → List ℤ → List ℤ
drain [] result = result
drain (x ∷ xs) result = drain xs (result ++ x ∷ [])

-- `while (r_idx < b.len && right[r_idx] < left[l_idx])`: what is left of `right`, and the result.
unfoldable pub take_smaller : ℤ → List ℤ → List ℤ → List ℤ × List ℤ
take_smaller x [] result = ([], result)
take_smaller x (y ∷ right) result = elim (ltb_ℤ y x) [
  | true ↦ take_smaller x right (result ++ y ∷ [])
  | false ↦ (y ∷ right, result)
]

unfoldable pub merge_loop : ℕ → List ℤ → List ℤ → List ℤ → Option (List ℤ)
unfolding drain take_smaller
merge_loop zero left right result = none
merge_loop (suc k) [] [] result = some result
merge_loop (suc k) [] (y ∷ right) result = merge_loop k [] [] (drain (y ∷ right) result)
merge_loop (suc k) (x ∷ left) [] result = merge_loop k [] [] (drain (x ∷ left) result)
merge_loop (suc k) (x ∷ left) (y ∷ right) result = elim (leb_ℤ x y) [
  | true ↦ merge_loop k left (y ∷ right) (result ++ x ∷ [])
  | false ↦ let (rest, out) = take_smaller x (y ∷ right) result in merge_loop k (x ∷ left) rest out
]

-- One round for each element, and one more to leave the loop.
unfoldable pub merge_sorted_arrays : List ℤ → List ℤ → Option (List ℤ)
unfolding merge_loop
merge_sorted_arrays a b = merge_loop (length a + length b + 1) a b []
