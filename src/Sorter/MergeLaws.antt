-- ===== src/Sorter/MergeLaws.antt =====
-- `merge_sorted_arrays` ends, returns a rearrangement of its inputs, and keeps them in order.
use mathlib.Core.List.{append_assoc, append-nil, Perm, perm_middle}
use mathlib.Core.List.Perm
use sysprog_labs_f.Base.{
  ℕ, zero, suc, ◌+◌, ◌≤◌, ◌<◌, ◌≡◌, refl, sym, ap, ◌∙◌, true, false, List, [], ◌∷◌, ◌++◌, some,
  arith, length, Bool-cases, inl, inr,
}
use sysprog_labs_f.Base.Int.{ℤ, leb_ℤ, ltb_ℤ, ◌≤ℤ◌, leb_ℤ-true, leb_ℤ-false}
use sysprog_labs_f.Sorter.Merge.{drain, take_smaller, merge_loop, merge_sorted_arrays}

-- `x` is at most the first element, if there is one.
abbrev pub Leads : ℤ → List ℤ → Type 0
Leads x [] = Unit {0}
Leads x (y ∷ ys) = x ≤ℤ y

abbrev pub IsSorted : List ℤ → Type 0
IsSorted [] = Unit {0}
IsSorted (x ∷ xs) = Leads x xs × IsSorted xs

-- The plain recursion that the loops compute.
interleave : List ℤ → List ℤ → List ℤ
interleave [] right = right
interleave (x ∷ left) [] = x ∷ left
interleave (x ∷ left) (y ∷ right) = elim (leb_ℤ x y) [
  | true ↦ x ∷ interleave left (y ∷ right)
  | false ↦ y ∷ interleave (x ∷ left) right
]

drain_lem : (xs result : List ℤ) → drain xs result ≡ result ++ xs
unfolding drain
drain_lem [] result = sym (append-nil result)
drain_lem (x ∷ xs) result = drain_lem xs (result ++ x ∷ []) ∙ append_assoc result (x ∷ []) xs

take_smaller_lem :
    (x : ℤ) (left right result : List ℤ)
    → (take_smaller x right result).1 ++ interleave (x ∷ left) (take_smaller x right result).0
      ≡ result ++ interleave (x ∷ left) right
unfolding take_smaller interleave
take_smaller_lem x left [] result = refl
take_smaller_lem x left (y ∷ right) result = elim (Bool-cases (ltb_ℤ y x)) [
  | inl less ↦
      let after : leb_ℤ x y ≡ false = ground arith in
      rw (less, after, take_smaller, interleave)
        (take_smaller_lem x left right (result ++ y ∷ []) ∙ append_assoc result (y ∷ []) _)
  | inr stop ↦ rw (stop, take_smaller) refl
]

take_smaller-le :
    (x : ℤ) (right result : List ℤ) → length (take_smaller x right result).0 ≤ length right
unfolding take_smaller
take_smaller-le x [] result = omega arith
take_smaller-le x (y ∷ right) result = elim (Bool-cases (ltb_ℤ y x)) [
  | inl less ↦ rw (less, take_smaller) (omega (arith, take_smaller-le x right (result ++ y ∷ [])))
  | inr stop ↦ rw (stop, take_smaller) (omega arith)
]

-- When the first of `right` is less, the inner loop moves on.
take_smaller-lt :
    (x y : ℤ) (right result : List ℤ)
    → leb_ℤ x y ≡ false
    → length (take_smaller x (y ∷ right) result).0 < length (y ∷ right)
unfolding take_smaller
take_smaller-lt x y right result greater =
    let less : ltb_ℤ y x ≡ true = ground arith in
    rw (less, take_smaller) (omega (arith, take_smaller-le x right (result ++ y ∷ [])))

-- A round whose inner loop takes from `right`.
round_right :
    (k : ℕ) (x y : ℤ) (left right result : List ℤ)
    → leb_ℤ x y ≡ false
    → (let out = take_smaller x (y ∷ right) result in
        merge_loop k (x ∷ left) out.0 out.1 ≡ some (out.1 ++ interleave (x ∷ left) out.0))
    → merge_loop (suc k) (x ∷ left) (y ∷ right) result
      ≡ some (result ++ interleave (x ∷ left) (y ∷ right))
unfolding merge_loop
round_right k x y left right result gt rest =
    rw (gt, merge_loop) (rest ∙ ap some (take_smaller_lem x left (y ∷ right) result))

merge_loop_lem :
    (k : ℕ) (left right result : List ℤ)
    → length left + length right < k
    → merge_loop k left right result ≡ some (result ++ interleave left right)
unfolding merge_loop interleave
merge_loop_lem zero left right result h = absurd (omega arith)
merge_loop_lem (suc k) [] [] result h = ap some (sym (append-nil result))
merge_loop_lem (suc k) [] (y ∷ right) result h =
    merge_loop_lem k [] [] (drain (y ∷ right) result) (omega arith)
    ∙ ap some (append-nil _ ∙ drain_lem (y ∷ right) result)
merge_loop_lem (suc k) (x ∷ left) [] result h =
    merge_loop_lem k [] [] (drain (x ∷ left) result) (omega arith)
    ∙ ap some (append-nil _ ∙ drain_lem (x ∷ left) result)
merge_loop_lem (suc k) (x ∷ left) (y ∷ right) result h = elim (Bool-cases (leb_ℤ x y)) [
  | inl le ↦
      rw (le, merge_loop, interleave)
        (merge_loop_lem k left (y ∷ right) (result ++ x ∷ []) (omega arith)
          ∙ ap some (append_assoc result (x ∷ []) _))
  | inr gt ↦
      round_right k x y left right result gt
        (merge_loop_lem k (x ∷ left) _ _ (omega (arith, take_smaller-lt x y right result gt)))
]

-- The merge always ends within its fuel.
merge_sorted_arrays-interleave : (a b : List ℤ) → merge_sorted_arrays a b ≡ some (interleave a b)
unfolding merge_sorted_arrays
merge_sorted_arrays-interleave a b = merge_loop_lem _ a b [] (omega arith)

interleave-perm : (left right : List ℤ) → Perm (left ++ right) (interleave left right)
unfolding interleave
interleave-perm [] right = Perm.rfl
interleave-perm (x ∷ left) [] = let whole = append-nil left in rw whole Perm.rfl
interleave-perm (x ∷ left) (y ∷ right) = elim (Bool-cases (leb_ℤ x y)) [
  | inl le ↦ rw (le, interleave) (Perm.cons x (interleave-perm left (y ∷ right)))
  | inr gt ↦
      let moved = perm_middle (x ∷ left) right in
      rw (gt, interleave) (Perm.trans moved (Perm.cons y (interleave-perm (x ∷ left) right)))
]

interleave-Leads : (z : ℤ) (l r : List ℤ) → Leads z l → Leads z r → Leads z (interleave l r)
unfolding interleave
interleave-Leads z [] r a b = b
interleave-Leads z (x ∷ l) [] a b = a
interleave-Leads z (x ∷ l) (y ∷ r) a b = elim (Bool-cases (leb_ℤ x y)) [
  | inl le ↦ rw (le, interleave) a
  | inr gt ↦ rw (gt, interleave) b
]

interleave-IsSorted : (l r : List ℤ) → IsSorted l → IsSorted r → IsSorted (interleave l r)
unfolding interleave
interleave-IsSorted [] r a b = b
interleave-IsSorted (x ∷ l) [] a b = a
interleave-IsSorted (x ∷ l) (y ∷ r) a b = elim (Bool-cases (leb_ℤ x y)) [
  | inl le ↦
      rw (le, interleave)
        (interleave-Leads x l (y ∷ r) a.0 (leb_ℤ-true x y le), interleave-IsSorted l (y ∷ r) a.1 b)
  | inr gt ↦
      rw (gt, interleave)
        (interleave-Leads y (x ∷ l) r (leb_ℤ-false x y gt) b.0, interleave-IsSorted (x ∷ l) r a b.1)
]

-- Merging two ascending arrays ends, and gives an ascending rearrangement of the elements of both.
pub merge_sorted_arrays_lem :
    (a b : List ℤ)
    → IsSorted a
    → IsSorted b
    → (out : List ℤ) × (merge_sorted_arrays a b ≡ some out) × Perm out (a ++ b) × IsSorted out
merge_sorted_arrays_lem a b up_a up_b = (
  interleave a b,
  merge_sorted_arrays-interleave a b,
  Perm.symm (interleave-perm a b),
  interleave-IsSorted a b up_a up_b,
)
