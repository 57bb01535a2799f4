-- ===== src/Sorter/InputLaws.antt =====
-- `read_numbers_from_file` stays within its array and keeps the numbers of the file.
use mathlib.Core.List.{append_assoc, append-nil}
use sysprog_labs_f.Base.{
  ℕ, zero, suc, ◌+◌, ◌-◌, ◌*◌, ◌≤◌, ◌<◌, ◌≡◌, refl, ap, ◌∙◌, true, List, [], ◌∷◌, ◌++◌, some, min,
  arith, length, take, drop, set, length-set, length-append, length-take, length-drop, ◌==◌, ltb,
  Bool-cases, inl, inr,
}
use sysprog_labs_f.Base.Slices.{take-append, take-take}
use sysprog_labs_f.Base.Int.{ℤ}
use sysprog_labs_f.Sorter.Input.{ArrayOfInts, grow, read_loop, read_numbers_from_file}

take-set :
    (xs : List ℤ) (i : ℕ) (x : ℤ) → i < length xs → take (suc i) (set xs i x) ≡ take i xs ++ x ∷ []
take-set [] i x h = absurd (omega arith)
take-set (y ∷ xs) zero x h = refl
take-set (y ∷ xs) (suc i) x h = ap (◌∷◌ y) (take-set xs i x (omega arith))

-- The array holds `done` at its start, and room for one more.
pub record Holds (out : ArrayOfInts) (done : List ℤ) : Type 0 where
  pub len : out.len ≡ length done + 1
  pub start : take (length done) out.array ≡ done
  pub within : out.len ≤ length out.array

module _ (raw : ℕ → List ℤ) (whole : (n : ℕ) → length (raw n) ≡ n) where
  take-grow :
      (n count : ℕ) (xs : List ℤ)
      → count ≤ length xs
      → take count (grow raw n count xs) ≡ take count xs
  unfolding grow
  take-grow n count xs h =
      let none_left : count - length (take count xs) ≡ 0 = omega (arith, length-take count xs) in
      let twice : min count count ≡ count = omega arith in
      take-append count (take count xs) (drop count (raw n))
      ∙ rw (none_left, take-take count count xs, twice) (append-nil (take count xs))

  length-grow :
      (n count : ℕ) (xs : List ℤ) → count ≤ length xs → count ≤ n → length (grow raw n count xs) ≡ n
  unfolding grow
  length-grow n count xs h k = omega (
    arith,
    length-append (take count xs) (drop count (raw n)),
    length-take count xs,
    length-drop count (raw n),
    whole n,
  )

  read_loop_lem :
      (items done : List ℤ) (n idx : ℕ) (xs : List ℤ)
      → idx ≡ length done
      → length xs ≡ n
      → idx < n
      → take idx xs ≡ done
      → (out : ArrayOfInts) × (read_loop raw items n idx xs ≡ some out) × Holds out (done ++ items)
  unfolding read_loop
  read_loop_lem [] done n idx xs at long below held =
      let all = append-nil done in
      (
        record { array = xs; len = idx + 1 },
        refl,
        rw all record { len = ap (λ k. k + 1) at; start = rw (← at) held; within = omega arith },
      )
  read_loop_lem (x ∷ items) done n idx xs at long below held =
      let succ : idx + 1 ≡ suc idx = omega arith in
      let stored : take (idx + 1) (set xs idx x) ≡ done ++ x ∷ [] =
        ap (λ k. take k (set xs idx x)) succ
        ∙ take-set xs idx x (omega arith)
        ∙ ap (λ l. l ++ x ∷ []) held in
      let room : ltb idx (length xs) ≡ true = ground arith in
      let next : idx + 1 ≡ length (done ++ x ∷ []) = omega (arith, length-append done (x ∷ [])) in
      let more = append_assoc done (x ∷ []) items in
      elim (Bool-cases (idx == n - 1)) [
        | inl full ↦
            let wide : idx + 1 ≤ length (set xs idx x) = omega (arith, length-set xs idx x) in
            let larger = grow raw (n * 2) (idx + 1) (set xs idx x) in
            let (out, e, h) =
              read_loop_lem items (done ++ x ∷ []) (n * 2) (idx + 1) larger next
                (length-grow (n * 2) (idx + 1) (set xs idx x) wide (omega arith)) (ground arith)
                (take-grow (n * 2) (idx + 1) (set xs idx x) wide ∙ stored) in
            (out, rw (room, full) e, rw more at h)
        | inr free ↦
            let (out, e, h) =
              read_loop_lem items (done ++ x ∷ []) n (idx + 1) (set xs idx x) next
                (length-set xs idx x ∙ long) (ground arith) stored in
            (out, rw (room, free) e, rw more at h)
      ]

  -- Reading a file of numbers ends, and every write is within the array, if `malloc` gives an array
  -- of the length asked for, whatever it holds. The array starts with the numbers of the file, in
  -- order; the length returned is one more than their number and still within the array.
  pub read_numbers_from_file_lem :
      (items : List ℤ)
      → (out : ArrayOfInts) × (read_numbers_from_file raw items ≡ some out) × Holds out items
  unfolding read_numbers_from_file
  read_numbers_from_file_lem items =
      read_loop_lem items [] 10000 0 (raw 10000) refl (whole 10000) (ground arith) refl
