-- ===== src/Sorter/Input.antt =====
-- `read_numbers_from_file` of homework01/solution.c. `numbers` is the array in memory: a `malloc`
-- of `n` integers gives `raw n`, whatever that holds. The file is given by the numbers that
-- `fscanf` reads before it meets the end.
use sysprog_labs_f.Base.{
  ℕ, ◌+◌, ◌-◌, ◌*◌, List, [], ◌∷◌, ◌++◌, Option, none, some, length, take, drop, set, ◌==◌, ltb,
  if◌then◌else◌,
}
use sysprog_labs_f.Base.Int.{ℤ}

-- `struct array_of_ints`.
pub record ArrayOfInts : Type 0 where
  pub array : List ℤ
  pub len : ℕ

-- The array twice as long, with the first `count` elements kept.
unfoldable pub grow : (ℕ → List ℤ) → ℕ → ℕ → List ℤ → List ℤ
grow raw max_length count numbers = take count numbers ++ drop count (raw max_length)

-- A write behind the end of the array gives `none`.
unfoldable pub read_loop : (ℕ → List ℤ) → List ℤ → ℕ → ℕ → List ℤ → Option ArrayOfInts
unfolding grow
read_loop raw [] max_length idx numbers = some (record { array = numbers; len = idx + 1 })
read_loop raw (x ∷ rest) max_length idx numbers =
    let stored = set numbers idx x in
    let larger =
      read_loop raw rest (max_length * 2) (idx + 1) (grow raw (max_length * 2) (idx + 1) stored) in
    let same = read_loop raw rest max_length (idx + 1) stored in
    if ltb idx (length numbers) then (if idx == max_length - 1 then larger else same) else none

unfoldable pub read_numbers_from_file : (ℕ → List ℤ) → List ℤ → Option ArrayOfInts
unfolding read_loop
read_numbers_from_file raw items = read_loop raw items 10000 0 (raw 10000)
