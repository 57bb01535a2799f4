-- ===== src/Sorter/Files.antt =====
-- The arrays that `main` of homework01/solution.c handles: those read from the files, the array of all
-- numbers, and the file of results.
use sysprog_labs_f.Base.{ℕ, zero, suc, ◌+◌, List, [], ◌∷◌, ◌++◌, Option, some, take, get_elem?}
use sysprog_labs_f.Base.Int.{ℤ}
use sysprog_labs_f.Sorter.Sort.{◌>>=◌}
use sysprog_labs_f.Sorter.Input.{read_numbers_from_file}

-- The arrays that `read_numbers_from_file` gives, one for each file.
unfoldable pub read_files : (ℕ → List ℤ) → List (List ℤ) → Option (List (List ℤ))
read_files raw [] = some []
read_files raw (items ∷ files) = do
  read_data ← read_numbers_from_file raw items
  rest ← read_files raw files
  some (take read_data.len read_data.array ∷ rest)

-- The loop of `memcpy` in `main`: `n` destinations from the one at `i`. A destination that was not
-- written is `none`.
unfoldable pub all_numbers : (ℕ → Option (List ℤ)) → ℕ → ℕ → Option (List ℤ)
all_numbers dest i zero = some []
all_numbers dest i (suc n) = do
  numbers ← dest i
  rest ← all_numbers dest (i + 1) n
  some (numbers ++ rest)

-- The numbers that are printed, the next at `i`.
unfoldable pub print_loop : List ℤ → ℕ → ℕ → Option (List ℤ)
print_loop numbers i zero = some []
print_loop numbers i (suc n) = do
  x ← get_elem? numbers i
  rest ← print_loop numbers (i + 1) n
  some (x ∷ rest)

-- The numbers in the file of results.
unfoldable pub write_numbers_to_file : List ℤ → ℕ → Option (List ℤ)
write_numbers_to_file numbers len = print_loop numbers 0 len
