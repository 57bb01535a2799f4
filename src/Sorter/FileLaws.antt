-- ===== src/Sorter/FileLaws.antt =====
-- The arrays of `main` of homework01/solution.c hold the numbers of the files.
use mathlib.Core.List.{Perm, append_assoc, perm_middle}
use mathlib.Core.List.Perm
use sysprog_labs_f.Base.{
  ℕ, zero, suc, ◌+◌, ◌<◌, ◌≡◌, refl, sym, ap, ◌∙◌, subst, List, [], ◌∷◌, ◌++◌, Option, some, length,
  take, get_elem?, length-append, arith,
}
use sysprog_labs_f.Base.Int.{ℤ}
use sysprog_labs_f.Sorter.Input.{ArrayOfInts}
use sysprog_labs_f.Sorter.InputLaws.{Holds, read_numbers_from_file_lem}
use sysprog_labs_f.Sorter.ClaimEnd.{numbers_at, IsRead}
use sysprog_labs_f.Sorter.Files.{read_files, all_numbers, print_loop, write_numbers_to_file}

-- The numbers of all files.
abbrev pub joined : List (List ℤ) → List ℤ
joined [] = []
joined (numbers ∷ rest) = numbers ++ joined rest

take_one-more :
    (xs : List ℤ) (n : ℕ) → n < length xs → (x : ℤ) × (take (suc n) xs ≡ take n xs ++ x ∷ [])
take_one-more [] n less = absurd (omega arith)
take_one-more (x ∷ xs) zero less = (x, refl)
take_one-more (x ∷ xs) (suc n) less =
    let (y, e) = take_one-more xs n (omega arith) in (y, ap (λ l. x ∷ l) e)

-- An array with the numbers of the file and one more.
read_array :
    (out : ArrayOfInts) (items : List ℤ)
    → Holds out items
    → (x : ℤ) × (take out.len out.array ≡ items ++ x ∷ [])
read_array out items h =
    let (x, e) = take_one-more out.array (length items) (omega (arith, h.len, h.within)) in
    let succ : out.len ≡ suc (length items) = omega (arith, h.len) in
    (x, ap (λ n. take n out.array) succ ∙ e ∙ ap (λ l. l ++ x ∷ []) h.start)

-- What was read: the numbers of the files, and `extra`.
pub record AreRead (files arrays : List (List ℤ)) : Type 0 where
  pub extra : List ℤ
  pub one_each : length extra ≡ length files
  pub count : length arrays ≡ length files
  pub same : Perm (joined arrays) (joined files ++ extra)
  pub full : IsRead arrays
  pub total : length (joined arrays) ≡ length (joined files) + length files

-- One file more.
AreRead-cons :
    (items : List ℤ) (files : List (List ℤ)) (x : ℤ) (arrays : List (List ℤ))
    → AreRead files arrays
    → AreRead (items ∷ files) ((items ++ x ∷ []) ∷ arrays)
AreRead-cons items files x arrays r = record {
  extra = x ∷ r.extra;
  one_each = ap suc r.one_each;
  count = ap suc r.count;
  same =
      subst (λ l. Perm l ((items ++ joined files) ++ x ∷ r.extra))
        (sym (append_assoc items (x ∷ []) (joined arrays)))
        (subst (λ l. Perm (items ++ x ∷ joined arrays) l)
          (sym (append_assoc items (joined files) (x ∷ r.extra)))
          (Perm.append_left items
            (Perm.trans (Perm.cons x r.same) (Perm.symm (perm_middle (joined files) r.extra)))));
  full = (omega (arith, length-append items (x ∷ [])), r.full);
  total = omega (
    arith,
    r.total,
    length-append items (x ∷ []),
    length-append (items ++ x ∷ []) (joined arrays),
    length-append items (joined files),
  );
}

pub read_files_lem :
    (raw : ℕ → List ℤ)
    → ((n : ℕ) → length (raw n) ≡ n)
    → (files : List (List ℤ))
    → (arrays : List (List ℤ)) × (read_files raw files ≡ some arrays) × AreRead files arrays
unfolding read_files
read_files_lem raw whole [] = (
  [],
  refl,
  record { extra = []; one_each = refl; count = refl; same = Perm.nil; full = tt; total = refl },
)
read_files_lem raw whole (items ∷ files) =
    let (out, e, h) = read_numbers_from_file_lem raw whole items in
    let (arrays, es, r) = read_files_lem raw whole files in
    let (x, read) = read_array out items h in
    ((items ++ x ∷ []) ∷ arrays, rw (e, es, read) refl, AreRead-cons items files x arrays r)

-- The destinations from `i` on hold rearrangements of the arrays.
pub all_numbers_lem :
    (dest : ℕ → Option (List ℤ)) (arrays : List (List ℤ)) (i : ℕ)
    → ((j : ℕ)
        → j < length arrays
        → (numbers : List ℤ) × (dest (i + j) ≡ some numbers) × Perm numbers (numbers_at arrays j))
    → (all : List ℤ) × (all_numbers dest i (length arrays) ≡ some all) × Perm all (joined arrays)
unfolding all_numbers
all_numbers_lem dest [] i each = ([], refl, Perm.nil)
all_numbers_lem dest (array ∷ arrays) i each =
    let (numbers, e, same) = each 0 (omega arith) in
    let (all, es, rest) = all_numbers_lem dest arrays (i + 1) λ j less.
      let at : i + 1 + j ≡ i + suc j = omega arith in
      subst (λ k. (numbers : List ℤ) × (dest k ≡ some numbers) × Perm numbers (numbers_at arrays j))
        (sym at) (each (suc j) (omega arith)) in
    let here : i ≡ i + 0 = omega arith in
    let first : dest i ≡ some numbers = ap dest here ∙ e in
    (numbers ++ all, rw (first, es) refl, Perm.append same rest)

get_elem?-append :
    (done : List ℤ) (x : ℤ) (rest : List ℤ) → get_elem? (done ++ x ∷ rest) (length done) ≡ some x
get_elem?-append [] x rest = refl
get_elem?-append (y ∷ done) x rest = get_elem?-append done x rest

print_loop_lem :
    (done numbers : List ℤ)
    → print_loop (done ++ numbers) (length done) (length numbers) ≡ some numbers
unfolding print_loop
print_loop_lem done [] = refl
print_loop_lem done (x ∷ numbers) =
    let next : length done + 1 ≡ length (done ++ x ∷ []) =
      omega (arith, length-append done (x ∷ [])) in
    let rest =
      subst (λ l. print_loop l (length (done ++ x ∷ [])) (length numbers) ≡ some numbers)
        (append_assoc done (x ∷ []) numbers) (print_loop_lem (done ++ x ∷ []) numbers) in
    rw (get_elem?-append done x numbers, next, rest) refl

-- All the numbers are printed.
pub write_numbers_to_file_lem :
    (numbers : List ℤ) → write_numbers_to_file numbers (length numbers) ≡ some numbers
unfolding write_numbers_to_file
write_numbers_to_file_lem numbers = print_loop_lem [] numbers
