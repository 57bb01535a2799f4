-- ===== src/UserFs/Listed.antt =====
-- The file list of homework03/userfs.c in memory, and the search for a name.
use sysprog_labs_f.Base.{
  ℕ, zero, suc, ◌<◌, ◌≡◌, refl, ap, ◌∙◌, Bool, true, false, List, [], ◌∷◌, ◌++◌, map, length, ◌==◌,
  arith, ◌⊎◌, inl, inr, sym, subst, Bool-cases,
}
use sysprog_labs_f.Memory.Store.{Ptr, null}
use sysprog_labs_f.Memory.Run.{ok}
use sysprog_labs_f.Memory.Chain.{Cell, first, Seg}
use sysprog_labs_f.UserFs.State.{Fs, File}
use sysprog_labs_f.UserFs.Names.{same_name, search_from, search_file}
use sysprog_labs_f.UserFs.Layout.{load_file-ok}

-- A file without its links.
pub record Entry : Type 0 where
  pub block_list : Ptr
  pub last_block : Ptr
  pub refs : ℕ
  pub name : List ℕ
  pub bytes_left : ℕ
  pub in_list : Bool

abbrev pub mk_file : Entry → Ptr → Ptr → File
mk_file e next prev = record {
  block_list = e.block_list;
  last_block = e.last_block;
  refs = e.refs;
  name = e.name;
  next = next;
  prev = prev;
  bytes_left = e.bytes_left;
  in_list = e.in_list;
}

abbrev pub Entries : Type 0
Entries = List (Cell Entry)

-- The directory: the names of the files, in the order of the list.
abbrev pub names : Entries → List (List ℕ)
names xs = map (λ c. c.datum.name) xs

abbrev pub AreListed : Entries → Type 0
AreListed [] = Unit {0}
AreListed (c ∷ xs) = (c.datum.in_list ≡ true) × AreListed xs

-- `file_list` leads through the files `xs`.
pub record IsListed (s : Fs) (xs : Entries) : Type 0 where
  pub file_list : s.file_list ≡ first xs null
  pub chain : Seg mk_file s.files null xs null
  pub listed : AreListed xs

abbrev pub IsMissing : List ℕ → Entries → Type 0
IsMissing name [] = Unit {0}
IsMissing name (c ∷ xs) = (same_name c.datum.name name ≡ false) × IsMissing name xs

-- The first file of the name.
pub record Named (name : List ℕ) (xs : Entries) : Type 0 where
  pub before : Entries
  pub at : Cell Entry
  pub behind : Entries
  pub eq : xs ≡ before ++ at ∷ behind
  pub missing : IsMissing name before
  pub here : same_name at.datum.name name ≡ true

pub Named-cases : (name : List ℕ) (xs : Entries) → IsMissing name xs ⊎ Named name xs
Named-cases name [] = inl tt
Named-cases name (c ∷ xs) = elim (Bool-cases (same_name c.datum.name name)) [
  | inl e ↦ inr (record { before = []; at = c; behind = xs; eq = refl; missing = tt; here = e })
  | inr e ↦ elim (Named-cases name xs) [
    | inl none_there ↦ inl (e, none_there)
    | inr n ↦ inr (record {
      before = c ∷ n.before;
      at = n.at;
      behind = n.behind;
      eq = ap (λ l. c ∷ l) n.eq;
      missing = (e, n.missing);
      here = n.here;
    })
  ]
]

module _ (s : Fs) (name : List ℕ) where
  search_from-missing :
      (k : ℕ) (prev : Ptr) (xs : Entries)
      → Seg mk_file s.files prev xs null
      → IsMissing name xs
      → length xs < k
      → search_from k (first xs null) name s ≡ ok null s
  unfolding search_from
  search_from-missing zero prev xs chain missing enough = absurd (omega arith)
  search_from-missing (suc k) prev [] chain missing enough = refl
  search_from-missing (suc k) prev (c ∷ xs) chain missing enough =
      let live : (c.at == null) ≡ false = ground (arith, chain.0) in
      rw (live, load_file-ok s c.at chain.0 _ chain.1, missing.0)
        (search_from-missing k c.at xs chain.3 missing.1 (omega arith))

  search_from-named :
      (k : ℕ) (prev : Ptr) (xs : Entries) (c : Cell Entry) (ys : Entries)
      → Seg mk_file s.files prev (xs ++ c ∷ ys) null
      → IsMissing name xs
      → same_name c.datum.name name ≡ true
      → length (xs ++ c ∷ ys) < k
      → search_from k (first (xs ++ c ∷ ys) null) name s ≡ ok c.at s
  unfolding search_from
  search_from-named zero prev xs c ys chain missing here enough = absurd (omega arith)
  search_from-named (suc k) prev [] c ys chain missing here enough =
      let live : (c.at == null) ≡ false = ground (arith, chain.0) in
      rw (live, load_file-ok s c.at chain.0 _ chain.1, here) refl
  search_from-named (suc k) prev (x ∷ xs) c ys chain missing here enough =
      let live : (x.at == null) ≡ false = ground (arith, chain.0) in
      rw (live, load_file-ok s x.at chain.0 _ chain.1, missing.0)
        (search_from-named k x.at xs c ys chain.3 missing.1 here (omega arith))

  pub search_file-missing :
      (fuel : ℕ) (xs : Entries)
      → IsListed s xs
      → IsMissing name xs
      → length xs < fuel
      → search_file fuel name s ≡ ok null s
  unfolding search_file
  search_file-missing fuel xs is missing enough =
      ap (λ p. search_from fuel p name s) is.file_list
      ∙ search_from-missing fuel null xs is.chain missing enough

  pub search_file-named :
      (fuel : ℕ) (xs : Entries) (n : Named name xs)
      → IsListed s xs
      → length xs < fuel
      → search_file fuel name s ≡ ok n.at.at s
  unfolding search_file
  search_file-named fuel xs n is enough =
      ap (λ p. search_from fuel p name s) is.file_list
      ∙ subst (λ l. search_from fuel (first l null) name s ≡ ok n.at.at s) (sym n.eq)
          (search_from-named fuel null n.before n.at n.behind
            (subst (λ l. Seg mk_file s.files null l null) n.eq is.chain) n.missing n.here
            (subst (λ l. length l < fuel) n.eq enough))
