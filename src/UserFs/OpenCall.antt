-- ===== src/UserFs/OpenCall.antt =====
-- `ufs_open` of homework03/userfs.c.
use sysprog_labs_f.Base.{
  ℕ, ◌+◌, ◌<◌, ◌≡◌, ◌≢◌, refl, sym, ap, ◌∙◌, subst, true, false, List, [], ◌∷◌, ◌++◌, length, ◌==◌,
  if◌then◌else◌, arith, inl, inr, Bool-cases,
}
use sysprog_labs_f.Base.Int.{ℤ, pos}
use sysprog_labs_f.Memory.Store.{Ptr, null}
use sysprog_labs_f.Memory.Run.{ok, Returns, Returns-weaken}
use sysprog_labs_f.Memory.Chain.{Cell, cell, first, last, Seg, Seg-right, Seg-update}
use sysprog_labs_f.UserFs.State.{Fs, Env, Filedesc, create_flag, failure, no_file, with_file}
use sysprog_labs_f.UserFs.Names.{same_name, same_name_iff}
use sysprog_labs_f.UserFs.Api.{
  ufs_open, open_file, is_permitted, may_read, may_write, fresh_filedesc,
}
use sysprog_labs_f.UserFs.Open.{IsOpen, moved_IsOpen}
use sysprog_labs_f.UserFs.Places.{IsTable, no_table, some_table}
use sysprog_labs_f.UserFs.Descriptors.{open_file_lem, IsOpen-files}
use sysprog_labs_f.UserFs.Listed.{
  Entry, mk_file, Entries, names, AreListed, IsListed, IsMissing, Named, Named-cases,
  search_file-missing, search_file-named,
}
use sysprog_labs_f.UserFs.Append.{new_entry, create_file_lem}

-- The directory with a name, at its end if it is new.
unfoldable pub add_name : List ℕ → List (List ℕ) → List (List ℕ)
add_name name [] = name ∷ []
add_name name (n ∷ ns) = if same_name n name then n ∷ ns else n ∷ add_name name ns

add_name-missing :
    (name : List ℕ) (xs : Entries)
    → IsMissing name xs
    → add_name name (names xs) ≡ names xs ++ name ∷ []
unfolding add_name
add_name-missing name [] missing = refl
add_name-missing name (x ∷ xs) missing =
    rw missing.0 (ap (λ l. x.datum.name ∷ l) (add_name-missing name xs missing.1))

add_name-named :
    (name : List ℕ) (xs ys : Entries) (c : Cell Entry)
    → IsMissing name xs
    → same_name c.datum.name name ≡ true
    → add_name name (names (xs ++ c ∷ ys)) ≡ names (xs ++ c ∷ ys)
unfolding add_name
add_name-named name [] ys c missing here = rw here refl
add_name-named name (x ∷ xs) ys c missing here =
    rw missing.0 (ap (λ l. x.datum.name ∷ l) (add_name-named name xs ys c missing.1 here))

names-append : (xs ys : Entries) → names (xs ++ ys) ≡ names xs ++ names ys
names-append [] ys = refl
names-append (x ∷ xs) ys = ap (λ l. x.datum.name ∷ l) (names-append xs ys)

abbrev pub both_rights : Ptr → Filedesc
both_rights f = record {
  file = f;
  is_occupied = true;
  offset = 0;
  can_read = true;
  can_write = true;
}

-- A new descriptor, at offset 0 and with both rights, for the first file of the name in the list `files`.
pub record OpenedFile (s : Fs) (name : List ℕ) (directory : List (List ℕ)) (fd : ℤ) (t : Fs)
    : Type 0 where
  pub files : Entries
  pub listed : IsListed t files
  pub named : Named name files
  pub same_names : names files ≡ directory
  pub place : ℕ
  pub result : fd ≡ pos place
  pub opened : IsOpen t place (both_rights named.at.at)
  pub kept : (j : ℕ) (e : Filedesc) → IsOpen s j e → (j ≢ place) × IsOpen t j e
  pub still : IsTable t
  pub blocks : t.blocks ≡ s.blocks

abbrev counted : Entry → Entry
counted e = record e { refs = e.refs + 1 }

AreListed-counted :
    (xs ys : Entries) (c : Cell Entry)
    → AreListed (xs ++ c ∷ ys)
    → AreListed (xs ++ cell c.at (counted c.datum) ∷ ys)
AreListed-counted [] ys c all = all
AreListed-counted (x ∷ xs) ys c all = (all.0, AreListed-counted xs ys c all.1)

first-counted :
    (xs ys : Entries) (c : Cell Entry)
    → first (xs ++ c ∷ ys) null ≡ first (xs ++ cell c.at (counted c.datum) ∷ ys) null
first-counted [] ys c = refl
first-counted (x ∷ xs) ys c = refl

names-counted :
    (xs ys : Entries) (c : Cell Entry)
    → names (xs ++ cell c.at (counted c.datum) ∷ ys) ≡ names (xs ++ c ∷ ys)
names-counted [] ys c = refl
names-counted (x ∷ xs) ys c = ap (λ l. x.datum.name ∷ l) (names-counted xs ys c)

module _ (env : Env) (name : List ℕ) (flags : ℕ)
    (may_create : is_permitted flags create_flag ≡ true) where
  -- The creation flag gives both rights.
  fresh-eq : (f : Ptr) → fresh_filedesc f flags ≡ both_rights f
  unfolding may_read may_write
  fresh-eq f = elim (Bool-cases (flags == 0)) [
    | inl e ↦ rw e refl
    | inr e ↦ rw (e, may_create) refl
  ]

  -- A file of the list is opened.
  open_named :
      (s : Fs) (xs : Entries) (n : Named name xs)
      → IsListed s xs
      → IsTable s
      → s.count < s.capacity
      → Returns (OpenedFile s name (names xs)) (open_file env n.at.at flags s)
  open_named s xs n is table room =
      let all = n.before ++ n.at ∷ n.behind in
      let chain = subst (λ l. Seg mk_file s.files null l null) n.eq is.chain in
      let (live, at, apart, behind) =
        Seg-right mk_file s.files null null n.before (n.at ∷ n.behind) chain in
      let fl = mk_file n.at.datum (first n.behind null) (last null n.before) in
      let u = with_file n.at.at (record fl { refs = fl.refs + 1 }) s in
      let ys = n.before ++ cell n.at.at (counted n.at.datum) ∷ n.behind in
      let chain' =
        Seg-update mk_file s.files null null n.at.at n.at.datum (counted n.at.datum) n.before
          n.behind chain in
      Returns-weaken (open_file_lem env s n.at.at fl flags table room live at) λ fd t o. record {
        files = ys;
        listed = record {
          file_list =
              o.file_list
              ∙ is.file_list
              ∙ ap (λ l. first l null) n.eq
              ∙ first-counted n.before n.behind n.at;
          chain = subst (λ h. Seg mk_file h null ys null) (sym o.files) chain';
          listed = AreListed-counted n.before n.behind n.at (subst AreListed n.eq is.listed);
        };
        named = record {
          before = n.before;
          at = cell n.at.at (counted n.at.datum);
          behind = n.behind;
          eq = refl;
          missing = n.missing;
          here = n.here;
        };
        same_names = names-counted n.before n.behind n.at ∙ ap names (sym n.eq);
        place = o.place;
        result = o.result;
        opened = subst (IsOpen t o.place) (fresh-eq n.at.at) o.opened;
        kept =
            λ j e op. o.kept j e (IsOpen-files s n.at.at (record fl { refs = fl.refs + 1 }) j e op);
        still = o.still;
        blocks = o.blocks;
      }

  -- The table of `t` is that of `s`.
  same-IsTable :
      (s t : Fs)
      → t.descriptors ≡ s.descriptors
      → t.count ≡ s.count
      → t.capacity ≡ s.capacity
      → IsTable s
      → IsTable t
  same-IsTable s t table count capacity (no_table e c empty) =
      no_table (table ∙ e) (count ∙ c) (capacity ∙ empty)
  same-IsTable s t table count capacity (some_table places e whole some_left c) =
      some_table places (table ∙ e) (whole ∙ sym capacity) (omega (arith, capacity)) (count ∙ c)

  -- Refinement of a directory, a list of names. The file list is sound, and the table is as it is
  -- between the calls and has a free place. An open with the creation flag, with fuel above the
  -- number of files, returns the number of a new descriptor, at offset zero and with the rights to
  -- read and to write, whatever the other flags are, for the first file of the name, in a sound
  -- list whose names are the old ones, with the new name at the end if no file had it. The older
  -- descriptors keep their numbers, the table is again as it is between the calls, and all blocks
  -- stay.
  pub ufs_open_lem :
      (fuel : ℕ) (s : Fs) (xs : Entries)
      → IsListed s xs
      → IsTable s
      → s.count < s.capacity
      → length xs < fuel
      → Returns (OpenedFile s name (add_name name (names xs))) (ufs_open env fuel name flags s)
  unfolding ufs_open
  ufs_open_lem fuel s xs is table room enough = elim (Named-cases name xs) [
    | inr n ↦
        let chain = subst (λ l. Seg mk_file s.files null l null) n.eq is.chain in
        let live = (Seg-right mk_file s.files null null n.before (n.at ∷ n.behind) chain).0 in
        let alive : (n.at.at == null) ≡ false = ground arith in
        let same : names xs ≡ add_name name (names xs) =
          ap names n.eq
          ∙ sym (add_name-named name n.before n.behind n.at n.missing n.here)
          ∙ ap (λ l. add_name name (names l)) (sym n.eq) in
        rw (search_file-named s name fuel xs n is enough, alive)
          (subst (λ l. Returns (OpenedFile s name l) (open_file env n.at.at flags s)) same
            (open_named s xs n is table room))
    | inl missing ↦
        let p = env.files.place s.files in
        let (t, eq, listed, places, count, capacity, blocks) =
          create_file_lem env fuel s name xs is enough in
        let ys = xs ++ cell p (new_entry name) ∷ [] in
        let n : Named name ys = record {
          before = xs;
          at = cell p (new_entry name);
          behind = [];
          eq = refl;
          missing = missing;
          here = (same_name_iff name name).1 refl;
        } in
        let directory : names ys ≡ add_name name (names xs) =
          names-append xs (cell p (new_entry name) ∷ []) ∙ sym (add_name-missing name xs missing) in
        rw (search_file-missing s name fuel xs is missing enough, may_create, eq)
          (Returns-weaken
            (open_named t ys n listed (same-IsTable s t places count capacity table)
              (omega (arith, room, count, capacity)))
            λ fd u o. record {
              files = o.files;
              listed = o.listed;
              named = o.named;
              same_names = o.same_names ∙ directory;
              place = o.place;
              result = o.result;
              opened = o.opened;
              kept = λ j e op. o.kept j e (moved_IsOpen s t j e places capacity op);
              still = o.still;
              blocks = o.blocks ∙ blocks;
            })
  ]

-- Without the creation flag, a name that is not in the directory gives -1 and the code `no_file`.
pub ufs_open-no_file :
    (env : Env) (name : List ℕ) (flags fuel : ℕ) (s : Fs) (xs : Entries)
    → IsListed s xs
    → length xs < fuel
    → is_permitted flags create_flag ≡ false
    → IsMissing name xs
    → ufs_open env fuel name flags s ≡ ok failure (record s { error = no_file })
unfolding ufs_open
ufs_open-no_file env name flags fuel s xs is enough refused missing =
    rw (search_file-missing s name fuel xs is missing enough, refused) refl
