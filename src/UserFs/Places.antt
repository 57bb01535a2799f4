-- ===== src/UserFs/Places.antt =====
-- `get_fd` of homework03/userfs.c finds a free place of the descriptor table.
use mathlib.Core.List.{append_assoc}
use sysprog_labs_f.Base.{
  ℕ, zero, suc, ◌+◌, ◌*◌, ◌/◌, ◌≤◌, ◌<◌, ◌≡◌, ◌≢◌, refl, sym, ap, ◌∙◌, true, false, List, [], ◌∷◌,
  ◌++◌, none, some, arith, length, length-append, length-replicate, get_elem?, take, drop,
  replicate, ◌==◌, if◌then◌else◌, Bool-cases, inl, inr,
}
use sysprog_labs_f.Base.Int.{ℤ, pos}
use sysprog_labs_f.Memory.Run.{ok, Returns, returns}
use sysprog_labs_f.UserFs.State.{Fs, Env, Filedesc, absent, array, Slot, slots, read_slot}
use sysprog_labs_f.UserFs.Table.{
  scan_free, new_table, grow_table, choose_fd, get_fd, is_absent, grown,
}
use sysprog_labs_f.UserFs.Open.{IsOpen, IsOpen-places}

-- The number of descriptors in the table.
unfoldable pub used_places : List Slot → ℕ
used_places [] = 0
used_places (none ∷ rest) = used_places rest
used_places (some d ∷ rest) = suc (used_places rest)

-- The table between the calls: `file_descriptor_count` counts the descriptors.
pub data IsTable (s : Fs) : Type 0 where
  no_table : s.descriptors ≡ absent → s.count ≡ 0 → s.capacity ≡ 0 → IsTable s
  some_table :
      (places : List Slot)
      → s.descriptors ≡ array places
      → length places ≡ s.capacity
      → 0 < s.capacity
      → s.count ≡ used_places places
      → IsTable s

-- A free place of the table of `t`, which has the descriptors of `s`.
pub record IsFree (s : Fs) (fd : ℤ) (t : Fs) : Type 0 where
  pub place : ℕ
  pub result : fd ≡ pos place
  pub places : List Slot
  pub table : t.descriptors ≡ array places
  pub whole : length places ≡ t.capacity
  pub free : get_elem? places place ≡ some none
  pub counted : t.count ≡ used_places places + 1
  pub kept : (j : ℕ) (d : Filedesc) → IsOpen s j d → IsOpen t j d
  pub files : t.files ≡ s.files
  pub file_list : t.file_list ≡ s.file_list
  pub blocks : t.blocks ≡ s.blocks

get_elem?-at :
    (pre suf : List Slot) (slot : Slot) → get_elem? (pre ++ slot ∷ suf) (length pre) ≡ some slot
get_elem?-at [] suf slot = refl
get_elem?-at (x ∷ pre) suf slot = get_elem?-at pre suf slot

get_elem?-fresh :
    (xs : List Slot) (n : ℕ) → 0 < n → get_elem? (xs ++ replicate n none) (length xs) ≡ some none
get_elem?-fresh xs zero h = absurd (omega arith)
get_elem?-fresh xs (suc n) h = get_elem?-at xs (replicate n none) none

get_elem?-left :
    (xs ys : List Slot) (j : ℕ) (slot : Slot)
    → get_elem? xs j ≡ some slot
    → get_elem? (xs ++ ys) j ≡ some slot
get_elem?-left [] ys j slot h = ground arith
get_elem?-left (x ∷ xs) ys zero slot h = h
get_elem?-left (x ∷ xs) ys (suc j) slot h = get_elem?-left xs ys j slot h

used_places-append : (xs ys : List Slot) → used_places (xs ++ ys) ≡ used_places xs + used_places ys
unfolding used_places
used_places-append [] ys = omega arith
used_places-append (none ∷ xs) ys = used_places-append xs ys
used_places-append (some d ∷ xs) ys = omega (arith, used_places-append xs ys)

used_places-replicate : (n : ℕ) → used_places (replicate n none) ≡ 0
unfolding used_places
used_places-replicate zero = refl
used_places-replicate (suc n) = used_places-replicate n

used_places-le : (xs : List Slot) → used_places xs ≤ length xs
unfolding used_places
used_places-le [] = omega arith
used_places-le (none ∷ xs) = omega (arith, used_places-le xs)
used_places-le (some d ∷ xs) = omega (arith, used_places-le xs)

read_slot-ok :
    (s : Fs) (places : List Slot) (i : ℕ) (slot : Slot)
    → s.descriptors ≡ array places
    → get_elem? places i ≡ some slot
    → read_slot i s ≡ ok slot s
unfolding read_slot
read_slot-ok s places i slot e at = ground (arith, e, at)

scan_free_lem :
    (s : Fs) (suf pre : List Slot)
    → s.descriptors ≡ array (pre ++ suf)
    → used_places suf < length suf
    → (k : ℕ) × (scan_free (length suf) (length pre) s ≡ ok (pos k) s)
      × (get_elem? (pre ++ suf) k ≡ some none)
unfolding scan_free used_places
scan_free_lem s [] pre e h = absurd (omega arith)
scan_free_lem s (none ∷ suf) pre e h =
    let here = read_slot-ok s (pre ++ none ∷ suf) (length pre) none e (get_elem?-at pre suf none) in
    (length pre, rw here refl, get_elem?-at pre suf none)
scan_free_lem s (some d ∷ suf) pre e h =
    let more = append_assoc pre (some d ∷ []) suf in
    let (k, eq, at) =
      scan_free_lem s suf (pre ++ some d ∷ []) (e ∙ ap array (sym more)) (omega arith) in
    let i : length (pre ++ some d ∷ []) ≡ length pre + 1 =
      omega (arith, length-append pre (some d ∷ [])) in
    let here =
      read_slot-ok s (pre ++ some d ∷ suf) (length pre) (some d) e
        (get_elem?-at pre suf (some d)) in
    (k, rw here (rw i at eq), rw more at at)

drop-replicate : (k m : ℕ) (slot : Slot) → drop k (replicate (k + m) slot) ≡ replicate m slot
drop-replicate zero m slot = let e : 0 + m ≡ m = omega arith in rw e refl
drop-replicate (suc k) m slot =
    let e : suc k + m ≡ suc (k + m) = omega arith in rw e (drop-replicate k m slot)

take-length : (xs : List Slot) → take (length xs) xs ≡ xs
take-length [] = refl
take-length (x ∷ xs) = ap (◌∷◌ x) (take-length xs)

choose_fd-array :
    (env : Env) (s : Fs) (places : List Slot)
    → s.descriptors ≡ array places
    → choose_fd env s
      ≡ (if s.count == s.capacity then grow_table env s else scan_free s.capacity 0 s)
unfolding choose_fd
choose_fd-array env s places e =
    ap
      (λ b.
        if b
        then new_table env s
        else if s.count == s.capacity
        then grow_table env s
        else scan_free s.capacity 0 s)
      (ap is_absent e)

-- A table that has the descriptors of `s` at their places, and room at `k`.
IsFree-array :
    (s t : Fs) (places old : List Slot) (k : ℕ)
    → s.descriptors ≡ array old
    → length places ≡ t.capacity
    → s.capacity ≤ t.capacity
    → t.descriptors ≡ array places
    → get_elem? places k ≡ some none
    → t.count ≡ used_places places + 1
    → t.files ≡ s.files
    → t.file_list ≡ s.file_list
    → t.blocks ≡ s.blocks
    → ((j : ℕ) (slot : Slot) → get_elem? old j ≡ some slot → get_elem? places j ≡ some slot)
    → IsFree s (pos k) t
IsFree-array s t places old k e whole wider table free counted files list blocks same = record {
  place = k;
  result = refl;
  places = places;
  table = table;
  whole = whole;
  free = free;
  counted = counted;
  kept = λ j d o. record {
    places = places;
    table = table;
    holds = same j (some d) (IsOpen-places s j d o old e);
    within = let w = o.within in omega arith;
    file = o.file;
    occupied = o.occupied;
  };
  files = files;
  file_list = list;
  blocks = blocks;
}

module _ (env : Env) (s : Fs) where
  scan_lem :
      (places : List Slot)
      → s.descriptors ≡ array places
      → length places ≡ s.capacity
      → s.count ≡ used_places places
      → s.count ≢ s.capacity
      → Returns (IsFree s) (get_fd env s)
  unfolding get_fd
  scan_lem places e whole counted room =
      let below : used_places places < length places = omega (arith, used_places-le places, room) in
      let (k, eq, at) = scan_free_lem s places [] e below in
      let test : (s.count == s.capacity) ≡ false = ground arith in
      let scan : scan_free s.capacity 0 s ≡ ok (pos k) s =
        ap (λ n. scan_free n 0 s) (sym whole) ∙ eq in
      rw (choose_fd-array env s places e, test, scan)
        (returns (
          IsFree-array s _ places places k e whole (omega arith) e at (omega arith) refl refl refl
            λ j slot h. h))

  -- With a free place in the array no memory is asked for.
  pub get_fd-room : IsTable s → s.count < s.capacity → Returns (IsFree s) (get_fd env s)
  get_fd-room (no_table e count empty) room = absurd (omega arith)
  get_fd-room (some_table places e whole some_left counted) room =
      scan_lem places e whole counted (omega arith)

module _ (env : Env) (zeroed : (n : ℕ) → env.raw_slots n ≡ replicate n none) (s : Fs) where
  -- The first array.
  new_table_lem :
      s.descriptors ≡ absent → s.count ≡ 0 → s.capacity ≡ 0 → Returns (IsFree s) (get_fd env s)
  unfolding get_fd choose_fd new_table used_places
  new_table_lem e count empty =
      let test : is_absent s.descriptors ≡ true = ap is_absent e in
      rw test (
        returns record {
          place = 0;
          result = refl;
          places = env.raw_slots 10;
          table = refl;
          whole = ap length (zeroed 10);
          free = rw (zeroed 10) refl;
          counted = rw (zeroed 10) (omega arith);
          kept = λ j d o. absurd (let w = o.within in omega arith);
          files = refl;
          file_list = refl;
          blocks = refl;
        })

  -- A full array is replaced by one twice as long.
  grow_table_lem :
      (places : List Slot)
      → s.descriptors ≡ array places
      → length places ≡ s.capacity
      → 0 < s.capacity
      → s.count ≡ used_places places
      → s.count ≡ s.capacity
      → Returns (IsFree s) (get_fd env s)
  unfolding get_fd grow_table
  grow_table_lem places e whole some_left counted full =
      let test : (s.count == s.capacity) ≡ true = ground arith in
      let half : s.capacity * 2 / 2 ≡ length places = omega arith in
      let double : s.capacity * 2 ≡ length places + length places = omega arith in
      let behind : drop (length places) (env.raw_slots (s.capacity * 2))
          ≡ replicate (length places) none =
        ap (drop (length places)) (zeroed (s.capacity * 2) ∙ ap (λ n. replicate n none) double)
        ∙ drop-replicate (length places) (length places) none in
      let all : grown places (s.capacity * 2 / 2) (env.raw_slots (s.capacity * 2))
          ≡ places ++ replicate (length places) none =
        rw (half, take-length places, behind) refl in
      let held = ap slots e in
      rw (choose_fd-array env s places e, test)
        (rw (held, all)
          (returns (
            IsFree-array s _ (places ++ replicate (length places) none) places s.count e
              (omega (
                arith,
                length-append places (replicate (length places) none),
                length-replicate {A = Slot} (length places) none,
              ))
              (omega arith) refl
              (ap (get_elem? (places ++ replicate (length places) none)) (full ∙ sym whole)
                ∙ get_elem?-fresh places (length places) (omega arith))
              (omega (
                arith,
                used_places-append places (replicate (length places) none),
                used_places-replicate (length places),
              ))
              refl refl refl λ j slot h. get_elem?-left places _ j slot h)))

  -- If the memory of a new array is zero, and the table is the empty one of the start or an array
  -- that `file_descriptor_capacity` measures and whose descriptors `file_descriptor_count` counts,
  -- then `get_fd` returns the place of a NULL pointer within the array, in all three branches: the
  -- first array, an array twice as long for a full one, and the search. The descriptors keep their
  -- places, the files stay, and the count is one above the number of descriptors.
  pub get_fd_lem : IsTable s → Returns (IsFree s) (get_fd env s)
  get_fd_lem (no_table e count empty) = new_table_lem e count empty
  get_fd_lem (some_table places e whole some_left counted) =
      elim (Bool-cases (s.count == s.capacity)) [
        | inl full ↦ grow_table_lem places e whole some_left counted (ground arith)
        | inr room ↦ scan_lem env s places e whole counted (ground arith)
      ]
