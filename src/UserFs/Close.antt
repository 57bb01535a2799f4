-- ===== src/UserFs/Close.antt =====
-- `ufs_close` of homework03/userfs.c.
use sysprog_labs_f.Base.{
  ℕ, zero, suc, ◌+◌, ◌-◌, ◌<◌, ◌≡◌, ◌≢◌, refl, sym, ap, ◌∙◌, subst, true, false, not, ◌&&◌, List,
  [], ◌∷◌, length, length-set, get_elem?, set, get_elem?-set-some, get_elem?-set_ne, none, some,
  ◌==◌, if◌then◌else◌, arith, ◌⊎◌, inl, inr, Bool-cases,
}
use sysprog_labs_f.Base.Int.{pos}
use sysprog_labs_f.Memory.Store.{Ptr, get, get-put_self, get-put_ne}
use sysprog_labs_f.Memory.Run.{Cmd, ok, pure, Returns, returns}
use sysprog_labs_f.Memory.Chain.{Cell}
use sysprog_labs_f.UserFs.State.{Fs, File, Filedesc, Slot, array, slots, write_slot, with_file}
use sysprog_labs_f.UserFs.Api.{ufs_close, drop_file}
use sysprog_labs_f.UserFs.Content.{Content}
use sysprog_labs_f.UserFs.Layout.{load_file-ok, update_file-ok}
use sysprog_labs_f.UserFs.Open.{IsOpen, is_valid_fd-open, descriptor-open, IsOpen-places}
use sysprog_labs_f.UserFs.Places.{used_places, IsTable, no_table, some_table}
use sysprog_labs_f.UserFs.Freed.{AreFreed, HasBlocks, drop_file_lem}

used_places-unset :
    (xs : List Slot) (i : ℕ) (d : Filedesc)
    → get_elem? xs i ≡ some (some d)
    → used_places xs ≡ used_places (set xs i none) + 1
unfolding used_places
used_places-unset [] i d h = ground arith
used_places-unset (none ∷ xs) zero d h = ground arith
used_places-unset (some e ∷ xs) zero d h = omega arith
used_places-unset (none ∷ xs) (suc i) d h = used_places-unset xs i d h
used_places-unset (some e ∷ xs) (suc i) d h = omega (arith, used_places-unset xs i d h)

-- The descriptor at `i` is gone, and the others are at their places.
pub record Closed (s : Fs) (i : ℕ) (t : Fs) : Type 0 where
  pub closed : (d : Filedesc) → IsOpen t i d → ⊥
  pub kept : (j : ℕ) (e : Filedesc) → j ≢ i → IsOpen s j e → IsOpen t j e
  pub still : IsTable t

-- What is left of the file: freed with its blocks, or with one reference less.
abbrev pub IsLeft : Fs → Ptr → File → List (Cell Content) → Fs → Type 0
IsLeft s f fl bs t =
    ((fl.refs ≡ 1) × (fl.in_list ≡ false) × (get f t.files ≡ none) × AreFreed bs s.blocks t.blocks)
    ⊎ (((fl.refs ≢ 1) ⊎ (fl.in_list ≡ true))
        × (get f t.files ≡ some (record fl { refs = fl.refs - 1 }))
        × (t.blocks ≡ s.blocks))

-- The file is released: the part of `ufs_close` between its tests and the descriptor.
record Released (s : Fs) (f : Ptr) (fl : File) (bs : List (Cell Content)) (t : Fs) : Type 0 where
  descriptors : t.descriptors ≡ s.descriptors
  count : t.count ≡ s.count
  capacity : t.capacity ≡ s.capacity
  file_list : t.file_list ≡ s.file_list
  others : (g : Ptr) → g ≢ f → get g t.files ≡ get g s.files
  left : IsLeft s f fl bs t

module _ (fuel : ℕ) (s : Fs) (i : ℕ) (d : Filedesc) (fl : File) (bs : List (Cell Content))
    (open_at : IsOpen s i d) (at : get d.file s.files ≡ some fl) (blocks : HasBlocks s fl bs)
    (some_ref : 0 < fl.refs) (enough : length bs < fuel) where
  abbrev fewer : File
  fewer = record fl { refs = fl.refs - 1 }

  abbrev one_less : Fs
  one_less = with_file d.file fewer s

  abbrev release : Cmd Fs (Unit {0})
  release = if fewer.refs == 0 && not fl.in_list then drop_file fuel d.file else pure tt

  release_lem : (t : Fs) × (release one_less ≡ ok tt t) × Released s d.file fl bs t
  release_lem =
      let there = get-put_self d.file fewer s.files in
      elim (Bool-cases (fewer.refs == 0 && not fl.in_list)) [
        | inl last_one ↦
            let in_t : HasBlocks one_less fewer bs = record {
              head = blocks.head;
              lead = blocks.lead;
              chain = blocks.chain;
            } in
            let (t, eq, drop) =
              drop_file_lem fuel one_less d.file fewer bs open_at.file there in_t enough in
            (
              t,
              rw last_one eq,
              record {
                descriptors = drop.descriptors;
                count = drop.count;
                capacity = drop.capacity;
                file_list = drop.file_list;
                others = λ g other.
                    drop.others g other ∙ get-put_ne g d.file fewer s.files (λ e. other (sym e));
                left = inl (ground arith, ground arith, drop.gone, drop.blocks);
              },
            )
        | inr others_left ↦ (
          one_less,
          rw others_left refl,
          record {
            descriptors = refl;
            count = refl;
            capacity = refl;
            file_list = refl;
            others = λ g other. get-put_ne g d.file fewer s.files (λ e. other (sym e));
            left = inr (
              elim (Bool-cases fl.in_list) [
                | inl e ↦ inr e
                | inr e ↦ inl (ground (arith, others_left, e))
              ],
              there,
              refl,
            );
          },
        )
      ]

  -- The table without the descriptor.
  Closed-places :
      (u : Fs) (places : List Slot)
      → s.descriptors ≡ array places
      → length places ≡ s.capacity
      → s.count ≡ used_places places
      → u.descriptors ≡ array (set places i none)
      → u.capacity ≡ s.capacity
      → u.count ≡ s.count - 1
      → Closed s i u
  Closed-places u places table whole counted table' capacity count =
      let held = IsOpen-places s i d open_at places table in
      let free = get_elem?-set-some places i (some d) none held in
      record {
        closed = λ e o. ground (arith, IsOpen-places u i e o (set places i none) table', free);
        kept = λ j e other o. record {
          places = set places i none;
          table = table';
          holds =
              get_elem?-set_ne places none (λ same. other (sym same))
              ∙ IsOpen-places s j e o places table;
          within = subst (λ c. j < c) (sym capacity) o.within;
          file = o.file;
          occupied = o.occupied;
        };
        still =
            some_table (set places i none) table' (length-set places i none ∙ whole ∙ sym capacity)
              (omega (arith, capacity, open_at.within))
              (omega (arith, count, counted, used_places-unset places i d held));
      }

  close_step :
      (t : Fs) (places : List Slot)
      → release one_less ≡ ok tt t
      → t.descriptors ≡ array places
      → get_elem? places i ≡ some (some d)
      → ufs_close fuel (pos i) s
        ≡ ok (pos 0) (record t { descriptors = array (set places i none); count = t.count - 1 })
  unfolding ufs_close write_slot
  close_step t places eq table held =
      rw
        (
          is_valid_fd-open s i d open_at,
          descriptor-open s i d open_at,
          update_file-ok s d.file open_at.file (λ x. record x { refs = x.refs - 1 }) fl at,
          load_file-ok one_less d.file open_at.file fewer (get-put_self d.file fewer s.files),
          eq,
          ap slots table,
          held,
        )
        refl

  close_table :
      (places : List Slot)
      → s.descriptors ≡ array places
      → length places ≡ s.capacity
      → s.count ≡ used_places places
      → Returns
          (λ r u.
            (r ≡ pos 0)
            × Closed s i u
            × IsLeft s d.file fl bs u
            × (u.file_list ≡ s.file_list)
            × ((g : Ptr) → g ≢ d.file → get g u.files ≡ get g s.files))
          (ufs_close fuel (pos i) s)
  close_table places table whole counted =
      let (t, eq, r) = release_lem in
      let held = IsOpen-places s i d open_at places table in
      let u : Fs = record t { descriptors = array (set places i none); count = t.count - 1 } in
      rw (close_step t places eq (r.descriptors ∙ table) held) (
        returns (
          refl,
          Closed-places u places table whole counted refl r.capacity (ap (λ n. n - 1) r.count),
          r.left,
          r.file_list,
          r.others,
        ))

  -- Closing an open descriptor of a file with references, whose blocks hang from it, with more fuel
  -- than blocks and a table as it is between the calls: the result is 0, the descriptor is gone and
  -- the others keep their numbers, and the table is again as it is between the calls. The last
  -- reference to a file in no list frees the file and its blocks, and no other block; else the file
  -- has one reference less and all blocks stay. All other files stay.
  pub ufs_close_lem :
      IsTable s
      → Returns
          (λ r u.
            (r ≡ pos 0)
            × Closed s i u
            × IsLeft s d.file fl bs u
            × (u.file_list ≡ s.file_list)
            × ((g : Ptr) → g ≢ d.file → get g u.files ≡ get g s.files))
          (ufs_close fuel (pos i) s)
  ufs_close_lem (no_table e count empty) = absurd (let below = open_at.within in omega arith)
  ufs_close_lem (some_table places table whole some_left counted) =
      close_table places table whole counted
