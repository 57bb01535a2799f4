-- ===== src/UserFs/Delete.antt =====
-- `ufs_delete` of homework03/userfs.c.
use sysprog_labs_f.Base.{
  ℕ, ◌<◌, ◌≡◌, ◌≢◌, refl, sym, ap, ◌∙◌, subst, true, false, List, [], ◌∷◌, ◌++◌, length, none, some,
  ◌==◌, if◌then◌else◌, arith, ◌⊎◌, inl, inr, Bool-cases,
}
use sysprog_labs_f.Base.Int.{pos}
use sysprog_labs_f.Memory.Store.{Ptr, null, get, get-put_self, get-put_ne}
use sysprog_labs_f.Memory.Run.{pure, and_then, Returns, returns}
use sysprog_labs_f.Memory.Chain.{
  Cell, has, ◌∈◌, ◌∉◌, first, last, has-without, has-ne, Seg, Seg-right, Seg-others, frame,
  frame-put,
}
use sysprog_labs_f.UserFs.State.{Fs, File, with_file}
use sysprog_labs_f.UserFs.Api.{ufs_delete, drop_file}
use sysprog_labs_f.UserFs.Names.{same_name}
use sysprog_labs_f.UserFs.Content.{Content, mk_block}
use sysprog_labs_f.UserFs.Layout.{load_file-ok, update_file-ok}
use sysprog_labs_f.UserFs.Listed.{
  Entry, mk_file, Entries, names, AreListed, IsListed, IsMissing, Named, search_file-named,
}
use sysprog_labs_f.UserFs.Unlink.{unlink_file_lem}
use sysprog_labs_f.UserFs.Freed.{AreFreed, IsDropped, HasBlocks, drop_file_lem}

-- The directory without the first file of a name.
unfoldable pub remove_name : List ℕ → List (List ℕ) → List (List ℕ)
remove_name name [] = []
remove_name name (n ∷ ns) = if same_name n name then ns else n ∷ remove_name name ns

remove_name-named :
    (name : List ℕ) (xs ys : Entries) (c : Cell Entry)
    → IsMissing name xs
    → same_name c.datum.name name ≡ true
    → names (xs ++ ys) ≡ remove_name name (names (xs ++ c ∷ ys))
unfolding remove_name
remove_name-named name [] ys c missing here = rw here refl
remove_name-named name (x ∷ xs) ys c missing here =
    rw missing.0 (ap (λ l. x.datum.name ∷ l) (remove_name-named name xs ys c missing.1 here))

AreListed-without :
    (xs ys : Entries) (c : Cell Entry) → AreListed (xs ++ c ∷ ys) → AreListed (xs ++ ys)
AreListed-without [] ys c all = all.1
AreListed-without (x ∷ xs) ys c all = (all.0, AreListed-without xs ys c all.1)

-- The first file of the name has left the list; the table and the files of no list stay.
pub record Unlisted (s : Fs) (name : List ℕ) (xs : Entries) (n : Named name xs) (t : Fs)
    : Type 0 where
  pub listed : IsListed t (n.before ++ n.behind)
  pub directory : names (n.before ++ n.behind) ≡ remove_name name (names xs)
  pub error : t.error ≡ s.error
  pub descriptors : t.descriptors ≡ s.descriptors
  pub count : t.count ≡ s.count
  pub capacity : t.capacity ≡ s.capacity
  pub others : (a : Ptr) → a ∉ xs → get a t.files ≡ get a s.files

-- The file in memory, off the list.
abbrev pub unlisted : {name : List ℕ} {xs : Entries} → Named name xs → File
unlisted n = record (mk_file n.at.datum (first n.behind null) (last null n.before)) {
  in_list = false;
}

module _ (fuel : ℕ) (s : Fs) (name : List ℕ) (xs : Entries) (n : Named name xs)
    (is : IsListed s xs) where
  -- Up to the test on the references.
  unlist :
      length xs < fuel
      → (t : Fs) × (ufs_delete fuel name s
          ≡ and_then
              ((if n.at.datum.refs == 0 then drop_file fuel n.at.at else pure tt) t)
              (λ a. pure (pos 0)))
        × Unlisted s name xs n t
        × (get n.at.at t.files ≡ some (unlisted n))
        × (t.blocks ≡ s.blocks)
  unfolding ufs_delete
  unlist enough =
      let all = n.before ++ n.at ∷ n.behind in
      let rest = n.before ++ n.behind in
      let chain = subst (λ l. Seg mk_file s.files null l null) n.eq is.chain in
      let list : s.file_list ≡ first all null = is.file_list ∙ ap (λ l. first l null) n.eq in
      let (live, at, apart, behind) =
        Seg-right mk_file s.files null null n.before (n.at ∷ n.behind) chain in
      let alive : (n.at.at == null) ≡ false = ground arith in
      let off = Seg-others mk_file s.files null null n.before n.behind n.at chain in
      let (g, eq, chain₁, same) = unlink_file_lem s n.at n.before n.behind list chain in
      let u : Fs = record s { file_list = first rest null; files = g } in
      let there : get n.at.at g
          ≡ some (mk_file n.at.datum (first n.behind null) (last null n.before)) =
        same n.at.at off ∙ at in
      let t = with_file n.at.at (unlisted n) u in
      (
        t,
        rw
            (
              search_file-named s name fuel xs n is enough,
              alive,
              load_file-ok s n.at.at live _ at,
              eq,
              update_file-ok u n.at.at live (λ x. record x { in_list = false }) _ there,
              load_file-ok t n.at.at live (unlisted n) (get-put_self n.at.at (unlisted n) g),
            )
            refl,
        record {
          listed = record {
            file_list = refl;
            chain = frame-put mk_file g null null n.at.at (unlisted n) rest off chain₁;
            listed = AreListed-without n.before n.behind n.at (subst AreListed n.eq is.listed);
          };
          directory =
              remove_name-named name n.before n.behind n.at n.missing n.here
              ∙ ap (λ l. remove_name name (names l)) (sym n.eq);
          error = refl;
          descriptors = refl;
          count = refl;
          capacity = refl;
          others = λ a out.
              let out' : a ∉ all = subst (λ l. a ∉ l) n.eq out in
              get-put_ne a n.at.at (unlisted n) g (has-ne a n.before n.behind n.at out')
              ∙ same a (has-without a n.before n.behind n.at out');
        },
        get-put_self n.at.at (unlisted n) g,
        refl,
      )

-- The file is freed with its blocks `bs`, or a descriptor keeps it as it was.
abbrev pub IsEnded :
    {name : List ℕ} {xs : Entries} → Named name xs → List (Cell Content) → Fs → Fs → Type 0
IsEnded n bs s t =
    ((n.at.datum.refs ≡ 0) × (get n.at.at t.files ≡ none) × AreFreed bs s.blocks t.blocks)
    ⊎ ((n.at.datum.refs ≢ 0) × (get n.at.at t.files ≡ some (unlisted n)) × (t.blocks ≡ s.blocks))

-- Freeing the file keeps what holds of the list.
Unlisted-drop :
    (s t u : Fs) (name : List ℕ) (xs : Entries) (n : Named name xs) (bs : List (Cell Content))
    → IsListed s xs
    → Unlisted s name xs n t
    → IsDropped n.at.at bs t u
    → Unlisted s name xs n u
Unlisted-drop s t u name xs n bs is t_off drop =
    let rest = n.before ++ n.behind in
    let chain = subst (λ l. Seg mk_file s.files null l null) n.eq is.chain in
    let off = Seg-others mk_file s.files null null n.before n.behind n.at chain in
    let away : (a : Ptr) → a ∈ rest → a ≢ n.at.at =
      λ a i e. ground (arith, i, off, ap (λ q. has q rest) e) in
    record {
      listed = record {
        file_list = drop.file_list ∙ t_off.listed.file_list;
        chain =
            frame mk_file t.files u.files null null rest (λ a i. drop.others a (away a i))
              t_off.listed.chain;
        listed = t_off.listed.listed;
      };
      directory = t_off.directory;
      error = drop.error ∙ t_off.error;
      descriptors = drop.descriptors ∙ t_off.descriptors;
      count = drop.count ∙ t_off.count;
      capacity = drop.capacity ∙ t_off.capacity;
      others = λ a out.
          let out' : a ∉ (n.before ++ n.at ∷ n.behind) = subst (λ l. a ∉ l) n.eq out in
          drop.others a (λ e. has-ne a n.before n.behind n.at out' (sym e)) ∙ t_off.others a out;
    }

-- Refinement of a directory. The file list is sound and has a file of the name, whose blocks hang
-- from it, and the fuel is above the number of files and of blocks: a delete returns 0, the list is
-- sound again and has the names but the first that is the name, and the descriptors and the files
-- of no list stay. Without a reference the file and its blocks are freed, and no other block; with
-- one, file and blocks stay as they were, with the mark that the file is in no list.
pub ufs_delete_lem :
    (fuel : ℕ) (s : Fs) (name : List ℕ) (xs : Entries) (n : Named name xs)
    (bs : List (Cell Content))
    → IsListed s xs
    → HasBlocks s (unlisted n) bs
    → length xs < fuel
    → length bs < fuel
    → Returns
        (λ r t. (r ≡ pos 0) × Unlisted s name xs n t × IsEnded n bs s t)
        (ufs_delete fuel name s)
ufs_delete_lem fuel s name xs n bs is has_blocks enough enough_blocks =
    let (t, eq, off, at, blocks) = unlist fuel s name xs n is enough in
    let chain = subst (λ l. Seg mk_file s.files null l null) n.eq is.chain in
    let live = (Seg-right mk_file s.files null null n.before (n.at ∷ n.behind) chain).0 in
    elim (Bool-cases (n.at.datum.refs == 0)) [
      | inr in_use ↦ rw (eq, in_use) (returns (refl, off, inr (ground arith, at, blocks)))
      | inl closed ↦
          let in_t : HasBlocks t (unlisted n) bs = record {
            head = has_blocks.head;
            lead = has_blocks.lead;
            chain =
                subst (λ h. Seg mk_block h has_blocks.lead bs null) (sym blocks) has_blocks.chain;
          } in
          let (u, eq', drop) =
            drop_file_lem fuel t n.at.at (unlisted n) bs live at in_t enough_blocks in
          let freed = subst (λ h. AreFreed bs h u.blocks) blocks drop.blocks in
          rw (eq, closed, eq')
            (returns (
              refl,
              Unlisted-drop s t u name xs n bs is off drop,
              inl (ground arith, drop.gone, freed),
            ))
    ]
