-- ===== src/UserFs/Unlink.antt =====
-- A file of homework03/userfs.c leaves the file list.
use sysprog_labs_f.Base.{
  ◌≡◌, refl, sym, ap, ◌∙◌, false, [], ◌∷◌, ◌++◌, Option, none, some, ◌==◌, if◌then◌else◌, arith,
  inl, inr, Bool-cases, Option-cases, some-eq,
}
use sysprog_labs_f.Memory.Store.{Ptr, null, Store, get}
use sysprog_labs_f.Memory.Run.{Run, ok, fault, pure}
use sysprog_labs_f.Memory.Chain.{Cell, ◌∉◌, first, last, Seg, Seg-left}
use sysprog_labs_f.Memory.Relink.{relink, relink-null, unlink}
use sysprog_labs_f.Memory.Rotate.{last-ne_null}
use sysprog_labs_f.UserFs.State.{Fs, File, load_file, update_file}
use sysprog_labs_f.UserFs.Api.{unlink_file}
use sysprog_labs_f.UserFs.Listed.{Entry, mk_file, Entries}

abbrev with_files : Option (Store File) → Fs → Run Fs (Unit {0})
with_files none s = fault
with_files (some h) s = ok tt (record s { files = h })

-- `if (p != NULL) p->field = …`.
relink_file :
    (s : Fs) (f : File → File) (p : Ptr)
    → (if p == null then pure tt else update_file p f) s ≡ with_files (relink f p s.files) s
unfolding update_file load_file relink
relink_file s f p = elim (Bool-cases (p == null)) [
  | inl e ↦ rw e refl
  | inr e ↦ elim (Option-cases (get p s.files)) [
    | inl none_there ↦ ground (arith, none_there)
    | inr (x, at) ↦ ground (arith, at)
  ]
]

relink_file-ok :
    (s : Fs) (f : File → File) (p : Ptr) (g : Store File)
    → relink f p s.files ≡ some g
    → (if p == null then pure tt else update_file p f) s ≡ ok tt (record s { files = g })
relink_file-ok s f p g e = relink_file s f p ∙ ap (λ o. with_files o s) e

abbrev set_next : Ptr → File → File
set_next p x = record x { next = p }

abbrev set_prev : Ptr → File → File
set_prev p x = record x { prev = p }

-- The file `c` leaves the list, as it is.
pub unlink_file_lem :
    (s : Fs) (c : Cell Entry) (xs ys : Entries)
    → s.file_list ≡ first (xs ++ c ∷ ys) null
    → Seg mk_file s.files null (xs ++ c ∷ ys) null
    → (g : Store File) × (unlink_file (mk_file c.datum (first ys null) (last null xs)) s
        ≡ ok tt (record s { file_list = first (xs ++ ys) null; files = g }))
      × Seg mk_file g null (xs ++ ys) null
      × ((a : Ptr) → a ∉ (xs ++ ys) → get a g ≡ get a s.files)
unfolding unlink_file
unlink_file_lem s c [] ys list chain =
    let next = first ys null in
    let (h₁, h₂, eq₁, eq₂, chain₁, same) =
      unlink mk_file (set_next next) (set_prev null) s.files c [] ys (λ d n p. refl) (λ d n p. refl)
        chain in
    let unchanged : s.files ≡ h₁ =
      some-eq s.files h₁ (sym (relink-null (set_next next) s.files) ∙ eq₁) in
    (
      h₂,
      relink_file-ok (record s { file_list = next }) (set_prev null) next h₂
          (ap (relink (set_prev null) next) unchanged ∙ eq₂),
      chain₁,
      same,
    )
unlink_file_lem s c (x ∷ xs) ys list chain =
    let next = first ys null in
    let prev = last x.at xs in
    let live =
      last-ne_null mk_file s.files null c.at x xs
        (Seg-left mk_file s.files null null (x ∷ xs) (c ∷ ys) chain) in
    let alive : (prev == null) ≡ false = ground arith in
    let (h₁, h₂, eq₁, eq₂, chain₁, same) =
      unlink mk_file (set_next next) (set_prev prev) s.files c (x ∷ xs) ys (λ d n p. refl)
        (λ d n p. refl) chain in
    let first_write : update_file prev (set_next next) s ≡ ok tt (record s { files = h₁ }) =
      ap (λ b. (if b then pure tt else update_file prev (set_next next)) s) (sym alive)
      ∙ relink_file-ok s (set_next next) prev h₁ eq₁ in
    (
      h₂,
      rw (alive, first_write)
          (relink_file-ok (record s { files = h₁ }) (set_prev prev) next h₂ eq₂
            ∙ ap (λ p. ok tt (record s { file_list = p; files = h₂ })) list),
      chain₁,
      same,
    )
