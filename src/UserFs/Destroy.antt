-- ===== src/UserFs/Destroy.antt =====
-- `ufs_destroy` of homework03/userfs.c frees the first file twice.
use sysprog_labs_f.Base.{
  ℕ, zero, suc, ◌+◌, ◌≡◌, ◌≢◌, refl, sym, ap, ◌∙◌, subst, false, none, some, ◌==◌, if◌then◌else◌,
  arith, inl, inr, get_elem?, Bool-cases, Option-cases,
}
use sysprog_labs_f.Memory.Store.{Ptr, null, get, get-remove, get-put_ne}
use sysprog_labs_f.Memory.Run.{
  ok, pure, IfReturns, IfReturns-and_then, IfReturns-weaken, IfReturns-any, ◌>>=◌,
}
use sysprog_labs_f.UserFs.State.{
  Slot, Fs, File, load_block, load_file, update_file, free_block, free_file, read_slot, write_slot,
  slots,
}
use sysprog_labs_f.UserFs.Blocks.{free_blocks, free_file_memory}
use sysprog_labs_f.UserFs.Api.{drop_file, destroy_files, destroy_descriptors, ufs_destroy}

-- What the reads and writes do when they do not fail.
module _ (s : Fs) (p : Ptr) where
  load_file-if : IfReturns (λ f t. (t ≡ s) × (get p s.files ≡ some f)) (load_file p s)
  unfolding load_file
  load_file-if = elim (Bool-cases (p == null)) [
    | inl e ↦ rw e tt
    | inr e ↦ elim (Option-cases (get p s.files)) [
      | inl gone ↦ rw (e, gone) tt
      | inr (f, at) ↦ rw (e, at) (refl, refl)
    ]
  ]

  load_block-if : IfReturns (λ b t. t ≡ s) (load_block p s)
  unfolding load_block
  load_block-if = elim (Bool-cases (p == null)) [
    | inl e ↦ rw e tt
    | inr e ↦ elim (Option-cases (get p s.blocks)) [
      | inl gone ↦ rw (e, gone) tt
      | inr (b, at) ↦ rw (e, at) refl
    ]
  ]

abbrev SameFiles : Fs → {A : Type 0} → A → Fs → Type 0
SameFiles s a t = t.files ≡ s.files

free_block-if : (s : Fs) (p : Ptr) → IfReturns (SameFiles s) (free_block p s)
unfolding free_block
free_block-if s p =
    IfReturns-and_then _ _ (load_block p s) _ (load_block-if s p)
      λ b t same. ap (λ (u : Fs). u.files) same

free_blocks-if : (k : ℕ) (p : Ptr) (s : Fs) → IfReturns (SameFiles s) (free_blocks k p s)
unfolding free_blocks
free_blocks-if zero p s = tt
free_blocks-if (suc k) p s = elim (Bool-cases (p == null)) [
  | inl e ↦ rw e refl
  | inr e ↦ rw e (
      IfReturns-and_then (λ b t. t ≡ s) _ (load_block p s) _ (load_block-if s p)
        λ b t same.
          IfReturns-and_then (SameFiles t) _ (free_block p t) _ (free_block-if t p) λ u v freed.
            IfReturns-weaken (SameFiles v) _ (free_blocks k b.next v) (free_blocks-if k b.next v)
              λ x w more. more ∙ freed ∙ ap (λ (z : Fs). z.files) same)
]

module _ (a : Ptr) where
  -- The file at `a` is gone.
  abbrev Gone : Fs → Type 0
  Gone s = get a s.files ≡ none

  update_file-if :
      (p : Ptr) (g : File → File) (s : Fs) → Gone s → IfReturns (λ r t. Gone t) (update_file p g s)
  unfolding update_file
  update_file-if p g s gone =
      IfReturns-and_then _ _ (load_file p s) _ (load_file-if s p) λ f t (same, at).
        let still = ap (λ (u : Fs). get a u.files) same ∙ gone in
        let other : p ≢ a = λ e. ground (arith, sym at ∙ ap (λ q. get q s.files) e ∙ gone) in
        get-put_ne a p (g f) t.files other ∙ still

  free_file-if : (p : Ptr) (s : Fs) → Gone s → IfReturns (λ r t. Gone t) (free_file p s)
  unfolding free_file
  free_file-if p s gone =
      IfReturns-and_then _ _ (load_file p s) _ (load_file-if s p) λ f t (same, at).
        let still = ap (λ (u : Fs). get a u.files) same ∙ gone in
        ground (arith, get-remove a p t.files, still)

  free_file_memory-if :
      (fuel : ℕ) (p : Ptr) (s : Fs) → Gone s → IfReturns (λ r t. Gone t) (free_file_memory fuel p s)
  unfolding free_file_memory
  free_file_memory-if fuel p s gone =
      IfReturns-and_then _ _ (load_file p s) _ (load_file-if s p) λ f t (same, at).
        IfReturns-and_then _ _ (free_blocks fuel f.block_list t) _
          (free_blocks-if fuel f.block_list t)
          λ r u kept.
            update_file-if p _ u (ap (get a) kept ∙ ap (λ (z : Fs). get a z.files) same ∙ gone)

  drop_file-if :
      (fuel : ℕ) (p : Ptr) (s : Fs) → Gone s → IfReturns (λ r t. Gone t) (drop_file fuel p s)
  unfolding drop_file
  drop_file-if fuel p s gone =
      IfReturns-and_then (λ r t. Gone t) _ (free_file_memory fuel p s) _
        (free_file_memory-if fuel p s gone) λ r t still. free_file-if p t still

  -- The file itself is gone behind its end.
  drop_file-Gone : (fuel : ℕ) (s : Fs) → IfReturns (λ r t. Gone t) (drop_file fuel a s)
  unfolding drop_file free_file
  drop_file-Gone fuel s =
      IfReturns-and_then (λ r t. Unit {0}) _ (free_file_memory fuel a s) _
        (IfReturns-any (free_file_memory fuel a s))
        λ r t u.
          IfReturns-and_then _ _ (load_file a t) _ (load_file-if t a)
            λ f v (same, at). ground (arith, get-remove a a v.files)

  destroy_files-if :
      (fuel k : ℕ) (p : Ptr) (s : Fs)
      → Gone s
      → IfReturns (λ r t. Gone t) (destroy_files fuel k p s)
  unfolding destroy_files
  destroy_files-if fuel zero p s gone = tt
  destroy_files-if fuel (suc k) p s gone = elim (Bool-cases (p == null)) [
    | inl e ↦ rw e gone
    | inr e ↦ rw e (
        IfReturns-and_then _ _ (load_file p s) _ (load_file-if s p) λ f t (same, at).
          IfReturns-and_then (λ r u. Gone u) _ (drop_file fuel p t) _
            (drop_file-if fuel p t (ap (λ (z : Fs). get a z.files) same ∙ gone))
            λ r u still. destroy_files-if fuel k f.next u still)
  ]

  -- The first file is gone behind the loop over the list.
  destroy_files-Gone :
      (fuel k : ℕ) (s : Fs) → a ≢ null → IfReturns (λ r t. Gone t) (destroy_files fuel k a s)
  unfolding destroy_files
  destroy_files-Gone fuel zero s live = tt
  destroy_files-Gone fuel (suc k) s live =
      let e : (a == null) ≡ false = ground arith in
      rw e (
        IfReturns-and_then _ _ (load_file a s) _ (load_file-if s a) λ f t (same, at).
          IfReturns-and_then (λ r u. Gone u) _ (drop_file fuel a t) _ (drop_file-Gone fuel t)
            λ r u gone. destroy_files-if fuel k f.next u gone)

  write_slot-if :
      (i : ℕ) (v : Slot) (s : Fs) → Gone s → IfReturns (λ r t. Gone t) (write_slot i v s)
  unfolding write_slot
  write_slot-if i v s gone = elim (Option-cases (slots s.descriptors)) [
    | inl none_there ↦ rw none_there tt
    | inr (l, e) ↦ elim (Option-cases (get_elem? l i)) [
      | inl out ↦ rw (e, out) tt
      | inr (old, at) ↦ rw (e, at) gone
    ]
  ]

  read_slot-if : (i : ℕ) (s : Fs) → Gone s → IfReturns (λ r t. Gone t) (read_slot i s)
  unfolding read_slot
  read_slot-if i s gone = elim (Option-cases (slots s.descriptors)) [
    | inl none_there ↦ rw none_there tt
    | inr (l, e) ↦ elim (Option-cases (get_elem? l i)) [
      | inl out ↦ rw (e, out) tt
      | inr (old, at) ↦ rw (e, at) gone
    ]
  ]

  -- The test on the file of a descriptor.
  release-if :
      (fuel : ℕ) (p : Ptr) (s : Fs)
      → Gone s
      → IfReturns
          (λ r t. Gone t)
          ((if p == null
              then pure tt
              else do f ← load_file p; if f.in_list then pure tt else drop_file fuel p)
            s)
  release-if fuel p s gone = elim (Bool-cases (p == null)) [
    | inl e ↦ rw e gone
    | inr e ↦ rw e (
        IfReturns-and_then _ _ (load_file p s) _ (load_file-if s p) λ f t (same, at).
          let still = ap (λ (z : Fs). get a z.files) same ∙ gone in
          elim (Bool-cases f.in_list) [
            | inl listed ↦ rw listed still
            | inr off ↦ rw off (drop_file-if fuel p t still)
          ])
  ]

  destroy_descriptors-if :
      (fuel n i : ℕ) (s : Fs) → Gone s → IfReturns (λ r t. Gone t) (destroy_descriptors fuel n i s)
  unfolding destroy_descriptors
  destroy_descriptors-if fuel zero i s gone = gone
  destroy_descriptors-if fuel (suc n) i s gone =
      IfReturns-and_then (λ r t. Gone t) _ (read_slot i s) _ (read_slot-if i s gone)
        λ slot t still. elim (Option-cases slot) [
          | inl empty ↦ rw empty (destroy_descriptors-if fuel n (i + 1) t still)
          | inr (d, held) ↦ rw held (
              IfReturns-and_then (λ r u. Gone u) _ _ _ (release-if fuel d.file t still)
                λ r u off.
                  IfReturns-and_then (λ x v. Gone v) _ (write_slot i none u) _
                    (write_slot-if i none u off)
                    λ x v free. destroy_descriptors-if fuel n (i + 1) v free)
        ]

  free_file-Gone : (s : Fs) → Gone s → IfReturns (λ r t. ⊥) (free_file a s)
  unfolding free_file
  free_file-Gone s gone =
      IfReturns-and_then _ _ (load_file a s) _ (load_file-if s a)
        λ f t (same, at). absurd (ground (arith, sym at ∙ gone))

-- Whatever the state is, with a file in the file list and any fuel, `ufs_destroy` does not return.
pub ufs_destroy_lem : (fuel : ℕ) (s t : Fs) → s.file_list ≢ null → ufs_destroy fuel s ≢ ok tt t
unfolding ufs_destroy
ufs_destroy_lem fuel s t some_file e =
    let a = s.file_list in
    let live : (a == null) ≡ false = ground arith in
    let never : IfReturns (λ r u. ⊥) (ufs_destroy fuel s) =
      IfReturns-and_then (λ r u. Gone a u) _ (destroy_files fuel fuel a s) _
        (destroy_files-Gone a fuel fuel s some_file)
        λ r u gone.
          IfReturns-and_then (λ x v. Gone a v) _ (destroy_descriptors fuel u.capacity 0 u) _
            (destroy_descriptors-if a fuel u.capacity 0 u gone)
            λ x v still. rw live (
              IfReturns-and_then (λ y w. ⊥) _ (free_file a v) _ (free_file-Gone a v still)
                λ y w no. absurd no) in
    subst (λ m. IfReturns (λ r u. ⊥) m) e never
