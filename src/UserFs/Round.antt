-- ===== src/UserFs/Round.antt =====
-- What one round of the loop of `ufs_write` does to the blocks and the bytes of a file.
use mathlib.Core.List.{append_assoc}
use sysprog_labs_f.Base.{
  ℕ, suc, ◌+◌, ◌-◌, ◌≤◌, ◌<◌, ◌≡◌, ◌≢◌, refl, ap, ◌∙◌, sym, ◌⊎◌, inl, inr, List, [], ◌∷◌, ◌++◌, min,
  max, some, arith, length, take, drop, length-take, length-drop, take-append-drop, drop-all, ltb,
  Bool-cases,
}
use sysprog_labs_f.Base.Bytes.{overwrite, overwrite-nil, overwrite-skip}
use sysprog_labs_f.Memory.Store.{Ptr, null, get, get-put}
use sysprog_labs_f.Memory.Run.{Cmd, Returns}
use sysprog_labs_f.Memory.Chain.{
  Cell, cell, first, last, has-append, last-append, first-append, Seg-right, Seg-update,
}
use sysprog_labs_f.UserFs.State.{Fs, Block, File, block_size, with_block}
use sysprog_labs_f.UserFs.Content.{
  Content, mk_block, bytes, content, size, IsPacked, length-content, written, bytes-written,
  written-IsBlock, content-written, length-bytes,
}
use sysprog_labs_f.UserFs.Layout.{IsFile, Kept, Kept-trans}

module _ (f : Ptr) (fl : File) where
  -- A block of the file is given another content.
  pub IsFile-update :
      (s : Fs) (p : Ptr) (d e : Content) (xs ys : List (Cell Content))
      → (is : IsFile s f fl (xs ++ cell p d ∷ ys))
      → IsFile
          (with_block p (mk_block e (first ys null) (last is.lead xs)) s)
          f
          fl
          (xs ++ cell p e ∷ ys)
  IsFile-update s p d e xs ys is = record {
    ne_null = is.ne_null;
    holds =
        rw
          (
            first-append xs (cell p e ∷ ys) null,
            last-append null xs (cell p e ∷ ys),
            ← first-append xs (cell p d ∷ ys) null,
            ← last-append null xs (cell p d ∷ ys),
          )
          is.holds;
    lead = is.lead;
    chain = Seg-update mk_block s.blocks is.lead null p d e xs ys is.chain;
  }

  pub Kept-update :
      (s : Fs) (p : Ptr) (b : Block) (d : Content) (xs ys : List (Cell Content))
      → Kept f (xs ++ cell p d ∷ ys) s (with_block p b s)
  Kept-update s p b d xs ys = record {
    error = refl;
    file_list = refl;
    descriptors = refl;
    count = refl;
    capacity = refl;
    files = λ g h. refl;
    blocks = λ q out a. ground (arith, has-append q xs (cell p d ∷ ys), get-put q p b s.blocks);
  }

  -- The first block of the rest of a file, as it lies in memory.
  pub block_at :
      (s : Fs) (c : Cell Content) (xs ys : List (Cell Content))
      → (is : IsFile s f fl (xs ++ c ∷ ys))
      → (c.at ≢ null)
        × (get c.at s.blocks ≡ some (mk_block c.datum (first ys null) (last is.lead xs)))
  block_at s c xs ys is =
      let end = Seg-right mk_block s.blocks is.lead null xs (c ∷ ys) is.chain in (end.0, end.1)

  abbrev pub Wrote :
      ℕ → Fs → List (Cell Content) → List (Cell Content) → ℕ → List ℕ → ℕ → ℕ → Fs → Type 0
  Wrote limit s pre suf offset rest start n t =
      (n ≡ start + length rest)
      × ((ys : List (Cell Content)) × IsFile t f fl (pre ++ ys)
          × IsPacked ys
          × (content ys ≡ overwrite (content suf) (min offset (size suf)) rest)
          × (length ys ≤ limit)
          × Kept f (pre ++ suf) s t)

  -- What the loop does with `k` rounds, from any state.
  abbrev pub Writes : (Ptr → ℕ → List ℕ → ℕ → Cmd Fs ℕ) → ℕ → Type 0
  Writes loop k =
      (s : Fs) (pre suf : List (Cell Content)) (offset : ℕ) (rest : List ℕ) (start : ℕ)
      → IsFile s f fl (pre ++ suf)
      → IsPacked suf
      → length suf + length rest < k
      → Returns (Wrote (length suf + length rest) s pre suf offset rest start)
          (loop (first suf null) offset rest start s)

  -- A round on a full block before the offset goes on to the next block.
  pub skip :
      (s t : Fs) (pre ys : List (Cell Content)) (c : Cell Content) (offset : ℕ) (rest : List ℕ)
      (start n limit : ℕ)
      → IsPacked (c ∷ ys)
      → suc (length ys + length rest) ≤ limit
      → min offset c.datum.occupied ≡ block_size
      → Wrote (length ys + length rest) s (pre ++ c ∷ []) ys (offset - block_size) rest start n t
      → Wrote limit s pre (c ∷ ys) offset rest start n t
  skip s t pre ys c offset rest start n limit p room full (e, (zs, is, q, read, short, kept)) = (
    e,
    (
      c ∷ zs,
      rw (append_assoc pre (c ∷ []) zs) at is,
      (p.0, inl (omega (arith, p.0.fits)), q),
      ap (◌++◌ (bytes c.datum)) read
          ∙ sym (
              overwrite-skip (bytes c.datum) (content ys) rest
                (min (offset - block_size) (size ys)))
          ∙ ap (λ i. overwrite (bytes c.datum ++ content ys) i rest)
              (omega (arith, length-bytes c.datum p.0, p.0.fits)),
      omega arith,
      rw (append_assoc pre (c ∷ []) ys) at kept,
    ),
  )

  -- What a round on a block that is not full before the offset writes.
  abbrev pub amount : ℕ → List ℕ → ℕ
  amount k rest = min (length rest) (block_size - k)

  module _ (pre ys : List (Cell Content)) (c : Cell Content) (k : ℕ) (rest : List ℕ)
      (p : IsPacked (c ∷ ys)) (h : k ≤ c.datum.occupied) where
    abbrev pub new : List ℕ
    new = take (amount k rest) rest

    abbrev pub more : List ℕ
    more = drop (amount k rest) rest

    abbrev pub filled : Cell Content
    filled = cell c.at (written c.datum k new)

    pub length-new : length new ≡ amount k rest
    length-new = omega (arith, length-take (amount k rest) rest)

    more_cases : (more ≡ []) ⊎ (k + length new ≡ block_size)
    more_cases = elim (Bool-cases (ltb (block_size - k) (length rest))) [
      | inl t ↦ inr (ground (arith, length-new, p.0.fits))
      | inr e ↦ inl (drop-all (amount k rest) rest (ground arith))
    ]

    fits : k + length new ≤ block_size
    fits = omega (arith, length-new, p.0.fits)

    filled-IsPacked :
        (zs : List (Cell Content))
        → IsPacked zs
        → content zs ≡ overwrite (content ys) (min 0 (size ys)) more
        → IsPacked (filled ∷ zs)
    filled-IsPacked zs q read = (written-IsBlock c.datum k new p.0 h fits, shape more_cases p.1, q)
      where
        kept : more ≡ [] → size zs ≡ size ys
        kept e =
            let same : content zs ≡ content ys =
              read ∙ rw e (overwrite-nil (content ys) (min 0 (size ys))) in
            omega (arith, ap length same, length-content zs q, length-content ys p.2)

        shape :
            (more ≡ []) ⊎ (k + length new ≡ block_size)
            → (c.datum.occupied ≡ block_size) ⊎ (size ys ≡ 0)
            → (max (k + length new) c.datum.occupied ≡ block_size) ⊎ (size zs ≡ 0)
        shape (inl e) (inl full) = inl (omega (arith, fits))
        shape (inl e) (inr none_left) = inr (kept e ∙ none_left)
        shape (inr e) d = inl (omega (arith, p.0.fits))

    -- A round that writes.
    pub fill :
        (s s₁ t : Fs) (offset start n limit : ℕ)
        → 0 < length rest
        → length ys + length rest ≤ limit
        → k ≡ min offset c.datum.occupied
        → k ≢ block_size
        → Kept f (pre ++ c ∷ ys) s s₁
        → Wrote
            (length ys + length more)
            s₁
            (pre ++ filled ∷ [])
            ys
            0
            more
            (start + amount k rest)
            n
            t
        → Wrote limit s pre (c ∷ ys) offset rest start n t
    fill s s₁ t offset start n limit some_left room at ne first_kept
          (e, (zs, is, q, read, short, kept)) =
        (
          omega (arith, length-drop (amount k rest) rest),
          (
            filled ∷ zs,
            rw (append_assoc pre (filled ∷ []) zs) at is,
            filled-IsPacked zs q read,
            content-zs,
            omega (arith, length-drop (amount k rest) rest, p.0.fits),
            Kept-trans first_kept kept λ a out alive. ground (
              arith,
              has-append a pre (c ∷ ys),
              has-append a (pre ++ filled ∷ []) ys,
              has-append a pre (filled ∷ []),
            ),
          ),
        )
      where
        point : k ≡ min offset (c.datum.occupied + size ys)
        point = elim p.1 [ inl full ↦ omega arith | inr none_left ↦ omega arith ]

        content-zs :
            bytes (written c.datum k new) ++ content zs
            ≡ overwrite (bytes c.datum ++ content ys) (min offset (c.datum.occupied + size ys)) rest
        content-zs =
            let start_at : min 0 (size ys) ≡ 0 = omega arith in
            rw (bytes-written c.datum k new p.0 h fits, read, start_at, ← point)
              (content-written c.datum ys k new more p.0 p.1 p.2 h fits more_cases
                ∙ ap (overwrite (bytes c.datum ++ content ys) k)
                    (take-append-drop (amount k rest) rest))
