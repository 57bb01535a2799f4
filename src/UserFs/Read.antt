-- ===== src/UserFs/Read.antt =====
-- `ufs_read` returns the bytes of the file from the offset on.
use mathlib.Core.List.{append_assoc, append-nil}
use sysprog_labs_f.Base.{
  ℕ, zero, suc, ◌-◌, ◌^◌, ◌≤◌, ◌<◌, ◌≡◌, ◌⊎◌, inl, inr, refl, ap, ◌∙◌, sym, List, [], ◌∷◌, ◌++◌,
  false, min, arith, ltb, ◌==◌, length, take, drop, drop-all, length-drop, Bool-cases, leb,
}
use sysprog_labs_f.Base.Slices.{take-append, drop-append, take-nil, drop-nil, take-take, drop-take}
use sysprog_labs_f.Memory.Store.{Ptr, null}
use sysprog_labs_f.Memory.Run.{ok}
use sysprog_labs_f.Memory.Chain.{Cell, first, Seg}
use sysprog_labs_f.UserFs.State.{Fs, block_size}
use sysprog_labs_f.UserFs.Blocks.{read_loop}
use sysprog_labs_f.UserFs.Content.{
  Content, mk_block, bytes, content, size, IsPacked, length-bytes, length-content, content-nil,
}
use sysprog_labs_f.UserFs.Layout.{load_block-ok}

module _ (c : Cell Content) (ys : List (Cell Content)) (p : IsPacked (c ∷ ys)) (o : ℕ) where
  -- Past a block the rest of the file follows.
  drop-past : block_size ≤ o → drop o (content (c ∷ ys)) ≡ drop (o - block_size) (content ys)
  drop-past h =
      drop-append o (bytes c.datum) (content ys)
      ∙ rw (drop-all o (bytes c.datum) (omega (arith, length-bytes c.datum p.0, p.0.fits)))
          (rest p.1)
    where
      rest :
          (c.datum.occupied ≡ block_size) ⊎ (size ys ≡ 0)
          → drop (o - length (bytes c.datum)) (content ys) ≡ drop (o - block_size) (content ys)
      rest (inl full) =
          let e : o - length (bytes c.datum) ≡ o - block_size =
            omega (arith, length-bytes c.datum p.0) in
          rw e refl
      rest (inr empty) = rw (content-nil ys p.2 empty) (simp drop-nil)

  -- Past the end there is nothing.
  drop-end : c.datum.occupied < o → o < block_size → drop o (content (c ∷ ys)) ≡ []
  drop-end h l =
      drop-all o (content (c ∷ ys)) (omega (arith, length-content (c ∷ ys) p, size-ys p.1))
    where
      size-ys : (c.datum.occupied ≡ block_size) ⊎ (size ys ≡ 0) → size ys ≡ 0
      size-ys (inl full) = absurd (omega arith)
      size-ys (inr empty) = empty

  -- A round takes what it can from its block.
  take-round :
      (n : ℕ)
      → o ≤ c.datum.occupied
      → take (min (c.datum.occupied - o) n) (drop o c.datum.memory)
          ++ take (n - min (c.datum.occupied - o) n) (content ys)
        ≡ take n (drop o (content (c ∷ ys)))
  take-round n h =
      let front : drop o (bytes c.datum) ≡ take (c.datum.occupied - o) (drop o c.datum.memory) =
        drop-take o c.datum.occupied c.datum.memory in
      let here : o - length (bytes c.datum) ≡ 0 = omega (arith, length-bytes c.datum p.0) in
      let left : n - length (drop o (bytes c.datum)) ≡ n - min (c.datum.occupied - o) n =
        omega (arith, length-drop o (bytes c.datum), length-bytes c.datum p.0) in
      sym (
        rw
          (
            drop-append o (bytes c.datum) (content ys),
            here,
            take-append n (drop o (bytes c.datum)) (content ys),
            left,
            front,
            take-take n (c.datum.occupied - o) (drop o c.datum.memory),
          )
          refl)

-- The loop, given enough fuel.
pub read_loop_lem :
    (s : Fs) (lead : Ptr) (xs : List (Cell Content)) (k offset n : ℕ) (out : List ℕ)
    → Seg mk_block s.blocks lead xs null
    → IsPacked xs
    → length xs < k
    → n < 2 ^ 63
    → read_loop k (first xs null) offset n out s ≡ ok (out ++ take n (drop offset (content xs))) s
unfolding read_loop
read_loop_lem s lead xs zero offset n out chain p h word = absurd (omega arith)
read_loop_lem s lead [] (suc k) offset n out chain p h word =
    ap (λ l. ok l s) (sym (simp (drop-nil, take-nil, append-nil)))
read_loop_lem s lead (c ∷ ys) (suc k) offset n out chain p h word =
    let positive : leb (2 ^ 63) n ≡ false = ground arith in
    let live : (c.at == null) ≡ false = ground (arith, chain.0) in
    elim (Bool-cases (n == 0)) [
      | inl e ↦
          let z : n ≡ 0 = ground arith in rw (live, e, z) (ap (λ l. ok l s) (sym (append-nil out)))
      | inr e ↦
          rw (live, e, load_block-ok s c.at chain.0 _ chain.1)
            (elim (Bool-cases (min offset block_size == block_size)) [
              | inl full ↦
                  rw (full, drop-past c ys p offset (ground arith))
                    (read_loop_lem s c.at ys k (offset - block_size) n out chain.3 p.2 (omega arith)
                      word)
              | inr part ↦
                  let here : min offset block_size ≡ offset = ground arith in
                  rw (part, here)
                    (elim (Bool-cases (ltb c.datum.occupied offset)) [
                      | inl past ↦
                          rw (past, drop-end c ys p offset (ground arith) (ground arith))
                            (ap (λ l. ok l s) (sym (simp (take-nil, append-nil))))
                      | inr within ↦
                          rw (within, positive)
                            (read_loop_lem s c.at ys k 0 _ _ chain.3 p.2 (omega arith) (omega arith)
                              ∙ ap (λ l. ok l s)
                                  (append_assoc out _ _
                                    ∙ ap (◌++◌ out) (take-round c ys p offset n (ground arith))))
                    ])
            ])
    ]
