-- ===== src/UserFs/Write.antt =====
-- The loop of `ufs_write` overwrites the bytes of the file, and adds blocks where it must.
use mathlib.Core.List.{append_assoc, append-nil}
use sysprog_labs_f.Base.{
  ℕ, zero, suc, ◌+◌, ◌-◌, ◌≤◌, ◌<◌, ◌≡◌, ◌≢◌, refl, ap, sym, inl, inr, List, [], ◌∷◌, ◌++◌, min,
  max, false, arith, ◌==◌, length, take, drop, length-drop, Bool-cases,
}
use sysprog_labs_f.Base.Bytes.{overwrite, overwrite-nil}
use sysprog_labs_f.Memory.Store.{Ptr, null}
use sysprog_labs_f.Memory.Run.{Cmd, Returns, returns, Returns-weaken, Returns-eq}
use sysprog_labs_f.Memory.Chain.{Cell, first, last, has-append}
use sysprog_labs_f.UserFs.State.{Fs, Env, Block, File, block_size, with_block}
use sysprog_labs_f.UserFs.Blocks.{write_loop, write_round, ensure_block, splice}
use sysprog_labs_f.UserFs.Content.{Content, mk_block, content, IsPacked, written}
use sysprog_labs_f.UserFs.Layout.{
  IsFile, Kept, Kept-refl, Kept-trans, load_block-ok, update_block-ok,
}
use sysprog_labs_f.UserFs.Create.{create_block_lem, new_cell}
use sysprog_labs_f.UserFs.Round.{
  IsFile-update, Kept-update, block_at, Wrote, Writes, skip, amount, length-new, filled, fill,
}

module _ (f : Ptr) (fl : File) where
  write_round_lem :
      (loop : Ptr → ℕ → List ℕ → ℕ → Cmd Fs ℕ) (fuel : ℕ)
      → Writes f fl loop fuel
      → (s : Fs) (pre ys : List (Cell Content)) (c : Cell Content) (offset : ℕ) (rest : List ℕ)
        (start limit : ℕ)
      → IsFile s f fl (pre ++ c ∷ ys)
      → IsPacked (c ∷ ys)
      → length ys + length rest ≤ fuel
      → 0 < length rest
      → length ys + length rest ≤ limit
      → (c.datum.occupied ≡ block_size
          → (length ys + length rest < fuel) × (length ys + length rest < limit))
      → Returns
          (Wrote f fl limit s pre (c ∷ ys) offset rest start)
          (write_round loop c.at offset rest start s)
  unfolding write_round
  write_round_lem loop fuel ih s pre ys c offset rest start limit is p enough some_left room
        if_full =
      let (pos, at) = block_at f fl s c pre ys is in
      let b = mk_block c.datum (first ys null) (last is.lead pre) in
      let k = min offset c.datum.occupied in
      let n = amount f fl k rest in
      let here = rw (← append_assoc pre (c ∷ []) ys) at is in
      let g = λ (x : Block). record x {
        memory = splice x.memory k (take n rest);
        occupied = max (k + n) x.occupied;
      } in
      let low : k ≤ c.datum.occupied = omega arith in
      let s₁ = with_block c.at (mk_block (written c.datum k (take n rest)) b.next b.prev) s in
      let as_written : with_block c.at (g b) s ≡ s₁ =
        ap
          (λ (i : ℕ).
            with_block c.at
              (record b {
                memory = splice b.memory k (take n rest);
                occupied = max (k + i) b.occupied;
              })
              s)
          (sym (length-new f fl pre ys c k rest p low)) in
      let is₁ = IsFile-update f fl s c.at c.datum (written c.datum k (take n rest)) pre ys is in
      rw (load_block-ok s c.at pos b at) (elim (Bool-cases (k == block_size)) [
        | inl e ↦
            let full : k ≡ block_size = ground arith in
            rw (e, write_round)
              (Returns-weaken
                (ih s (pre ++ c ∷ []) ys (offset - block_size) rest start here p.2
                  (if_full (omega (arith, p.0.fits))).0)
                λ m t w.
                  skip f fl s t pre ys c offset rest start m limit p
                    (if_full (omega (arith, p.0.fits))).1 full w)
        | inr e ↦
            let ne : k ≢ block_size = ground arith in
            rw (e, write_round, update_block-ok s c.at pos g b at, as_written)
              (Returns-weaken
                (ih s₁ (pre ++ filled f fl pre ys c k rest p low ∷ []) ys 0 (drop n rest)
                  (start + n)
                  (rw (← append_assoc pre (filled f fl pre ys c k rest p low ∷ []) ys) at is₁) p.2
                  (omega (arith, length-drop n rest, p.0.fits)))
                λ m t w.
                  fill f fl pre ys c k rest p low s s₁ t offset start m limit some_left room refl ne
                    (Kept-update f fl s c.at _ c.datum pre ys) w)
      ])

  -- A round on the block that was just created.
  on_new :
      (env : Env) (s t u : Fs) (pre : List (Cell Content)) (offset : ℕ) (rest : List ℕ)
      (start n : ℕ)
      → Kept f pre s t
      → Wrote f fl (length rest) t pre (new_cell env s ∷ []) 0 rest start n u
      → Wrote f fl (0 + length rest) s pre [] offset rest start n u
  unfolding overwrite
  on_new env s t u pre offset rest start n first_kept (e, (zs, is, q, read, short, kept)) = (
    e,
    (
      zs,
      is,
      q,
      read,
      omega arith,
      rw (append-nil pre) (
          Kept-trans first_kept kept λ a out alive.
            let other : env.blocks.place s.blocks ≢ a =
              λ z. alive (rw (← z) (env.blocks.place-unused s.blocks)) in
            ground (arith, has-append a pre (new_cell env s ∷ []))),
    ),
  )

  -- The loop of `ufs_write`, given enough fuel: it ends, all of `buf` is written, and the bytes from
  -- the offset on (or from the end of the file on, if that is nearer) are overwritten.
  pub write_loop_lem : (env : Env) (k : ℕ) → Writes f fl (write_loop env f k) k
  unfolding write_loop ensure_block
  write_loop_lem env zero s pre suf offset rest start is p enough = absurd (omega arith)
  write_loop_lem env (suc k) s pre suf offset [] start is p enough =
      returns (
        omega arith,
        (suf, is, p, sym (overwrite-nil (content suf) _), omega arith, Kept-refl f _ s),
      )
  write_loop_lem env (suc k) s pre (c ∷ ys) offset (x ∷ rest) start is p enough =
      let (pos, at) = block_at f fl s c pre ys is in
      let live : (c.at == null) ≡ false = ground arith in
      rw (live) (
        write_round_lem (write_loop env f k) k (write_loop_lem env k) s pre ys c offset (x ∷ rest)
          start _ is p (omega arith) (omega arith) (omega arith) (λ e. omega arith))
  write_loop_lem env (suc k) s pre [] offset (x ∷ rest) start is p enough =
      let (q, t, eq, (at, created, kept)) =
        Returns-eq (create_block_lem env f fl s pre (rw (append-nil pre) at is)) in
      let whole : IsPacked (new_cell env s ∷ []) =
        (record { whole = env.raw_memory s.blocks; fits = omega arith }, inr refl, tt) in
      rw (eq, at)
        (Returns-weaken
          (write_round_lem (write_loop env f k) k (write_loop_lem env k) t pre [] (new_cell env s) 0
            (x ∷ rest) start (length (x ∷ rest)) created whole (omega arith) (omega arith)
            (omega arith) (λ e. absurd (omega arith)))
          λ n u w. on_new env s t u pre offset (x ∷ rest) start n kept w)
