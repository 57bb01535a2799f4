-- ===== src/UserFs/Endless.antt =====
-- The loop of `ufs_resize` does not end when the file is to grow, or to keep its size, and the
-- new size is no multiple of the block size.
use mathlib.Core.List.{append_assoc, append-nil}
use sysprog_labs_f.Base.{
  ℕ, zero, suc, ◌%◌, ◌^◌, ◌≤◌, ◌<◌, ◌≡◌, ◌≢◌, refl, ap, ◌∙◌, List, [], ◌∷◌, ◌++◌, true, false, Bool,
  not, arith, ltb, leb, ◌==◌, inl, inr, if◌then◌else◌, Bool-cases,
}
use sysprog_labs_f.Base.Int.{ℤ, pos}
use sysprog_labs_f.Memory.Store.{Ptr, null}
use sysprog_labs_f.Memory.Run.{Run, out_of_fuel, Returns-eq}
use sysprog_labs_f.Memory.Chain.{Cell, first}
use sysprog_labs_f.UserFs.State.{
  Fs, Env, File, Filedesc, block_size, max_file_size, no_permission, no_mem, fail,
}
use sysprog_labs_f.UserFs.Blocks.{resize_loop, sub_size}
use sysprog_labs_f.UserFs.Api.{ufs_resize, resize_file}
use sysprog_labs_f.UserFs.Content.{Content, size, IsPacked}
use sysprog_labs_f.UserFs.Layout.{IsFile, load_block-ok, load_file-ok}
use sysprog_labs_f.UserFs.Create.{create_block_lem, new_cell}
use sysprog_labs_f.UserFs.Round.{block_at}
use sysprog_labs_f.UserFs.Open.{IsOpen, is_valid_fd-open, descriptor-open}

module _ (env : Env) (f : Ptr) (fl : File) where
  -- Once the blocks are used up, every round adds one, and `new_size` wraps round below zero.
  creating :
      (k n : ℕ) (s : Fs) (xs : List (Cell Content))
      → IsFile s f fl xs
      → n % block_size ≢ 0
      → n < 2 ^ 64
      → resize_loop env f k null n s ≡ out_of_fuel
  unfolding resize_loop
  creating zero n s xs is odd word = refl
  creating (suc k) zero s xs is odd word = absurd (odd refl)
  creating (suc k) (suc n) s xs is odd word =
      let (q, t, eq, (at, created, kept)) = Returns-eq (create_block_lem env f fl s xs is) in
      let (live_at, there) = block_at f fl t (new_cell env s) xs [] created in
      rw (eq, at, load_block-ok t (env.blocks.place s.blocks) live_at _ there)
        (creating k (sub_size (suc n) block_size) t (xs ++ new_cell env s ∷ []) created
          (omega arith) (omega arith))

  endless :
      (k n : ℕ) (s : Fs) (pre suf : List (Cell Content))
      → IsFile s f fl (pre ++ suf)
      → IsPacked suf
      → size suf ≤ n
      → n % block_size ≢ 0
      → n < 2 ^ 64
      → resize_loop env f k (first suf null) n s ≡ out_of_fuel
  unfolding resize_loop
  endless zero n s pre suf is p big odd word = refl
  endless (suc k) zero s pre suf is p big odd word = absurd (odd refl)
  endless (suc k) (suc n) s pre [] is p big odd word =
      creating (suc k) (suc n) s pre (rw (append-nil pre) at is) odd word
  endless (suc k) (suc n) s pre (c ∷ ys) is p big odd word =
      let (live_at, there) = block_at f fl s c pre ys is in
      let live : (c.at == null) ≡ false = ground arith in
      let here = rw (← append_assoc pre (c ∷ []) ys) at is in
      rw (live, load_block-ok s c.at live_at _ there)
        (elim (Bool-cases (leb block_size (suc n))) [
          | inl e ↦ rw e (
              endless k (sub_size (suc n) block_size) s (pre ++ c ∷ []) ys here p.2
                (elim p.1 [ inl full ↦ ground arith | inr empty ↦ ground arith ]) (ground arith)
                (omega arith))
          | inr e ↦
              let kept : ltb (suc n) c.datum.occupied ≡ false = ground arith in
              rw (e, kept) (endless k (suc n) s (pre ++ c ∷ []) ys here p.2 (omega arith) odd word)
        ])

-- The call behind its tests.
module _ (env : Env) (fuel : ℕ) (s : Fs) (i : ℕ) (d : Filedesc) (open_at : IsOpen s i d) where
  abbrev permitted : ℕ → Bool → Run Fs ℤ
  permitted n b =
      (if not b
          then fail no_permission
          else if ltb max_file_size n
          then fail no_mem
          else resize_file env fuel d.file n)
        s

  pub ufs_resize-open : (n : ℕ) → ufs_resize env fuel (pos i) n s ≡ permitted n d.can_write
  unfolding ufs_resize
  ufs_resize-open n = rw (is_valid_fd-open s i d open_at, descriptor-open s i d open_at)

  -- A resize to a size that is no multiple of 512, that is not below the size of the file and
  -- within the limit, through an open descriptor that may write, of a file whose blocks are packed:
  -- the call does not return, however much fuel it has.
  pub ufs_resize_endless :
      (fl : File) (xs : List (Cell Content)) (n : ℕ)
      → IsFile s d.file fl xs
      → IsPacked xs
      → d.can_write ≡ true
      → size xs ≤ n
      → n ≤ max_file_size
      → n % block_size ≢ 0
      → ufs_resize env fuel (pos i) n s ≡ out_of_fuel
  unfolding resize_file
  ufs_resize_endless fl xs n is p allowed big fits odd =
      let test : ltb max_file_size n ≡ false = ground arith in
      ufs_resize-open n
      ∙ ap (permitted n) allowed
      ∙ rw
          (
            test,
            load_file-ok s d.file is.ne_null _ is.holds,
            endless env d.file fl fuel n s [] xs is p big odd (omega arith),
          )
          refl
