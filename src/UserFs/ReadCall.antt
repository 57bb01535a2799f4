-- ===== src/UserFs/ReadCall.antt =====
-- `ufs_read`: the whole call on an open descriptor, and what a write leaves for a reader.
use sysprog_labs_f.Base.{
  [], ℕ, ◌+◌, ◌-◌, ◌^◌, ◌≤◌, ◌<◌, ◌≡◌, ◌≢◌, refl, ap, ◌∙◌, sym, subst, List, Bool, true, false, not,
  some, min, arith, if◌then◌else◌, length, take, drop, set,
}
use sysprog_labs_f.Base.Bytes.{take-drop-overwrite}
use sysprog_labs_f.Base.Int.{ℤ, pos}
use sysprog_labs_f.Memory.Run.{Run, ok, Returns-eq}
use sysprog_labs_f.Memory.Chain.{Cell}
use sysprog_labs_f.UserFs.State.{Fs, Env, File, Filedesc, array, no_permission, failure}
use sysprog_labs_f.UserFs.Api.{ufs_read, ufs_write, read_file, fail_read}
use sysprog_labs_f.UserFs.Content.{Content, content, size, IsPacked, length-content}
use sysprog_labs_f.UserFs.Layout.{IsFile, load_file-ok}
use sysprog_labs_f.UserFs.Open.{IsOpen, is_valid_fd-open, descriptor-open, store_descriptor-open}
use sysprog_labs_f.UserFs.Read.{read_loop_lem}
use sysprog_labs_f.UserFs.WriteCall.{ufs_write_lem}

module _ (fuel : ℕ) (s : Fs) (i : ℕ) (d : Filedesc) (n : ℕ) (open_at : IsOpen s i d) where
  -- The call behind the test on the descriptor.
  abbrev permitted : Bool → Run Fs (ℤ × List ℕ)
  permitted b = (if not b then fail_read no_permission else read_file fuel (pos i) d n) s

  ufs_read-open : ufs_read fuel (pos i) n s ≡ permitted d.can_read
  unfolding ufs_read
  ufs_read-open = rw (is_valid_fd-open s i d open_at, descriptor-open s i d open_at)

  -- A read of `n` bytes, `n` below 2 ^ 63, through an open descriptor that may read, of a file
  -- whose blocks are packed, with more fuel than blocks: it returns the bytes of the file from the
  -- offset on, `n` of them or what there is, moves the offset behind them, and changes nothing
  -- else.
  pub ufs_read_lem :
      (fl : File) (xs : List (Cell Content))
      → IsFile s d.file fl xs
      → IsPacked xs
      → length xs < fuel
      → n < 2 ^ 63
      → d.can_read ≡ true
      → let out = take n (drop d.offset (content xs)) in
        ufs_read fuel (pos i) n s
        ≡ ok
            (pos (length out), out)
            (record s {
              descriptors =
                  array (set open_at.places i (some (record d { offset = d.offset + length out })));
            })
  unfolding read_file
  ufs_read_lem fl xs is p enough word allowed =
      let loop = read_loop_lem s is.lead xs fuel d.offset n [] is.chain p enough word in
      ufs_read-open
      ∙ ap permitted allowed
      ∙ rw (load_file-ok s d.file is.ne_null _ is.holds, loop)
          (rw (store_descriptor-open s i d open_at _) refl)

  -- A read through an open descriptor that may not read returns -1 and no bytes, and changes the
  -- error code alone, to `no_permission`.
  pub ufs_read_refused :
      d.can_read ≡ false
      → ufs_read fuel (pos i) n s ≡ ok (failure, []) (record s { error = no_permission })
  ufs_read_refused refused = ufs_read-open ∙ ap permitted refused

-- What one descriptor writes, another descriptor of the same file, which stands where the write
-- starts, reads back: if both are open, the first may write and the second read, the blocks of the
-- file are packed, the bytes to write are some, fewer than 2 ^ 63, and fit into what is left for
-- the file, a 64-bit number, and the fuel exceeds the number of blocks and bytes, then the write
-- returns their number, and a read of as many bytes returns exactly them.
pub read-write :
    (env : Env) (fuel : ℕ) (s : Fs) (i j : ℕ) (d e : Filedesc) (buf : List ℕ) (fl : File)
    (xs : List (Cell Content))
    → (open_i : IsOpen s i d) → IsOpen s j e
    → i ≢ j
    → e.file ≡ d.file
    → e.offset ≡ min d.offset (size xs)
    → d.can_write ≡ true
    → e.can_read ≡ true
    → IsFile s d.file fl xs
    → IsPacked xs
    → 0 < length buf
    → length buf ≤ fl.bytes_left
    → fl.bytes_left < 2 ^ 64
    → length buf < 2 ^ 63
    → length xs + length buf < fuel
    → (t : Fs) × (u : Fs) × (ufs_write env fuel (pos i) buf s ≡ ok (pos (length buf)) t)
      × (ufs_read fuel (pos j) (length buf) t ≡ ok (pos (length buf), buf) u)
read-write env fuel s i j d e buf fl xs open_i open_j ne same at w r is p some_left room word signed
      enough =
    let (n, t, eq, done) =
      Returns-eq
        (ufs_write_lem env fuel s i d buf open_i fl xs is p some_left room word enough w) in
    let open_t = done.other_descriptors j e ne open_j in
    let file_e =
      subst (λ g. IsFile t g (record fl { bytes_left = fl.bytes_left - length buf }) done.blocks)
        (sym same) done.file in
    let back =
      ufs_read_lem fuel t j e (length buf) open_t
        (record fl { bytes_left = fl.bytes_left - length buf }) done.blocks file_e done.packed
        (omega (arith, done.short)) signed r in
    let out : take (length buf) (drop e.offset (content done.blocks)) ≡ buf =
      rw (at, done.bytes)
        (take-drop-overwrite (content xs) buf (min d.offset (size xs))
          (omega (arith, length-content xs p))) in
    let after : List ℕ → Fs = λ l. record t {
      descriptors = array (set open_t.places j (some (record e { offset = e.offset + length l })));
    } in
    (
      t,
      after buf,
      eq ∙ ap (λ m. ok m t) done.result,
      subst (λ l. ufs_read fuel (pos j) (length buf) t ≡ ok (pos (length l), l) (after l)) out back,
    )
