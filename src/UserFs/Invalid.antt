-- ===== src/UserFs/Invalid.antt =====
-- The calls of homework03/userfs.c on a number that stands for no open file.
use sysprog_labs_f.Base.{ℕ, ◌≡◌, refl, ap, ◌∙◌, false, List, [], length, Bool-cases, inl, inr}
use sysprog_labs_f.Base.Int.{ℤ, pos}
use sysprog_labs_f.Memory.Run.{ok}
use sysprog_labs_f.UserFs.State.{Fs, Env, Filedesc, Slot, array, no_file, failure}
use sysprog_labs_f.UserFs.Table.{is_valid_fd}
use sysprog_labs_f.UserFs.Api.{ufs_write, ufs_read, ufs_close, ufs_resize}
use sysprog_labs_f.UserFs.Open.{IsOpen, is_valid_fd_iff}

-- The error code is set, and that is all.
abbrev pub no_such_file : Fs → Fs
no_such_file s = record s { error = no_file }

-- No descriptor stands at `fd`.
abbrev pub IsClosed : Fs → ℤ → Type 0
IsClosed s fd = (i : ℕ) (d : Filedesc) → fd ≡ pos i → IsOpen s i d → ⊥

not_valid :
    (s : Fs) (places : List Slot) (fd : ℤ)
    → s.descriptors ≡ array places
    → length places ≡ s.capacity
    → IsClosed s fd
    → is_valid_fd fd s ≡ ok false s
not_valid s places fd e whole closed =
    let (b, eq, (there, back)) = is_valid_fd_iff s places fd e whole in
    elim (Bool-cases b) [
      | inl valid ↦ let (i, d, at, o) = there valid in absurd (closed i d at o)
      | inr free ↦ eq ∙ ap (λ c. ok c s) free
    ]

-- On a number at which no descriptor stands, a negative one too, with an array of descriptors of
-- the length that the capacity says: `ufs_write`, `ufs_read`, `ufs_close` and `ufs_resize` return
-- -1, whatever their other arguments, and change the error code alone, to `no_file`.
pub calls-closed :
    (env : Env) (fuel : ℕ) (s : Fs) (places : List Slot) (fd : ℤ) (buf : List ℕ) (n : ℕ)
    → s.descriptors ≡ array places
    → length places ≡ s.capacity
    → IsClosed s fd
    → (ufs_write env fuel fd buf s ≡ ok failure (no_such_file s))
      × (ufs_read fuel fd n s ≡ ok (failure, []) (no_such_file s))
      × (ufs_close fuel fd s ≡ ok failure (no_such_file s))
      × (ufs_resize env fuel fd n s ≡ ok failure (no_such_file s))
unfolding ufs_write ufs_read ufs_close ufs_resize
calls-closed env fuel s places fd buf n e whole closed =
    let invalid = not_valid s places fd e whole closed in
    (rw invalid refl, rw invalid refl, rw invalid refl, rw invalid refl)
