-- ===== src/UserFs/Names.antt =====
-- The file list of homework03/userfs.c: `search_file`, `append_file`, and file names.
use sysprog_labs_f.Base.{
  ℕ, zero, suc, ◌≡◌, ◌↔◌, Bool, true, false, ◌&&◌, List, [], ◌∷◌, arith, ◌==◌, if◌then◌else◌,
}
use sysprog_labs_f.Memory.Store.{Ptr, null}
use sysprog_labs_f.Memory.Run.{Cmd, pure, diverge, read_state, modify, ◌>>=◌, ◌>>◌}
use sysprog_labs_f.UserFs.State.{Fs, load_file, update_file}

-- `strcmp(a, b) == 0`.
unfoldable pub same_name : List ℕ → List ℕ → Bool
same_name [] [] = true
same_name (x ∷ a) (y ∷ b) = x == y && same_name a b
same_name _ _ = false

pub same_name_iff : (a b : List ℕ) → (same_name a b ≡ true) ↔ (a ≡ b)
unfolding same_name
same_name_iff [] [] = ground arith
same_name_iff [] (y ∷ b) = ground arith
same_name_iff (x ∷ a) [] = ground arith
same_name_iff (x ∷ a) (y ∷ b) = ground (arith, same_name_iff a b)

-- The loop of `search_file`.
unfoldable pub search_from : ℕ → Ptr → List ℕ → Cmd Fs Ptr
search_from zero p filename = diverge
search_from (suc k) p filename = if p == null then pure null else do
  f ← load_file p
  if same_name f.name filename then pure p else search_from k f.next filename

unfoldable pub search_file : ℕ → List ℕ → Cmd Fs Ptr
unfolding search_from
search_file fuel filename = do search_from fuel (← read_state (λ s. s.file_list)) filename

-- The loop of `append_file`: the last file.
unfoldable pub last_file : ℕ → Ptr → Cmd Fs Ptr
last_file zero p = diverge
last_file (suc k) p = do f ← load_file p; if f.next == null then pure p else last_file k f.next

unfoldable pub append_file : ℕ → Ptr → Cmd Fs (Unit {0})
unfolding last_file
append_file fuel new_file = do
  head ← read_state (λ s. s.file_list)
  if head == null then modify (λ s. record s { file_list = new_file }) else do
    f ← last_file fuel head
    update_file f (λ x. record x { next = new_file })
    update_file new_file (λ x. record x { prev = f })
