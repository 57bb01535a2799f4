-- ===== src/UserFs/Blocks.antt =====
-- The blocks of a file of homework03/userfs.c: `create_block`, `free_file_memory` and the loops
-- of `ufs_write`, `ufs_read` and `ufs_resize`. Each loop runs on fuel.
use sysprog_labs_f.Base.{
  ℕ, zero, suc, ◌+◌, ◌-◌, ◌^◌, ◌%◌, List, [], ◌∷◌, ◌++◌, min, max, ◌==◌, ltb, leb, if◌then◌else◌,
  take, drop, length, ◌||◌,
}
use sysprog_labs_f.Memory.Store.{Ptr, null}
use sysprog_labs_f.Memory.Run.{Cmd, pure, diverge, modify, ◌>>=◌, ◌>>◌}
use sysprog_labs_f.UserFs.State.{
  Fs, Env, block_size, max_file_size, load_block, load_file, update_block, update_file, free_block,
  with_block,
}

-- `memcpy` of `bytes` to the place `at` of an array.
abbrev pub splice : List ℕ → ℕ → List ℕ → List ℕ
splice memory at bytes = take at memory ++ bytes ++ drop (at + length bytes) memory

-- `malloc` of a block, with the three members that `create_block` sets at once. `prev` keeps what
-- the memory held.
unfoldable pub new_block : Env → Cmd Fs Ptr
new_block env s =
    let p = env.blocks.place s.blocks in
    (do
      modify (with_block p (record (env.blocks.raw s.blocks) { occupied = 0; next = null }))
      pure p)
      s

unfoldable pub create_block : Env → Ptr → Cmd Fs Ptr
unfolding new_block
create_block env file = if file == null then pure null else do
  p ← new_block env
  f ← load_file file
  if f.last_block == null
      then update_file file (λ x. record x { last_block = p; block_list = p }) >> pure p
      else do
        update_block f.last_block (λ x. record x { next = p })
        update_block p (λ x. record x { prev = f.last_block })
        update_file file (λ x. record x { last_block = p })
        pure p

-- The block and the offset that a round of the loop of `ufs_write` works with.
unfoldable pub ensure_block : Env → Ptr → Ptr → ℕ → Cmd Fs (Ptr × ℕ)
unfolding create_block
ensure_block env file block offset =
    if block == null then (do b ← create_block env file; pure (b, 0)) else pure (block, offset)

-- One round on a block. `rest` is what is left of `buf`, `written` is `buf_offset`, and `loop` is
-- what follows.
unfoldable pub write_round : (Ptr → ℕ → List ℕ → ℕ → Cmd Fs ℕ) → Ptr → ℕ → List ℕ → ℕ → Cmd Fs ℕ
write_round loop block offset rest written = do
  b ← load_block block
  let block_offset = min offset b.occupied
  let write_bytes = min (length rest) (block_size - block_offset)
  if block_offset == block_size then loop b.next (offset - block_size) rest written else do
    update_block block λ x. record x {
      memory = splice x.memory block_offset (take write_bytes rest);
      occupied = max (block_offset + write_bytes) x.occupied;
    }
    loop b.next 0 (drop write_bytes rest) (written + write_bytes)

-- The `while (size > 0)` of `ufs_write`; the result is `buf_offset`.
unfoldable pub write_loop : Env → Ptr → ℕ → Ptr → ℕ → List ℕ → ℕ → Cmd Fs ℕ
unfolding ensure_block write_round
write_loop env file zero block offset rest written = diverge
write_loop env file (suc k) block offset [] written = pure written
write_loop env file (suc k) block offset (x ∷ rest) written = do
  (b, o) ← ensure_block env file block offset
  write_round (write_loop env file k) b o (x ∷ rest) written

-- The loop of `ufs_write` that looks for the last block.
unfoldable pub last_of : ℕ → Ptr → Cmd Fs Ptr
last_of zero p = diverge
last_of (suc k) p = do b ← load_block p; if b.next == null then pure p else last_of k b.next

-- The loop of `ufs_read`; the result is what was copied to `buf`. `min` takes `size` as a signed
-- 64-bit number: one from 2 ^ 63 on is negative there, and ends the loop.
unfoldable pub read_loop : ℕ → Ptr → ℕ → ℕ → List ℕ → Cmd Fs (List ℕ)
read_loop zero block offset size out = diverge
read_loop (suc k) block offset size out =
    if block == null then pure out else if size == 0 then pure out else do
      b ← load_block block
      let block_offset = min offset block_size
      let n = min (b.occupied - block_offset) size
      if block_offset == block_size
          then read_loop k b.next (offset - block_size) size out
          else if ltb b.occupied block_offset || leb (2 ^ 63) size
          then pure out
          else read_loop k b.next 0 (size - n) (out ++ take n (drop block_offset b.memory))

-- Frees the blocks from `p` on, as `free_file_memory` and `ufs_resize` do.
unfoldable pub free_blocks : ℕ → Ptr → Cmd Fs (Unit {0})
free_blocks zero p = diverge
free_blocks (suc k) p =
    if p == null then pure tt else do b ← load_block p; free_block p; free_blocks k b.next

unfoldable pub free_file_memory : ℕ → Ptr → Cmd Fs (Unit {0})
unfolding free_blocks
free_file_memory fuel file = do
  f ← load_file file
  free_blocks fuel f.block_list
  update_file file
      λ x. record x { bytes_left = max_file_size; block_list = null; last_block = null }

-- `size_t a - b`.
abbrev pub sub_size : ℕ → ℕ → ℕ
sub_size a b = (a + 2 ^ 64 - b) % 2 ^ 64

-- The block is cut to `n` bytes, in a new array.
unfoldable pub cut_block : Env → Ptr → ℕ → Cmd Fs (Unit {0})
cut_block env p n s =
    update_block p
      (λ x. record x {
        memory = splice (env.blocks.raw s.blocks).memory 0 (take n x.memory);
        occupied = n;
      })
      s

-- A round of `while (new_size > 0)` in `ufs_resize`: the next block, and `new_size`.
unfoldable pub resize_round : Env → Ptr → Ptr → ℕ → Cmd Fs (Ptr × ℕ)
unfolding create_block cut_block
resize_round env file block size =
    if block == null
    then (do p ← create_block env file; b ← load_block p; pure (b.next, sub_size size block_size))
    else do
      b ← load_block block
      if leb block_size size
          then pure (b.next, sub_size size block_size)
          else if ltb size b.occupied
          then cut_block env block size >> pure (b.next, 0)
          else pure (b.next, size)

unfoldable pub resize_loop : Env → Ptr → ℕ → Ptr → ℕ → Cmd Fs Ptr
unfolding resize_round
resize_loop env file zero block size = diverge
resize_loop env file (suc k) block zero = pure block
resize_loop env file (suc k) block (suc n) = do
  (p, size) ← resize_round env file block (suc n)
  resize_loop env file k p size

-- `if (block != NULL && block->prev != NULL)`.
unfoldable pub unlink_tail : Ptr → Ptr → Cmd Fs (Unit {0})
unlink_tail file block = if block == null then pure tt else do
  b ← load_block block
  if b.prev == null then pure tt else do
    update_file file (λ x. record x { last_block = b.prev })
    update_block b.prev (λ x. record x { next = null })

-- The last loop of `ufs_resize`: `new_file_size`.
unfoldable pub measure : Ptr → ℕ → Ptr → ℕ → Cmd Fs ℕ
measure file zero block total = diverge
measure file (suc k) block total = if block == null then pure total else do
  b ← load_block block
  update_file file (λ x. record x { last_block = block })
  measure file k b.next (total + b.occupied)
