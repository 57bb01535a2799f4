-- ===== src/UserFs/Api.antt =====
-- The functions of homework03/userfs.h.
use Prim.Native.Nat.{bit_and}
use sysprog_labs_f.Base.{
  ℕ, zero, suc, ◌+◌, ◌-◌, Bool, true, false, not, ◌&&◌, ◌||◌, List, [], none, some, ◌==◌, ltb,
  if◌then◌else◌, length,
}
use sysprog_labs_f.Base.Int.{ℤ, pos, negsuc}
use sysprog_labs_f.Memory.Store.{Ptr, null}
use sysprog_labs_f.Memory.Run.{Cmd, pure, crash, diverge, demand, read_state, modify, ◌>>=◌, ◌>>◌}
use sysprog_labs_f.UserFs.State.{
  Fs, File, Filedesc, released, Env, ErrorCode, no_file, no_mem, no_permission, create_flag,
  read_only_flag, write_only_flag, read_write_flag, max_file_size, fail, load_file, update_file,
  free_file, read_slot, write_slot, with_file,
}
use sysprog_labs_f.UserFs.Names.{search_file, append_file}
use sysprog_labs_f.UserFs.Table.{get_fd, is_valid_fd}
use sysprog_labs_f.UserFs.Blocks.{
  write_loop, last_of, read_loop, free_file_memory, free_blocks, resize_loop, unlink_tail, measure,
  sub_size,
}

unfoldable pub ufs_errno : Fs → ErrorCode
ufs_errno s = s.error

unfoldable pub is_permitted : ℕ → ℕ → Bool
is_permitted flags flag = bit_and flags flag == flag

unfoldable pub may_read : ℕ → Bool
unfolding is_permitted
may_read flags =
    flags == 0
    || is_permitted flags create_flag
    || is_permitted flags read_only_flag
    || is_permitted flags read_write_flag

unfoldable pub may_write : ℕ → Bool
unfolding is_permitted
may_write flags =
    flags == 0
    || is_permitted flags create_flag
    || is_permitted flags write_only_flag
    || is_permitted flags read_write_flag

-- A new file at the end of the file list.
unfoldable pub create_file : Env → ℕ → List ℕ → Cmd Fs Ptr
unfolding append_file
create_file env fuel filename s =
    let p = env.files.place s.files in
    let f : File = record {
      block_list = null;
      last_block = null;
      refs = 0;
      name = filename;
      next = null;
      prev = null;
      bytes_left = max_file_size;
      in_list = true;
    } in
    (do modify (with_file p f); append_file fuel p; pure p) s

abbrev pub fresh_filedesc : Ptr → ℕ → Filedesc
fresh_filedesc f flags = record {
  file = f;
  is_occupied = true;
  offset = 0;
  can_read = may_read flags;
  can_write = may_write flags;
}

-- The place that `get_fd` gave: a negative index is a write outside the array.
unfoldable pub store_filedesc : ℤ → Filedesc → Cmd Fs ℤ
store_filedesc (negsuc n) d = crash
store_filedesc (pos n) d = do write_slot n (some d); pure (pos n)

unfoldable pub open_file : Env → Ptr → ℕ → Cmd Fs ℤ
unfolding store_filedesc get_fd
open_file env f flags = do
  update_file f (λ x. record x { refs = x.refs + 1 })
  fd ← get_fd env
  store_filedesc fd (fresh_filedesc f flags)

unfoldable pub ufs_open : Env → ℕ → List ℕ → ℕ → Cmd Fs ℤ
unfolding search_file create_file open_file is_permitted
ufs_open env fuel filename flags = do
  f ← search_file fuel filename
  if not (f == null)
      then open_file env f flags
      else if is_permitted flags create_flag
      then (do g ← create_file env fuel filename; open_file env g flags)
      else fail no_file

-- The descriptor at a valid `fd`.
abbrev pub descriptor : ℤ → Cmd Fs Filedesc
descriptor (negsuc n) = crash
descriptor (pos n) = do slot ← read_slot n; demand slot

abbrev pub store_descriptor : ℤ → Filedesc → Cmd Fs (Unit {0})
store_descriptor (negsuc n) d = crash
store_descriptor (pos n) d = write_slot n (some d)

-- The end of `ufs_write`, behind its loop.
unfoldable pub finish_write : ℕ → ℤ → Filedesc → ℕ → Cmd Fs ℤ
unfolding last_of
finish_write fuel fd d written = do
  g ← load_file d.file
  block ← last_of fuel g.block_list
  store_descriptor fd (record d { offset = d.offset + written })
  update_file d.file
      (λ x. record x { bytes_left = sub_size x.bytes_left written; last_block = block })
  pure (pos written)

-- `ufs_write` from the test on `bytes_left` on.
unfoldable pub write_file : Env → ℕ → ℤ → Filedesc → List ℕ → Cmd Fs ℤ
unfolding write_loop finish_write
write_file env fuel fd d buf = do
  f ← load_file d.file
  if ltb f.bytes_left (length buf) then fail no_mem else do
    written ← write_loop env d.file fuel f.block_list d.offset buf 0
    finish_write fuel fd d written

unfoldable pub ufs_write : Env → ℕ → ℤ → List ℕ → Cmd Fs ℤ
unfolding is_valid_fd write_file
ufs_write env fuel fd buf = do
  valid ← is_valid_fd fd
  if not valid then fail no_file else do
    d ← descriptor fd
    if not d.can_write then fail no_permission else write_file env fuel fd d buf

unfoldable pub read_file : ℕ → ℤ → Filedesc → ℕ → Cmd Fs (ℤ × List ℕ)
unfolding read_loop
read_file fuel fd d size = do
  f ← load_file d.file
  out ← read_loop fuel f.block_list d.offset size []
  store_descriptor fd (record d { offset = d.offset + length out })
  pure (pos (length out), out)

abbrev pub fail_read : ErrorCode → Cmd Fs (ℤ × List ℕ)
fail_read e = do r ← fail e; pure (r, [])

-- The result, and the bytes that are copied to `buf`.
unfoldable pub ufs_read : ℕ → ℤ → ℕ → Cmd Fs (ℤ × List ℕ)
unfolding is_valid_fd read_file
ufs_read fuel fd size = do
  valid ← is_valid_fd fd
  if not valid then fail_read no_file else do
    d ← descriptor fd
    if not d.can_read then fail_read no_permission else read_file fuel fd d size

-- A file that no list and no descriptor leads to is freed.
unfoldable pub drop_file : ℕ → Ptr → Cmd Fs (Unit {0})
unfolding free_file_memory
drop_file fuel file = free_file_memory fuel file >> free_file file

abbrev clear_slot : ℤ → Cmd Fs (Unit {0})
clear_slot (negsuc n) = crash
clear_slot (pos n) = write_slot n none

unfoldable pub ufs_close : ℕ → ℤ → Cmd Fs ℤ
unfolding is_valid_fd drop_file
ufs_close fuel fd = do
  valid ← is_valid_fd fd
  if not valid then fail no_file else do
    d ← descriptor fd
    update_file d.file (λ x. record x { refs = x.refs - 1 })
    f ← load_file d.file
    if f.refs == 0 && not f.in_list then drop_file fuel d.file else pure tt
    clear_slot fd
    modify λ s. record s { count = s.count - 1 }
    pure (pos 0)

-- The file is taken out of the doubly linked file list.
unfoldable pub unlink_file : File → Cmd Fs (Unit {0})
unlink_file f =
    let fix_next =
      if f.next == null then pure tt else update_file f.next (λ x. record x { prev = f.prev }) in
    if f.prev == null
    then modify (λ s. record s { file_list = f.next }) >> fix_next
    else update_file f.prev (λ x. record x { next = f.next }) >> fix_next

unfoldable pub ufs_delete : ℕ → List ℕ → Cmd Fs ℤ
unfolding search_file unlink_file drop_file
ufs_delete fuel filename = do
  file ← search_file fuel filename
  if file == null then fail no_file else do
    f ← load_file file
    unlink_file f
    update_file file (λ x. record x { in_list = false })
    g ← load_file file
    if g.refs == 0 then drop_file fuel file else pure tt
    pure (pos 0)

unfoldable pub resize_file : Env → ℕ → Ptr → ℕ → Cmd Fs ℤ
unfolding resize_loop unlink_tail free_blocks measure
resize_file env fuel file new_size = do
  f ← load_file file
  block ← resize_loop env file fuel f.block_list new_size
  unlink_tail file block
  free_blocks fuel block
  g ← load_file file
  total ← measure file fuel g.block_list 0
  update_file file (λ x. record x { bytes_left = sub_size max_file_size total })
  pure (pos 0)

unfoldable pub ufs_resize : Env → ℕ → ℤ → ℕ → Cmd Fs ℤ
unfolding is_valid_fd resize_file
ufs_resize env fuel fd new_size = do
  valid ← is_valid_fd fd
  if not valid then fail no_file else do
    d ← descriptor fd
    if not d.can_write
        then fail no_permission
        else if ltb max_file_size new_size
        then fail no_mem
        else resize_file env fuel d.file new_size

-- The first loop of `ufs_destroy`: every file of the list is freed.
unfoldable pub destroy_files : ℕ → ℕ → Ptr → Cmd Fs (Unit {0})
unfolding drop_file
destroy_files fuel zero p = diverge
destroy_files fuel (suc k) p =
    if p == null then pure tt else do f ← load_file p; drop_file fuel p; destroy_files fuel k f.next

-- The second loop: `n` rounds are left, `i` is the next index.
unfoldable pub destroy_descriptors : ℕ → ℕ → ℕ → Cmd Fs (Unit {0})
unfolding drop_file
destroy_descriptors fuel zero i = pure tt
destroy_descriptors fuel (suc n) i = do
  slot ← read_slot i
  elim slot [
    | none ↦ destroy_descriptors fuel n (i + 1)
    | some d ↦ do
      if d.file == null
          then pure tt
          else do f ← load_file d.file; if f.in_list then pure tt else drop_file fuel d.file
      write_slot i none
      destroy_descriptors fuel n (i + 1)
  ]

unfoldable pub ufs_destroy : ℕ → Cmd Fs (Unit {0})
unfolding destroy_files destroy_descriptors
ufs_destroy fuel = do
  head ← read_state (λ s. s.file_list)
  destroy_files fuel fuel head
  capacity ← read_state (λ s. s.capacity)
  destroy_descriptors fuel capacity 0
  if head == null then pure tt else free_file head
  modify λ s. record s { descriptors = released }
