-- ===== src/UserFs/ListTests.antt =====
-- The functions of homework03/userfs.c on a file list with one file.
use sysprog_labs_f.Base.{some, ◌≡◌, ◌≢◌, refl, none, true, [], ◌∷◌, arith}
use sysprog_labs_f.Base.Int.{pos}
use sysprog_labs_f.Memory.Store.{put, remove, Ptr, get}
use sysprog_labs_f.Memory.Run.{fault, and_then, Returns}
use sysprog_labs_f.Memory.Chain.{cell}
use sysprog_labs_f.UserFs.State.{
  create_flag, array, Fs, load_block, load_file, update_file, free_block, free_file, read_slot,
  write_slot,
}
use sysprog_labs_f.UserFs.Names.{same_name}
use sysprog_labs_f.UserFs.Api.{
  ufs_open, is_permitted, drop_file, destroy_files, destroy_descriptors, ufs_destroy, ufs_close,
  ufs_delete, ufs_read,
}
use sysprog_labs_f.UserFs.Listed.{Entry, Entries, IsListed, Named}
use sysprog_labs_f.UserFs.Freed.{HasBlocks}
use sysprog_labs_f.UserFs.Delete.{Unlisted, IsEnded, unlisted, ufs_delete_lem}
use sysprog_labs_f.UserFs.Blocks.{free_blocks, free_file_memory}
use sysprog_labs_f.UserFs.Unlinked.{read-delete}
use sysprog_labs_f.UserFs.Close.{Closed, IsLeft, ufs_close_lem}
use sysprog_labs_f.UserFs.Places.{IsTable, some_table, used_places}
use sysprog_labs_f.UserFs.OpenCall.{OpenedFile, add_name, ufs_open_lem}
use sysprog_labs_f.UserFs.Tests.{
  env, opened-IsTable, opened, writer, reader, three_file, three_cells, writer-IsOpen,
  reader-IsOpen, three-IsFile, three-IsPacked,
}

abbrev three_entry : Entry
three_entry = record {
  block_list = 5;
  last_block = 5;
  refs = 2;
  name = [];
  bytes_left = 104857597;
  in_list = true;
}

abbrev one_file : Entries
one_file = cell 1 three_entry ∷ []

opened-IsListed : IsListed opened one_file
unfolding get
opened-IsListed = record {
  file_list = refl;
  chain = (ground arith, refl, refl, tt);
  listed = (refl, tt);
}

no_name : same_name [] [] ≡ true
unfolding same_name
no_name = refl

abbrev one_named : Named [] one_file
one_named = record {
  before = [];
  at = cell 1 three_entry;
  behind = [];
  eq = refl;
  missing = tt;
  here = no_name;
}

-- The table has a free place.
abbrev roomy : Fs
roomy = record opened { descriptors = array (some writer ∷ some reader ∷ none ∷ []); capacity = 3 }

roomy-IsTable : IsTable roomy
unfolding used_places
roomy-IsTable = some_table (some writer ∷ some reader ∷ none ∷ []) refl refl (ground arith) refl

roomy-IsListed : IsListed roomy one_file
roomy-IsListed = record {
  file_list = opened-IsListed.file_list;
  chain = opened-IsListed.chain;
  listed = opened-IsListed.listed;
}

ufs_open_lem_example :
    Returns
      (OpenedFile roomy (7 ∷ []) (add_name (7 ∷ []) ([] ∷ [])))
      (ufs_open env 20 (7 ∷ []) create_flag roomy)
unfolding is_permitted
ufs_open_lem_example =
    ufs_open_lem env (7 ∷ []) create_flag refl 20 roomy one_file roomy-IsListed roomy-IsTable
      (omega arith) (omega arith)

one-HasBlocks : HasBlocks opened (unlisted one_named) three_cells
one-HasBlocks = record { head = refl; lead = three-IsFile.lead; chain = three-IsFile.chain }

ufs_delete_lem_example :
    Returns
      (λ r t.
        (r ≡ pos 0)
        × Unlisted opened [] one_file one_named t
        × IsEnded one_named three_cells opened t)
      (ufs_delete 20 [] opened)
ufs_delete_lem_example =
    ufs_delete_lem 20 opened [] one_file one_named three_cells opened-IsListed one-HasBlocks
      (omega arith) (omega arith)

read-delete_example :
    Returns
      (λ r u. (r ≡ (pos 1, 3 ∷ [])) × IsListed u [])
      (and_then (ufs_delete 20 [] opened) λ r. ufs_read 20 (pos 1) 4)
read-delete_example =
    read-delete 20 opened [] one_file one_named 1 4 reader three_file three_cells opened-IsListed
      reader-IsOpen refl refl (omega arith) three-IsFile three-IsPacked (omega arith) (omega arith)
      (omega arith)

ufs_close_lem_example :
    Returns
      (λ r u.
        (r ≡ pos 0)
        × Closed opened 0 u
        × IsLeft opened 1 (record three_file { block_list = 5; last_block = 5 }) three_cells u
        × (u.file_list ≡ 1)
        × ((g : Ptr) → g ≢ 1 → get g u.files ≡ get g opened.files))
      (ufs_close 20 (pos 0) opened)
unfolding get
ufs_close_lem_example =
    ufs_close_lem 20 opened 0 writer (record three_file { block_list = 5; last_block = 5 })
      three_cells writer-IsOpen refl
      (record { head = refl; lead = three-IsFile.lead; chain = three-IsFile.chain }) (omega arith)
      (omega arith) opened-IsTable

-- A file is freed twice also when every descriptor has been closed.
abbrev all_closed : Fs
all_closed = record opened { descriptors = array (none ∷ none ∷ []); count = 0 }

destroyed : ufs_destroy 20 all_closed ≡ fault
unfolding ufs_destroy destroy_files drop_file free_file_memory free_blocks destroy_descriptors
    load_block load_file update_file free_block free_file read_slot write_slot get put remove
destroyed = refl
