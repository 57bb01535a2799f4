-- ===== src/UserFs/Tests.antt =====
-- Runs of the file system on small inputs, and the theorems at concrete inputs.
use sysprog_labs_f.Base.{
  ℕ, ◌≡◌, ◌↔◌, Bool, refl, false, true, inr, arith, List, [], ◌∷◌, ◌++◌, Option, none, some,
  replicate, length-replicate,
}
use sysprog_labs_f.Base.Int.{ℤ, pos}
use sysprog_labs_f.Memory.Store.{null, bump, above, get, put, remove}
use sysprog_labs_f.Memory.Chain.{Cell, cell}
use sysprog_labs_f.UserFs.Content.{Content, mk_block, IsPacked}
use sysprog_labs_f.UserFs.Layout.{IsFile}
use sysprog_labs_f.UserFs.Open.{IsOpen, is_valid_fd_iff}
use sysprog_labs_f.UserFs.Places.{used_places, IsTable, some_table}
use sysprog_labs_f.UserFs.Invalid.{IsClosed, no_such_file, calls-closed}
use sysprog_labs_f.UserFs.WriteCall.{Written, ufs_write_lem}
use sysprog_labs_f.UserFs.ReadCall.{ufs_read_lem, read-write}
use sysprog_labs_f.UserFs.Endless.{ufs_resize_endless}
use sysprog_labs_f.Memory.Run.{Returns, Run, ok, fault, out_of_fuel, Cmd, pure, ◌>>=◌}
use sysprog_labs_f.UserFs.State.{
  failure, Fs, Block, File, Filedesc, Env, absent, array, no_err, create_flag, load_block,
  load_file, update_block, update_file, free_block, free_file, read_slot, write_slot,
}
use sysprog_labs_f.UserFs.Table.{is_valid_fd}
use sysprog_labs_f.UserFs.Names.{same_name}
use sysprog_labs_f.UserFs.Api.{
  ufs_close, ufs_resize, ufs_open, ufs_write, ufs_read, may_read, may_write,
}

-- The state of the global variables at the start of the program.
abbrev start : Fs
start = record {
  error = no_err;
  file_list = null;
  descriptors = absent;
  count = 0;
  capacity = 0;
  blocks = [];
  files = [];
}

abbrev blank_block : Block
blank_block = record { memory = replicate 512 0; occupied = 0; next = null; prev = null }

abbrev blank_file : File
blank_file = record {
  block_list = null;
  last_block = null;
  refs = 0;
  name = [];
  next = null;
  prev = null;
  bytes_left = 0;
  in_list = false;
}

-- Memory that holds zeroes.
abbrev pub env : Env
unfolding bump above
env = record {
  blocks = bump blank_block;
  files = bump blank_file;
  raw_slots = λ n. replicate n none;
  raw_memory = λ s. length-replicate {A = ℕ} 512 0;
  raw_slots-length = λ n. length-replicate {A = Option Filedesc} n none;
}

abbrev result : {S A : Type 0} → Run S A → Option A
result (ok a s) = some a
result fault = none
result out_of_fuel = none

session : Cmd Fs (ℤ × ℤ × (ℤ × List ℕ))
unfolding ufs_open ufs_write ufs_read
session = do
  a ← ufs_open env 20 (7 ∷ []) create_flag
  b ← ufs_open env 20 (7 ∷ []) 0
  _ ← ufs_write env 20 a (replicate 511 1 ++ (2 ∷ 3 ∷ 4 ∷ []))
  _ ← ufs_read 20 b 510
  r ← ufs_read 20 b 10
  pure (a, b, r)

session_output : result (session start) ≡ some (pos 0, pos 1, (pos 4, 1 ∷ 2 ∷ 3 ∷ 4 ∷ []))
unfolding session bump above get put remove load_block load_file update_block update_file free_block
    free_file read_slot write_slot same_name may_write may_read
session_output = refl

-- A file of three bytes at 1, its block at 5, and two descriptors for it.
abbrev pub three : Content
three = record { memory = 1 ∷ 2 ∷ 3 ∷ replicate 509 0; occupied = 3 }

abbrev pub three_cells : List (Cell Content)
three_cells = cell 5 three ∷ []

abbrev pub three_file : File
three_file = record blank_file { refs = 2; bytes_left = 104857597; in_list = true }

abbrev pub writer : Filedesc
writer = record { file = 1; is_occupied = true; offset = 2; can_read = false; can_write = true }

abbrev pub reader : Filedesc
reader = record { file = 1; is_occupied = true; offset = 2; can_read = true; can_write = false }

abbrev pub opened : Fs
opened = record start {
  file_list = 1;
  descriptors = array (some writer ∷ some reader ∷ []);
  count = 2;
  capacity = 2;
  blocks = record { address = 5; object = mk_block three null null } ∷ [];
  files =
      record { address = 1; object = record three_file { block_list = 5; last_block = 5 } } ∷ [];
}

pub writer-IsOpen : IsOpen opened 0 writer
writer-IsOpen = record {
  places = some writer ∷ some reader ∷ [];
  table = refl;
  holds = refl;
  within = ground arith;
  file = ground arith;
  occupied = refl;
}

pub reader-IsOpen : IsOpen opened 1 reader
reader-IsOpen = record {
  places = some writer ∷ some reader ∷ [];
  table = refl;
  holds = refl;
  within = ground arith;
  file = ground arith;
  occupied = refl;
}

pub three-IsFile : IsFile opened 1 three_file three_cells
unfolding get
three-IsFile = record {
  ne_null = ground arith;
  holds = refl;
  lead = null;
  chain = (ground arith, refl, refl, tt);
}

pub three-IsPacked : IsPacked three_cells
three-IsPacked = (record { whole = refl; fits = ground arith }, inr refl, tt)

is_valid_fd_iff_example :
    (b : Bool) × (is_valid_fd (pos 1) opened ≡ ok b opened)
    × ((b ≡ true) ↔ ((i : ℕ) × (d : Filedesc) × (pos 1 ≡ pos i) × IsOpen opened i d))
is_valid_fd_iff_example = is_valid_fd_iff opened (some writer ∷ some reader ∷ []) (pos 1) refl refl

abbrev two_bytes : List ℕ
two_bytes = 8 ∷ 9 ∷ []

ufs_write_lem_example :
    Returns
      (Written opened 0 writer three_file three_cells two_bytes)
      (ufs_write env 20 (pos 0) two_bytes opened)
ufs_write_lem_example =
    ufs_write_lem env 20 opened 0 writer two_bytes writer-IsOpen three_file three_cells three-IsFile
      three-IsPacked (ground arith) (ground arith) (ground arith) (ground arith) refl

ufs_read_lem_example :
    ufs_read 20 (pos 1) 4 opened
    ≡ ok
        (pos 1, 3 ∷ [])
        (record opened {
          descriptors = array (some writer ∷ some (record reader { offset = 3 }) ∷ []);
        })
unfolding reader-IsOpen
ufs_read_lem_example =
    ufs_read_lem 20 opened 1 reader 4 reader-IsOpen three_file three_cells three-IsFile
      three-IsPacked (ground arith) (ground arith) refl

read-write_example :
    (t : Fs) × (u : Fs) × (ufs_write env 20 (pos 0) two_bytes opened ≡ ok (pos 2) t)
    × (ufs_read 20 (pos 1) 2 t ≡ ok (pos 2, two_bytes) u)
read-write_example =
    read-write env 20 opened 0 1 writer reader two_bytes three_file three_cells writer-IsOpen
      reader-IsOpen (ground arith) refl refl refl refl three-IsFile three-IsPacked (ground arith)
      (ground arith) (ground arith) (ground arith) (ground arith)

ufs_resize_endless_example : ufs_resize env 20 (pos 0) 4 opened ≡ out_of_fuel
ufs_resize_endless_example =
    ufs_resize_endless env 20 opened 0 writer writer-IsOpen three_file three_cells 4 three-IsFile
      three-IsPacked refl (ground arith) (ground arith) (ground arith)

pub opened-IsTable : IsTable opened
unfolding used_places
opened-IsTable = some_table (some writer ∷ some reader ∷ []) refl refl (ground arith) refl

opened-IsClosed : IsClosed opened (pos 2)
opened-IsClosed i d e o = ground (arith, e, o.within)

calls-closed_example :
    (ufs_write env 20 (pos 2) two_bytes opened ≡ ok failure (no_such_file opened))
    × (ufs_read 20 (pos 2) 4 opened ≡ ok (failure, []) (no_such_file opened))
    × (ufs_close 20 (pos 2) opened ≡ ok failure (no_such_file opened))
    × (ufs_resize env 20 (pos 2) 4 opened ≡ ok failure (no_such_file opened))
calls-closed_example =
    calls-closed env 20 opened (some writer ∷ some reader ∷ []) (pos 2) two_bytes 4 refl refl
      opened-IsClosed
