-- ===== src/UserFs/State.antt =====
-- The types and global variables of homework03/userfs.c, and the reads and writes of its objects.
use sysprog_labs_f.Base.{
  ℕ, ◌*◌, ◌≡◌, Bool, List, Option, none, some, ◌==◌, if◌then◌else◌, length, get_elem?, set,
}
use sysprog_labs_f.Base.Int.{ℤ, negsuc}
use sysprog_labs_f.Memory.Store.{Ptr, null, Store, get, put, remove, Malloc}
use sysprog_labs_f.Memory.Run.{Cmd, ok, fault, demand, modify, ◌>>=◌}

-- `BLOCK_SIZE` and `MAX_FILE_SIZE`.
abbrev pub block_size : ℕ
block_size = 512

abbrev pub max_file_size : ℕ
max_file_size = 1024 * 1024 * 100

pub data ErrorCode : Type 0 where
  no_err no_file no_mem not_implemented no_permission : ErrorCode

-- `enum open_flags`.
abbrev pub create_flag : ℕ
create_flag = 1

abbrev pub read_only_flag : ℕ
read_only_flag = 2

abbrev pub write_only_flag : ℕ
write_only_flag = 4

abbrev pub read_write_flag : ℕ
read_write_flag = 8

-- `memory` stands for the array that the pointer owns.
pub record Block : Type 0 where
  pub memory : List ℕ
  pub occupied : ℕ
  pub next : Ptr
  pub prev : Ptr

-- `name` stands for the string that the pointer owns.
pub record File : Type 0 where
  pub block_list : Ptr
  pub last_block : Ptr
  pub refs : ℕ
  pub name : List ℕ
  pub next : Ptr
  pub prev : Ptr
  pub bytes_left : ℕ
  pub in_list : Bool

pub record Filedesc : Type 0 where
  pub file : Ptr
  pub is_occupied : Bool
  pub offset : ℕ
  pub can_read : Bool
  pub can_write : Bool

-- A place of `file_descriptors`: `none` is NULL. A descriptor is reached from its place only.
abbrev pub Slot : Type 0
Slot = Option Filedesc

-- `file_descriptors`: NULL, an array, or an array that was freed.
pub data Table : Type 0 where
  absent : Table
  array : List Slot → Table
  released : Table

-- The global variables, and the blocks and files that are allocated.
pub record Fs : Type 0 where
  pub error : ErrorCode
  pub file_list : Ptr
  pub descriptors : Table
  pub count : ℕ
  pub capacity : ℕ
  pub blocks : Store Block
  pub files : Store File

-- What the code takes from `malloc`. `raw_slots n` is what a new array of n places holds.
pub record Env : Type 0 where
  pub blocks : Malloc Block
  pub files : Malloc File
  pub raw_slots : ℕ → List Slot
  pub raw_memory : (s : Store Block) → length (blocks.raw s).memory ≡ block_size
  pub raw_slots-length : (n : ℕ) → length (raw_slots n) ≡ n

-- -1
abbrev pub failure : ℤ
failure = negsuc 0

abbrev pub fail : ErrorCode → Cmd Fs ℤ
fail e s = ok failure (record s { error = e })

-- `*p`, a fault at NULL and at an address that is not allocated.
unfoldable pub load_block : Ptr → Cmd Fs Block
load_block p s = if p == null then fault else demand (get p s.blocks) s

unfoldable pub load_file : Ptr → Cmd Fs File
load_file p s = if p == null then fault else demand (get p s.files) s

abbrev pub with_block : Ptr → Block → Fs → Fs
with_block p b s = record s { blocks = put p b s.blocks }

abbrev pub with_file : Ptr → File → Fs → Fs
with_file p f s = record s { files = put p f s.files }

-- A write through a pointer that is not NULL and allocated.
unfoldable pub update_block : Ptr → (Block → Block) → Cmd Fs (Unit {0})
update_block p f = do b ← load_block p; modify (with_block p (f b))

unfoldable pub update_file : Ptr → (File → File) → Cmd Fs (Unit {0})
update_file p f = do b ← load_file p; modify (with_file p (f b))

-- `free` of a block and of a file; freeing twice is a fault.
unfoldable pub free_block : Ptr → Cmd Fs (Unit {0})
free_block p = do b ← load_block p; modify λ s. record s { blocks = remove p s.blocks }

unfoldable pub free_file : Ptr → Cmd Fs (Unit {0})
free_file p = do b ← load_file p; modify λ s. record s { files = remove p s.files }

abbrev pub slots : Table → Option (List Slot)
slots absent = none
slots (array l) = some l
slots released = none

-- `file_descriptors[i]`, a fault outside the array.
unfoldable pub read_slot : ℕ → Cmd Fs Slot
read_slot i = λ s. (do l ← demand (slots s.descriptors); demand (get_elem? l i)) s

unfoldable pub write_slot : ℕ → Slot → Cmd Fs (Unit {0})
write_slot i v = λ s.
    (do
      l ← demand (slots s.descriptors)
      old ← demand (get_elem? l i)
      modify λ t. record t { descriptors = array (set l i v) })
      s
