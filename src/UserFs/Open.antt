-- ===== src/UserFs/Open.antt =====
-- Descriptors that stand for open files, and the tests of homework03/userfs.c on them.
use sysprog_labs_f.Base.{
  ℕ, ◌<◌, ◌≡◌, ◌≢◌, ◌↔◌, ◌∙◌, sym, subst, Bool, get_elem?-below, refl, true, false, List, some,
  none, arith, get_elem?, set, length, leb, Bool-cases, inl, inr,
}
use sysprog_labs_f.Base.Int.{ℤ, pos, negsuc}
use sysprog_labs_f.Memory.Store.{null}
use sysprog_labs_f.Memory.Run.{ok}
use sysprog_labs_f.UserFs.State.{Fs, Slot, Filedesc, array, read_slot, write_slot}
use sysprog_labs_f.UserFs.Table.{is_valid_fd, usable}
use sysprog_labs_f.UserFs.Api.{descriptor, store_descriptor}

-- `d` is the descriptor at place `i`.
pub record IsOpen (s : Fs) (i : ℕ) (d : Filedesc) : Type 0 where
  pub places : List Slot
  pub table : s.descriptors ≡ array places
  pub holds : get_elem? places i ≡ some (some d)
  pub within : i < s.capacity
  pub file : d.file ≢ null
  pub occupied : d.is_occupied ≡ true

module _ (s : Fs) (i : ℕ) (d : Filedesc) (open_at : IsOpen s i d) where
  pub is_valid_fd-open : is_valid_fd (pos i) s ≡ ok true s
  unfolding is_valid_fd read_slot
  is_valid_fd-open =
      ground (arith, open_at.table, open_at.holds, open_at.within, open_at.file, open_at.occupied)

  pub descriptor-open : descriptor (pos i) s ≡ ok d s
  unfolding read_slot
  descriptor-open = ground (arith, open_at.table, open_at.holds)

  pub store_descriptor-open :
      (e : Filedesc)
      → store_descriptor (pos i) e s
        ≡ ok tt (record s { descriptors = array (set open_at.places i (some e)) })
  unfolding write_slot
  store_descriptor-open e = ground (arith, open_at.table, open_at.holds)

  -- The array is the one that `descriptors` names.
  pub IsOpen-places :
      (places : List Slot) → s.descriptors ≡ array places → get_elem? places i ≡ some (some d)
  IsOpen-places places e = ground (arith, open_at.table, open_at.holds)

by_slot :
    (s : Fs) (places : List Slot) (n : ℕ) (slot : Slot)
    → s.descriptors ≡ array places
    → get_elem? places n ≡ some slot
    → n < s.capacity
    → (b : Bool) × (is_valid_fd (pos n) s ≡ ok b s)
      × ((b ≡ true) ↔ ((i : ℕ) × (d : Filedesc) × (pos n ≡ pos i) × IsOpen s i d))
unfolding is_valid_fd read_slot
by_slot s places n none e at below =
    (false, ground arith, ((λ h. cc), λ (i, d, h, o). absurd (ground (arith, o.table, o.holds))))
by_slot s places n (some d) e at below = (
  usable (some d),
  ground arith,
  (
    (λ h. (
      n,
      d,
      refl,
      record {
        places = places;
        table = e;
        holds = at;
        within = below;
        file = ground arith;
        occupied = ground arith;
      },
    )),
    λ (i, c, h, o). ground (arith, o.table, o.holds, o.file, o.occupied),
  ),
)

-- With an array of descriptors of the length that the capacity says, `is_valid_fd` returns for
-- every number, a negative one too, and changes nothing. Its answer is true exactly if the number
-- is the place of a descriptor that is occupied and has a file.
pub is_valid_fd_iff :
    (s : Fs) (places : List Slot) (fd : ℤ)
    → s.descriptors ≡ array places
    → length places ≡ s.capacity
    → (b : Bool) × (is_valid_fd fd s ≡ ok b s)
      × ((b ≡ true) ↔ ((i : ℕ) × (d : Filedesc) × (fd ≡ pos i) × IsOpen s i d))
unfolding is_valid_fd read_slot
is_valid_fd_iff s places (negsuc n) e l = (false, refl, ((λ h. cc), λ (i, d, h, o). absurd (cc h)))
is_valid_fd_iff s places (pos n) e l = elim (Bool-cases (leb s.capacity n)) [
  | inl beyond ↦ (false, rw beyond, ((λ h. cc), λ (i, d, h, o). absurd (ground (arith, o.within))))
  | inr below ↦
      let (slot, at) = get_elem?-below places n (ground arith) in
      by_slot s places n slot e at (ground arith)
]

-- A descriptor stays with its table.
pub moved_IsOpen :
    (s t : Fs) (i : ℕ) (d : Filedesc)
    → t.descriptors ≡ s.descriptors
    → t.capacity ≡ s.capacity
    → IsOpen s i d
    → IsOpen t i d
moved_IsOpen s t i d table capacity o = record {
  places = o.places;
  table = table ∙ o.table;
  holds = o.holds;
  within = subst (λ c. i < c) (sym capacity) o.within;
  file = o.file;
  occupied = o.occupied;
}
