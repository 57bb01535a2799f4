-- ===== src/UserFs/Descriptors.antt =====
-- A descriptor that `ufs_open` stores in the place that `get_fd` found.
use sysprog_labs_f.Base.{
  ℕ, zero, suc, ◌+◌, ◌<◌, ◌≡◌, ◌≢◌, refl, sym, ap, ◌∙◌, true, List, [], ◌∷◌, none, some, arith,
  length, length-set, get_elem?, set, get_elem?-set-some, get_elem?-set_ne,
}
use sysprog_labs_f.Base.Int.{ℤ, pos}
use sysprog_labs_f.Memory.Store.{Ptr, null, get}
use sysprog_labs_f.Memory.Run.{Returns, returns, Returns-and_then}
use sysprog_labs_f.UserFs.State.{Fs, Env, File, with_file, Filedesc, Slot, slots, write_slot}
use sysprog_labs_f.UserFs.Api.{store_filedesc, open_file, fresh_filedesc}
use sysprog_labs_f.UserFs.Layout.{update_file-ok}
use sysprog_labs_f.UserFs.Open.{IsOpen, IsOpen-places}
use sysprog_labs_f.UserFs.Places.{used_places, IsTable, no_table, some_table, IsFree, get_fd-room}

used_places-set :
    (xs : List Slot) (i : ℕ) (d : Filedesc)
    → get_elem? xs i ≡ some none
    → used_places (set xs i (some d)) ≡ used_places xs + 1
unfolding used_places
used_places-set [] i d h = ground arith
used_places-set (none ∷ xs) zero d h = omega arith
used_places-set (some e ∷ xs) zero d h = ground arith
used_places-set (none ∷ xs) (suc i) d h = used_places-set xs i d h
used_places-set (some e ∷ xs) (suc i) d h = omega (arith, used_places-set xs i d h)

get_elem?-bound :
    (xs : List Slot) (i : ℕ) (slot : Slot) → get_elem? xs i ≡ some slot → i < length xs
get_elem?-bound [] i slot h = ground arith
get_elem?-bound (x ∷ xs) zero slot h = omega arith
get_elem?-bound (x ∷ xs) (suc i) slot h = omega (arith, get_elem?-bound xs i slot h)

-- The new descriptor `d` at `fd`, the older ones at their places, and a table that counts them all.
pub record Opened (s : Fs) (d : Filedesc) (fd : ℤ) (t : Fs) : Type 0 where
  pub place : ℕ
  pub result : fd ≡ pos place
  pub opened : IsOpen t place d
  pub kept : (j : ℕ) (e : Filedesc) → IsOpen s j e → (j ≢ place) × IsOpen t j e
  pub still : IsTable t
  pub files : t.files ≡ s.files
  pub file_list : t.file_list ≡ s.file_list
  pub blocks : t.blocks ≡ s.blocks

store_lem :
    (s t : Fs) (d : Filedesc) (fd : ℤ)
    → d.file ≢ null
    → d.is_occupied ≡ true
    → IsFree s fd t
    → Returns (Opened s d) (store_filedesc fd d t)
unfolding store_filedesc write_slot
store_lem s t d fd file occupied r =
    let bound = get_elem?-bound r.places r.place none r.free in
    let table = ap slots r.table in
    rw (r.result, table, r.free)
      (returns record {
        place = r.place;
        result = refl;
        opened = record {
          places = set r.places r.place (some d);
          table = refl;
          holds = get_elem?-set-some r.places r.place none (some d) r.free;
          within = omega (arith, r.whole);
          file = file;
          occupied = occupied;
        };
        kept = λ j e o.
            let older = r.kept j e o in
            let at = IsOpen-places t j e older r.places r.table in
            let apart : r.place ≢ j =
              λ same. ground (arith, at, r.free, ap (get_elem? r.places) same) in
            (
              (λ same. apart (sym same)),
              record {
                places = set r.places r.place (some d);
                table = refl;
                holds = get_elem?-set_ne r.places (some d) apart ∙ at;
                within = older.within;
                file = older.file;
                occupied = older.occupied;
              },
            );
        still =
            some_table (set r.places r.place (some d)) refl
              (length-set r.places r.place (some d) ∙ r.whole) (omega (arith, r.whole))
              (r.counted ∙ sym (used_places-set r.places r.place d r.free));
        files = r.files;
        file_list = r.file_list;
        blocks = r.blocks;
      })

pub IsTable-files : (s : Fs) (f : Ptr) (fl : File) → IsTable s → IsTable (with_file f fl s)
IsTable-files s f fl (no_table e count empty) = no_table e count empty
IsTable-files s f fl (some_table places e whole some_left counted) =
    some_table places e whole some_left counted

pub IsOpen-files :
    (s : Fs) (f : Ptr) (fl : File) (j : ℕ) (d : Filedesc)
    → IsOpen s j d
    → IsOpen (with_file f fl s) j d
IsOpen-files s f fl j d o = record {
  places = o.places;
  table = o.table;
  holds = o.holds;
  within = o.within;
  file = o.file;
  occupied = o.occupied;
}

-- Opening a file that exists, with a table as it is between the calls and a free place in it: the
-- count of references of the file goes up by one, and the number returned is that of a new
-- descriptor for the file, with offset zero and the rights of the flags. All older descriptors are
-- kept, at other numbers, and the table is again as it is between the calls.
pub open_file_lem :
    (env : Env) (s : Fs) (f : Ptr) (fl : File) (flags : ℕ)
    → IsTable s
    → s.count < s.capacity
    → f ≢ null
    → get f s.files ≡ some fl
    → Returns
        (Opened (with_file f (record fl { refs = fl.refs + 1 }) s) (fresh_filedesc f flags))
        (open_file env f flags s)
unfolding open_file
open_file_lem env s f fl flags ready room ne at =
    let t = with_file f (record fl { refs = fl.refs + 1 }) s in
    rw (update_file-ok s f ne (λ x. record x { refs = x.refs + 1 }) fl at) (
      Returns-and_then (get_fd-room env t (IsTable-files s f _ ready) room)
        λ fd u free. store_lem t u (fresh_filedesc f flags) fd ne refl free)
