-- ===== src/Sorter/Tests.antt =====
-- The functions of homework01/solution.c on concrete inputs.
use mathlib.Core.List.{Perm}
use sysprog_labs_f.Base.{
  ℕ, ◌+◌, Bool-cases, inl, inr, ◌==◌, ◌≡◌, ◌≢◌, refl, true, false, ◌⊎◌, List, [], ◌∷◌, ◌++◌, none,
  some, arith, replicate, length-replicate,
}
use sysprog_labs_f.Base.Int.{ℤ, pos, negsuc}
use sysprog_labs_f.Sorter.Merge.{merge_sorted_arrays}
use sysprog_labs_f.Sorter.MergeLaws.{merge_sorted_arrays_lem, IsSorted}
use sysprog_labs_f.Sorter.Sort.{Outcome, get_sorted_numbers, sort_two}
use sysprog_labs_f.Sorter.SortLaws.{Sorts, get_sorted_numbers_lem, get_sorted_numbers-nil}
use sysprog_labs_f.Sorter.Claims.{
  claiming, sorting, over, Crew, put_at, claim, coroutine_func_f, sort_files, Reach, start, next,
}
use sysprog_labs_f.Sorter.ClaimLaws.{claim_of}
use sysprog_labs_f.Sorter.ClaimEnd.{coroutine_func_f_lem}
use sysprog_labs_f.Sorter.Time.{
  Timespec, IsNormal, gain, loss, update_coro_work_time, update_coro_work_time_lem,
}
use sysprog_labs_f.Memory.Store.{null, bump}
use sysprog_labs_f.Memory.Run.{Returns, fault}
use sysprog_labs_f.Coro.State.{Sched}
use sysprog_labs_f.Coro.Api.{zeroed}
use sysprog_labs_f.Sorter.Finish.{IsResult}
use sysprog_labs_f.Sorter.Main.{Platform, main}
use sysprog_labs_f.Sorter.Starting.{were_zero}
use sysprog_labs_f.Sorter.MainLaws.{is_harmless, main_lem, main-no_coros}
use sysprog_labs_f.Sorter.Input.{ArrayOfInts, read_numbers_from_file}
use sysprog_labs_f.Sorter.InputLaws.{Holds, read_numbers_from_file_lem}

abbrev odd : List ℤ
odd = negsuc 2 ∷ pos 1 ∷ pos 5 ∷ []

abbrev even : List ℤ
even = pos 0 ∷ pos 4 ∷ []

odd-IsSorted : IsSorted odd
odd-IsSorted = (ground arith, (ground arith, (tt, tt)))

even-IsSorted : IsSorted even
even-IsSorted = (ground arith, (tt, tt))

get_sorted_numbers_lem_example :
    (o : Outcome) × (get_sorted_numbers 5 (odd ++ even) ≡ some o) × Sorts (odd ++ even) o
get_sorted_numbers_lem_example =
    get_sorted_numbers_lem 5 (odd ++ even) (ground arith) (ground arith)

sorted_numbers :
    get_sorted_numbers 5 (odd ++ even)
    ≡ some (record { array = negsuc 2 ∷ pos 0 ∷ pos 1 ∷ pos 4 ∷ pos 5 ∷ []; yields = 5 })
unfolding get_sorted_numbers merge_sorted_arrays
sorted_numbers = refl

get_sorted_numbers-nil_example : get_sorted_numbers 1000 [] ≡ none
get_sorted_numbers-nil_example = get_sorted_numbers-nil 1000

-- 1.9 and 4.2 seconds.
abbrev from : Timespec
from = record { tv_sec = pos 1; tv_nsec = pos 900000000 }

abbrev to : Timespec
to = record { tv_sec = pos 4; tv_nsec = pos 200000000 }

from-IsNormal : IsNormal from
from-IsNormal = record { lower = ground arith; upper = ground arith }

to-IsNormal : IsNormal to
to-IsNormal = record { lower = ground arith; upper = ground arith }

merge_sorted_arrays_lem_example :
    (out : List ℤ) × (merge_sorted_arrays odd even ≡ some out)
    × Perm out (odd ++ even)
    × IsSorted out
merge_sorted_arrays_lem_example = merge_sorted_arrays_lem odd even odd-IsSorted even-IsSorted

update_coro_work_time_lem_example :
    let result = update_coro_work_time from from to in
    IsNormal result
    × (gain from + gain to + loss from + loss result
        ≡ loss from + loss to + gain from + gain result)
update_coro_work_time_lem_example =
    update_coro_work_time_lem from from to from-IsNormal from-IsNormal to-IsNormal

read_numbers_from_file_lem_example :
    (out : ArrayOfInts) × (read_numbers_from_file (λ n. replicate n (pos 7)) odd ≡ some out)
    × Holds out odd
read_numbers_from_file_lem_example =
    read_numbers_from_file_lem (λ n. replicate n (pos 7)) (λ n. length-replicate n (pos 7)) odd

abbrev one_file : List Outcome
one_file = record { array = pos 1 ∷ pos 3 ∷ []; yields = 1 } ∷ []

abbrev waiting_crew : Crew
waiting_crew = record { next_file_idx = 0; dest = λ i. none; phase = λ c. claiming }

-- The coroutine at 5 has sorted the file, and ended.
abbrev ended_crew : Crew
ended_crew = record {
  next_file_idx = 1;
  dest = put_at (λ i. none) 0 (some (pos 1 ∷ pos 3 ∷ []));
  phase = put_at (put_at (put_at (λ c. claiming) 5 (sorting 0 0)) 5 claiming) 5 over;
}

ended_crew-Reach : Reach one_file waiting_crew ended_crew
unfolding coroutine_func_f claim
ended_crew-Reach = next 5 (next 5 start)

ended_crew-claim_of : (d : ℕ) → claim_of (ended_crew.phase d) ≡ 0
ended_crew-claim_of d = elim (Bool-cases (d == 5)) [ inl e ↦ rw e refl | inr e ↦ rw e refl ]

coroutine_func_f_lem_example :
    (numbers : List ℤ) × (ended_crew.dest 0 ≡ some numbers)
    × IsSorted numbers
    × Perm numbers (pos 3 ∷ pos 1 ∷ [])
unfolding sort_files get_sorted_numbers sort_two
coroutine_func_f_lem_example =
    coroutine_func_f_lem ((pos 3 ∷ pos 1 ∷ []) ∷ []) one_file waiting_crew ended_crew 5
      (omega arith, tt) refl (record { next_file_idx = refl; phase = λ c. refl }) ended_crew-Reach
      refl ended_crew-claim_of 0 (omega arith)

one-ne_null : 1 ≢ null
one-ne_null = omega arith

-- Two coroutines and two files.
abbrev linked : Platform
linked = record {
  coros = bump zeroed;
  raw = λ n. replicate n (pos 7);
  whole = λ n. length-replicate n (pos 7);
  sched = 1;
  alive = one-ne_null;
  func = 5;
  context = λ i. 10;
  room = 24;
  prev_timestamp = λ i. null;
}

abbrev loaded : Sched Crew
loaded = record {
  is_sched_waiting = false;
  coro_this_ptr = null;
  coro_list = null;
  coros = [];
  world = waiting_crew;
}

abbrev two_files : List (List ℤ)
two_files = odd ∷ even ∷ []

main_lem_example :
    ((is_harmless linked 2 ≡ true)
      × Returns (λ r u. IsResult two_files r) (main linked two_files 2 3 20 loaded))
    ⊎ ((is_harmless linked 2 ≡ false) × (main linked two_files 2 3 20 loaded ≡ fault))
main_lem_example =
    main_lem linked two_files 2 3 20 loaded refl refl (omega arith) (omega arith) (omega arith)
      (ground arith)

-- The contexts of `linked` are on the harmless side.
linked-is_harmless : is_harmless linked 2 ≡ true
unfolding is_harmless were_zero
linked-is_harmless = refl

-- Where `malloc` gives no more than it is asked for, the first context is written past its end.
strict_malloc : main (record linked { room = 8 }) two_files 2 3 20 loaded ≡ fault
unfolding is_harmless
strict_malloc =
    elim (main_lem (record linked { room = 8 }) two_files 2 3 20 loaded refl refl (omega arith)
      (omega arith) (omega arith) (ground arith)) [
        | inl (harmless, done) ↦ absurd (true-ne_false harmless)
        | inr (harmful, broken) ↦ broken
      ]
  where
    true-ne_false : is_harmless (record linked { room = 8 }) 2 ≢ true
    true-ne_false e = ground (arith, e)

main-no_coros_example : main linked two_files 0 3 20 loaded ≡ fault
main-no_coros_example =
    main-no_coros linked two_files 3 20 loaded refl refl (omega arith) (omega arith)
