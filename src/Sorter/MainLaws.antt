-- ===== src/Sorter/MainLaws.antt =====
-- `main` of homework01/solution.c sorts the numbers of its files.
use sysprog_labs_f.Base.{
  ℕ, zero, suc, ◌+◌, ◌*◌, ◌<◌, ◌≡◌, refl, sym, ap, ◌∙◌, subst, false, List, [], Option, none,
  length, length-map, arith, Bool, true, not, ◌&&◌, ltb, ◌⊎◌, inl, inr, Bool-cases,
}
use sysprog_labs_f.Base.Int.{ℤ}
use sysprog_labs_f.Memory.Store.{null}
use sysprog_labs_f.Memory.Run.{ok, fault, demand, and_then, Returns, Returns-and_then, Returns-eq}
use sysprog_labs_f.Coro.State.{Sched, Env}
use sysprog_labs_f.Coro.Jobs.{IsSched}
use sysprog_labs_f.Coro.Returned.{addresses}
use sysprog_labs_f.Coro.WaitAll.{wait_all, wait_none, wait_all_lem}
use sysprog_labs_f.Sorter.Claims.{Crew, start}
use sysprog_labs_f.Sorter.Measure.{left_to_do}
use sysprog_labs_f.Sorter.Crews.{crew_env, crew_program}
use sysprog_labs_f.Sorter.Files.{all_numbers}
use sysprog_labs_f.Sorter.FileLaws.{joined, AreRead, read_files_lem}
use sysprog_labs_f.Sorter.Finish.{
  AreSorted, sort_files-AreSorted, pending-new_crew, destinations, IsResult, finish,
}
use sysprog_labs_f.Sorter.Main.{
  Platform, timespec_size, new_crew, new_coros, set_timestamps, sort_all, main,
}
use sysprog_labs_f.Sorter.Starting.{
  addresses-IsDistinct, Each-elem, coro_sched_init-IsSched, Started, new_coros_lem, new_coros-small,
  were_zero, set_timestamps-zero, set_timestamps-other,
}

module _ (platform : Platform) (files arrays : List (List ℤ)) (sorts : AreSorted arrays)
    (read : AreRead files arrays) (fuel rounds : ℕ) (some_file : 0 < length files) where
  abbrev crew : Env Crew
  crew = crew_env platform.coros platform.sched sorts.outcomes

  -- From the first wait on.
  wait_and_finish :
      (n : ℕ) (s u : Sched Crew)
      → Started crew n s u
      → s.world ≡ new_crew
      → 0 < n
      → n < fuel
      → 2 * (length (joined files) + length files) + 1 < rounds
      → Returns
          (λ r v. IsResult files r)
          (and_then (wait_all crew fuel rounds (n + 1) u) λ a v.
            and_then
              (demand (all_numbers v.world.dest 0 (length files)) v)
              λ numbers. sort_all crew fuel numbers)
  unfolding crew_program
  wait_and_finish n s u t fresh some_coro enough many =
      let ps = addresses t.jobs in
      let apart = addresses-IsDistinct u.coros null null t.jobs t.sched.chain in
      let program =
        crew_program sorts.outcomes platform.coros platform.sched ps new_crew sorts.often apart in
      let world : u.world ≡ new_crew = t.world ∙ fresh in
      let inv = subst program.Inv (sym world) (record { reach = start; others = λ q o. refl }) in
      let to_do = ap (left_to_do sorts.outcomes ps) world in
      let none_yet = pending-new_crew ps in
      let count = t.count in
      let total = read.total in
      let bound = sorts.bound in
      let some_job : 0 < length ps = omega (arith, length-map t.jobs (λ c. c.at), t.count) in
      Returns-and_then
        (wait_all_lem crew program fuel rounds (n + 1) u t.jobs t.sched t.unfinished (Each-elem ps)
          inv (omega arith) (omega arith) (omega arith))
        λ a v d.
          finish crew fuel v [] v.world.dest files arrays d.sched (omega arith) some_file read (
            destinations arrays sorts.outcomes ps v.world some_job read.full sorts.eq d.later.inv
              d.over)

-- What the contexts of `n` coroutines need of their memory: the one that is asked for with the size
-- of a pointer takes a time, and the one that is freed unset was zero.
unfoldable pub is_harmless : Platform → ℕ → Bool
is_harmless platform n = not (ltb platform.room timespec_size) && were_zero platform 0 n

module _ (platform : Platform) (files : List (List ℤ)) (coros_total fuel rounds : ℕ)
    (s : Sched Crew) (list : s.coro_list ≡ null) (waiting : s.is_sched_waiting ≡ false)
    (some_coro : 0 < coros_total) where
  main-small :
      ltb platform.room timespec_size ≡ true → main platform files coros_total fuel rounds s ≡ fault
  unfolding main
  main-small small =
      let (arrays, eq, read) = read_files_lem platform.raw platform.whole files in
      let sorts = sort_files-AreSorted arrays read.full in
      let e = crew_env platform.coros platform.sched sorts.outcomes in
      let (a, u, begin, fresh) =
        Returns-eq
          (coro_sched_init-IsSched e (record s { world = new_crew }) platform.alive list waiting) in
      rw (eq, sorts.eq, begin, new_coros-small e platform 0 coros_total u small some_coro) refl

  main-other :
      ltb platform.room timespec_size ≡ false
      → were_zero platform 0 coros_total ≡ false
      → main platform files coros_total fuel rounds s ≡ fault
  unfolding main
  main-other room other =
      let (arrays, eq, read) = read_files_lem platform.raw platform.whole files in
      let sorts = sort_files-AreSorted arrays read.full in
      let e = crew_env platform.coros platform.sched sorts.outcomes in
      let (a, u, begin, fresh) =
        Returns-eq
          (coro_sched_init-IsSched e (record s { world = new_crew }) platform.alive list waiting) in
      let (b, v, started, t) =
        Returns-eq (new_coros_lem e platform 0 coros_total u [] room fresh.0 tt) in
      rw (eq, sorts.eq, begin, started, set_timestamps-other platform 0 coros_total v other) refl

  main-harmless :
      ltb platform.room timespec_size ≡ false
      → were_zero platform 0 coros_total ≡ true
      → 0 < length files
      → coros_total < fuel
      → 2 * (length (joined files) + length files) + 1 < rounds
      → Returns (λ r u. IsResult files r) (main platform files coros_total fuel rounds s)
  unfolding main
  main-harmless room zeros some_file enough many =
      let (arrays, eq, read) = read_files_lem platform.raw platform.whole files in
      let sorts = sort_files-AreSorted arrays read.full in
      let e = crew_env platform.coros platform.sched sorts.outcomes in
      rw (eq, sorts.eq)
        (Returns-and_then
          (coro_sched_init-IsSched e (record s { world = new_crew }) platform.alive list waiting)
          λ a u begin.
            Returns-and_then (new_coros_lem e platform 0 coros_total u [] room begin.0 tt) λ b v t.
              rw (set_timestamps-zero platform 0 coros_total v zeros) (
                wait_and_finish platform files arrays sorts read fuel rounds some_file coros_total u
                  v (subst (λ n. Started e n u v) (omega arith) t) begin.1 some_coro enough many))

-- The whole program of homework01, apart from the clock and the printing, from a state in which the
-- list of coroutines is empty and no scheduler waits, with at least one file and one coroutine,
-- fuel above the number of coroutines, and rounds above twice the count of all numbers and files
-- and one. Either the memory of the contexts is harmless: what `malloc` gives for the size of a
-- pointer has room for a time, and what each context held as its last time stamp was zero. Then
-- `main` returns without a fault, and the file of results holds, in ascending order, all the
-- numbers of all files and exactly one number more for each file. Or it is not, and `main` faults.
pub main_lem :
    (platform : Platform) (files : List (List ℤ)) (coros_total fuel rounds : ℕ) (s : Sched Crew)
    → s.coro_list ≡ null
    → s.is_sched_waiting ≡ false
    → 0 < length files
    → 0 < coros_total
    → coros_total < fuel
    → 2 * (length (joined files) + length files) + 1 < rounds
    → ((is_harmless platform coros_total ≡ true)
        × Returns (λ r u. IsResult files r) (main platform files coros_total fuel rounds s))
      ⊎ ((is_harmless platform coros_total ≡ false)
          × (main platform files coros_total fuel rounds s ≡ fault))
unfolding is_harmless
main_lem platform files coros_total fuel rounds s list waiting some_file some_coro enough many =
    elim (Bool-cases (ltb platform.room timespec_size)) [
      | inl small ↦ inr (
        ground arith,
        main-small platform files coros_total fuel rounds s list waiting some_coro small,
      )
      | inr room ↦ elim (Bool-cases (were_zero platform 0 coros_total)) [
        | inl zeros ↦ inl (
          ground arith,
          main-harmless platform files coros_total fuel rounds s list waiting some_coro room zeros
              some_file enough many,
        )
        | inr other ↦ inr (
          ground arith,
          main-other platform files coros_total fuel rounds s list waiting some_coro room other,
        )
      ]
    ]

-- Without a coroutine no destination is written.
wait_for_none :
    {W : Type 0} (env : Env W) (fuel rounds : ℕ) (s : Sched W)
    → IsSched env s []
    → 0 < rounds
    → wait_all env fuel rounds 1 s ≡ ok tt s
unfolding wait_all
wait_for_none env fuel rounds s sched some_round =
    rw (wait_none env fuel rounds s sched some_round) refl

all_numbers-none :
    (dest : ℕ → Option (List ℤ)) (n : ℕ) → dest 0 ≡ none → 0 < n → all_numbers dest 0 n ≡ none
unfolding all_numbers
all_numbers-none dest zero e some_file = absurd (omega arith)
all_numbers-none dest (suc n) e some_file = rw e refl

-- With at least one file and no coroutine, from a state in which the list of coroutines is empty
-- and no scheduler waits, `main` reads a destination that was never written.
pub main-no_coros :
    (platform : Platform) (files : List (List ℤ)) (fuel rounds : ℕ) (s : Sched Crew)
    → s.coro_list ≡ null
    → s.is_sched_waiting ≡ false
    → 0 < length files
    → 0 < rounds
    → main platform files 0 fuel rounds s ≡ fault
unfolding main new_coros set_timestamps
main-no_coros platform files fuel rounds s list waiting some_file some_round =
    let (arrays, eq, read) = read_files_lem platform.raw platform.whole files in
    let sorts = sort_files-AreSorted arrays read.full in
    let e = crew_env platform.coros platform.sched sorts.outcomes in
    let (a, u, begin, fresh) =
      Returns-eq
        (coro_sched_init-IsSched e (record s { world = new_crew }) platform.alive list waiting) in
    let unwritten : all_numbers u.world.dest 0 (length files) ≡ none =
      all_numbers-none u.world.dest (length files) (ap (λ w. w.dest 0) fresh.1) some_file in
    rw (eq, sorts.eq, begin, wait_for_none e fuel rounds u fresh.0 some_round, unwritten) refl
