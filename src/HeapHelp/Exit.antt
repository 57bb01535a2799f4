-- ===== src/HeapHelp/Exit.antt =====
-- What `heaph_atexit` of utils/heap_help/heap_help.c prints.
use mathlib.Core.List.{append-nil}
use sysprog_labs_f.Base.{
  ℕ, Option, ltb, not, ◌-◌, ◌&&◌, ◌++◌, ◌≤◌, false, ap, ◌≡◌, refl, sym, subst, true, List, [], ◌∷◌,
  ◌==◌, if◌then◌else◌, length, min, arith, Bool-cases, inl, inr,
}
use sysprog_labs_f.Memory.Store.{Ptr}
use sysprog_labs_f.Memory.Run.{Cmd, Returns, returns, Returns-weaken, Returns-eq, pure, ◌>>◌}
use sysprog_labs_f.HeapHelp.State.{Hh, Allocation, ReportMode, release_allocs}
use sysprog_labs_f.HeapHelp.Report.{
  Symbol, Line, Tally, report_limit, report_loop, report_all, heaph_atexit, summary, with_tally,
  is_quiet, no_leaks, is_verbose, total_allocations, found_leaks, suppressed_leaks, only_first,
}
use sysprog_labs_f.HeapHelp.Leaks.{is_leak, leaks_of, total_size, printed, Tallied, report_loop_lem}

-- The tally that the report should end with.
abbrev full_tally : (Ptr → Option Symbol) → List Allocation → Tally
full_tally resolve live = record {
  count = length (leaks_of resolve live);
  report_count = min report_limit (length (leaks_of resolve live));
  leak_size = total_size (leaks_of resolve live);
  lines = printed resolve 0 live;
}

Tallied-eq :
    (resolve : Ptr → Option Symbol) (live : List Allocation) (u : Tally)
    → Tallied resolve
        record { count = length live; report_count = 0; leak_size = 0; lines = [] }
        live
        u
    → u ≡ full_tally resolve live
Tallied-eq resolve live u w =
    let count : u.count ≡ length (leaks_of resolve live) = let c = w.count in omega arith in
    let reports : u.report_count ≡ min report_limit (length (leaks_of resolve live)) =
      let c = w.report_count in omega arith in
    let size : u.leak_size ≡ total_size (leaks_of resolve live) =
      let c = w.leak_size in omega arith in
    λ i. record { count = count i; report_count = reports i; leak_size = size i; lines = w.lines i }

-- What should be printed of the leaks: their number and size, the number of the live allocations that
-- are none, and how many leaks are shown if not all are.
unfoldable pub totals : List Allocation → ℕ → ℕ → List Line
totals leaks live_count alloc_count_total =
    found_leaks (length leaks) (total_size leaks)
    ∷ ((if live_count == length leaks
          then []
          else suppressed_leaks (live_count - length leaks) ∷ [])
        ++ ((if ltb report_limit (length leaks) then only_first report_limit ∷ [] else [])
            ++ (total_allocations alloc_count_total ∷ [])))

-- What `heaph_atexit` should print.
abbrev pub report_of : (Ptr → Option Symbol) → Hh → List Line
report_of resolve s =
    if is_quiet s.report_mode
    then []
    else if s.alloc_count == 0
    then if is_verbose s.report_mode
      then no_leaks ∷ total_allocations s.alloc_count_total ∷ []
      else []
    else printed resolve 0 s.allocs
      ++ (if length (leaks_of resolve s.allocs) == 0 && not (is_verbose s.report_mode)
          then []
          else totals (leaks_of resolve s.allocs) s.alloc_count s.alloc_count_total)

length-leaks_of :
    (resolve : Ptr → Option Symbol) (live : List Allocation)
    → length (leaks_of resolve live) ≤ length live
unfolding leaks_of
length-leaks_of resolve [] = ground arith
length-leaks_of resolve (a ∷ rest) =
    let below = length-leaks_of resolve rest in
    elim (Bool-cases (is_leak resolve a)) [
      | inl leak ↦ rw leak (omega arith)
      | inr hidden ↦ rw hidden (omega arith)
    ]

shown_line :
    (count : ℕ) (rest : List Line)
    → (if ltb (min report_limit count) count then only_first (min report_limit count) ∷ [] else [])
        ++ rest
      ≡ (if ltb report_limit count then only_first report_limit ∷ [] else []) ++ rest
shown_line count rest = elim (Bool-cases (ltb report_limit count)) [
  | inl more ↦ let shown : min report_limit count ≡ report_limit = ground arith in rw shown refl
  | inr all ↦
      let shown : min report_limit count ≡ count = ground arith in
      let none_left : ltb count count ≡ false = ground arith in rw (shown, none_left, all) refl
]

summary_lem :
    (resolve : Ptr → Option Symbol) (live : List Allocation) (mode : ReportMode) (n total : ℕ)
    → n ≡ length live
    → summary mode n total (full_tally resolve live)
      ≡ printed resolve 0 live
        ++ (if length (leaks_of resolve live) == 0 && not (is_verbose mode)
            then []
            else totals (leaks_of resolve live) n total)
unfolding summary totals
summary_lem resolve live mode n total e =
    let count = length (leaks_of resolve live) in
    let below = length-leaks_of resolve live in
    let f : List Line → List Line =
      λ l. printed resolve 0 live ++ found_leaks count (total_size (leaks_of resolve live)) ∷ l in
    elim (Bool-cases (count == 0 && not (is_verbose mode))) [
      | inl nothing ↦ rw nothing (sym (append-nil (printed resolve 0 live)))
      | inr some_lines ↦ rw some_lines (elim (Bool-cases (n - count == 0)) [
        | inl all ↦
            let same : (n == count) ≡ true = ground arith in
            rw (all, same) (ap f (shown_line count (total_allocations total ∷ [])))
        | inr hidden ↦
            let more : (n == count) ≡ false = ground arith in
            rw (hidden, more)
              (ap (λ l. f (suppressed_leaks (n - count) ∷ l))
                (shown_line count (total_allocations total ∷ [])))
      ])
    ]

-- A state in which the report starts: no lock is held.
abbrev before_exit : Hh → Hh
before_exit s = record s { is_exit_done = false; allocs_lock = false }

report_loop-full :
    (resolve : Ptr → Option Symbol) (s : Hh)
    → s.alloc_count ≡ length s.allocs
    → Returns
        (λ _ u. u ≡ full_tally resolve s.allocs)
        (report_loop resolve s.allocs
          record { count = s.alloc_count; report_count = 0; leak_size = 0; lines = [] })
report_loop-full resolve s e =
    subst
      (λ n.
        Returns (λ _ u. u ≡ full_tally resolve s.allocs)
          (report_loop resolve s.allocs
            record { count = n; report_count = 0; leak_size = 0; lines = [] }))
      (sym e)
      (Returns-weaken
        (report_loop_lem resolve s.allocs
          record { count = length s.allocs; report_count = 0; leak_size = 0; lines = [] }
          (omega arith) (omega arith))
        λ _ u w. Tallied-eq resolve s.allocs u w)

with_tally-full :
    {A : Type 0} {P : A → Hh → Type 0} (start end : Tally) (loop : Cmd Tally (Unit {0}))
    → (next : Tally → Cmd Hh A) (s : Hh) → Returns (λ _ u. u ≡ end) (loop start)
    → Returns P (next end s)
    → Returns P (with_tally start loop next s)
with_tally-full {A} {P} start end loop next s looped then_ =
    let (a, u, e, same) = Returns-eq looped in
    rw (with_tally, e) (subst (λ v. Returns P (next v s)) (sym same) then_)

heaph_atexit_ready :
    (resolve : Ptr → Option Symbol) (s : Hh)
    → s.alloc_count ≡ length s.allocs
    → Returns
        (λ out t.
          (out ≡ report_of resolve s) × (t ≡ record (before_exit s) { is_exit_done = true }))
        (heaph_atexit resolve (before_exit s))
unfolding heaph_atexit report_all
heaph_atexit_ready resolve s e = elim (Bool-cases (is_quiet s.report_mode)) [
  | inl quiet ↦ rw quiet (returns (refl, refl))
  | inr loud ↦ elim (Bool-cases (s.alloc_count == 0)) [
    | inl empty ↦ rw (loud, empty) (returns (refl, refl))
    | inr some_live ↦
        rw
          (
            loud,
            some_live,
            sym (summary_lem resolve s.allocs s.report_mode s.alloc_count s.alloc_count_total e),
          )
          (with_tally-full
            record { count = s.alloc_count; report_count = 0; leak_size = 0; lines = [] }
            (full_tally resolve s.allocs) (report_loop resolve s.allocs)
            (λ t.
              release_allocs >> pure (summary s.report_mode s.alloc_count s.alloc_count_total t))
            (record s { is_exit_done = true; allocs_lock = true }) (report_loop-full resolve s e)
            (returns (refl, refl)))
  ]
]

-- At the first exit, with the lock free and a count that is the number of live allocations, the
-- report ends and no assertion fails. Nothing is printed in the quiet mode. Else, with no live
-- allocation, two lines are printed if the mode is verbose and none if not. Else, the lines of
-- `printed` for the stacks, and then, unless there is no leak and the mode is not verbose, those of
-- `totals`: the number and total size of the leaks, the number of the other allocations if there
-- are some, that only `report_limit` leaks are shown if there are more, and the count of all
-- allocations. Apart from the mark of the exit the state stays.
pub heaph_atexit_lem :
    (resolve : Ptr → Option Symbol) (s : Hh)
    → s.is_exit_done ≡ false
    → s.allocs_lock ≡ false
    → s.alloc_count ≡ length s.allocs
    → Returns
        (λ out t. (out ≡ report_of resolve s) × (t ≡ record s { is_exit_done = true }))
        (heaph_atexit resolve s)
heaph_atexit_lem resolve s running unlocked count =
    let e : s ≡ before_exit s =
      λ i. record s { is_exit_done = running i; allocs_lock = unlocked i } in
    subst
      (λ u.
        Returns (λ out t. (out ≡ report_of resolve u) × (t ≡ record u { is_exit_done = true }))
          (heaph_atexit resolve u))
      (sym e) (heaph_atexit_ready resolve s count)
