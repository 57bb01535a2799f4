-- ===== src/HeapHelp/Report.antt =====
-- The report that utils/heap_help/heap_help.c prints when the process ends.
use Prim.Native.String.{String}
use text.Mathlib.Text.{◌==◌ as str_eq, starts_with}
use sysprog_labs_f.Base.{
  ℕ, ◌+◌, ◌-◌, Bool, true, false, not, ◌&&◌, ◌||◌, List, [], ◌∷◌, ◌++◌, map, Option, none, some,
  ◌==◌, ltb, if◌then◌else◌, take,
}
use sysprog_labs_f.Memory.Store.{Ptr}
use sysprog_labs_f.Memory.Run.{Cmd, ok, fault, out_of_fuel, pure, read_state, modify, ◌>>=◌, ◌>>◌}
use sysprog_labs_f.HeapHelp.State.{
  Hh, Allocation, ReportMode, mode_verbose, mode_leaks, mode_quiet, heaph_assert, acquire_allocs,
  release_allocs,
}

-- `struct symbol`: what `dladdr` gives for an address.
pub record Symbol : Type 0 where
  pub file : Option String
  pub name : Option String

unfoldable pub trace_sym_is_func : Symbol → String → Bool
trace_sym_is_func sym func = elim sym.name [ none ↦ false | some name ↦ str_eq name func ]

unfoldable pub trace_sym_file_starts_with : Symbol → String → Bool
trace_sym_file_starts_with sym file = elim sym.file [
  | none ↦ false
  | some text ↦ starts_with text file
]

unfoldable pub trace_sym_is_internal : Symbol → Bool
unfolding trace_sym_is_func trace_sym_file_starts_with
trace_sym_is_internal sym =
    trace_sym_is_func sym "puts"
    || trace_sym_is_func sym "pthread_create"
    || trace_sym_is_func sym "_IO_printf"
    || trace_sym_is_func sym "_IO_puts"
    || trace_sym_is_func sym "_IO_vfscanf"
    || trace_sym_file_starts_with sym "libpthread.so"

unfoldable pub trace_is_internal : List Symbol → Bool
unfolding trace_sym_is_internal
trace_is_internal [] = false
trace_is_internal (sym ∷ rest) = trace_sym_is_internal sym || trace_is_internal rest

-- What is printed, by line or block.
pub data Line : Type 0 where
  dladdr_failure : Line
  no_leaks : Line
  leak_of : ℕ → ℕ → List (Option String) → Line
  found_leaks : ℕ → ℕ → Line
  suppressed_leaks : ℕ → Line
  only_first : ℕ → Line
  total_allocations : ℕ → Line

-- The symbols of a stack, and what is printed for the addresses that have none. `resolve` stands for
-- `dladdr`, and gives none where that fails.
unfoldable pub trace_resolve : (Ptr → Option Symbol) → List Ptr → List Symbol × List Line
trace_resolve resolve [] = ([], [])
trace_resolve resolve (p ∷ ps) =
    let rest = trace_resolve resolve ps in
    elim (resolve p) [
      | none ↦ (record { file = none; name = none } ∷ rest.0, dladdr_failure ∷ rest.1)
      | some sym ↦ (sym ∷ rest.0, rest.1)
    ]

abbrev pub symbols : (Ptr → Option Symbol) → Allocation → List Symbol
symbols resolve a = (trace_resolve resolve (take a.trace_size a.trace)).0

abbrev pub failures : (Ptr → Option Symbol) → Allocation → List Line
failures resolve a = (trace_resolve resolve (take a.trace_size a.trace)).1

-- The variables of the loop.
pub record Tally : Type 0 where
  pub count : ℕ
  pub report_count : ℕ
  pub leak_size : ℕ
  pub lines : List Line

abbrev pub report_limit : ℕ
report_limit = 10

-- A leak with its stack, printed while fewer than `report_limit` are.
unfoldable pub report_leak : List Symbol → Allocation → Tally → Tally
report_leak syms a t =
    if ltb t.report_count report_limit
    then record t {
      report_count = t.report_count + 1;
      lines = t.lines ++ leak_of (t.report_count + 1) a.size (map (λ sym. sym.name) syms) ∷ [];
    }
    else t

unfoldable pub report_round : (Ptr → Option Symbol) → Allocation → Cmd Tally (Unit {0})
unfolding report_leak trace_resolve trace_is_internal
report_round resolve a = do
  λ t. heaph_assert (ltb 0 t.count) t
  if a.trace_size == 0 then modify (λ t. record t { count = t.count - 1 }) else do
    modify λ t. record t { lines = t.lines ++ failures resolve a }
    if trace_is_internal (symbols resolve a)
        then modify (λ t. record t { count = t.count - 1 })
        else modify (report_leak (symbols resolve a) a)
          >> modify λ t. record t { leak_size = t.leak_size + a.size }

unfoldable pub report_loop : (Ptr → Option Symbol) → List Allocation → Cmd Tally (Unit {0})
unfolding report_round
report_loop resolve [] = pure tt
report_loop resolve (a ∷ rest) = report_round resolve a >> report_loop resolve rest

abbrev pub is_verbose : ReportMode → Bool
is_verbose mode_verbose = true
is_verbose mode_leaks = false
is_verbose mode_quiet = false

abbrev pub is_quiet : ReportMode → Bool
is_quiet mode_verbose = false
is_quiet mode_leaks = false
is_quiet mode_quiet = true

-- The lines behind the loop.
unfoldable pub summary : ReportMode → ℕ → ℕ → Tally → List Line
summary mode total_count alloc_count_total t =
    if t.count == 0 && not (is_verbose mode)
    then t.lines
    else t.lines
      ++ found_leaks t.count t.leak_size
        ∷ ((if total_count - t.count == 0
              then []
              else (suppressed_leaks (total_count - t.count) ∷ []))
            ++ ((if ltb t.report_count t.count then (only_first t.report_count ∷ []) else [])
                ++ (total_allocations alloc_count_total ∷ [])))

-- The loop runs on variables of its own, between the two accesses of the lock.
abbrev pub with_tally : {A : Type 0} → Tally → Cmd Tally (Unit {0}) → (Tally → Cmd Hh A) → Cmd Hh A
with_tally start loop next s = elim (loop start) [
  | ok _ t ↦ next t s
  | fault ↦ fault
  | out_of_fuel ↦ out_of_fuel
]

unfoldable pub report_all : (Ptr → Option Symbol) → Cmd Hh (List Line)
unfolding report_loop summary
report_all resolve = do
  acquire_allocs
  s ← read_state (λ s. s)
  if s.alloc_count == 0
      then (do
        release_allocs
        pure (
            if is_verbose s.report_mode
            then no_leaks ∷ total_allocations s.alloc_count_total ∷ []
            else []))
      else with_tally record { count = s.alloc_count; report_count = 0; leak_size = 0; lines = [] }
          (report_loop resolve s.allocs)
          λ t. release_allocs >> pure (summary s.report_mode s.alloc_count s.alloc_count_total t)

unfoldable pub heaph_atexit : (Ptr → Option Symbol) → Cmd Hh (List Line)
unfolding report_all
heaph_atexit resolve s =
    if s.is_exit_done
    then pure [] s
    else (do
      modify λ t. record t { is_exit_done = true }
      if is_quiet s.report_mode then pure [] else report_all resolve)
        s
