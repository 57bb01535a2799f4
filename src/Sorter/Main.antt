-- ===== src/Sorter/Main.antt =====
-- `main` of homework01/solution.c. Printing, the clock and freeing memory are left out, but not what
-- may go wrong with the memory of the contexts.
use sysprog_labs_f.Base.{
  ℕ, zero, suc, ◌+◌, ◌≡◌, ◌≢◌, List, Option, none, some, length, ◌==◌, ltb, if◌then◌else◌,
}
use sysprog_labs_f.Base.Int.{ℤ}
use sysprog_labs_f.Memory.Store.{Ptr, null, Malloc}
use sysprog_labs_f.Memory.Run.{Cmd, pure, crash, diverge, demand, read_state, modify, ◌>>=◌, ◌>>◌}
use sysprog_labs_f.Coro.State.{Coro, Sched, Env}
use sysprog_labs_f.Coro.Api.{coro_sched_init, coro_new}
use sysprog_labs_f.Coro.Wait.{coro_yield, run}
use sysprog_labs_f.Coro.WaitAll.{wait_all}
use sysprog_labs_f.Sorter.Sort.{get_sorted_numbers}
use sysprog_labs_f.Sorter.Claims.{claiming, Crew, sort_files}
use sysprog_labs_f.Sorter.Crews.{crew_env}
use sysprog_labs_f.Sorter.Files.{read_files, all_numbers, write_numbers_to_file}

-- What `main` is linked with: `malloc` for coroutines and for arrays, the address of `coro_sched`,
-- that of `coroutine_func_f`, and those of the contexts. `room` is the number of bytes that may be
-- used where `malloc` was asked for the size of a pointer, and `prev_timestamp i` what the memory of
-- the context `i` held at that member.
pub record Platform : Type 0 where
  pub coros : Malloc Coro
  pub raw : ℕ → List ℤ
  pub whole : (n : ℕ) → length (raw n) ≡ n
  pub sched : Ptr
  pub alive : sched ≢ null
  pub func : ℕ
  pub context : ℕ → Ptr
  pub room : ℕ
  pub prev_timestamp : ℕ → Ptr

-- A result of a routine that may not end.
abbrev pub await : {S A : Type 0} → Option A → Cmd S A
await none s = diverge s
await (some a) s = pure a s

-- What the coroutines share before one of them runs.
abbrev pub new_crew : Crew
new_crew = record { next_file_idx = 0; dest = λ i. none; phase = λ c. claiming }

-- The size of `struct timespec`.
abbrev pub timespec_size : ℕ
timespec_size = 16

-- The two members of `coro_work_time` are written to memory of the size of a pointer.
unfoldable pub my_context_new : {S : Type 0} → Platform → ℕ → Cmd S Ptr
my_context_new platform i =
    if ltb platform.room timespec_size then crash else pure (platform.context i)

-- The first `set_coro_timestamp` of a coroutine, which is the first thing that it does: it frees what
-- `prev_timestamp` held. NULL is all that may be freed there.
unfoldable pub set_coro_timestamp : {S : Type 0} → Platform → ℕ → Cmd S (Unit {0})
set_coro_timestamp platform i = if platform.prev_timestamp i == null then pure tt else crash

-- What the coroutines from `i` on do first.
unfoldable pub set_timestamps : {S : Type 0} → Platform → ℕ → ℕ → Cmd S (Unit {0})
unfolding set_coro_timestamp
set_timestamps platform i zero = pure tt
set_timestamps platform i (suc n) = do
  set_coro_timestamp platform i
  set_timestamps platform (i + 1) n

-- The loop of `coro_new`, from the coroutine `i` on.
unfoldable pub new_coros : {W : Type 0} → Env W → Platform → ℕ → ℕ → Cmd (Sched W) (Unit {0})
unfolding my_context_new
new_coros env platform i zero = pure tt
new_coros env platform i (suc n) = do
  context ← my_context_new platform i
  _ ← coro_new env platform.func context
  new_coros env platform (i + 1) n

-- The calls of `coro_yield` outside of any coroutine.
unfoldable pub yield_alone : {W : Type 0} → Env W → ℕ → ℕ → Cmd (Sched W) (Unit {0})
yield_alone env fuel zero = pure tt
yield_alone env fuel (suc n) = do to ← coro_yield env; run env fuel to; yield_alone env fuel n

-- What `main` does with what the sorts of the files will give.
unfoldable pub sort_all : {W : Type 0} → Env W → ℕ → List ℤ → Cmd (Sched W) (List ℤ)
unfolding yield_alone
sort_all env fuel numbers = do
  result ← await (get_sorted_numbers (length numbers) numbers)
  yield_alone env fuel result.yields
  demand (write_numbers_to_file result.array (length result.array))

-- The numbers of the file of results. `files` holds the numbers of each file. What a coroutine reads
-- from its file and sorts does not hang on the others, and is computed first, and so is what each does
-- with its time stamp when it starts.
unfoldable pub main : Platform → List (List ℤ) → ℕ → ℕ → ℕ → Cmd (Sched Crew) (List ℤ)
unfolding new_coros set_timestamps sort_all
main platform files coros_total fuel rounds = do
  arrays ← demand (read_files platform.raw files)
  outcomes ← await (sort_files arrays)
  modify (λ s. record s { world = new_crew })
  coro_sched_init (crew_env platform.coros platform.sched outcomes)
  new_coros (crew_env platform.coros platform.sched outcomes) platform 0 coros_total
  set_timestamps platform 0 coros_total
  wait_all (crew_env platform.coros platform.sched outcomes) fuel rounds (coros_total + 1)
  dest ← read_state (λ s. s.world.dest)
  numbers ← demand (all_numbers dest 0 (length files))
  sort_all (crew_env platform.coros platform.sched outcomes) fuel numbers
