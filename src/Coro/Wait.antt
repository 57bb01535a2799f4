-- ===== src/Coro/Wait.antt =====
-- The switches of homework01/libcoro.c and its scheduler.
use sysprog_labs_f.Base.{ℕ, zero, suc, true, false, not, ◌==◌, if◌then◌else◌}
use sysprog_labs_f.Base.Int.{ℤ}
use sysprog_labs_f.Memory.Store.{Ptr, null}
use sysprog_labs_f.Memory.Run.{Cmd, ok, pure, crash, diverge, read_state, ◌>>=◌, ◌>>◌}
use sysprog_labs_f.Coro.State.{
  Action, yields, gives, Sched, Env, load, set_coro, set_this, set_waiting, switched, finished_with,
}
use sysprog_labs_f.Coro.Api.{coro_list_delete}

-- The `for` loop of `coro_sched_wait`.
unfoldable pub find_finished : {W : Type 0} → ℕ → Ptr → Cmd (Sched W) Ptr
find_finished zero c = diverge
find_finished (suc k) c =
    if c == null
    then pure null
    else do x ← load c; if x.is_finished then pure c else find_finished k x.next

module _ {W : Type 0} (env : Env W) where
  -- Up to the jump: the coroutine that is jumped to.
  unfoldable pub coro_yield : Cmd (Sched W) Ptr
  coro_yield = do
    from ← read_state (λ s. s.coro_this_ptr)
    x ← load from
    set_coro switched from
    pure (if x.next == null then env.sched else x.next)

  -- The end of `coro_body`: without a scheduler that waits the process exits.
  unfoldable pub coro_return : Ptr → ℤ → Cmd (Sched W) Ptr
  coro_return c r = do
    set_coro (finished_with r) c
    waits ← read_state (λ s. s.is_sched_waiting)
    if not waits then crash else pure env.sched

  -- The code of the coroutine runs.
  abbrev pub user_code : Ptr → Cmd (Sched W) Action
  user_code c s = let r = env.slice c s.world in ok r.0 (record s { world = r.1 })

  abbrev pub go_on : Ptr → Action → Cmd (Sched W) Ptr
  go_on c yields = coro_yield
  go_on c (gives r) = coro_return c r

  -- A coroutine from the jump to it to its next jump. A coroutine that has finished has no context.
  unfoldable pub resume : Ptr → Cmd (Sched W) Ptr
  unfolding coro_yield coro_return
  resume c = do
    x ← load c
    if x.is_finished then crash else do set_this c; a ← user_code c; go_on c a

  -- From a jump until the scheduler runs again.
  unfoldable pub run : ℕ → Ptr → Cmd (Sched W) (Unit {0})
  unfolding resume
  run zero c = diverge
  run (suc k) c = if c == env.sched then set_this env.sched else do to ← resume c; run k to

  -- `coro_yield_to` of the scheduler.
  unfoldable pub coro_yield_to : ℕ → Ptr → Cmd (Sched W) (Unit {0})
  unfolding run
  coro_yield_to fuel to = do
    from ← read_state (λ s. s.coro_this_ptr)
    set_coro switched from
    run fuel to

  -- `fuel` is for the loops over the list, and there are at most so many rounds.
  unfoldable pub coro_sched_wait : ℕ → ℕ → Cmd (Sched W) Ptr
  unfolding find_finished coro_yield_to
  coro_sched_wait fuel zero = diverge
  coro_sched_wait fuel (suc k) = do
    list ← read_state (λ s. s.coro_list)
    if list == null then pure null else do
      c ← find_finished fuel list
      if not (c == null) then (do coro_list_delete c; pure c) else do
        set_waiting true
        coro_yield_to fuel list
        set_waiting false
        coro_sched_wait fuel k
