-- ===== src/Coro/Api.antt =====
-- The functions of homework01/libcoro.c that keep the list of coroutines.
use sysprog_labs_f.Base.{ℕ, Bool, false, ◌==◌, if◌then◌else◌}
use sysprog_labs_f.Base.Int.{ℤ, pos}
use sysprog_labs_f.Memory.Store.{Ptr, null, put, remove}
use sysprog_labs_f.Memory.Run.{Cmd, pure, read_state, modify, ◌>>=◌, ◌>>◌}
use sysprog_labs_f.Coro.State.{
  Coro, Sched, Env, load, set_coro, relink_coro, set_this, set_next, set_prev,
}

abbrev pub zeroed : Coro
zeroed = record {
  ret = pos 0;
  func_arg = null;
  func = 0;
  is_finished = false;
  switch_count = 0;
  next = null;
  prev = null;
}

-- A new coroutine. The members that are set; its links are what the memory held.
abbrev pub new_coro : Coro → ℕ → Ptr → Coro
new_coro raw func func_arg = record raw {
  ret = pos 0;
  func = func;
  func_arg = func_arg;
  is_finished = false;
  switch_count = 0;
}

module _ {W : Type 0} where
  unfoldable pub coro_list_add : Ptr → Cmd (Sched W) (Unit {0})
  coro_list_add c = do
    old ← read_state (λ s. s.coro_list)
    set_coro (λ x. record x { next = old; prev = null }) c
    relink_coro (set_prev c) old
    modify λ s. record s { coro_list = c }

  unfoldable pub coro_list_delete : Ptr → Cmd (Sched W) (Unit {0})
  coro_list_delete c = do
    x ← load c
    relink_coro (set_next x.next) x.prev
    relink_coro (set_prev x.prev) x.next
    if x.prev == null then modify (λ s. record s { coro_list = x.next }) else pure tt

  unfoldable pub coro_status : Ptr → Cmd (Sched W) ℤ
  coro_status c = do x ← load c; pure x.ret

  unfoldable pub coro_switch_count : Ptr → Cmd (Sched W) ℕ
  coro_switch_count c = do x ← load c; pure x.switch_count

  unfoldable pub coro_is_finished : Ptr → Cmd (Sched W) Bool
  coro_is_finished c = do x ← load c; pure x.is_finished

  unfoldable pub coro_delete : Ptr → Cmd (Sched W) (Unit {0})
  coro_delete c = do _ ← load c; modify λ s. record s { coros = remove c s.coros }

  unfoldable pub coro_this : Cmd (Sched W) Ptr
  coro_this = read_state λ s. s.coro_this_ptr

  unfoldable pub coro_sched_init : Env W → Cmd (Sched W) (Unit {0})
  coro_sched_init env = do
    modify λ s. record s { coros = put env.sched zeroed s.coros }
    set_this env.sched

  -- `coro_new`, without the signal handler that gives the coroutine its stack.
  unfoldable pub coro_new : Env W → ℕ → Ptr → Cmd (Sched W) Ptr
  unfolding coro_list_add
  coro_new env func func_arg = do
    c ← read_state (λ s. env.coros.place s.coros)
    modify λ s. record s { coros = put c (new_coro (env.coros.raw s.coros) func func_arg) s.coros }
    coro_list_add c
    pure c
