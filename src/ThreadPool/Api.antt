-- ===== src/ThreadPool/Api.antt =====
-- The functions of homework04/thread_pool.c that are called from outside. A function that waits is
-- two sections: up to the wait, and from the wake-up on.
use sysprog_labs_f.Base.{
  ℕ, ◌+◌, Bool, true, false, not, ◌&&◌, ◌||◌, [], ◌∷◌, ◌++◌, ◌==◌, leb, ltb, if◌then◌else◌,
}
use sysprog_labs_f.Base.Int.{ℤ, pos, negsuc}
use sysprog_labs_f.Memory.Store.{Ptr, null}
use sysprog_labs_f.Memory.Run.{Cmd, pure, crash, read_state, modify, ◌>>=◌, ◌>>◌}
use sysprog_labs_f.ThreadPool.State.{
  Tp, Env, TpTask, looking, Code, success, invalid_argument, too_many_tasks, has_tasks,
  task_not_pushed, timed_out, Turn, finished, max_threads, max_tasks, lock, lock_of, unlock, wait,
  leave, load_tp_task, set_tp_task, relink_tp_task, set_prev,
}
use sysprog_labs_f.ThreadPool.Tasks.{get_tp_task, make_thread_pool_task, delete_task, free_task}

-- The new pool takes the place of the state's.
unfoldable pub thread_pool_new : ℤ → Cmd Tp Code
thread_pool_new (negsuc n) = pure invalid_argument
thread_pool_new (pos n) = if ltb max_threads n || leb n 0 then pure invalid_argument else do
  modify λ s. record s {
    threads = [];
    max_threads_cnt = n;
    threads_cnt = 0;
    tasks_cnt = 0;
    is_active = true;
    active_threads_cnt = 0;
    task = null;
    last_task = null;
    mutex = false;
    is_alive = true;
  }
  pure success

unfoldable pub thread_pool_thread_count : Cmd Tp ℕ
thread_pool_thread_count s = (if s.is_alive then read_state (λ t. t.threads_cnt) else crash) s

-- The `while` of `thread_pool_delete`, and what is behind it.
unfoldable pub delete_when_idle : Cmd Tp (Turn Code)
delete_when_idle = do
  threads_cnt ← read_state (λ s. s.threads_cnt)
  if not (threads_cnt == 0)
      then wait
      else do unlock; modify λ s. record s { is_alive = false }; pure (finished success)

unfoldable pub thread_pool_delete : Cmd Tp (Turn Code)
unfolding delete_when_idle
thread_pool_delete = do
  lock
  tasks_cnt ← read_state (λ s. s.tasks_cnt)
  if ltb 0 tasks_cnt
      then leave (finished has_tasks)
      else do modify λ s. record s { is_active = false }; delete_when_idle

-- The wake-up takes the mutex again.
unfoldable pub thread_pool_delete_resume : Cmd Tp (Turn Code)
unfolding delete_when_idle
thread_pool_delete_resume = lock >> delete_when_idle

-- A thread is created if all are busy and there may be more.
unfoldable pub spawn : Cmd Tp (Unit {0})
spawn s =
    if s.active_threads_cnt == s.threads_cnt && ltb s.threads_cnt s.max_threads_cnt
    then modify
        (λ t. record t { threads = t.threads ++ looking ∷ []; threads_cnt = t.threads_cnt + 1 }) s
    else pure tt s

-- The new task becomes the first of the pool.
unfoldable pub put_first : Ptr → Cmd Tp (Unit {0})
put_first q = do
  modify λ s. record s { tasks_cnt = s.tasks_cnt + 1 }
  old ← read_state (λ s. s.task)
  set_tp_task (λ x. record x { is_pushed = true; next = old }) q
  relink_tp_task (set_prev q) old
  modify λ s. record s { task = q; last_task = if s.last_task == null then q else s.last_task }

unfoldable pub thread_pool_push_task : Env → Ptr → Cmd Tp Code
unfolding spawn put_first
thread_pool_push_task env task = do
  lock
  tasks_cnt ← read_state (λ s. s.tasks_cnt)
  if tasks_cnt == max_tasks
      then leave too_many_tasks
      else do spawn; q ← make_thread_pool_task env task; put_first q; leave success

-- `thread_task_is_finished` and `thread_task_is_running` differ in the member that they read.
abbrev pub observe : (TpTask → Bool) → Ptr → Cmd Tp Bool
observe member task = do
  q ← get_tp_task task
  if q == null then pure false else do lock_of q; x ← load_tp_task q; leave (member x)

unfoldable pub thread_task_is_finished : Ptr → Cmd Tp Bool
thread_task_is_finished = observe λ x. x.is_finished

unfoldable pub thread_task_is_running : Ptr → Cmd Tp Bool
thread_task_is_running = observe λ x. x.is_running

-- The result of a call to join, which goes with the code.
abbrev pub Joined : Type 0
Joined = Turn (Code × Ptr)

abbrev pub read_result : Ptr → Cmd Tp Joined
read_result q = do x ← load_tp_task q; leave (finished (success, x.result))

-- `is_joined` is set before the wait.
abbrev pub join_or_wait : Ptr → Cmd Tp Joined
join_or_wait q = do
  set_tp_task (λ x. record x { is_joined = true }) q
  x ← load_tp_task q
  if not x.is_finished then wait else read_result q

unfoldable pub thread_task_join : Ptr → Cmd Tp Joined
thread_task_join task = do
  q ← get_tp_task task
  if q == null then pure (finished (task_not_pushed, null)) else lock_of q >> join_or_wait q

-- Behind the wait, which is left at the first wake-up.
unfoldable pub thread_task_join_resume : Ptr → Cmd Tp Joined
thread_task_join_resume q = lock >> read_result q

-- `positive` is the negation of the test `timeout <= 0.0`.
unfoldable pub thread_task_timed_join : Ptr → Bool → Cmd Tp Joined
thread_task_timed_join task positive = do
  q ← get_tp_task task
  if q == null
      then pure (finished (task_not_pushed, null))
      else do lock_of q; if not positive then leave (finished (timed_out, null)) else join_or_wait q

-- Behind the wait, which a signal ends or the clock.
unfoldable pub thread_task_timed_join_resume : Ptr → Bool → Cmd Tp Joined
thread_task_timed_join_resume q late = do
  lock
  if late then leave (finished (timed_out, null)) else read_result q

unfoldable pub thread_task_delete : Ptr → Cmd Tp Code
thread_task_delete task = do
  q ← get_tp_task task
  if q == null then free_task task >> pure success else do lock_of q; r ← delete_task task; leave r

unfoldable pub thread_task_detach : Ptr → Cmd Tp Code
thread_task_detach task = do
  q ← get_tp_task task
  if q == null then pure task_not_pushed else do
    lock_of q
    set_tp_task (λ x. record x { is_detached = true }) q
    x ← load_tp_task q
    if x.is_finished then (do _ ← delete_task task; pure tt) else pure tt
    leave success
