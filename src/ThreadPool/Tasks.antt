-- ===== src/ThreadPool/Tasks.antt =====
-- How homework04/thread_pool.c makes, finds and deletes tasks.
use sysprog_labs_f.Base.{
  ℕ, zero, suc, ◌-◌, Bool, true, false, not, ◌&&◌, ◌||◌, List, [], ◌∷◌, ◌==◌, if◌then◌else◌, length,
}
use sysprog_labs_f.Memory.Store.{Ptr, null, put, remove}
use sysprog_labs_f.Memory.Run.{Cmd, ok, pure, diverge, read_state, modify, ◌>>=◌, ◌>>◌}
use sysprog_labs_f.ThreadPool.State.{
  Tp, TpTask, Env, Code, success, task_in_pool, load_task, load_tp_task, set_tp_task,
  relink_tp_task, set_next, set_prev,
}

abbrev pub head : List Ptr → Ptr
head [] = null
head (q ∷ rest) = q

unfoldable pub get_tp_task : Ptr → Cmd Tp Ptr
get_tp_task task = do t ← load_task task; pure (head t.list)

unfoldable pub thread_task_new : Env → ℕ → Ptr → Cmd Tp Ptr
thread_task_new env function arg s =
    let p = env.tasks.place s.tasks in
    ok p (record s { tasks = put p record { function = function; arg = arg; list = [] } s.tasks })

-- A new task for the pool; its result is not set.
abbrev pub blank : TpTask → Ptr → TpTask
blank raw task = record raw {
  thread_task = task;
  is_finished = false;
  is_running = false;
  is_pushed = false;
  is_joined = false;
  is_detached = false;
  next = null;
  prev = null;
}

unfoldable pub make_thread_pool_task : Env → Ptr → Cmd Tp Ptr
make_thread_pool_task env task = do
  p ← read_state (λ s. env.tp_tasks.place s.tp_tasks)
  modify λ s. record s { tp_tasks = put p (blank (env.tp_tasks.raw s.tp_tasks) task) s.tp_tasks }
  t ← load_task task
  modify λ s. record s { tasks = put task (record t { list = p ∷ t.list }) s.tasks }
  pure p

-- The first task that no thread has taken, from `p` on.
unfoldable pub get_task_from : ℕ → Ptr → Cmd Tp Ptr
get_task_from zero p = diverge
get_task_from (suc k) p = if p == null then pure null else do
  x ← load_tp_task p
  if x.is_running || x.is_finished then get_task_from k x.next else pure p

unfoldable pub get_task : ℕ → Cmd Tp Ptr
unfolding get_task_from
get_task fuel = do p ← read_state (λ s. s.task); get_task_from fuel p

abbrev pub is_removable : TpTask → Bool
is_removable x = x.is_joined || (x.is_detached && x.is_finished)

-- The first loop of `delete_task`.
unfoldable pub all_removable : List Ptr → Cmd Tp Bool
all_removable [] = pure true
all_removable (q ∷ rest) = do
  x ← load_tp_task q
  if is_removable x then all_removable rest else pure false

-- A round of its second loop: the task is taken out of the list of the pool, and freed.
unfoldable pub remove_tp_task : Ptr → Cmd Tp (Unit {0})
remove_tp_task q = do
  x ← load_tp_task q
  modify λ s. record s { last_task = if s.last_task == q then x.prev else s.last_task }
  relink_tp_task (set_prev x.prev) x.next
  if x.prev == null
      then modify (λ s. record s { task = x.next })
      else set_tp_task (set_next x.next) x.prev
  modify λ s. record s { tp_tasks = remove q s.tp_tasks }

unfoldable pub remove_tp_tasks : List Ptr → Cmd Tp (Unit {0})
unfolding remove_tp_task
remove_tp_tasks [] = pure tt
remove_tp_tasks (q ∷ rest) = remove_tp_task q >> remove_tp_tasks rest

abbrev pub free_task : Ptr → Cmd Tp (Unit {0})
free_task task = modify λ s. record s { tasks = remove task s.tasks }

unfoldable pub delete_task : Ptr → Cmd Tp Code
unfolding all_removable remove_tp_tasks
delete_task task = do
  t ← load_task task
  if head t.list == null then free_task task >> pure success else do
    removable ← all_removable t.list
    if not removable then pure task_in_pool else do
      remove_tp_tasks t.list
      free_task task
      modify λ s. record s { tasks_cnt = s.tasks_cnt - length t.list }
      pure success
