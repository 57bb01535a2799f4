-- ===== src/ThreadPool/Worker.antt =====
-- `thread_pool_worker` of homework04/thread_pool.c, section by section.
use sysprog_labs_f.Base.{ℕ, ◌+◌, ◌-◌, true, false, not, ◌&&◌, ◌==◌, if◌then◌else◌}
use sysprog_labs_f.Memory.Store.{Ptr, null}
use sysprog_labs_f.Memory.Run.{Cmd, pure, read_state, modify, ◌>>=◌, ◌>>◌}
use sysprog_labs_f.ThreadPool.State.{
  Tp, Worker, looking, running, returning, gone, lock, leave, load_task, load_tp_task, set_tp_task,
  set_next, set_prev,
}
use sysprog_labs_f.ThreadPool.Tasks.{get_task, delete_task}

-- The task goes behind the last one. The second branch does not make the last one lead to it.
unfoldable pub move_to_end : Ptr → Cmd Tp (Unit {0})
move_to_end q = do
  first ← read_state (λ s. s.task)
  last ← read_state (λ s. s.last_task)
  if q == last
      then pure tt
      else if first == q
      then (do
        x ← load_tp_task q
        modify λ s. record s { task = x.next }
        set_tp_task (set_prev null) x.next
        set_tp_task (set_prev last) q
        set_tp_task (set_next q) last
        set_tp_task (set_next null) q
        modify λ s. record s { last_task = q })
      else do
        x ← load_tp_task q
        set_tp_task (set_prev x.prev) x.next
        set_tp_task (set_next x.next) x.prev
        set_tp_task (set_prev last) q
        set_tp_task (set_next null) q
        modify λ s. record s { last_task = q }

-- The thread leaves its loop.
abbrev pub quit : Cmd Tp Worker
quit = do
  modify λ s. record s {
    threads_cnt = s.threads_cnt - 1;
    active_threads_cnt = s.active_threads_cnt + 1 - 1;
  }
  leave gone

-- From the lock at the head of the loop to the wait, to the end of the loop, or to the unlock before
-- the task is run.
unfoldable pub take : ℕ → Cmd Tp Worker
unfolding move_to_end
take fuel = do
  lock
  q ← get_task fuel
  active ← read_state (λ s. s.is_active)
  if q == null && active then leave looking else if not active then quit else do
    modify λ s. record s { active_threads_cnt = s.active_threads_cnt + 1 }
    set_tp_task (λ x. record x { is_running = true }) q
    move_to_end q
    leave (running q)

-- The function of the task is called, with no lock held; `call` stands for it.
unfoldable pub run_task : (ℕ → Ptr → Ptr) → Ptr → Cmd Tp Worker
run_task call q = do
  x ← load_tp_task q
  t ← load_task x.thread_task
  set_tp_task (λ y. record y { result = call t.function t.arg }) q
  pure (returning q)

-- The section behind the call. `pthread_cond_signal` is given a member of the task.
unfoldable pub finish : Ptr → Cmd Tp Worker
finish q = do
  lock
  set_tp_task (λ x. record x { is_finished = true; is_running = false }) q
  modify λ s. record s { active_threads_cnt = s.active_threads_cnt - 1 }
  x ← load_tp_task q
  if x.is_detached then (do _ ← delete_task x.thread_task; pure tt) else pure tt
  _ ← load_tp_task q
  leave looking

-- What a worker does next.
unfoldable pub work : ℕ → (ℕ → Ptr → Ptr) → Worker → Cmd Tp Worker
unfolding take run_task finish
work fuel call looking = take fuel
work fuel call (running q) = run_task call q
work fuel call (returning q) = finish q
work fuel call gone = pure gone
