-- ===== src/ThreadPool/Bounds.antt =====
-- The counters of the pool of homework04/thread_pool.c in every state that a program reaches.
use sysprog_labs_f.Base.{
  ℕ, ◌≤◌, ◌≡◌, refl, ap, subst, Bool, not, ◌||◌, Option, none, some, ◌==◌, ltb, leb, Bool-cases,
  inl, inr, arith,
}
use sysprog_labs_f.Base.Int.{ℤ, pos, negsuc}
use sysprog_labs_f.Memory.Store.{Ptr, null}
use sysprog_labs_f.Memory.Run.{Run, Cmd, ok, fault, out_of_fuel}
use sysprog_labs_f.ThreadPool.State.{
  Tp, TpTask, Env, Worker, looking, success, max_tasks, max_threads,
}
use sysprog_labs_f.ThreadPool.Api.{
  thread_pool_new, delete_when_idle, thread_pool_thread_count, thread_pool_delete,
  thread_pool_delete_resume, spawn, put_first, thread_pool_push_task, thread_task_is_finished,
  thread_task_is_running, thread_task_join, thread_task_join_resume, thread_task_timed_join,
  thread_task_timed_join_resume, thread_task_delete, thread_task_detach, observe, join_or_wait,
  read_result,
}
use sysprog_labs_f.ThreadPool.Push.{may_spawn}
use sysprog_labs_f.ThreadPool.System.{
  Call, thread, new_task, thread_count, delete_pool, delete_pool_resume, push, is_finished,
  is_running, join, delete_task, detach, join_resume, timed_join, timed_join_resume, nth, done,
  turn, perform, Reach, start, next,
}
use sysprog_labs_f.ThreadPool.Counts.{
  Counters, counters, Ends, ends, ends_fault, Ends-ok, Ends-and_then, Keeps, keeps, use_Keeps, bind,
  seq, branch, give, choose_at, load_tp_task-Keeps, set_tp_task-Keeps, relink_tp_task-Keeps,
  lock-Keeps, lock_of-Keeps, leave-Keeps, wait-Keeps, get_tp_task-Keeps, thread_task_new-Keeps,
  make_thread_pool_task-Keeps, delete_task-Keeps,
}
use sysprog_labs_f.ThreadPool.Threads.{
  live, busy, total, total-append, total-nth, total-busy-live, IsCounted, IsCounted-move,
  work-Moves,
}

module _ {Q : Counters → Type 0} where
  observe-Keeps : (member : TpTask → Bool) (task : Ptr) → Keeps Q (observe member task)
  observe-Keeps member task = bind (get_tp_task-Keeps task) λ q.
      branch (q == null) give (seq (lock_of-Keeps q) (bind (load_tp_task-Keeps q) λ x. leave-Keeps))

  read_result-Keeps : (q : Ptr) → Keeps Q (read_result q)
  read_result-Keeps q = bind (load_tp_task-Keeps q) λ x. leave-Keeps

  join_or_wait-Keeps : (q : Ptr) → Keeps Q (join_or_wait q)
  join_or_wait-Keeps q =
      seq (set_tp_task-Keeps _ q) (
        bind (load_tp_task-Keeps q)
          λ x. branch (not x.is_finished) wait-Keeps (read_result-Keeps q))

  thread_task_join-Keeps : (task : Ptr) → Keeps Q (thread_task_join task)
  unfolding thread_task_join
  thread_task_join-Keeps task =
      bind (get_tp_task-Keeps task)
        λ q. branch (q == null) give (seq (lock_of-Keeps q) (join_or_wait-Keeps q))

  thread_task_timed_join-Keeps : (task : Ptr) (b : Bool) → Keeps Q (thread_task_timed_join task b)
  unfolding thread_task_timed_join
  thread_task_timed_join-Keeps task b = bind (get_tp_task-Keeps task) λ q.
      branch (q == null) give
        (seq (lock_of-Keeps q) (branch (not b) leave-Keeps (join_or_wait-Keeps q)))

  thread_task_timed_join_resume-Keeps :
      (q : Ptr) (b : Bool) → Keeps Q (thread_task_timed_join_resume q b)
  unfolding thread_task_timed_join_resume
  thread_task_timed_join_resume-Keeps q b =
      seq lock-Keeps (branch b leave-Keeps (read_result-Keeps q))

  thread_task_delete-Keeps : (task : Ptr) → Keeps Q (thread_task_delete task)
  unfolding thread_task_delete
  thread_task_delete-Keeps task = bind (get_tp_task-Keeps task) λ q.
      branch (q == null) (keeps λ s h. ends h)
        (seq (lock_of-Keeps q) (bind (delete_task-Keeps task) λ r. leave-Keeps))

  thread_task_detach-Keeps : (task : Ptr) → Keeps Q (thread_task_detach task)
  unfolding thread_task_detach
  thread_task_detach-Keeps task = bind (get_tp_task-Keeps task) λ q. branch (q == null) give (
      seq (lock_of-Keeps q) (
        seq (set_tp_task-Keeps _ q) (
          bind (load_tp_task-Keeps q) λ x.
            seq (branch x.is_finished (bind (delete_task-Keeps task) λ r. give) give) leave-Keeps)))

  delete_when_idle-Keeps : Keeps Q delete_when_idle
  unfolding delete_when_idle
  delete_when_idle-Keeps = keeps λ s h. choose_at _ _ _ (not (s.threads_cnt == 0)) (ends h) (ends h)

  thread_pool_delete-Keeps : Keeps Q thread_pool_delete
  unfolding thread_pool_delete
  thread_pool_delete-Keeps = keeps λ s h.
      Ends-and_then (use_Keeps {Q = Q} lock-Keeps s h) λ u s₁ h₁.
        choose_at _ _ _ (ltb 0 s₁.tasks_cnt) (ends h₁)
          (use_Keeps {Q = Q} delete_when_idle-Keeps _ h₁)

  put_first-Keeps : (q : Ptr) → Keeps Q (put_first q)
  unfolding put_first
  put_first-Keeps q = keeps λ s h.
      Ends-and_then (use_Keeps {Q = Q} (set_tp_task-Keeps _ q) _ h) λ u s₁ h₁.
        Ends-and_then (use_Keeps {Q = Q} (relink_tp_task-Keeps _ s.task) s₁ h₁) λ u s₂ h₂. ends h₂

  done-Keeps : {A : Type 0} {m : Cmd Tp A} → Keeps Q m → Keeps Q (done m)
  done-Keeps keep = bind keep λ a. give

module _ (env : Env) (fuel : ℕ) (call : ℕ → Ptr → Ptr) (n : ℕ) where
  spawn-IsCounted :
      (s : Tp) → IsCounted n (counters s) → Ends (λ a t. IsCounted n (counters t)) (spawn s)
  unfolding spawn
  spawn-IsCounted s c = elim (Bool-cases (may_spawn s)) [
    | inl more ↦ rw more (
        ends (record {
          threads_cnt = omega (arith, c.threads_cnt, total-append live s.threads looking);
          active_threads_cnt =
              omega (arith, c.active_threads_cnt, total-append busy s.threads looking);
          max_threads_cnt = c.max_threads_cnt;
          bound = ground (arith, c.max_threads_cnt, c.bound);
        }))
    | inr enough ↦ rw enough (ends c)
  ]

  turn_from :
      (i : ℕ) (s : Tp) (o : Option Worker)
      → IsCounted n (counters s)
      → nth i s.threads ≡ o
      → Ends (λ a t. IsCounted n (counters t)) (turn env fuel call i s)
  unfolding turn
  turn_from i s none c e = rw (turn, e) (ends c)
  turn_from i s (some w) c e =
      let lives = total-nth live i s.threads w e in
      let busies = total-nth busy i s.threads w e in
      rw (turn, e)
        (Ends-and_then
          (work-Moves fuel call w (counters s) s (omega (arith, c.threads_cnt))
            (omega (arith, c.active_threads_cnt)) refl)
          λ v t moved. ends (IsCounted-move n i (counters s) (counters t) w v c e moved))

  thread_pool_push_task-IsCounted :
      (task : Ptr) → Keeps (IsCounted n) (thread_pool_push_task env task)
  unfolding thread_pool_push_task
  thread_pool_push_task-IsCounted task = keeps λ s c.
      Ends-and_then (use_Keeps {Q = IsCounted n} lock-Keeps s c) λ u s₁ c₁.
        choose_at _ _ _ (s₁.tasks_cnt == max_tasks) (ends c₁) (
          Ends-and_then (spawn-IsCounted s₁ c₁) λ u s₂ c₂.
            Ends-and_then (use_Keeps {Q = IsCounted n} (make_thread_pool_task-Keeps env task) s₂ c₂)
              λ q s₃ c₃.
                Ends-and_then (use_Keeps {Q = IsCounted n} (put_first-Keeps q) s₃ c₃)
                  λ u s₄ c₄. ends c₄)

  thread_count-IsCounted : Keeps (IsCounted n) thread_pool_thread_count
  unfolding thread_pool_thread_count
  thread_count-IsCounted = keeps λ s c. choose_at _ _ _ s.is_alive (ends c) ends_fault

  -- Every section keeps the counters right.
  perform-IsCounted : (c : Call) → Keeps (IsCounted n) (perform env fuel call c)
  unfolding perform thread_task_is_finished thread_task_is_running thread_task_join_resume
      thread_pool_delete_resume
  perform-IsCounted (thread i) = keeps λ s c. turn_from i s (nth i s.threads) c refl
  perform-IsCounted (new_task function arg) = done-Keeps (thread_task_new-Keeps env function arg)
  perform-IsCounted thread_count = done-Keeps thread_count-IsCounted
  perform-IsCounted delete_pool = done-Keeps thread_pool_delete-Keeps
  perform-IsCounted delete_pool_resume = done-Keeps (seq lock-Keeps delete_when_idle-Keeps)
  perform-IsCounted (push task) = done-Keeps (thread_pool_push_task-IsCounted task)
  perform-IsCounted (is_finished task) = done-Keeps (observe-Keeps _ task)
  perform-IsCounted (is_running task) = done-Keeps (observe-Keeps _ task)
  perform-IsCounted (join task) = done-Keeps (thread_task_join-Keeps task)
  perform-IsCounted (delete_task task) = done-Keeps (thread_task_delete-Keeps task)
  perform-IsCounted (detach task) = done-Keeps (thread_task_detach-Keeps task)
  perform-IsCounted (join_resume q) = done-Keeps (seq lock-Keeps (read_result-Keeps q))
  perform-IsCounted (timed_join task b) = done-Keeps (thread_task_timed_join-Keeps task b)
  perform-IsCounted (timed_join_resume q b) = done-Keeps (thread_task_timed_join_resume-Keeps q b)

  Reach-IsCounted :
      (s t : Tp) → IsCounted n (counters s) → Reach env fuel call s t → IsCounted n (counters t)
  Reach-IsCounted s t c start = c
  Reach-IsCounted s t c (next {t = u} d r e) =
      Ends-ok (use_Keeps (perform-IsCounted d) u (Reach-IsCounted s u c r)) e

-- The state of a run that ends with a result.
state_of : {A : Type 0} → Tp → Run Tp A → Tp
state_of s (ok a t) = t
state_of s fault = s
state_of s out_of_fuel = s

abbrev IsNew : Tp → Type 0
IsNew t =
    IsCounted t.max_threads_cnt (counters t)
    × (t.max_threads_cnt ≤ max_threads)
    × (1 ≤ t.max_threads_cnt)

thread_pool_new-IsNew : (k : ℤ) (s t : Tp) → thread_pool_new k s ≡ ok success t → IsNew t
unfolding thread_pool_new state_of
thread_pool_new-IsNew (negsuc k) s t e = absurd (ground arith)
thread_pool_new-IsNew (pos k) s t e = elim (Bool-cases (ltb max_threads k || leb k 0)) [
  | inl bad ↦ absurd (ground (arith, rw bad at e))
  | inr good ↦ subst IsNew (ap (state_of s) (rw good at e)) (
    record {
      threads_cnt = refl;
      active_threads_cnt = refl;
      max_threads_cnt = refl;
      bound = omega arith;
    },
    ground arith,
    ground arith,
  )
]

-- In every state that sections of the pool's functions and threads reach from a pool that
-- `thread_pool_new` has made, in any order: `threads_cnt` is the number of threads that have not
-- left their loop, `active_threads_cnt` the number of those that have a task, the second is at most
-- the first, the first at most the number that the pool was made for, and that at most 20.
pub thread_count_bound :
    (env : Env) (fuel : ℕ) (call : ℕ → Ptr → Ptr) (k : ℤ) (s t u : Tp)
    → thread_pool_new k s ≡ ok success t
    → Reach env fuel call t u
    → (u.threads_cnt ≡ total live u.threads)
      × (u.active_threads_cnt ≡ total busy u.threads)
      × (u.active_threads_cnt ≤ u.threads_cnt)
      × (u.threads_cnt ≤ t.max_threads_cnt)
      × (t.max_threads_cnt ≤ max_threads)
thread_count_bound env fuel call k s t u made r =
    let new = thread_pool_new-IsNew k s t made in
    let c = Reach-IsCounted env fuel call t.max_threads_cnt t u new.0 r in
    (
      c.threads_cnt,
      c.active_threads_cnt,
      omega (arith, c.threads_cnt, c.active_threads_cnt, total-busy-live u.threads),
      c.bound,
      new.1,
    )
