-- ===== src/ThreadPool/System.antt =====
-- A program with the pool of homework04/thread_pool.c: its threads and its callers take turns, a
-- section at a time.
use sysprog_labs_f.Base.{ℕ, zero, suc, ◌≡◌, Bool, List, [], ◌∷◌, Option, none, some}
use sysprog_labs_f.Memory.Store.{Ptr}
use sysprog_labs_f.Memory.Run.{Cmd, ok, pure, modify, ◌>>=◌}
use sysprog_labs_f.ThreadPool.State.{Tp, Env, Worker}
use sysprog_labs_f.ThreadPool.Tasks.{thread_task_new}
use sysprog_labs_f.ThreadPool.Worker.{work}
use sysprog_labs_f.ThreadPool.Api.{
  thread_pool_thread_count, thread_pool_delete, thread_pool_delete_resume, thread_pool_push_task,
  thread_task_is_finished, thread_task_is_running, thread_task_join, thread_task_join_resume,
  thread_task_timed_join, thread_task_timed_join_resume, thread_task_delete, thread_task_detach,
}

-- A section of a thread, by its number, or of a call from outside.
pub data Call : Type 0 where
  thread : ℕ → Call
  new_task : ℕ → Ptr → Call
  thread_count : Call
  delete_pool delete_pool_resume : Call
  push is_finished is_running join delete_task detach : Ptr → Call
  join_resume : Ptr → Call
  timed_join timed_join_resume : Ptr → Bool → Call

abbrev pub nth : ℕ → List Worker → Option Worker
nth i [] = none
nth zero (w ∷ ws) = some w
nth (suc i) (w ∷ ws) = nth i ws

abbrev pub set_nth : ℕ → Worker → List Worker → List Worker
set_nth i v [] = []
set_nth zero v (w ∷ ws) = v ∷ ws
set_nth (suc i) v (w ∷ ws) = w ∷ set_nth i v ws

-- The result of a command is dropped.
abbrev pub done : {A : Type 0} → Cmd Tp A → Cmd Tp (Unit {0})
done m = do _ ← m; pure tt

module _ (env : Env) (fuel : ℕ) (call : ℕ → Ptr → Ptr) where
  -- The thread that was created as the `i`th one takes its next section.
  unfoldable pub turn : ℕ → Cmd Tp (Unit {0})
  turn i s = elim (nth i s.threads) [
    | none ↦ ok tt s
    | some w ↦ (do v ← work fuel call w; modify λ t. record t { threads = set_nth i v t.threads }) s
  ]

  unfoldable pub perform : Call → Cmd Tp (Unit {0})
  unfolding turn
  perform (thread i) = turn i
  perform (new_task function arg) = done (thread_task_new env function arg)
  perform thread_count = done thread_pool_thread_count
  perform delete_pool = done thread_pool_delete
  perform delete_pool_resume = done thread_pool_delete_resume
  perform (push task) = done (thread_pool_push_task env task)
  perform (is_finished task) = done (thread_task_is_finished task)
  perform (is_running task) = done (thread_task_is_running task)
  perform (join task) = done (thread_task_join task)
  perform (delete_task task) = done (thread_task_delete task)
  perform (detach task) = done (thread_task_detach task)
  perform (join_resume q) = done (thread_task_join_resume q)
  perform (timed_join task positive) = done (thread_task_timed_join task positive)
  perform (timed_join_resume q late) = done (thread_task_timed_join_resume q late)

  -- The states that a sequence of sections leads to.
  pub data Reach (s : Tp) : Tp → Type 0 where
    start : Reach s s
    next : {t u : Tp} (c : Call) → Reach s t → perform c t ≡ ok tt u → Reach s u
