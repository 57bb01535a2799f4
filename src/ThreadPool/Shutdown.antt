-- ===== src/ThreadPool/Shutdown.antt =====
-- How the pool of homework04/thread_pool.c is deleted while its threads are idle.
use mathlib.Core.List.{append_assoc}
use sysprog_labs_f.Base.{
  ℕ, zero, suc, ◌+◌, ◌≡◌, refl, sym, ap, subst, Bool, true, false, List, [], ◌∷◌, ◌++◌, length,
  length-append, some, ◌==◌, Bool-cases, inl, inr, arith,
}
use sysprog_labs_f.Memory.Store.{Ptr, null}
use sysprog_labs_f.Memory.Run.{Cmd, ok, pure, modify, ◌>>=◌, ◌>>◌, Returns, returns}
use sysprog_labs_f.ThreadPool.State.{
  Tp, Env, Worker, looking, running, returning, gone, Code, success, Turn, finished, waiting,
}
use sysprog_labs_f.ThreadPool.Tasks.{get_task, get_task_from}
use sysprog_labs_f.ThreadPool.Pool.{IsPool, IsFree}
use sysprog_labs_f.ThreadPool.Worker.{take, work}
use sysprog_labs_f.ThreadPool.Api.{thread_pool_delete, delete_when_idle, thread_pool_delete_resume}
use sysprog_labs_f.ThreadPool.System.{nth, set_nth, turn}
use sysprog_labs_f.ThreadPool.Counts.{counters}
use sysprog_labs_f.ThreadPool.Threads.{live, busy, total, IsCounted}

nth-append : (ws vs : List Worker) (w : Worker) → nth (length ws) (ws ++ w ∷ vs) ≡ some w
nth-append [] vs w = refl
nth-append (u ∷ ws) vs w = nth-append ws vs w

set_nth-append :
    (ws vs : List Worker) (w v : Worker) → set_nth (length ws) v (ws ++ w ∷ vs) ≡ ws ++ v ∷ vs
set_nth-append [] vs w v = refl
set_nth-append (u ∷ ws) vs w v = ap (λ l. u ∷ l) (set_nth-append ws vs w v)

module _ (env : Env) (k : ℕ) (call : ℕ → Ptr → Ptr) where
  -- The threads from the `i`th on take a section each, `k` of them.
  unfoldable pub turns : ℕ → ℕ → Cmd Tp (Unit {0})
  turns i zero = pure tt
  turns i (suc m) = turn env (suc k) call i >> turns (i + 1) m

  -- `thread_pool_delete`, and if it waits, a section of each thread and the wake-up.
  abbrev pub delete_and_turns : ℕ → Cmd Tp (Turn Code)
  delete_and_turns n = do
    r ← thread_pool_delete
    elim r [ finished c ↦ pure (finished c) | waiting ↦ turns 0 n >> thread_pool_delete_resume ]

  -- The pool when it is about to be deleted.
  abbrev closing : List Worker → ℕ → Tp → Tp
  closing ws c s = record s {
    threads = ws;
    threads_cnt = c;
    active_threads_cnt = 0;
    is_active = false;
    task = null;
    mutex = false;
    is_alive = true;
  }

  closing-work :
      (s : Tp) (ws vs : List Worker) (w : Worker) (c : ℕ)
      → busy w ≡ 0
      → (do
        v ← work (suc k) call w
        modify λ t. record t { threads = set_nth (length ws) v t.threads })
          (closing (ws ++ w ∷ vs) (live w + c) s)
        ≡ ok tt (closing (ws ++ gone ∷ vs) c s)
  unfolding work take get_task get_task_from
  closing-work s ws vs looking c idle =
      rw (set_nth-append ws vs looking gone)
        (ap (λ n. ok tt (closing (ws ++ gone ∷ vs) n s)) (omega arith))
  closing-work s ws vs (running q) c idle = absurd (omega arith)
  closing-work s ws vs (returning q) c idle = absurd (omega arith)
  closing-work s ws vs gone c idle =
      rw (set_nth-append ws vs gone gone)
        (ap (λ n. ok tt (closing (ws ++ gone ∷ vs) n s)) (omega arith))

  turn-closing :
      (s : Tp) (ws vs : List Worker) (w : Worker) (c : ℕ)
      → busy w ≡ 0
      → turn env (suc k) call (length ws) (closing (ws ++ w ∷ vs) (live w + c) s)
        ≡ ok tt (closing (ws ++ gone ∷ vs) c s)
  unfolding turn
  turn-closing s ws vs w c idle = rw (turn, nth-append ws vs w) (closing-work s ws vs w c idle)

  turns-closing :
      (s : Tp) (l ws vs : List Worker) (i : ℕ)
      → i ≡ length ws
      → l ≡ ws ++ vs
      → total busy vs ≡ 0
      → (us : List Worker) × (turns i (length vs) (closing l (total live vs) s)
          ≡ ok tt (closing us 0 s))
  unfolding turns
  turns-closing s l ws [] i at eq idle = (l, refl)
  turns-closing s l ws (v ∷ vs) i at eq idle =
      let index : i + 1 ≡ length (ws ++ gone ∷ []) =
        omega (arith, at, length-append ws (gone ∷ [])) in
      let here : turn env (suc k) call i (closing l (live v + total live vs) s)
          ≡ ok tt (closing (ws ++ gone ∷ vs) (total live vs) s) =
        rw (at, eq) (turn-closing s ws vs v (total live vs) (omega arith)) in
      let (us, rest) =
        turns-closing s (ws ++ gone ∷ vs) (ws ++ gone ∷ []) vs (i + 1) index
          (sym (append_assoc ws (gone ∷ []) vs)) (omega arith) in
      (us, rw here rest)

  -- The pool before the call: no tasks, and the threads are idle.
  abbrev idle_pool : Bool → List Worker → ℕ → Tp → Tp
  idle_pool active ws c s = record (closing ws c s) { is_active = active; tasks_cnt = 0 }

  delete_idle :
      (s : Tp) (active : Bool) (ws : List Worker) (c : ℕ)
      → total live ws ≡ c
      → total busy ws ≡ 0
      → Returns
          (λ r u. (r ≡ finished success) × (u.is_alive ≡ false))
          (delete_and_turns (length ws) (idle_pool active ws c s))
  unfolding thread_pool_delete delete_when_idle thread_pool_delete_resume
  delete_idle s active ws c lives idle = elim (Bool-cases (c == 0)) [
    | inl empty ↦ rw empty (returns (refl, refl))
    | inr some_left ↦
        let (us, eq) = turns-closing (record s { tasks_cnt = 0 }) ws [] ws 0 refl refl idle in
        rw (some_left, sym lives, eq) (returns (refl, refl))
  ]

-- A delete of a pool without tasks, in which no thread is in a section or has a task and the
-- counters are right, succeeds and frees the pool: at once if no thread is left, and otherwise
-- after its wait, when each thread has had a turn.
pub delete_and_turns_lem :
    (env : Env) (k : ℕ) (call : ℕ → Ptr → Ptr) (n : ℕ) (s : Tp)
    → IsPool s []
    → IsFree s
    → IsCounted n (counters s)
    → s.active_threads_cnt ≡ 0
    → Returns
        (λ r u. (r ≡ finished success) × (u.is_alive ≡ false))
        (delete_and_turns env k call (length s.threads) s)
delete_and_turns_lem env k call n s pool free counted idle =
    subst
      (λ t.
        Returns (λ r u. (r ≡ finished success) × (u.is_alive ≡ false))
          (delete_and_turns env k call (length s.threads) t))
      (λ i. record s {
        threads_cnt = sym counted.threads_cnt i;
        active_threads_cnt = sym idle i;
        task = sym pool.task i;
        tasks_cnt = sym pool.counted i;
        mutex = sym free.mutex i;
        is_alive = sym free.alive i;
      })
      (delete_idle env k call s s.is_active s.threads (total live s.threads) refl
        (omega (arith, counted.active_threads_cnt, idle)))
