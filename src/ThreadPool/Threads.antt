-- ===== src/ThreadPool/Threads.antt =====
-- What the pool of homework04/thread_pool.c counts of its threads.
use sysprog_labs_f.Base.{
  ℕ, zero, suc, ◌+◌, ◌-◌, ◌≤◌, ◌≡◌, refl, sym, ap, ◌∙◌, subst, not, ◌&&◌, List, [], ◌∷◌, ◌++◌, some,
  ◌==◌, arith,
}
use sysprog_labs_f.Memory.Store.{Ptr, null}
use sysprog_labs_f.ThreadPool.State.{Tp, Worker, looking, running, returning, gone}
use sysprog_labs_f.ThreadPool.Worker.{take, run_task, finish, work, move_to_end}
use sysprog_labs_f.ThreadPool.System.{nth, set_nth}
use sysprog_labs_f.ThreadPool.Counts.{
  Counters, counters, Ends, ends, Ends-and_then, Keeps, keeps, use_Keeps, bind, seq, branch, give,
  change, choose_at, load_task-Keeps, load_tp_task-Keeps, set_tp_task-Keeps, lock-Keeps,
  delete_task-Keeps, get_task-Keeps,
}

-- 1 for a thread that has not left its loop.
abbrev pub live : Worker → ℕ
live looking = 1
live (running q) = 1
live (returning q) = 1
live gone = 0

-- 1 for a thread that has a task.
abbrev pub busy : Worker → ℕ
busy looking = 0
busy (running q) = 1
busy (returning q) = 1
busy gone = 0

abbrev pub total : (Worker → ℕ) → List Worker → ℕ
total f [] = 0
total f (w ∷ ws) = f w + total f ws

pub total-append :
    (f : Worker → ℕ) (ws : List Worker) (w : Worker) → total f (ws ++ w ∷ []) ≡ total f ws + f w
total-append f [] w = omega arith
total-append f (v ∷ ws) w = omega (arith, total-append f ws w)

total-set_nth :
    (f : Worker → ℕ) (i : ℕ) (ws : List Worker) (w v : Worker)
    → nth i ws ≡ some w
    → total f (set_nth i v ws) + f w ≡ total f ws + f v
total-set_nth f i [] w v e = absurd (ground arith)
total-set_nth f zero (u ∷ ws) w v e = let same : f u ≡ f w = ground (arith, e) in omega arith
total-set_nth f (suc i) (u ∷ ws) w v e = omega (arith, total-set_nth f i ws w v e)

pub total-nth :
    (f : Worker → ℕ) (i : ℕ) (ws : List Worker) (w : Worker) → nth i ws ≡ some w → f w ≤ total f ws
total-nth f i [] w e = absurd (ground arith)
total-nth f zero (u ∷ ws) w e = let same : f u ≡ f w = ground (arith, e) in omega arith
total-nth f (suc i) (u ∷ ws) w e = omega (arith, total-nth f i ws w e)

-- The counters `c` are those of `k` when a thread goes from `w` to `v`.
pub record Moved (k : Counters) (w v : Worker) (c : Counters) : Type 0 where
  pub alive : live v ≤ live w
  pub threads : c.threads ≡ k.threads
  pub max_threads_cnt : c.max_threads_cnt ≡ k.max_threads_cnt
  pub threads_cnt : c.threads_cnt + live w ≡ k.threads_cnt + live v
  pub active_threads_cnt : c.active_threads_cnt + busy w ≡ k.active_threads_cnt + busy v

abbrev Moves : Counters → Worker → Worker → Tp → Type 0
Moves k w v t = Moved k w v (counters t)

-- The counters that the theorem starts from stay as they are.
same :
    {k : Counters} {w v : Worker} {c : Counters}
    → live w ≡ live v
    → busy w ≡ busy v
    → c ≡ k
    → Moved k w v c
same {k} {w} {v} l b e =
    subst (λ c. Moved k w v c) (sym e)
      (record {
        alive = omega (arith, l);
        threads = refl;
        max_threads_cnt = refl;
        threads_cnt = ap (λ n. k.threads_cnt + n) l;
        active_threads_cnt = ap (λ n. k.active_threads_cnt + n) b;
      })

abbrev with_active : ℕ → Counters → Counters
with_active n k = record k { active_threads_cnt = n }

move_to_end-Keeps : {Q : Counters → Type 0} (q : Ptr) → Keeps Q (move_to_end q)
unfolding move_to_end
move_to_end-Keeps {Q} q = keeps λ s h.
    use_Keeps {Q = Q}
      (branch (q == s.last_task) give (
        branch (s.task == q)
          (bind (load_tp_task-Keeps q) λ x. seq (change λ t g. g) (
            seq (set_tp_task-Keeps _ x.next) (
              seq (set_tp_task-Keeps _ q) (
                seq (set_tp_task-Keeps _ s.last_task)
                  (seq (set_tp_task-Keeps _ q) (change λ t g. g))))))
          (bind (load_tp_task-Keeps q) λ x. seq (set_tp_task-Keeps _ x.next) (
            seq (set_tp_task-Keeps _ x.prev)
              (seq (set_tp_task-Keeps _ q) (seq (set_tp_task-Keeps _ q) (change λ t g. g)))))))
      s h

-- One more thread is active, and a thread has gone.
abbrev entered : Counters → Counters
entered k = record k { active_threads_cnt = k.active_threads_cnt + 1 }

abbrev without_one : Counters → Counters
without_one k = record k {
  threads_cnt = k.threads_cnt - 1;
  active_threads_cnt = k.active_threads_cnt + 1 - 1;
}

take-Moves :
    (fuel : ℕ) (k : Counters) (s : Tp)
    → 1 ≤ k.threads_cnt
    → counters s ≡ k
    → Ends (Moves k looking) (take fuel s)
unfolding take
take-Moves fuel k s one e = Ends-and_then (use_Keeps {Q = λ c. c ≡ k} lock-Keeps s e) λ u s₁ e₁.
    Ends-and_then (use_Keeps {Q = λ c. c ≡ k} (get_task-Keeps fuel) s₁ e₁) λ q s₂ e₂.
      choose_at _ _ _ (q == null && s₂.is_active) (ends (same refl refl e₂)) (
        choose_at _ _ _ (not s₂.is_active) (ends (left k one (ap without_one e₂))) (
          Ends-and_then
            (use_Keeps {Q = λ c. c ≡ entered k} (set_tp_task-Keeps _ q) _ (ap entered e₂))
            λ v s₃ e₃.
              Ends-and_then (use_Keeps {Q = λ c. c ≡ entered k} (move_to_end-Keeps q) s₃ e₃)
                λ v s₄ e₄. ends (went_in k e₄)))
  where
    left :
        (k : Counters)
        → 1 ≤ k.threads_cnt
        → {c : Counters} → c ≡ without_one k
        → Moved k looking gone c
    left k one e = subst (Moved k looking gone) (sym e) (record {
      alive = omega arith;
      threads = refl;
      max_threads_cnt = refl;
      threads_cnt = omega arith;
      active_threads_cnt = omega arith;
    })

    went_in :
        (k : Counters) → {c : Counters} {q : Ptr} → c ≡ entered k → Moved k looking (running q) c
    went_in k {q = q} e = subst (Moved k looking (running q)) (sym e) (record {
      alive = omega arith;
      threads = refl;
      max_threads_cnt = refl;
      threads_cnt = refl;
      active_threads_cnt = omega arith;
    })

run_task-Moves :
    (call : ℕ → Ptr → Ptr) (q : Ptr) (k : Counters) (s : Tp)
    → counters s ≡ k
    → Ends (Moves k (running q)) (run_task call q s)
unfolding run_task
run_task-Moves call q k s e =
    Ends-and_then (use_Keeps {Q = λ c. c ≡ k} (load_tp_task-Keeps q) s e) λ x s₁ e₁.
      Ends-and_then (use_Keeps {Q = λ c. c ≡ k} (load_task-Keeps x.thread_task) s₁ e₁) λ t s₂ e₂.
        Ends-and_then (use_Keeps {Q = λ c. c ≡ k} (set_tp_task-Keeps _ q) s₂ e₂)
          λ u s₃ e₃. ends (same refl refl e₃)

-- One active thread less.
abbrev came_out : Counters → Counters
came_out k = record k { active_threads_cnt = k.active_threads_cnt - 1 }

came_out-Moved :
    (k : Counters) (q : Ptr)
    → 1 ≤ k.active_threads_cnt
    → {c : Counters} → c ≡ came_out k
    → Moved k (returning q) looking c
came_out-Moved k q one e = subst (Moved k (returning q) looking) (sym e) (record {
  alive = omega arith;
  threads = refl;
  max_threads_cnt = refl;
  threads_cnt = refl;
  active_threads_cnt = omega arith;
})

finish-Moves :
    (q : Ptr) (k : Counters) (s : Tp)
    → 1 ≤ k.active_threads_cnt
    → counters s ≡ k
    → Ends (Moves k (returning q)) (finish q s)
unfolding finish
finish-Moves q k s one e = Ends-and_then (use_Keeps {Q = λ c. c ≡ k} lock-Keeps s e) λ u s₁ e₁.
    Ends-and_then (use_Keeps {Q = λ c. c ≡ k} (set_tp_task-Keeps _ q) s₁ e₁) λ u s₂ e₂.
      Ends-and_then (use_Keeps {Q = λ c. c ≡ came_out k} (load_tp_task-Keeps q) _ (ap came_out e₂))
        λ x s₃ e₃.
          Ends-and_then
            (use_Keeps {Q = λ c. c ≡ came_out k}
              (branch x.is_detached (bind (delete_task-Keeps x.thread_task) λ r. give) give) s₃ e₃)
            λ u s₄ e₄.
              Ends-and_then (use_Keeps {Q = λ c. c ≡ came_out k} (load_tp_task-Keeps q) s₄ e₄)
                λ y s₅ e₅. ends (came_out-Moved k q one e₅)

-- A section of a thread changes the counters the way it changes the state of the thread.
pub work-Moves :
    (fuel : ℕ) (call : ℕ → Ptr → Ptr) (w : Worker) (k : Counters) (s : Tp)
    → live w ≤ k.threads_cnt
    → busy w ≤ k.active_threads_cnt
    → counters s ≡ k
    → Ends (Moves k w) (work fuel call w s)
unfolding work
work-Moves fuel call looking k s l b e = take-Moves fuel k s l e
work-Moves fuel call (running q) k s l b e = run_task-Moves call q k s e
work-Moves fuel call (returning q) k s l b e = finish-Moves q k s b e
work-Moves fuel call gone k s l b e = ends (same refl refl e)

-- The counters are right: `threads_cnt` is the number of threads that have not left their loop,
-- `active_threads_cnt` that of those that have a task, and there are at most `n` threads.
pub record IsCounted (n : ℕ) (c : Counters) : Type 0 where
  pub threads_cnt : c.threads_cnt ≡ total live c.threads
  pub active_threads_cnt : c.active_threads_cnt ≡ total busy c.threads
  pub max_threads_cnt : c.max_threads_cnt ≡ n
  pub bound : c.threads_cnt ≤ n

pub total-busy-live : (ws : List Worker) → total busy ws ≤ total live ws
total-busy-live [] = omega arith
total-busy-live (looking ∷ ws) = omega (arith, total-busy-live ws)
total-busy-live (running q ∷ ws) = omega (arith, total-busy-live ws)
total-busy-live (returning q ∷ ws) = omega (arith, total-busy-live ws)
total-busy-live (gone ∷ ws) = omega (arith, total-busy-live ws)

-- When a thread that was at `w` goes to `v`, and it may not come back from its end.
pub IsCounted-move :
    (n i : ℕ) (k c : Counters) (w v : Worker)
    → IsCounted n k
    → nth i k.threads ≡ some w
    → Moved k w v c
    → IsCounted n (record c { threads = set_nth i v c.threads })
IsCounted-move n i k c w v counted at moved =
    let lives = total-set_nth live i k.threads w v at in
    let busies = total-set_nth busy i k.threads w v at in
    let threads = moved.threads in
    record {
      threads_cnt = omega (
        arith,
        moved.threads_cnt,
        counted.threads_cnt,
        ap (λ ws. total live (set_nth i v ws)) threads,
      );
      active_threads_cnt = omega (
        arith,
        moved.active_threads_cnt,
        counted.active_threads_cnt,
        ap (λ ws. total busy (set_nth i v ws)) threads,
      );
      max_threads_cnt = moved.max_threads_cnt ∙ counted.max_threads_cnt;
      bound = omega (arith, moved.threads_cnt, counted.bound, moved.alive);
    }
