-- ===== src/ThreadPool/Take.antt =====
-- What a worker of homework04/thread_pool.c does when it takes a task.
use sysprog_labs_f.Base.{
  ℕ, zero, suc, ◌+◌, ◌<◌, ◌≡◌, refl, sym, ap, ◌∙◌, subst, Bool, true, false, [], ◌∷◌, ◌++◌, some,
  length, length-append, arith, ◌==◌, if◌then◌else◌, Bool-cases, inl, inr,
}
use sysprog_labs_f.Memory.Store.{Ptr, null, Store, put}
use sysprog_labs_f.Memory.Run.{ok, Returns, returns}
use sysprog_labs_f.Memory.Chain.{Cell, cell, first, last, last-append, Seg, Seg-update}
use sysprog_labs_f.Memory.Relink.{write}
use sysprog_labs_f.Memory.Rotate.{rotate, last-mem, mem-apart}
use sysprog_labs_f.ThreadPool.State.{Tp, TpTask, looking, running, set_tp_task, set_next, set_prev}
use sysprog_labs_f.ThreadPool.Tasks.{get_task, get_task_from}
use sysprog_labs_f.ThreadPool.Pool.{
  Entry, mk_task, is_started, Entries, IsPool, IsFree, IsStarted, load_tp_task-ok, set_tp_task-ok,
}
use sysprog_labs_f.ThreadPool.Worker.{take, move_to_end}

-- The first task that no thread has taken, or NULL.
unfoldable pub first_ready : Entries → Ptr
first_ready [] = null
first_ready (c ∷ xs) = if is_started c.datum then first_ready xs else c.at

get_task_from_lem :
    (s : Tp) (prev : Ptr) (xs : Entries) (k : ℕ)
    → Seg mk_task s.tp_tasks prev xs null
    → length xs < k
    → get_task_from k (first xs null) s ≡ ok (first_ready xs) s
unfolding get_task_from first_ready
get_task_from_lem s prev xs zero c h = absurd (omega arith)
get_task_from_lem s prev [] (suc k) c h = refl
get_task_from_lem s prev (x ∷ xs) (suc k) c h =
    let live : (x.at == null) ≡ false = ground (arith, c.0) in
    elim (Bool-cases (is_started x.datum)) [
      | inl started ↦
          rw (live, load_tp_task-ok s x.at c.0 _ c.1, started)
            (get_task_from_lem s x.at xs k c.3 (omega arith))
      | inr ready ↦ rw (live, load_tp_task-ok s x.at c.0 _ c.1, ready) refl
    ]

first_ready-IsStarted : (xs : Entries) → IsStarted xs → first_ready xs ≡ null
unfolding first_ready
first_ready-IsStarted [] h = refl
first_ready-IsStarted (c ∷ xs) h = rw h.0 (first_ready-IsStarted xs h.1)

-- The state with the members written out that describe the list.
abbrev pub shaped : Ptr → Ptr → Store TpTask → Tp → Tp
shaped task last_task h s = record s { task = task; last_task = last_task; tp_tasks = h }

pub set_tp_task-write :
    (s : Tp) (f : TpTask → TpTask) (p : Ptr) (g : Store TpTask)
    → write f p s.tp_tasks ≡ some g
    → set_tp_task f p s ≡ ok tt (record s { tp_tasks = g })
unfolding set_tp_task
set_tp_task-write s f p g e = rw e refl

move_to_end_lem :
    (s : Tp) (h : Store TpTask) (c : Cell Entry) (ys : Entries)
    → Seg mk_task h null (c ∷ ys) null
    → (g : Store TpTask) × (move_to_end c.at (shaped c.at (last c.at ys) h s)
        ≡ ok tt (shaped (first (ys ++ c ∷ []) null) c.at g s))
      × Seg mk_task g null (ys ++ c ∷ []) null
unfolding move_to_end
move_to_end_lem s h c [] q = let same : (c.at == c.at) ≡ true = ground arith in (h, rw same refl, q)
move_to_end_lem s h c (y ∷ zs) q =
    let r = rotate mk_task set_next set_prev (λ v d n p. refl) (λ v d n p. refl) h c y zs q in
    let end = last y.at zs in
    let differ : (c.at == end) ≡ false =
      mem-apart mk_task c.at end (y ∷ zs) (last-mem mk_task y zs) q.2 in
    let same : (c.at == c.at) ≡ true = ground arith in
    (
      r.h₄,
      rw
          (
            differ,
            same,
            load_tp_task-ok (shaped c.at end h s) c.at q.0 _ q.1,
            set_tp_task-write (shaped y.at end h s) (set_prev null) y.at r.h₁ r.first_back,
            set_tp_task-write (shaped y.at end r.h₁ s) (set_prev end) c.at r.h₂ r.moved_back,
            set_tp_task-write (shaped y.at end r.h₂ s) (set_next c.at) end r.h₃ r.last_on,
            set_tp_task-write (shaped y.at end r.h₃ s) (set_next null) c.at r.h₄ r.moved_on,
          )
          refl,
      r.chain,
    )

abbrev pub begun : Entry → Entry
begun e = record e { is_running = true }

-- The pool between the sections, with the members written out that a section branches on.
abbrev pub between : Bool → ℕ → Ptr → Ptr → Store TpTask → Tp → Tp
between active n task last_task h s = record s {
  is_alive = true;
  mutex = false;
  is_active = active;
  tasks_cnt = n;
  task = task;
  last_task = last_task;
  tp_tasks = h;
}

pub between-eq :
    (s : Tp) (xs : Entries) (active : Bool)
    → IsPool s xs
    → IsFree s
    → s.is_active ≡ active
    → s ≡ between active (length xs) (first xs null) (last null xs) s.tp_tasks s
between-eq s xs active pool free on i = record s {
  is_alive = free.alive i;
  mutex = free.mutex i;
  is_active = on i;
  tasks_cnt = pool.counted i;
  task = pool.task i;
  last_task = pool.last_task i;
}

-- What a section does not touch.
pub record Kept (s u : Tp) : Type 0 where
  pub threads : u.threads ≡ s.threads
  pub max_threads_cnt : u.max_threads_cnt ≡ s.max_threads_cnt
  pub threads_cnt : u.threads_cnt ≡ s.threads_cnt
  pub is_active : u.is_active ≡ s.is_active
  pub tasks : u.tasks ≡ s.tasks

-- The task `c` is taken: it runs, at the end of the list.
pub record Taken (s : Tp) (c : Cell Entry) (ys : Entries) (u : Tp) : Type 0 where
  pub pool : IsPool u (ys ++ cell c.at (begun c.datum) ∷ [])
  pub free : IsFree u
  pub active : u.active_threads_cnt ≡ s.active_threads_cnt + 1
  pub kept : Kept s u

take-between :
    (fuel : ℕ) (s : Tp) (h : Store TpTask) (c : Cell Entry) (ys : Entries)
    → Seg mk_task h null (c ∷ ys) null
    → is_started c.datum ≡ false
    → length (c ∷ ys) < fuel
    → Returns
        (λ r u.
          (r ≡ running c.at)
          × Taken (between true (length (c ∷ ys)) c.at (last c.at ys) h s) c ys u)
        (take fuel (between true (length (c ∷ ys)) c.at (last c.at ys) h s))
unfolding take get_task
take-between fuel s h c ys q ready enough =
    let n = length (c ∷ ys) in
    let t = record (between true n c.at (last c.at ys) h s) { mutex = true } in
    let found : first_ready (c ∷ ys) ≡ c.at = unfold first_ready in rw ready refl in
    let got = get_task_from_lem t null (c ∷ ys) fuel q enough ∙ ap (λ p. ok p t) found in
    let live : (c.at == null) ≡ false = ground (arith, q.0) in
    let c' = cell c.at (begun c.datum) in
    let h₁ = put c.at (mk_task (begun c.datum) (first ys null) null) h in
    let q₁ = Seg-update mk_task h null null c.at c.datum (begun c.datum) [] ys q in
    let t₁ = record t { active_threads_cnt = s.active_threads_cnt + 1 } in
    let (g, moved, chain) = move_to_end_lem t₁ h₁ c' ys q₁ in
    rw (got, live, set_tp_task-ok t₁ c.at q.0 (λ x. record x { is_running = true }) _ q.1, moved)
      (returns (
        refl,
        record {
          pool = record {
            task = refl;
            last_task = sym (last-append null ys (c' ∷ []));
            chain = chain;
            counted = omega (arith, length-append ys (c' ∷ []));
          };
          free = record { alive = refl; mutex = refl };
          active = refl;
          kept = record {
            threads = refl;
            max_threads_cnt = refl;
            threads_cnt = refl;
            is_active = refl;
            tasks = refl;
          };
        },
      ))

-- The first task, if no thread has taken it, is taken: it runs, at the end of the list.
pub take_lem :
    (fuel : ℕ) (s : Tp) (c : Cell Entry) (ys : Entries)
    → IsPool s (c ∷ ys)
    → IsFree s
    → s.is_active ≡ true
    → is_started c.datum ≡ false
    → length (c ∷ ys) < fuel
    → Returns (λ r u. (r ≡ running c.at) × Taken s c ys u) (take fuel s)
take_lem fuel s c ys pool free on ready enough =
    subst (λ t. Returns (λ r u. (r ≡ running c.at) × Taken t c ys u) (take fuel t))
      (sym (between-eq s (c ∷ ys) true pool free on))
      (take-between fuel s s.tp_tasks c ys pool.chain ready enough)

take_idle_between :
    (fuel : ℕ) (s : Tp) (h : Store TpTask) (xs : Entries) (n : ℕ) (active : Bool)
    → Seg mk_task h null xs null
    → IsStarted xs
    → length xs < fuel
    → take fuel (between true n (first xs null) (last null xs) h s)
      ≡ ok looking (between true n (first xs null) (last null xs) h s)
unfolding take get_task
take_idle_between fuel s h xs n active q all enough =
    let t = record (between true n (first xs null) (last null xs) h s) { mutex = true } in
    let got =
      get_task_from_lem t null xs fuel q enough ∙ ap (λ p. ok p t) (first_ready-IsStarted xs all) in
    rw got refl

-- If all tasks are taken the thread waits.
pub take_idle :
    (fuel : ℕ) (s : Tp) (xs : Entries)
    → IsPool s xs
    → IsFree s
    → s.is_active ≡ true
    → IsStarted xs
    → length xs < fuel
    → take fuel s ≡ ok looking s
take_idle fuel s xs pool free on all enough =
    subst (λ t. take fuel t ≡ ok looking t) (sym (between-eq s xs true pool free on))
      (take_idle_between fuel s s.tp_tasks xs (length xs) true pool.chain all enough)
