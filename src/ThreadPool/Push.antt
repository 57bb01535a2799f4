-- ===== src/ThreadPool/Push.antt =====
-- What `thread_pool_push_task` of homework04/thread_pool.c does to the pool.
use sysprog_labs_f.Base.{
  ℕ, ◌+◌, ◌≡◌, ◌≢◌, refl, sym, subst, Bool, true, false, ◌&&◌, [], ◌∷◌, ◌++◌, some, length, arith,
  ◌==◌, ltb, if◌then◌else◌, Bool-cases, inl, inr,
}
use sysprog_labs_f.Memory.Store.{Ptr, null, Store, get, put, get-put_self}
use sysprog_labs_f.Memory.Run.{ok, Returns, returns}
use sysprog_labs_f.Memory.Chain.{Cell, cell, first, last, Seg, frame-put, not-mem-unused}
use sysprog_labs_f.Memory.Relink.{push_front}
use sysprog_labs_f.Memory.Rotate.{last-ne_null}
use sysprog_labs_f.ThreadPool.State.{
  Tp, Env, Task, TpTask, looking, success, too_many_tasks, max_tasks, set_prev,
}
use sysprog_labs_f.ThreadPool.Tasks.{blank, make_thread_pool_task}
use sysprog_labs_f.ThreadPool.Pool.{
  Entry, mk_task, Entries, IsPool, IsFree, load_task-ok, set_tp_task-ok, relink_tp_task-ok,
}
use sysprog_labs_f.ThreadPool.Take.{between, between-eq}
use sysprog_labs_f.ThreadPool.Api.{spawn, put_first, thread_pool_push_task}

-- A task that was just pushed; its result is what the memory held.
abbrev pub pushed : TpTask → Ptr → Entry
pushed raw task = record {
  thread_task = task;
  result = raw.result;
  is_finished = false;
  is_running = false;
  is_pushed = true;
  is_joined = false;
  is_detached = false;
}

-- All threads are busy, and there may be more.
abbrev pub may_spawn : Tp → Bool
may_spawn s = s.active_threads_cnt == s.threads_cnt && ltb s.threads_cnt s.max_threads_cnt

abbrev pub new_cell : Env → Tp → Ptr → Cell Entry
new_cell env s task =
    cell (env.tp_tasks.place s.tp_tasks) (pushed (env.tp_tasks.raw s.tp_tasks) task)

-- The new task stands first, and the thread task knows it.
pub record Pushed (env : Env) (s : Tp) (task : Ptr) (t : Task) (xs : Entries) (u : Tp)
    : Type 0 where
  pub pool : IsPool u (new_cell env s task ∷ xs)
  pub free : IsFree u
  pub tasks :
      u.tasks ≡ put task (record t { list = env.tp_tasks.place s.tp_tasks ∷ t.list }) s.tasks
  pub threads : u.threads ≡ (if may_spawn s then s.threads ++ looking ∷ [] else s.threads)
  pub threads_cnt : u.threads_cnt ≡ (if may_spawn s then s.threads_cnt + 1 else s.threads_cnt)
  pub active_threads_cnt : u.active_threads_cnt ≡ s.active_threads_cnt
  pub max_threads_cnt : u.max_threads_cnt ≡ s.max_threads_cnt
  pub is_active : u.is_active ≡ s.is_active

pub spawn_lem :
    (s : Tp)
    → spawn s
      ≡ ok tt (record s {
        threads = if may_spawn s then s.threads ++ looking ∷ [] else s.threads;
        threads_cnt = if may_spawn s then s.threads_cnt + 1 else s.threads_cnt;
      })
unfolding spawn
spawn_lem s = elim (Bool-cases (may_spawn s)) [ inl busy ↦ rw busy refl | inr idle ↦ rw idle refl ]

last_after :
    (h : Store TpTask) (q : Ptr) (e : Entry) (xs : Entries)
    → Seg mk_task h null xs null
    → (if last null xs == null then q else last null xs) ≡ last null (cell q e ∷ xs)
last_after h q e [] c = refl
last_after h q e (x ∷ xs) c = let live = last-ne_null mk_task h null null x xs c in ground arith

module _ (env : Env) (task : Ptr) (t : Task) (s : Tp) (h : Store TpTask) (xs : Entries)
    (c : Seg mk_task h null xs null) where
  abbrev place : Ptr
  place = env.tp_tasks.place h

  abbrev fresh : Entry
  fresh = pushed (env.tp_tasks.raw h) task

  abbrev h₂ : Store TpTask
  h₂ =
      put place (mk_task fresh (first xs null) null) (put place (blank (env.tp_tasks.raw h) task) h)

  chain₂ : Seg mk_task h₂ null xs null
  chain₂ =
      let out = not-mem-unused mk_task h null null place xs (env.tp_tasks.place-unused h) c in
      frame-put mk_task _ null null place _ xs out (frame-put mk_task h null null place _ xs out c)

  push_between :
      (active : Bool)
      → task ≢ null
      → get task s.tasks ≡ some t
      → (length xs == max_tasks) ≡ false
      → let before = between active (length xs) (first xs null) (last null xs) h s in
        Returns
          (λ r u. (r ≡ success) × Pushed env before task t xs u)
          (thread_pool_push_task env task before)
  unfolding thread_pool_push_task make_thread_pool_task put_first
  push_between active ne at room =
      let before = between active (length xs) (first xs null) (last null xs) h s in
      let locked = record before { mutex = true } in
      let busy = may_spawn s in
      let spawned = record locked {
        threads = if busy then s.threads ++ looking ∷ [] else s.threads;
        threads_cnt = if busy then s.threads_cnt + 1 else s.threads_cnt;
      } in
      let sp = spawn_lem locked in
      let out = not-mem-unused mk_task h null null place xs (env.tp_tasks.place-unused h) c in
      let live = env.tp_tasks.place-ne_null h in
      let (h₃, eq, chain, same) =
        push_front mk_task (set_prev place) h₂ place fresh xs (λ e n q. refl) live out chain₂
          (get-put_self place (mk_task fresh (first xs null) null)
            (put place (blank (env.tp_tasks.raw h) task) h)) in
      let made = record spawned { tp_tasks = put place (blank (env.tp_tasks.raw h) task) h } in
      let known = record made {
        tasks = put task (record t { list = place ∷ t.list }) s.tasks;
        tasks_cnt = length xs + 1;
      } in
      rw
        (
          room,
          sp,
          load_task-ok made task ne t at,
          set_tp_task-ok known place live (λ x. record x { is_pushed = true; next = first xs null })
              _ (get-put_self place _ h),
          relink_tp_task-ok (record known { tp_tasks = h₂ }) (set_prev place) (first xs null) h₃ eq,
        )
        (returns (
          refl,
          record {
            pool = record {
              task = refl;
              last_task = last_after h place fresh xs c;
              chain = chain;
              counted = omega arith;
            };
            free = record { alive = refl; mutex = refl };
            tasks = refl;
            threads = refl;
            threads_cnt = refl;
            active_threads_cnt = refl;
            max_threads_cnt = refl;
            is_active = refl;
          },
        ))

-- A push puts the new task first, and creates a thread if it may.
pub push_lem :
    (env : Env) (s : Tp) (task : Ptr) (t : Task) (xs : Entries)
    → IsPool s xs
    → IsFree s
    → task ≢ null
    → get task s.tasks ≡ some t
    → (length xs == max_tasks) ≡ false
    → Returns (λ r u. (r ≡ success) × Pushed env s task t xs u) (thread_pool_push_task env task s)
push_lem env s task t xs pool free ne at room =
    subst
      (λ b.
        Returns (λ r u. (r ≡ success) × Pushed env b task t xs u)
          (thread_pool_push_task env task b))
      (sym (between-eq s xs s.is_active pool free refl))
      (push_between env task t s s.tp_tasks xs pool.chain s.is_active ne at room)

push_full_between :
    (env : Env) (task : Ptr) (s : Tp) (active : Bool) (n : ℕ) (p q : Ptr) (h : Store TpTask)
    → (n == max_tasks) ≡ true
    → thread_pool_push_task env task (between active n p q h s)
      ≡ ok too_many_tasks (between active n p q h s)
unfolding thread_pool_push_task
push_full_between env task s active n p q h full = rw full refl

-- A push to a full pool changes nothing.
pub push_full :
    (env : Env) (s : Tp) (task : Ptr) (xs : Entries)
    → IsPool s xs
    → IsFree s
    → length xs ≡ max_tasks
    → thread_pool_push_task env task s ≡ ok too_many_tasks s
push_full env s task xs pool free full =
    subst (λ b. thread_pool_push_task env task b ≡ ok too_many_tasks b)
      (sym (between-eq s xs s.is_active pool free refl))
      (push_full_between env task s s.is_active (length xs) _ _ _ (ground (arith, full)))
