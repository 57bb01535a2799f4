-- ===== src/ThreadPool/Deleted.antt =====
-- What `thread_task_delete` of homework04/thread_pool.c does.
use sysprog_labs_f.Base.{◌≡◌, ◌≢◌, refl, sym, subst, Bool, true, List, ◌∷◌, length, some}
use sysprog_labs_f.Memory.Store.{Ptr, null, Store, get, remove}
use sysprog_labs_f.Memory.Run.{Returns, returns}
use sysprog_labs_f.Memory.Chain.{first, last, Seg}
use sysprog_labs_f.ThreadPool.State.{Tp, Task, TpTask, success}
use sysprog_labs_f.ThreadPool.Tasks.{get_tp_task}
use sysprog_labs_f.ThreadPool.Pool.{mk_task, Entries, IsPool, IsFree, load_task-ok, load_tp_task-ok}
use sysprog_labs_f.ThreadPool.Take.{between, between-eq}
use sysprog_labs_f.ThreadPool.Delete.{
  without, IsOwned, all_removable_at, get-removable_at, delete_task_lem, head-null, length-without,
}
use sysprog_labs_f.ThreadPool.Api.{thread_task_delete}

-- The thread task is freed, and its tasks have left the pool. Threads and other tasks stay.
pub record Deleted (s : Tp) (task : Ptr) (qs : List Ptr) (xs : Entries) (u : Tp) : Type 0 where
  pub pool : IsPool u (without qs xs)
  pub free : IsFree u
  pub tasks : u.tasks ≡ remove task s.tasks
  pub threads : u.threads ≡ s.threads
  pub threads_cnt : u.threads_cnt ≡ s.threads_cnt
  pub active_threads_cnt : u.active_threads_cnt ≡ s.active_threads_cnt
  pub is_active : u.is_active ≡ s.is_active

module _ (task : Ptr) (t : Task) (q : Ptr) (qs : List Ptr) (xs : Entries) (ne : task ≢ null)
    (list : t.list ≡ q ∷ qs) (own : IsOwned (q ∷ qs) xs) where
  abbrev pool_of : Bool → Store TpTask → Tp → Tp
  pool_of active h s = between active (length xs) (first xs null) (last null xs) h s

  delete_between :
      (s : Tp) (h : Store TpTask) (active : Bool)
      → get task s.tasks ≡ some t
      → Seg mk_task h null xs null
      → all_removable_at (q ∷ qs) xs ≡ true
      → Returns
          (λ r u. (r ≡ success) × Deleted (pool_of active h s) task (q ∷ qs) xs u)
          (thread_task_delete task (pool_of active h s))
  unfolding thread_task_delete get_tp_task
  delete_between s h active at chain good =
      let before = pool_of active h s in
      let r = get-removable_at h null q xs own.0 chain in
      let locked = record before { mutex = true } in
      let (g, eq, chain₁, freed) =
        delete_task_lem locked h task t q qs xs ne at list own chain good in
      rw
        (
          load_task-ok before task ne t at,
          list,
          head-null h q xs own.0 chain,
          load_tp_task-ok before q r.0 r.1 r.2,
          eq,
        )
        (returns (
          refl,
          record {
            pool = record {
              task = refl;
              last_task = refl;
              chain = chain₁;
              counted = length-without (q ∷ qs) xs own;
            };
            free = record { alive = refl; mutex = refl };
            tasks = refl;
            threads = refl;
            threads_cnt = refl;
            active_threads_cnt = refl;
            is_active = refl;
          },
        ))

-- A delete of a task that was pushed, while no thread is in a section, if its pool tasks are
-- distinct tasks of the list, each joined, or detached and finished: it returns 0, its pool tasks
-- leave the list, all others keep their order and their contents, the count and both ends of the
-- list fit, the thread task is freed, and the threads and their counters stay.
pub thread_task_delete_lem :
    (s : Tp) (task : Ptr) (t : Task) (q : Ptr) (qs : List Ptr) (xs : Entries)
    → IsPool s xs
    → IsFree s
    → task ≢ null
    → get task s.tasks ≡ some t
    → t.list ≡ q ∷ qs
    → IsOwned (q ∷ qs) xs
    → all_removable_at (q ∷ qs) xs ≡ true
    → Returns (λ r u. (r ≡ success) × Deleted s task (q ∷ qs) xs u) (thread_task_delete task s)
thread_task_delete_lem s task t q qs xs pool free ne at list own good =
    subst
      (λ b.
        Returns (λ r u. (r ≡ success) × Deleted b task (q ∷ qs) xs u) (thread_task_delete task b))
      (sym (between-eq s xs s.is_active pool free refl))
      (delete_between task t q qs xs ne list own s s.tp_tasks s.is_active at pool.chain good)
