-- ===== src/ThreadPool/Counts.antt =====
-- The commands of homework04/thread_pool.c that leave the threads and their counters alone.
use sysprog_labs_f.Base.{
  ℕ, zero, suc, ◌≡◌, subst, Bool, true, false, not, ◌||◌, List, [], ◌∷◌, Option, none, some, ◌==◌,
  if◌then◌else◌,
}
use sysprog_labs_f.Memory.Store.{Ptr, null, Store, get}
use sysprog_labs_f.Memory.Run.{
  Run, Cmd, ok, fault, out_of_fuel, pure, demand, and_then, modify, read_state, ◌>>=◌, ◌>>◌,
}
use sysprog_labs_f.Memory.Relink.{write, relink}
use sysprog_labs_f.ThreadPool.State.{
  Tp, Env, TpTask, Worker, lock, lock_of, unlock, wait, leave, with_tp_tasks, load_task,
  load_tp_task, set_tp_task, relink_tp_task,
}
use sysprog_labs_f.ThreadPool.Tasks.{
  head, is_removable, get_tp_task, get_task_from, get_task, make_thread_pool_task, thread_task_new,
  all_removable, remove_tp_task, remove_tp_tasks, delete_task,
}

-- The threads and what the pool counts of them.
pub record Counters : Type 0 where
  pub threads : List Worker
  pub threads_cnt : ℕ
  pub active_threads_cnt : ℕ
  pub max_threads_cnt : ℕ

abbrev pub counters : Tp → Counters
counters s = record {
  threads = s.threads;
  threads_cnt = s.threads_cnt;
  active_threads_cnt = s.active_threads_cnt;
  max_threads_cnt = s.max_threads_cnt;
}

-- What a run ends with, if it does.
pub data Ends {S A : Type 0} (P : A → S → Type 0) : Run S A → Type 0 where
  ends : {a : A} {s : S} → P a s → Ends P (ok a s)
  ends_fault : Ends P fault
  ends_fuel : Ends P out_of_fuel

pub Ends-and_then :
    {S A B : Type 0} {P : A → S → Type 0} {Q : B → S → Type 0} {m : Run S A} {k : A → Cmd S B}
    → Ends P m
    → ((a : A) (s : S) → P a s → Ends Q (k a s))
    → Ends Q (and_then m k)
Ends-and_then (ends p) next = next _ _ p
Ends-and_then ends_fault next = ends_fault
Ends-and_then ends_fuel next = ends_fuel

ends_result : {S A : Type 0} {P : A → S → Type 0} {a : A} {s : S} → Ends P (ok a s) → P a s
ends_result (ends p) = p

-- The result of a run that does end.
pub Ends-ok :
    {S A : Type 0} {P : A → S → Type 0} {m : Run S A} {a : A} {s : S}
    → Ends P m
    → m ≡ ok a s
    → P a s
Ends-ok {P = P} p e = ends_result (subst (Ends P) e p)

-- What holds of the counters before a command holds of them afterwards.
pub data Keeps (Q : Counters → Type 0) {A : Type 0} (m : Cmd Tp A) : Type 0 where
  keeps : ((s : Tp) → Q (counters s) → Ends (λ a t. Q (counters t)) (m s)) → Keeps Q m

pub use_Keeps :
    {Q : Counters → Type 0} {A : Type 0} {m : Cmd Tp A}
    → Keeps Q m
    → (s : Tp) → Q (counters s)
    → Ends (λ a t. Q (counters t)) (m s)
use_Keeps (keeps f) = f

pub choose :
    {A : Type 0} {P : A → Tp → Type 0} {m k : Run Tp A} (b : Bool)
    → Ends P m
    → Ends P k
    → Ends P (if b then m else k)
choose true m k = m
choose false m k = k

pub choose_at :
    {A : Type 0} {P : A → Tp → Type 0} (m k : Cmd Tp A) (s : Tp) (b : Bool)
    → Ends P (m s)
    → Ends P (k s)
    → Ends P ((if b then m else k) s)
choose_at m k s true first second = first
choose_at m k s false first second = second

demand-Ends :
    {A : Type 0} {P : A → Tp → Type 0} (o : Option A) (s : Tp)
    → ((a : A) → P a s)
    → Ends P (demand o s)
demand-Ends none s q = ends_fault
demand-Ends (some a) s q = ends (q a)

module _ {Q : Counters → Type 0} where
  pub bind :
      {A B : Type 0} {m : Cmd Tp A} {k : A → Cmd Tp B}
      → Keeps Q m
      → ((a : A) → Keeps Q (k a))
      → Keeps Q (m >>= k)
  bind keep next = keeps λ s q. Ends-and_then (use_Keeps keep s q) λ a t p. use_Keeps (next a) t p

  pub seq :
      {B : Type 0} {m : Cmd Tp (Unit {0})} {k : Cmd Tp B} → Keeps Q m → Keeps Q k → Keeps Q (m >> k)
  seq keep next = keeps λ s q. Ends-and_then (use_Keeps keep s q) λ a t p. use_Keeps next t p

  pub branch :
      {A : Type 0} {m k : Cmd Tp A} (b : Bool)
      → Keeps Q m
      → Keeps Q k
      → Keeps Q (if b then m else k)
  branch true m k = m
  branch false m k = k

  pub give : {A : Type 0} {a : A} → Keeps Q (pure a)
  give = keeps λ s q. ends q

  pub change : {f : Tp → Tp} → ((s : Tp) → Q (counters s) → Q (counters (f s))) → Keeps Q (modify f)
  change same = keeps λ s q. ends (same s q)

  pub look : {A : Type 0} {f : Tp → A} → Keeps Q (read_state f)
  look = keeps λ s q. ends q

  pub load_task-Keeps : (p : Ptr) → Keeps Q (load_task p)
  unfolding load_task
  load_task-Keeps p =
      keeps λ s q. choose (p == null) ends_fault (demand-Ends (get p s.tasks) s λ a. q)

  pub load_tp_task-Keeps : (p : Ptr) → Keeps Q (load_tp_task p)
  unfolding load_tp_task
  load_tp_task-Keeps p =
      keeps λ s q. choose (p == null) ends_fault (demand-Ends (get p s.tp_tasks) s λ a. q)

  with_tp_tasks-Keeps : (h : Option (Store TpTask)) → Keeps Q (with_tp_tasks h)
  with_tp_tasks-Keeps none = keeps λ s q. ends_fault
  with_tp_tasks-Keeps (some h) = keeps λ s q. ends q

  pub set_tp_task-Keeps : (f : TpTask → TpTask) (p : Ptr) → Keeps Q (set_tp_task f p)
  unfolding set_tp_task
  set_tp_task-Keeps f p = keeps λ s q. use_Keeps (with_tp_tasks-Keeps (write f p s.tp_tasks)) s q

  pub relink_tp_task-Keeps : (f : TpTask → TpTask) (p : Ptr) → Keeps Q (relink_tp_task f p)
  unfolding relink_tp_task
  relink_tp_task-Keeps f p =
      keeps λ s q. use_Keeps (with_tp_tasks-Keeps (relink f p s.tp_tasks)) s q

  pub lock-Keeps : Keeps Q lock
  lock-Keeps = keeps λ s q. choose s.is_alive (choose s.mutex ends_fuel (ends q)) ends_fault

  pub lock_of-Keeps : (p : Ptr) → Keeps Q (lock_of p)
  lock_of-Keeps p = bind (load_tp_task-Keeps p) λ x. lock-Keeps

  pub unlock-Keeps : Keeps Q unlock
  unlock-Keeps = change λ s q. q

  pub leave-Keeps : {A : Type 0} {a : A} → Keeps Q (leave a)
  leave-Keeps = seq unlock-Keeps give

  pub wait-Keeps : {A : Type 0} → Keeps Q (wait {A = A})
  wait-Keeps = seq unlock-Keeps give

  pub get_tp_task-Keeps : (task : Ptr) → Keeps Q (get_tp_task task)
  unfolding get_tp_task
  get_tp_task-Keeps task = bind (load_task-Keeps task) λ t. give

  pub thread_task_new-Keeps :
      (env : Env) (function : ℕ) (arg : Ptr) → Keeps Q (thread_task_new env function arg)
  unfolding thread_task_new
  thread_task_new-Keeps env function arg = keeps λ s q. ends q

  pub make_thread_pool_task-Keeps :
      (env : Env) (task : Ptr) → Keeps Q (make_thread_pool_task env task)
  unfolding make_thread_pool_task
  make_thread_pool_task-Keeps env task =
      keeps λ s q. Ends-and_then (use_Keeps (load_task-Keeps task) _ q) λ t u p. ends p

  all_removable-Keeps : (qs : List Ptr) → Keeps Q (all_removable qs)
  unfolding all_removable
  all_removable-Keeps [] = give
  all_removable-Keeps (p ∷ ps) =
      bind (load_tp_task-Keeps p) λ x. branch (is_removable x) (all_removable-Keeps ps) give

  remove_tp_task-Keeps : (p : Ptr) → Keeps Q (remove_tp_task p)
  unfolding remove_tp_task
  remove_tp_task-Keeps p = bind (load_tp_task-Keeps p) λ x. seq (change λ s q. q) (
      seq (relink_tp_task-Keeps _ x.next) (
        seq (branch (x.prev == null) (change λ s q. q) (set_tp_task-Keeps _ x.prev))
          (change λ s q. q)))

  remove_tp_tasks-Keeps : (qs : List Ptr) → Keeps Q (remove_tp_tasks qs)
  unfolding remove_tp_tasks
  remove_tp_tasks-Keeps [] = give
  remove_tp_tasks-Keeps (p ∷ ps) = seq (remove_tp_task-Keeps p) (remove_tp_tasks-Keeps ps)

  pub delete_task-Keeps : (task : Ptr) → Keeps Q (delete_task task)
  unfolding delete_task
  delete_task-Keeps task = bind (load_task-Keeps task) λ t.
      branch (head t.list == null) (keeps λ s q. ends q) (
        bind (all_removable-Keeps t.list) λ removable.
          branch (not removable) give (seq (remove_tp_tasks-Keeps t.list) (keeps λ s q. ends q)))

  get_task_from-Keeps : (k : ℕ) (p : Ptr) → Keeps Q (get_task_from k p)
  unfolding get_task_from
  get_task_from-Keeps zero p = keeps λ s q. ends_fuel
  get_task_from-Keeps (suc k) p = branch (p == null) give (
      bind (load_tp_task-Keeps p)
        λ x. branch (x.is_running || x.is_finished) (get_task_from-Keeps k x.next) give)

  pub get_task-Keeps : (k : ℕ) → Keeps Q (get_task k)
  unfolding get_task
  get_task-Keeps k = bind look λ p. get_task_from-Keeps k p
