-- ===== src/ThreadPool/State.antt =====
-- The types of homework04/thread_pool.c, and the reads and writes of its objects. There is one pool.
use sysprog_labs_f.Base.{ℕ, Bool, true, false, List, Option, none, some, ◌==◌, if◌then◌else◌}
use sysprog_labs_f.Memory.Store.{Ptr, null, Store, get, Malloc}
use sysprog_labs_f.Memory.Run.{Cmd, ok, fault, out_of_fuel, demand, pure, modify, ◌>>=◌, ◌>>◌}
use sysprog_labs_f.Memory.Relink.{write, relink}

-- `TPOOL_MAX_THREADS` and `TPOOL_MAX_TASKS`.
abbrev pub max_threads : ℕ
max_threads = 20

abbrev pub max_tasks : ℕ
max_tasks = 100000

-- 0 and `enum thread_poool_errcode`.
pub data Code : Type 0 where
  success invalid_argument too_many_tasks has_tasks task_not_pushed task_in_pool : Code
  not_implemented timed_out : Code

-- `struct thread_task`. A list of the pushed tasks stands for the nodes `struct tp_task_list`, which
-- are reached from their task only.
pub record Task : Type 0 where
  pub function : ℕ
  pub arg : Ptr
  pub list : List Ptr

-- `struct thread_pool_task`, without its condition variable and the pool.
pub record TpTask : Type 0 where
  pub thread_task : Ptr
  pub result : Ptr
  pub is_finished : Bool
  pub is_running : Bool
  pub is_pushed : Bool
  pub is_joined : Bool
  pub is_detached : Bool
  pub next : Ptr
  pub prev : Ptr

-- Where a worker thread is: before the lock at the head of its loop or in the wait behind it, with a
-- task that it runs, with its result, or at its end.
pub data Worker : Type 0 where
  looking : Worker
  running : Ptr → Worker
  returning : Ptr → Worker
  gone : Worker

-- `struct thread_pool`, and the objects that are allocated. `is_alive` says that the pool is.
pub record Tp : Type 0 where
  pub threads : List Worker
  pub max_threads_cnt : ℕ
  pub threads_cnt : ℕ
  pub active_threads_cnt : ℕ
  pub is_active : Bool
  pub task : Ptr
  pub last_task : Ptr
  pub tasks_cnt : ℕ
  pub mutex : Bool
  pub is_alive : Bool
  pub tasks : Store Task
  pub tp_tasks : Store TpTask

-- What the code takes from `malloc`.
pub record Env : Type 0 where
  pub tasks : Malloc Task
  pub tp_tasks : Malloc TpTask

-- What a call gives at the end of a section between lock and unlock: its result, or a wait.
pub data Turn (A : Type 0) : Type 0 where
  finished : A → Turn A
  waiting : Turn A

-- `pthread_mutex_lock`: a fault if the pool is freed, no return while another thread holds it.
abbrev pub lock : Cmd Tp (Unit {0})
lock s =
    if s.is_alive
    then (if s.mutex then out_of_fuel else ok tt (record s { mutex = true }))
    else fault

abbrev pub unlock : Cmd Tp (Unit {0})
unlock = modify λ s. record s { mutex = false }

-- `pthread_cond_wait` lets the mutex go.
abbrev pub wait : {A : Type 0} → Cmd Tp (Turn A)
wait = unlock >> pure waiting

abbrev pub leave : {A : Type 0} → A → Cmd Tp A
leave r = unlock >> pure r

-- `*p`, a fault at NULL and at an address that is not allocated.
unfoldable pub load_task : Ptr → Cmd Tp Task
load_task p s = if p == null then fault else demand (get p s.tasks) s

unfoldable pub load_tp_task : Ptr → Cmd Tp TpTask
load_tp_task p s = if p == null then fault else demand (get p s.tp_tasks) s

abbrev pub with_tp_tasks : Option (Store TpTask) → Cmd Tp (Unit {0})
with_tp_tasks none s = fault
with_tp_tasks (some h) s = ok tt (record s { tp_tasks = h })

-- `p->field = …`.
unfoldable pub set_tp_task : (TpTask → TpTask) → Ptr → Cmd Tp (Unit {0})
set_tp_task f p s = with_tp_tasks (write f p s.tp_tasks) s

-- `if (p != NULL) p->field = …`.
unfoldable pub relink_tp_task : (TpTask → TpTask) → Ptr → Cmd Tp (Unit {0})
relink_tp_task f p s = with_tp_tasks (relink f p s.tp_tasks) s

abbrev pub set_next : Ptr → TpTask → TpTask
set_next p x = record x { next = p }

abbrev pub set_prev : Ptr → TpTask → TpTask
set_prev p x = record x { prev = p }

-- `pthread_mutex_lock(&tp_task->pool->mutex)`.
abbrev pub lock_of : Ptr → Cmd Tp (Unit {0})
lock_of q = do _ ← load_tp_task q; lock
