-- ===== src/ThreadPool/Pool.antt =====
-- The tasks of the pool of homework04/thread_pool.c in memory.
use sysprog_labs_f.Base.{
  ◌≡◌, ◌≢◌, refl, Bool, true, false, ◌||◌, List, [], ◌∷◌, some, length, arith,
}
use sysprog_labs_f.Memory.Store.{Ptr, null, Store, get, put}
use sysprog_labs_f.Memory.Run.{ok}
use sysprog_labs_f.Memory.Chain.{Cell, first, last, Seg}
use sysprog_labs_f.Memory.Relink.{relink, write-ok}
use sysprog_labs_f.ThreadPool.State.{
  Tp, TpTask, Task, load_task, load_tp_task, set_tp_task, relink_tp_task,
}

-- A task of the pool without its links.
pub record Entry : Type 0 where
  pub thread_task : Ptr
  pub result : Ptr
  pub is_finished : Bool
  pub is_running : Bool
  pub is_pushed : Bool
  pub is_joined : Bool
  pub is_detached : Bool

abbrev pub mk_task : Entry → Ptr → Ptr → TpTask
mk_task e next prev = record {
  thread_task = e.thread_task;
  result = e.result;
  is_finished = e.is_finished;
  is_running = e.is_running;
  is_pushed = e.is_pushed;
  is_joined = e.is_joined;
  is_detached = e.is_detached;
  next = next;
  prev = prev;
}

abbrev pub is_started : Entry → Bool
is_started e = e.is_running || e.is_finished

abbrev pub Entries : Type 0
Entries = List (Cell Entry)

-- The doubly linked list of the pool holds the tasks `xs`, and they are counted.
pub record IsPool (s : Tp) (xs : Entries) : Type 0 where
  pub task : s.task ≡ first xs null
  pub last_task : s.last_task ≡ last null xs
  pub chain : Seg mk_task s.tp_tasks null xs null
  pub counted : s.tasks_cnt ≡ length xs

-- No thread is in a section, and the pool is not freed.
pub record IsFree (s : Tp) : Type 0 where
  pub alive : s.is_alive ≡ true
  pub mutex : s.mutex ≡ false

-- The tasks that no thread has taken stand before the others.
abbrev pub IsStarted : Entries → Type 0
IsStarted [] = Unit {0}
IsStarted (c ∷ xs) = (is_started c.datum ≡ true) × IsStarted xs

abbrev pub IsSplit : Entries → Type 0
IsSplit [] = Unit {0}
IsSplit (c ∷ xs) = (is_started c.datum ≡ true → IsStarted xs) × IsSplit xs

module _ (s : Tp) (p : Ptr) (h : p ≢ null) where
  pub load_tp_task-ok : (x : TpTask) → get p s.tp_tasks ≡ some x → load_tp_task p s ≡ ok x s
  unfolding load_tp_task
  load_tp_task-ok x e = ground arith

  pub load_task-ok : (x : Task) → get p s.tasks ≡ some x → load_task p s ≡ ok x s
  unfolding load_task
  load_task-ok x e = ground arith

  pub set_tp_task-ok :
      (f : TpTask → TpTask) (x : TpTask)
      → get p s.tp_tasks ≡ some x
      → set_tp_task f p s ≡ ok tt (record s { tp_tasks = put p (f x) s.tp_tasks })
  unfolding set_tp_task
  set_tp_task-ok f x e = rw (write-ok f p s.tp_tasks x h e) refl

pub relink_tp_task-ok :
    (s : Tp) (f : TpTask → TpTask) (p : Ptr) (g : Store TpTask)
    → relink f p s.tp_tasks ≡ some g
    → relink_tp_task f p s ≡ ok tt (record s { tp_tasks = g })
unfolding relink_tp_task
relink_tp_task-ok s f p g e = rw e refl
