-- ===== src/ThreadPool/Finish.antt =====
-- What a worker of homework04/thread_pool.c does when the function of its task has returned.
use sysprog_labs_f.Base.{
  ◌-◌, ◌≡◌, ◌≢◌, refl, sym, ap, ◌∙◌, subst, Bool, true, false, List, ◌∷◌, ◌++◌, length,
  length-append, some, arith, ◌==◌, if◌then◌else◌,
}
use sysprog_labs_f.Memory.Store.{Ptr, null, Store, get, put, get-put_self}
use sysprog_labs_f.Memory.Run.{fault, pure, ◌>>◌, ◌>>=◌, Returns, returns}
use sysprog_labs_f.Memory.Chain.{
  Cell, cell, first, last, first-append, last-append, Seg, Seg-update,
}
use sysprog_labs_f.ThreadPool.State.{Tp, Task, TpTask, looking, leave, load_tp_task}
use sysprog_labs_f.ThreadPool.Tasks.{delete_task}
use sysprog_labs_f.ThreadPool.Pool.{
  Entry, mk_task, Entries, IsPool, IsFree, load_tp_task-ok, set_tp_task-ok,
}
use sysprog_labs_f.ThreadPool.Worker.{finish}
use sysprog_labs_f.ThreadPool.Take.{Kept, between, between-eq}
use sysprog_labs_f.ThreadPool.Remove.{Seg-get}
use sysprog_labs_f.ThreadPool.Delete.{IsOwned, all_removable_at, delete_task_lem, among}

abbrev pub ended : Entry → Entry
ended e = record e { is_finished = true; is_running = false }

-- The task `c` stays at its place, finished.
pub record Finished (s : Tp) (c : Cell Entry) (xs ys : Entries) (u : Tp) : Type 0 where
  pub pool : IsPool u (xs ++ cell c.at (ended c.datum) ∷ ys)
  pub free : IsFree u
  pub active : u.active_threads_cnt ≡ s.active_threads_cnt - 1
  pub kept : Kept s u

pub first_of :
    (xs ys : Entries) (p : Ptr) (d e : Entry)
    → first (xs ++ cell p d ∷ ys) null ≡ first (xs ++ cell p e ∷ ys) null
first_of xs ys p d e =
    first-append xs (cell p d ∷ ys) null ∙ sym (first-append xs (cell p e ∷ ys) null)

pub last_of :
    (xs ys : Entries) (p : Ptr) (d e : Entry)
    → last null (xs ++ cell p d ∷ ys) ≡ last null (xs ++ cell p e ∷ ys)
last_of xs ys p d e =
    last-append null xs (cell p d ∷ ys) ∙ sym (last-append null xs (cell p e ∷ ys))

pub length_of :
    (xs ys : Entries) (p : Ptr) (d e : Entry)
    → length (xs ++ cell p d ∷ ys) ≡ length (xs ++ cell p e ∷ ys)
length_of xs ys p d e =
    omega (arith, length-append xs (cell p d ∷ ys), length-append xs (cell p e ∷ ys))

module _ (s : Tp) (h : Store TpTask) (c : Cell Entry) (xs ys : Entries) (active : Bool)
    (chain : Seg mk_task h null (xs ++ c ∷ ys) null) where
  abbrev all : Entries
  all = xs ++ cell c.at (ended c.datum) ∷ ys

  abbrev before : Tp
  before = between active (length all) (first all null) (last null all) h s

  abbrev node : TpTask
  node = mk_task (ended c.datum) (first ys null) (last null xs)

  -- The task is marked.
  abbrev marked : Tp
  marked = record before {
    mutex = true;
    tp_tasks = put c.at node h;
    active_threads_cnt = s.active_threads_cnt - 1;
  }

  chain₁ : Seg mk_task (put c.at node h) null all null
  chain₁ = Seg-update mk_task h null null c.at c.datum (ended c.datum) xs ys chain

  finish_mark :
      (detached : Bool)
      → c.datum.is_detached ≡ detached
      → finish c.at before
        ≡ ((if detached then (do _ ← delete_task c.datum.thread_task; pure tt) else pure tt)
              >> (do _ ← load_tp_task c.at; leave looking))
            marked
  unfolding finish
  finish_mark detached eq =
      let at = Seg-get h c xs ys chain in
      rw
        (
          set_tp_task-ok (record before { mutex = true }) c.at at.0
              (λ x. record x { is_finished = true; is_running = false }) _ at.1,
          load_tp_task-ok marked c.at at.0 _ (get-put_self c.at node h),
        )
        (ap
          (λ b.
            ((if b then (do _ ← delete_task c.datum.thread_task; pure tt) else pure tt)
                >> (do _ ← load_tp_task c.at; leave looking))
              marked)
          eq)

  finish_between :
      c.datum.is_detached ≡ false
      → Returns (λ r u. (r ≡ looking) × Finished before c xs ys u) (finish c.at before)
  finish_between stays =
      let at = Seg-get h c xs ys chain in
      rw (finish_mark false stays, load_tp_task-ok marked c.at at.0 _ (get-put_self c.at node h))
        (returns (
          refl,
          record {
            pool = record { task = refl; last_task = refl; chain = chain₁; counted = refl };
            free = record { alive = refl; mutex = refl };
            active = refl;
            kept = record {
              threads = refl;
              max_threads_cnt = refl;
              threads_cnt = refl;
              is_active = refl;
              tasks = refl;
            };
          },
        ))

  finish-fault_between :
      (t : Task) (q : Ptr) (qs : List Ptr)
      → c.datum.is_detached ≡ true
      → c.datum.thread_task ≢ null
      → get c.datum.thread_task s.tasks ≡ some t
      → t.list ≡ q ∷ qs
      → IsOwned (q ∷ qs) all
      → among c.at (q ∷ qs) ≡ true
      → all_removable_at (q ∷ qs) all ≡ true
      → finish c.at before ≡ fault
  unfolding load_tp_task
  finish-fault_between t q qs detached ne there list own mine good =
      let at = Seg-get h c xs ys chain in
      let (g, eq, chain₂, freed) =
        delete_task_lem marked (put c.at node h) c.datum.thread_task t q qs all ne there list own
          chain₁ good in
      let dead : (c.at == null) ≡ false = ground (arith, at.0) in
      rw (finish_mark true detached, eq, dead, freed c.at mine) refl

before-eq :
    (s : Tp) (c : Cell Entry) (xs ys : Entries)
    → (pool : IsPool s (xs ++ c ∷ ys)) → IsFree s
    → s ≡ before s s.tp_tasks c xs ys s.is_active pool.chain
before-eq s c xs ys pool free = between-eq s (xs ++ c ∷ ys) s.is_active pool free refl ∙ λ i.
    between s.is_active (length_of xs ys c.at c.datum (ended c.datum) i)
      (first_of xs ys c.at c.datum (ended c.datum) i) (last_of xs ys c.at c.datum (ended c.datum) i)
      s.tp_tasks s

-- While no thread is in a section, the end of a task of the list that is not detached: it is marked
-- as finished and no more running, at its place, all other tasks and the threads stay, one thread
-- less is active, and the thread looks for work again.
pub finish_lem :
    (s : Tp) (c : Cell Entry) (xs ys : Entries)
    → IsPool s (xs ++ c ∷ ys)
    → IsFree s
    → c.datum.is_detached ≡ false
    → Returns (λ r u. (r ≡ looking) × Finished s c xs ys u) (finish c.at s)
finish_lem s c xs ys pool free stays =
    subst (λ b. Returns (λ r u. (r ≡ looking) × Finished b c xs ys u) (finish c.at b))
      (sym (before-eq s c xs ys pool free))
      (finish_between s s.tp_tasks c xs ys s.is_active pool.chain stays)

-- The end of a task of the list that is detached, while no thread is in a section, if the task is
-- one of those of its thread task, and these are distinct tasks of the list that may all be
-- deleted: the thread signals a condition variable of memory that it has just freed.
pub finish-fault :
    (s : Tp) (c : Cell Entry) (xs ys : Entries) (t : Task) (q : Ptr) (qs : List Ptr)
    → IsPool s (xs ++ c ∷ ys)
    → IsFree s
    → c.datum.is_detached ≡ true
    → c.datum.thread_task ≢ null
    → get c.datum.thread_task s.tasks ≡ some t
    → t.list ≡ q ∷ qs
    → among c.at (q ∷ qs) ≡ true
    → IsOwned (q ∷ qs) (xs ++ cell c.at (ended c.datum) ∷ ys)
    → all_removable_at (q ∷ qs) (xs ++ cell c.at (ended c.datum) ∷ ys) ≡ true
    → finish c.at s ≡ fault
finish-fault s c xs ys t q qs pool free detached ne there list mine own good =
    subst (λ b. finish c.at b ≡ fault) (sym (before-eq s c xs ys pool free))
      (finish-fault_between s s.tp_tasks c xs ys s.is_active pool.chain t q qs detached ne there
        list own mine good)
