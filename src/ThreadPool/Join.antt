-- ===== src/ThreadPool/Join.antt =====
-- The joins of homework04/thread_pool.c.
use sysprog_labs_f.Base.{
  ◌≡◌, ◌≢◌, refl, sym, ap, ◌∙◌, subst, Bool, true, false, not, ◌∷◌, ◌++◌, length, some, arith, ◌==◌,
  if◌then◌else◌,
}
use sysprog_labs_f.Memory.Store.{Ptr, null, Store, get, put, get-put_self}
use sysprog_labs_f.Memory.Run.{Run, ok, Returns, returns}
use sysprog_labs_f.Memory.Chain.{Cell, cell, first, last, Seg, Seg-update}
use sysprog_labs_f.ThreadPool.State.{Tp, Task, TpTask, success, timed_out, finished, waiting, wait}
use sysprog_labs_f.ThreadPool.Tasks.{head, get_tp_task}
use sysprog_labs_f.ThreadPool.Pool.{
  Entry, mk_task, Entries, IsPool, IsFree, load_task-ok, load_tp_task-ok, set_tp_task-ok,
}
use sysprog_labs_f.ThreadPool.Take.{Kept, between, between-eq}
use sysprog_labs_f.ThreadPool.Remove.{Seg-get}
use sysprog_labs_f.ThreadPool.Finish.{first_of, last_of, length_of}
use sysprog_labs_f.ThreadPool.Api.{
  Joined, read_result, thread_task_join, thread_task_timed_join, thread_task_timed_join_resume,
}

abbrev pub marked : Entry → Entry
marked e = record e { is_joined = true }

-- The task `c` is marked as joined, and all else is as before.
pub record IsMarked (s : Tp) (c : Cell Entry) (xs ys : Entries) (u : Tp) : Type 0 where
  pub pool : IsPool u (xs ++ cell c.at (marked c.datum) ∷ ys)
  pub free : IsFree u
  pub active : u.active_threads_cnt ≡ s.active_threads_cnt
  pub kept : Kept s u

module _ (task : Ptr) (t : Task) (c : Cell Entry) (xs ys : Entries) (ne : task ≢ null)
    (list : head t.list ≡ c.at) where
  abbrev all : Entries
  all = xs ++ cell c.at (marked c.datum) ∷ ys

  abbrev before : Bool → Store TpTask → Tp → Tp
  before active h s = between active (length all) (first all null) (last null all) h s

  abbrev node : TpTask
  node = mk_task (marked c.datum) (first ys null) (last null xs)

  abbrev joined : Bool → Store TpTask → Tp → Tp
  joined active h s = before active (put c.at node h) s

  joined-IsMarked :
      (active : Bool) (h : Store TpTask) (s : Tp)
      → Seg mk_task h null (xs ++ c ∷ ys) null
      → IsMarked (before active h s) c xs ys (joined active h s)
  joined-IsMarked active h s chain = record {
    pool = record {
      task = refl;
      last_task = refl;
      chain = Seg-update mk_task h null null c.at c.datum (marked c.datum) xs ys chain;
      counted = refl;
    };
    free = record { alive = refl; mutex = refl };
    active = refl;
    kept = record {
      threads = refl;
      max_threads_cnt = refl;
      threads_cnt = refl;
      is_active = refl;
      tasks = refl;
    };
  }

  module _ (active : Bool) (h : Store TpTask) (s : Tp) (at : get task s.tasks ≡ some t)
      (chain : Seg mk_task h null (xs ++ c ∷ ys) null) where
    abbrev here :
        (c.at ≢ null) × (get c.at h ≡ some (mk_task c.datum (first ys null) (last null xs)))
    here = Seg-get h c xs ys chain

    abbrev locked : Tp
    locked = record (before active h s) { mutex = true }

    abbrev now : Tp
    now = record locked { tp_tasks = put c.at node h }

    -- Up to the test of `is_finished`.
    abbrev goes_on : Bool → Run Tp Joined
    goes_on b = (if not b then wait else read_result c.at) now

    thread_task_join-goes_on :
        thread_task_join task (before active h s) ≡ goes_on c.datum.is_finished
    unfolding thread_task_join get_tp_task
    thread_task_join-goes_on =
        let live : (c.at == null) ≡ false = ground (arith, here.0) in
        rw
          (
            load_task-ok (before active h s) task ne t at,
            list,
            live,
            load_tp_task-ok (before active h s) c.at here.0 _ here.1,
            set_tp_task-ok locked c.at here.0 (λ x. record x { is_joined = true }) _ here.1,
            load_tp_task-ok now c.at here.0 _ (get-put_self c.at node h),
          )
          refl

    thread_task_timed_join-goes_on :
        thread_task_timed_join task true (before active h s) ≡ goes_on c.datum.is_finished
    unfolding thread_task_timed_join get_tp_task
    thread_task_timed_join-goes_on =
        let live : (c.at == null) ≡ false = ground (arith, here.0) in
        rw
          (
            load_task-ok (before active h s) task ne t at,
            list,
            live,
            load_tp_task-ok (before active h s) c.at here.0 _ here.1,
            set_tp_task-ok locked c.at here.0 (λ x. record x { is_joined = true }) _ here.1,
            load_tp_task-ok now c.at here.0 _ (get-put_self c.at node h),
          )
          refl

    goes_on_finished : goes_on true ≡ ok (finished (success, c.datum.result)) (joined active h s)
    goes_on_finished = rw (load_tp_task-ok now c.at here.0 _ (get-put_self c.at node h)) refl

  pool-eq : (s : Tp) → IsPool s (xs ++ c ∷ ys) → IsFree s → s ≡ before s.is_active s.tp_tasks s
  pool-eq s pool free = between-eq s (xs ++ c ∷ ys) s.is_active pool free refl ∙ λ i.
      between s.is_active (length_of xs ys c.at c.datum (marked c.datum) i)
        (first_of xs ys c.at c.datum (marked c.datum) i)
        (last_of xs ys c.at c.datum (marked c.datum) i) s.tp_tasks s

-- While no thread is in a section, a join of a task whose last push has put a pool task into the
-- list that is finished by now: it returns 0 and the result of that pool task without a wait, the
-- pool task is marked as joined, and all other tasks, the threads and the counters stay.
pub thread_task_join_lem :
    (s : Tp) (task : Ptr) (t : Task) (c : Cell Entry) (xs ys : Entries)
    → IsPool s (xs ++ c ∷ ys)
    → IsFree s
    → task ≢ null
    → get task s.tasks ≡ some t
    → head t.list ≡ c.at
    → c.datum.is_finished ≡ true
    → Returns
        (λ r u. (r ≡ finished (success, c.datum.result)) × IsMarked s c xs ys u)
        (thread_task_join task s)
thread_task_join_lem s task t c xs ys pool free ne at list ended =
    let chain = pool.chain in
    subst
      (λ b.
        Returns (λ r u. (r ≡ finished (success, c.datum.result)) × IsMarked b c xs ys u)
          (thread_task_join task b))
      (sym (pool-eq task t c xs ys ne list s pool free))
      (rw
        (thread_task_join-goes_on task t c xs ys ne list s.is_active s.tp_tasks s at chain
          ∙ ap (goes_on task t c xs ys ne list s.is_active s.tp_tasks s at chain) ended
          ∙ goes_on_finished task t c xs ys ne list s.is_active s.tp_tasks s at chain)
        (returns (refl, joined-IsMarked task t c xs ys ne list s.is_active s.tp_tasks s chain)))

-- While no thread is in a section, a timed join, with a positive timeout, of a task whose last push
-- has put a pool task into the list that is not finished: it waits, and the pool task is marked as
-- joined by then, all else being as before. If the time is up in that state, the join returns the
-- code `timed_out` and changes nothing, so that the mark stays.
pub thread_task_timed_join-timed_out :
    (s : Tp) (task : Ptr) (t : Task) (c : Cell Entry) (xs ys : Entries)
    → IsPool s (xs ++ c ∷ ys)
    → IsFree s
    → task ≢ null
    → get task s.tasks ≡ some t
    → head t.list ≡ c.at
    → c.datum.is_finished ≡ false
    → Returns
        (λ r u.
          (r ≡ waiting)
          × IsMarked s c xs ys u
          × (thread_task_timed_join_resume c.at true u ≡ ok (finished (timed_out, null)) u))
        (thread_task_timed_join task true s)
unfolding thread_task_timed_join_resume
thread_task_timed_join-timed_out s task t c xs ys pool free ne at list going =
    let chain = pool.chain in
    subst
      (λ b.
        Returns
          (λ r u.
            (r ≡ waiting)
            × IsMarked b c xs ys u
            × (thread_task_timed_join_resume c.at true u ≡ ok (finished (timed_out, null)) u))
          (thread_task_timed_join task true b))
      (sym (pool-eq task t c xs ys ne list s pool free))
      (rw
        (thread_task_timed_join-goes_on task t c xs ys ne list s.is_active s.tp_tasks s at chain
          ∙ ap (goes_on task t c xs ys ne list s.is_active s.tp_tasks s at chain) going)
        (returns
          (refl, joined-IsMarked task t c xs ys ne list s.is_active s.tp_tasks s chain, refl)))
