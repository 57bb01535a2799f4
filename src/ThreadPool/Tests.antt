-- ===== src/ThreadPool/Tests.antt =====
-- Runs of the thread pool on concrete states.
use sysprog_labs_f.Base.{ℕ, ◌≡◌, ◌≤◌, refl, Bool, true, false, [], ◌∷◌, arith}
use sysprog_labs_f.Base.Int.{pos}
use sysprog_labs_f.Memory.Store.{Ptr, null, get, put, above, bump}
use sysprog_labs_f.Memory.Run.{ok, fault, Returns}
use sysprog_labs_f.Memory.Chain.{cell}
use sysprog_labs_f.Memory.Relink.{relink}
use sysprog_labs_f.ThreadPool.State.{
  waiting, timed_out, Tp, Env, TpTask, looking, running, max_threads, load_task, set_tp_task,
  relink_tp_task, success, finished,
}
use sysprog_labs_f.ThreadPool.Tasks.{make_thread_pool_task, thread_task_new}
use sysprog_labs_f.ThreadPool.Pool.{Entry, mk_task, Entries, IsPool, IsFree}
use sysprog_labs_f.ThreadPool.Worker.{take, finish}
use sysprog_labs_f.ThreadPool.Api.{
  thread_pool_new, thread_pool_push_task, thread_task_delete, thread_task_join,
  thread_task_timed_join, thread_task_timed_join_resume,
}
use sysprog_labs_f.ThreadPool.Join.{
  IsMarked, thread_task_join_lem, thread_task_timed_join-timed_out,
}
use sysprog_labs_f.ThreadPool.Stack.{IsStack, ready_of, take-IsStack, push-IsStack}
use sysprog_labs_f.ThreadPool.Finish.{Finished, finish_lem, finish-fault}
use sysprog_labs_f.ThreadPool.Deleted.{Deleted, thread_task_delete_lem}
use sysprog_labs_f.ThreadPool.System.{Reach, start, next, perform, new_task, push}
use sysprog_labs_f.ThreadPool.Threads.{live, busy, total}
use sysprog_labs_f.ThreadPool.Bounds.{thread_count_bound}

abbrev raw : TpTask
raw = record {
  thread_task = null;
  result = null;
  is_finished = false;
  is_running = false;
  is_pushed = false;
  is_joined = false;
  is_detached = false;
  next = null;
  prev = null;
}

abbrev env : Env
env = record { tasks = bump (record { function = 0; arg = null; list = [] }); tp_tasks = bump raw }

-- The functions give back their argument.
abbrev call : ℕ → Ptr → Ptr
call f arg = arg

abbrev entry : Bool → Bool → Bool → Entry
entry runs joins detaches = record {
  thread_task = 1;
  result = null;
  is_finished = false;
  is_running = runs;
  is_pushed = true;
  is_joined = joins;
  is_detached = detaches;
}

-- A pool of two tasks, the thread task at 1 pushed twice.
abbrev two : Entry → Entry → Tp
two x y = record {
  threads = looking ∷ [];
  max_threads_cnt = 2;
  threads_cnt = 1;
  active_threads_cnt = 0;
  is_active = true;
  task = 2;
  last_task = 1;
  tasks_cnt = 2;
  mutex = false;
  is_alive = true;
  tasks = put 1 (record { function = 7; arg = 9; list = 2 ∷ 1 ∷ [] }) [];
  tp_tasks = put 2 (mk_task x 1 null) (put 1 (mk_task y null 2) []);
}

abbrev cells : Entry → Entry → Entries
cells x y = cell 2 x ∷ cell 1 y ∷ []

two-IsPool : (x y : Entry) → IsPool (two x y) (cells x y)
unfolding get put
two-IsPool x y = record {
  task = refl;
  last_task = refl;
  chain = (ground arith, refl, refl, (ground arith, refl, refl, tt));
  counted = refl;
}

two-IsFree : (x y : Entry) → IsFree (two x y)
two-IsFree x y = record { alive = refl; mutex = refl }

abbrev waits : Entry
waits = entry false false false

two-IsStack : IsStack (two waits waits) (2 ∷ 1 ∷ []) 2
unfolding ready_of
two-IsStack = record {
  entries = cells waits waits;
  pool = two-IsPool waits waits;
  split = (λ e. absurd (ground arith), (λ e. tt, tt));
  ready_entries = refl;
  size = refl;
}

take-IsStack_example :
    Returns (λ r u. (r ≡ running 2) × IsStack u (1 ∷ []) 2 × IsFree u) (take 3 (two waits waits))
take-IsStack_example =
    take-IsStack 3 (two waits waits) (2 ∷ 1 ∷ []) 2 two-IsStack (two-IsFree waits waits) refl
      (omega arith)

push-IsStack_example :
    Returns
      (λ r u. (r ≡ success) × IsStack u (3 ∷ 2 ∷ 1 ∷ []) 3 × IsFree u)
      (thread_pool_push_task env 1 (two waits waits))
unfolding bump above put get
push-IsStack_example =
    push-IsStack env (two waits waits) 1 (record { function = 7; arg = 9; list = 2 ∷ 1 ∷ [] })
      (2 ∷ 1 ∷ []) 2 two-IsStack (two-IsFree waits waits) (ground arith) refl (omega arith)

-- A task runs behind one that waits.
finish_lem_example :
    Returns
      (λ r u.
        (r ≡ looking)
        × Finished
            (two waits (entry true false false))
            (cell 1 (entry true false false))
            (cell 2 waits ∷ [])
            []
            u)
      (finish 1 (two waits (entry true false false)))
finish_lem_example =
    finish_lem (two waits (entry true false false)) (cell 1 (entry true false false))
      (cell 2 waits ∷ []) [] (two-IsPool waits (entry true false false))
      (two-IsFree waits (entry true false false)) refl

abbrev joins : Entry
joins = entry false true false

abbrev ends : Entry
ends = entry true true true

-- Both tasks of the thread task are joined, and the one that runs is detached too.
finish-fault_example : finish 1 (two joins ends) ≡ fault
unfolding get put
finish-fault_example =
    finish-fault (two joins ends) (cell 1 ends) (cell 2 joins ∷ []) []
      (record { function = 7; arg = 9; list = 2 ∷ 1 ∷ [] }) 2 (1 ∷ []) (two-IsPool joins ends)
      (two-IsFree joins ends) refl (ground arith) refl refl refl (refl, refl, (refl, refl, tt)) refl

thread_task_delete_lem_example :
    Returns
      (λ r u. (r ≡ success) × Deleted (two joins ends) 1 (2 ∷ 1 ∷ []) (cells joins ends) u)
      (thread_task_delete 1 (two joins ends))
unfolding get put
thread_task_delete_lem_example =
    thread_task_delete_lem (two joins ends) 1 (record { function = 7; arg = 9; list = 2 ∷ 1 ∷ [] })
      2 (1 ∷ []) (cells joins ends) (two-IsPool joins ends) (two-IsFree joins ends) (ground arith)
      refl refl (refl, refl, (refl, refl, tt)) refl

-- Memory before the pool is made.
abbrev nothing : Tp
nothing = record {
  threads = [];
  max_threads_cnt = 0;
  threads_cnt = 0;
  active_threads_cnt = 0;
  is_active = false;
  task = null;
  last_task = null;
  tasks_cnt = 0;
  mutex = false;
  is_alive = false;
  tasks = [];
  tp_tasks = [];
}

abbrev made : Tp
made = record nothing { max_threads_cnt = 2; is_active = true; is_alive = true }

abbrev with_task : Tp
with_task = record made { tasks = put 1 (record { function = 7; arg = 9; list = [] }) [] }

abbrev after_push : Tp
after_push = record with_task {
  threads = looking ∷ [];
  threads_cnt = 1;
  task = 1;
  last_task = 1;
  tasks_cnt = 1;
  tasks =
      put 1 (record { function = 7; arg = 9; list = 1 ∷ [] })
        (put 1 (record { function = 7; arg = 9; list = [] }) []);
  tp_tasks =
      put 1 (mk_task waits null null)
        (put 1 (mk_task (record waits { is_pushed = false }) null null) []);
}

after_push-Reach : Reach env 3 call made after_push
unfolding perform thread_task_new thread_pool_push_task bump above put get make_thread_pool_task
    load_task set_tp_task relink_tp_task relink
after_push-Reach = next (push 1) (next (new_task 7 9) start refl) refl

thread_count_bound_example :
    (after_push.threads_cnt ≡ total live after_push.threads)
    × (after_push.active_threads_cnt ≡ total busy after_push.threads)
    × (after_push.active_threads_cnt ≤ after_push.threads_cnt)
    × (after_push.threads_cnt ≤ made.max_threads_cnt)
    × (made.max_threads_cnt ≤ max_threads)
unfolding thread_pool_new
thread_count_bound_example =
    thread_count_bound env 3 call (pos 2) nothing made after_push refl after_push-Reach

abbrev over : Entry
over = record waits { is_finished = true; result = 6 }

thread_task_join_lem_example :
    Returns
      (λ r u.
        (r ≡ finished (success, 6))
        × IsMarked (two over waits) (cell 2 over) [] (cell 1 waits ∷ []) u)
      (thread_task_join 1 (two over waits))
unfolding get put
thread_task_join_lem_example =
    thread_task_join_lem (two over waits) 1 (record { function = 7; arg = 9; list = 2 ∷ 1 ∷ [] })
      (cell 2 over) [] (cell 1 waits ∷ []) (two-IsPool over waits) (two-IsFree over waits)
      (ground arith) refl refl refl

thread_task_timed_join-timed_out_example :
    Returns
      (λ r u.
        (r ≡ waiting)
        × IsMarked (two waits waits) (cell 2 waits) [] (cell 1 waits ∷ []) u
        × (thread_task_timed_join_resume 2 true u ≡ ok (finished (timed_out, null)) u))
      (thread_task_timed_join 1 true (two waits waits))
unfolding get put
thread_task_timed_join-timed_out_example =
    thread_task_timed_join-timed_out (two waits waits) 1
      (record { function = 7; arg = 9; list = 2 ∷ 1 ∷ [] }) (cell 2 waits) [] (cell 1 waits ∷ [])
      (two-IsPool waits waits) (two-IsFree waits waits) (ground arith) refl refl refl
