-- ===== src/ThreadPool/Stack.antt =====
-- The order of the tasks of homework04/thread_pool.c: what the pool promises of the tasks that no
-- thread has taken, as a stack.
use sysprog_labs_f.Base.{
  ℕ, ◌+◌, ◌<◌, ◌≡◌, ◌≢◌, refl, sym, ap, true, List, [], ◌∷◌, ◌++◌, length, length-append, some,
  arith, if◌then◌else◌, Bool-cases, inl, inr,
}
use sysprog_labs_f.Memory.Store.{Ptr, null, get}
use sysprog_labs_f.Memory.Run.{Returns, returns, Returns-weaken}
use sysprog_labs_f.Memory.Chain.{Cell, cell}
use sysprog_labs_f.ThreadPool.State.{Tp, Env, Task, Worker, looking, running, success, max_tasks}
use sysprog_labs_f.ThreadPool.Pool.{Entry, is_started, Entries, IsPool, IsFree, IsStarted, IsSplit}
use sysprog_labs_f.ThreadPool.Worker.{take}
use sysprog_labs_f.ThreadPool.Take.{begun, take_lem, take_idle}
use sysprog_labs_f.ThreadPool.Api.{thread_pool_push_task}
use sysprog_labs_f.ThreadPool.Push.{new_cell, push_lem}

-- The tasks that no thread has taken.
unfoldable pub ready_of : Entries → List Ptr
ready_of [] = []
ready_of (c ∷ xs) = let rest = ready_of xs in if is_started c.datum then rest else c.at ∷ rest

-- The abstract state: a stack of tasks, with `n` tasks in the pool altogether.
pub record IsStack (s : Tp) (ready : List Ptr) (n : ℕ) : Type 0 where
  pub entries : Entries
  pub pool : IsPool s entries
  pub split : IsSplit entries
  pub ready_entries : ready_of entries ≡ ready
  pub size : length entries ≡ n

-- What a thread does that pops the stack.
abbrev pub pop : List Ptr → Worker
pop [] = looking
pop (q ∷ rest) = running q

abbrev pub popped : List Ptr → List Ptr
popped [] = []
popped (q ∷ rest) = rest

ready_of-IsStarted : (xs : Entries) → IsStarted xs → ready_of xs ≡ []
unfolding ready_of
ready_of-IsStarted [] h = refl
ready_of-IsStarted (c ∷ xs) h = rw h.0 (ready_of-IsStarted xs h.1)

ready_of-append :
    (xs : Entries) (c : Cell Entry)
    → is_started c.datum ≡ true
    → ready_of (xs ++ c ∷ []) ≡ ready_of xs
unfolding ready_of
ready_of-append [] c h = rw h refl
ready_of-append (x ∷ xs) c h = rw (ready_of-append xs c h) refl

IsStarted-append :
    (xs : Entries) (c : Cell Entry)
    → is_started c.datum ≡ true
    → IsStarted xs
    → IsStarted (xs ++ c ∷ [])
IsStarted-append [] c h all = (h, tt)
IsStarted-append (x ∷ xs) c h all = (all.0, IsStarted-append xs c h all.1)

IsSplit-append :
    (xs : Entries) (c : Cell Entry)
    → is_started c.datum ≡ true
    → IsSplit xs
    → IsSplit (xs ++ c ∷ [])
IsSplit-append [] c h s = (λ e. tt, tt)
IsSplit-append (x ∷ xs) c h s = (λ e. IsStarted-append xs c h (s.0 e), IsSplit-append xs c h s.1)

take_entries :
    (fuel : ℕ) (s : Tp) (xs : Entries)
    → IsPool s xs
    → IsSplit xs
    → IsFree s
    → s.is_active ≡ true
    → length xs < fuel
    → Returns
        (λ r u. (r ≡ pop (ready_of xs)) × IsStack u (popped (ready_of xs)) (length xs) × IsFree u)
        (take fuel s)
unfolding ready_of
take_entries fuel s [] pool split free on enough = rw (take_idle fuel s [] pool free on tt enough) (
    returns (
      refl,
      record { entries = []; pool = pool; split = tt; ready_entries = refl; size = refl },
      free,
    ))
take_entries fuel s (c ∷ ys) pool split free on enough = elim (Bool-cases (is_started c.datum)) [
  | inl started ↦
      let all : IsStarted (c ∷ ys) = (started, split.0 started) in
      rw (take_idle fuel s (c ∷ ys) pool free on all enough, started, ready_of-IsStarted ys all.1)
        (returns (
          refl,
          record {
            entries = c ∷ ys;
            pool = pool;
            split = split;
            ready_entries = ready_of-IsStarted (c ∷ ys) all;
            size = refl;
          },
          free,
        ))
  | inr ready ↦ rw ready (
      Returns-weaken (take_lem fuel s c ys pool free on ready enough) λ r u t. (
        t.0,
        record {
          entries = ys ++ cell c.at (begun c.datum) ∷ [];
          pool = t.1.pool;
          split = IsSplit-append ys (cell c.at (begun c.datum)) refl split.1;
          ready_entries = ready_of-append ys (cell c.at (begun c.datum)) refl;
          size = omega (arith, length-append ys (cell c.at (begun c.datum) ∷ []));
        },
        t.1.free,
      ))
]

-- Refinement of a stack. While no thread is in a section, the pool is active and its list of `n`
-- tasks keeps the tasks that no thread has taken before the others: a thread that looks for a task,
-- with fuel above `n`, pops the first of them and runs it, and waits if there is none. The list is
-- again such a list of `n` tasks, with the others left in their order.
pub take-IsStack :
    (fuel : ℕ) (s : Tp) (ready : List Ptr) (n : ℕ)
    → IsStack s ready n
    → IsFree s
    → s.is_active ≡ true
    → n < fuel
    → Returns (λ r u. (r ≡ pop ready) × IsStack u (popped ready) n × IsFree u) (take fuel s)
take-IsStack fuel s ready n stack free on enough =
    rw (sym stack.ready_entries, sym stack.size)
      (take_entries fuel s stack.entries stack.pool stack.split free on (omega (arith, stack.size)))

-- Refinement of a stack. While no thread is in a section and the list of `n` tasks, fewer than the
-- limit, keeps the tasks that no thread has taken before the others: a push of an allocated task
-- returns 0 and puts the new pool task on top of those that wait. The list is again such a list, of
-- `n` + 1 tasks.
pub push-IsStack :
    (env : Env) (s : Tp) (task : Ptr) (t : Task) (ready : List Ptr) (n : ℕ)
    → IsStack s ready n
    → IsFree s
    → task ≢ null
    → get task s.tasks ≡ some t
    → n < max_tasks
    → Returns
        (λ r u.
          (r ≡ success) × IsStack u (env.tp_tasks.place s.tp_tasks ∷ ready) (n + 1) × IsFree u)
        (thread_pool_push_task env task s)
push-IsStack env s task t ready n stack free ne at room =
    Returns-weaken
      (push_lem env s task t stack.entries stack.pool free ne at (ground (arith, stack.size, room)))
      λ r u p. (
        p.0,
        record {
          entries = new_cell env s task ∷ stack.entries;
          pool = p.1.pool;
          split = (λ e. absurd (ground arith), stack.split);
          ready_entries =
              unfold ready_of in ap (λ l. env.tp_tasks.place s.tp_tasks ∷ l) stack.ready_entries;
          size = omega (arith, stack.size);
        },
        p.1.free,
      )
