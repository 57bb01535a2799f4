-- ===== src/Coro/Jobs.antt =====
-- The list of coroutines of homework01/libcoro.c in memory, and a round of the scheduler on it.
use sysprog_labs_f.Base.{ℕ, ◌+◌, ◌≡◌, ◌≢◌, refl, Bool, true, false, List, [], ◌∷◌, some, arith}
use sysprog_labs_f.Base.Int.{ℤ}
use sysprog_labs_f.Memory.Store.{Ptr, null, Store, get, put}
use sysprog_labs_f.Memory.Run.{ok}
use sysprog_labs_f.Memory.Chain.{Cell, cell, first, ◌∉◌, Seg}
use sysprog_labs_f.Memory.Relink.{relink, write-ok}
use sysprog_labs_f.Coro.State.{Coro, Action, yields, gives, Sched, Env, load, set_coro, relink_coro}

-- A coroutine without its links.
pub record Job : Type 0 where
  pub ret : ℤ
  pub func_arg : Ptr
  pub func : ℕ
  pub is_finished : Bool
  pub switch_count : ℕ

abbrev pub mk_coro : Job → Ptr → Ptr → Coro
mk_coro j next prev = record {
  ret = j.ret;
  func_arg = j.func_arg;
  func = j.func;
  is_finished = j.is_finished;
  switch_count = j.switch_count;
  next = next;
  prev = prev;
}

abbrev pub Jobs : Type 0
Jobs = List (Cell Job)

-- The scheduler runs, and the list holds the coroutines `xs`.
pub record IsSched {W : Type 0} (env : Env W) (s : Sched W) (xs : Jobs) : Type 0 where
  pub coro_list : s.coro_list ≡ first xs null
  pub chain : Seg mk_coro s.coros null xs null
  pub this : s.coro_this_ptr ≡ env.sched
  pub waiting : s.is_sched_waiting ≡ false
  pub alive : env.sched ≢ null
  pub apart : env.sched ∉ xs
  pub sched : Coro
  pub at : get env.sched s.coros ≡ some sched
  pub alone : sched.next ≡ null

abbrev pub IsUnfinished : Jobs → Type 0
IsUnfinished [] = Unit {0}
IsUnfinished (c ∷ xs) = (c.datum.is_finished ≡ false) × IsUnfinished xs

abbrev pub once_more : Job → Job
once_more j = record j { switch_count = j.switch_count + 1 }

abbrev pub returned : ℤ → Job → Job
returned r j = record j { ret = r; is_finished = true }

-- A round: the coroutines run one after another, once each, until one returns.
module _ {W : Type 0} (env : Env W) where
  abbrev pub after : Cell Job → Action → Jobs → Jobs → Jobs
  after c yields ran rest = cell c.at (once_more c.datum) ∷ ran
  after c (gives r) ran rest = cell c.at (returned r c.datum) ∷ rest

  abbrev pub world_after : Action → W → W → W
  world_after yields ran w = ran
  world_after (gives r) ran w = w

  unfoldable pub pass : Jobs → W → Jobs × W
  pass [] w = ([], w)
  pass (c ∷ xs) w =
      let r = env.slice c.at w in
      let rest = pass xs r.1 in (after c r.0 rest.0 xs, world_after r.0 rest.1 r.1)

module _ {W : Type 0} (s : Sched W) (p : Ptr) (ne : p ≢ null) (x : Coro)
    (e : get p s.coros ≡ some x) where
  pub load-ok : load p s ≡ ok x s
  unfolding load
  load-ok = ground (arith, e)

  pub set_coro-ok :
      (f : Coro → Coro) → set_coro f p s ≡ ok tt (record s { coros = put p (f x) s.coros })
  unfolding set_coro
  set_coro-ok f = rw (write-ok f p s.coros x ne e) refl

pub relink_coro-ok :
    {W : Type 0} (s : Sched W) (f : Coro → Coro) (p : Ptr) (g : Store Coro)
    → relink f p s.coros ≡ some g
    → relink_coro f p s ≡ ok tt (record s { coros = g })
unfolding relink_coro
relink_coro-ok s f p g e = rw e refl
