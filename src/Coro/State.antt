-- ===== src/Coro/State.antt =====
-- The types of homework01/libcoro.c, and the reads and writes of coroutines. What coroutines run is
-- given by what they do between two switches.
use sysprog_labs_f.Base.{ℕ, ◌+◌, Bool, true, Option, none, some, ◌==◌, if◌then◌else◌}
use sysprog_labs_f.Base.Int.{ℤ}
use sysprog_labs_f.Memory.Store.{Ptr, null, Store, get, Malloc}
use sysprog_labs_f.Memory.Run.{Cmd, ok, fault, demand, modify}
use sysprog_labs_f.Memory.Relink.{write, relink}

-- `struct coro`, without its stack and its saved context.
pub record Coro : Type 0 where
  pub ret : ℤ
  pub func_arg : Ptr
  pub func : ℕ
  pub is_finished : Bool
  pub switch_count : ℕ
  pub next : Ptr
  pub prev : Ptr

-- What the function of a coroutine does when it has run for a while: it yields or it returns.
pub data Action : Type 0 where
  yields : Action
  gives : ℤ → Action

-- The global variables, the coroutines that are allocated, and the state `world` of what they run.
pub record Sched (W : Type 0) : Type 0 where
  pub is_sched_waiting : Bool
  pub coro_this_ptr : Ptr
  pub coro_list : Ptr
  pub coros : Store Coro
  pub world : W

-- `malloc`, the address of `coro_sched`, and what the code of the coroutine at an address does from
-- a resume to its next switch.
pub record Env (W : Type 0) : Type 0 where
  pub coros : Malloc Coro
  pub sched : Ptr
  pub slice : Ptr → W → Action × W

module _ {W : Type 0} where
  -- `*c`.
  unfoldable pub load : Ptr → Cmd (Sched W) Coro
  load p s = if p == null then fault else demand (get p s.coros) s

  abbrev pub with_coros : Option (Store Coro) → Cmd (Sched W) (Unit {0})
  with_coros none s = fault
  with_coros (some h) s = ok tt (record s { coros = h })

  -- `c->field = …`.
  unfoldable pub set_coro : (Coro → Coro) → Ptr → Cmd (Sched W) (Unit {0})
  set_coro f p s = with_coros (write f p s.coros) s

  -- `if (c != NULL) c->field = …`.
  unfoldable pub relink_coro : (Coro → Coro) → Ptr → Cmd (Sched W) (Unit {0})
  relink_coro f p s = with_coros (relink f p s.coros) s

  abbrev pub set_this : Ptr → Cmd (Sched W) (Unit {0})
  set_this p = modify λ s. record s { coro_this_ptr = p }

  abbrev pub set_waiting : Bool → Cmd (Sched W) (Unit {0})
  set_waiting b = modify λ s. record s { is_sched_waiting = b }

abbrev pub set_next : Ptr → Coro → Coro
set_next p x = record x { next = p }

abbrev pub set_prev : Ptr → Coro → Coro
set_prev p x = record x { prev = p }

-- `++from->switch_count`.
abbrev pub switched : Coro → Coro
switched x = record x { switch_count = x.switch_count + 1 }

-- The end of a coroutine.
abbrev pub finished_with : ℤ → Coro → Coro
finished_with r x = record x { ret = r; is_finished = true }
