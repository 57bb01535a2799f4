-- ===== src/Coro/Tests.antt =====
-- Runs of the coroutines on concrete lists.
use sysprog_labs_f.Base.{ℕ, zero, suc, ◌≤◌, ◌<◌, ◌≡◌, refl, false, [], ◌∷◌, arith}
use sysprog_labs_f.Base.Int.{ℤ, pos}
use sysprog_labs_f.Memory.Store.{Ptr, null, get, put, bump}
use sysprog_labs_f.Memory.Run.{Returns}
use sysprog_labs_f.Memory.Chain.{cell}
use sysprog_labs_f.Coro.State.{Action, yields, gives, Sched, Env}
use sysprog_labs_f.Coro.Api.{zeroed}
use sysprog_labs_f.Coro.Wait.{coro_sched_wait}
use sysprog_labs_f.Coro.Jobs.{mk_coro, Jobs, IsSched, pass}
use sysprog_labs_f.Coro.New.{new_job}
use sysprog_labs_f.Coro.Rounds.{coro_sched_wait-pass}
use sysprog_labs_f.Coro.Program.{Program}
use sysprog_labs_f.Coro.WaitAll.{wait_all, AllOver, wait_all_lem}
use sysprog_labs_f.Coro.Returned.{Waited, coro_sched_wait_lem}

-- The coroutines share a number, and count it down.
abbrev count_down : Ptr → ℕ → Action × ℕ
count_down p zero = (gives (pos 7), 0)
count_down p (suc n) = (yields, n)

abbrev env : Env ℕ
env = record { coros = bump zeroed; sched = 1; slice = count_down }

count_down-less : (p : Ptr) (n : ℕ) → (count_down p n).0 ≡ yields → (count_down p n).1 < n
count_down-less p zero e = absurd (ground arith)
count_down-less p (suc n) e = omega arith

count_down-stays : (p q : Ptr) (n : ℕ) → n ≡ 0 → (count_down p n).1 ≡ 0
count_down-stays p q zero e = refl
count_down-stays p q (suc n) e = omega arith

count_down-ended :
    (p : Ptr) (n : ℕ) (r : ℤ)
    → Unit {0}
    → Unit {0}
    → (count_down p n).0 ≡ gives r
    → ((count_down p n).1 ≤ n) × ((count_down p n).1 ≡ 0)
count_down-ended p zero r mine inv e = (omega arith, refl)
count_down-ended p (suc n) r mine inv e = absurd (ground arith)

abbrev two : Jobs
two = cell 3 (new_job 5 8) ∷ cell 2 (new_job 5 9) ∷ []

abbrev start : Sched ℕ
start = record {
  is_sched_waiting = false;
  coro_this_ptr = 1;
  coro_list = 3;
  coros =
      put 3 (mk_coro (new_job 5 8) 2 null) (put 2 (mk_coro (new_job 5 9) null 3) (put 1 zeroed []));
  world = 3;
}

start-IsSched : IsSched env start two
unfolding get put
start-IsSched = record {
  coro_list = refl;
  chain = (ground arith, refl, refl, (ground arith, refl, refl, tt));
  this = refl;
  waiting = refl;
  alive = ground arith;
  apart = refl;
  sched = zeroed;
  at = refl;
  alone = refl;
}

coro_sched_wait_lem_example : Returns (Waited env two) (coro_sched_wait env 3 5 start)
coro_sched_wait_lem_example =
    coro_sched_wait_lem env (λ n. n) 3 5 start (cell 3 (new_job 5 8)) (cell 2 (new_job 5 9) ∷ [])
      count_down-less start-IsSched (omega arith) (omega arith)

coro_sched_wait-pass_example :
    (u : Sched ℕ) × (coro_sched_wait env 3 5 start ≡ coro_sched_wait env 3 4 u)
    × IsSched env u (pass env two 3).0
    × (u.world ≡ (pass env two 3).1)
coro_sched_wait-pass_example =
    coro_sched_wait-pass env 3 4 start (cell 3 (new_job 5 8)) (cell 2 (new_job 5 9) ∷ [])
      start-IsSched (refl, (refl, tt)) (omega arith)

-- A coroutine that has returned has counted down to 0.
abbrev count_program : Program env
count_program = record {
  Mine = λ p. Unit {0};
  Inv = λ n. Unit {0};
  Over = λ p n. n ≡ 0;
  measure = λ n. n;
  kept = λ p n mine inv. tt;
  stays = count_down-stays;
  yielded = λ p n mine inv e. count_down-less p n e;
  ended = count_down-ended;
}

wait_all_lem_example : Returns (λ a u. AllOver env count_program two 3 u) (wait_all env 3 5 3 start)
wait_all_lem_example =
    wait_all_lem env count_program 3 5 3 start two start-IsSched (refl, (refl, tt)) (tt, (tt, tt))
      tt (omega arith) (omega arith) (omega arith)
