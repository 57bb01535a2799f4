-- ===== src/Sorter/Starting.antt =====
-- How `main` of homework01/solution.c starts the coroutines, and yields when there are none.
use sysprog_labs_f.Base.{
  ℕ, zero, suc, ◌+◌, ◌<◌, ◌≡◌, refl, sym, ap, ◌∙◌, true, false, List, [], ◌∷◌, length, ◌==◌, ◌≢◌,
  subst, Bool, ltb, ◌&&◌, Bool-cases, inl, inr, arith,
}
use sysprog_labs_f.Memory.Store.{Ptr, null, Store, put, get-put_self}
use sysprog_labs_f.Memory.Run.{
  ok, fault, and_then, and_then_assoc, Returns, returns, Returns-and_then, and_then_assoc,
  Returns-weaken,
}
use sysprog_labs_f.Memory.Chain.{◌∉◌, Seg, frame-put}
use sysprog_labs_f.Coro.State.{Coro, Sched, Env, switched}
use sysprog_labs_f.Coro.Api.{zeroed, coro_sched_init}
use sysprog_labs_f.Coro.Wait.{coro_yield, run}
use sysprog_labs_f.Coro.Jobs.{mk_coro, Jobs, IsSched, IsUnfinished, load-ok, set_coro-ok}
use sysprog_labs_f.Coro.Rounds.{calm, calm-eq}
use sysprog_labs_f.Coro.New.{coro_new-IsSched}
use sysprog_labs_f.Coro.Returned.{addresses}
use sysprog_labs_f.Coro.Program.{Each}
use sysprog_labs_f.Sorter.Measure.{elem, IsDistinct}
use sysprog_labs_f.Sorter.Main.{
  Platform, timespec_size, my_context_new, set_coro_timestamp, set_timestamps, new_coros,
  yield_alone,
}

elem-addresses : (p : Ptr) (xs : Jobs) → p ∉ xs → elem p (addresses xs) ≡ false
elem-addresses p [] out = refl
elem-addresses p (x ∷ xs) out = ground (arith, elem-addresses p xs)

-- Coroutines of one list have addresses of their own.
pub addresses-IsDistinct :
    (h : Store Coro) (prev stop : Ptr) (xs : Jobs)
    → Seg mk_coro h prev xs stop
    → IsDistinct (addresses xs)
addresses-IsDistinct h prev stop [] chain = tt
addresses-IsDistinct h prev stop (x ∷ xs) chain =
    (elem-addresses x.at xs chain.2, addresses-IsDistinct h x.at stop xs chain.3)

Each-among :
    (ps qs : List Ptr)
    → ((p : Ptr) → elem p ps ≡ true → elem p qs ≡ true)
    → Each (λ p. elem p qs ≡ true) ps
Each-among [] qs among = tt
Each-among (p ∷ ps) qs among =
    (among p (ground arith), Each-among ps qs λ q i. among q (ground arith))

pub Each-elem : (ps : List Ptr) → Each (λ p. elem p ps ≡ true) ps
Each-elem ps = Each-among ps ps λ p i. i

pub Each-at : (P : Ptr → Type 0) (ps : List Ptr) → Each P ps → (p : Ptr) → elem p ps ≡ true → P p
Each-at P [] all p i = absurd (ground arith)
Each-at P (q ∷ ps) all p i = elim (Bool-cases (q == p)) [
  | inl e ↦ subst P (ground arith) all.0
  | inr e ↦ Each-at P ps all.1 p (ground (arith, i))
]

-- The memory of the contexts from `i` on was zero where `prev_timestamp` is.
unfoldable pub were_zero : Platform → ℕ → ℕ → Bool
were_zero platform i zero = true
were_zero platform i (suc n) = (platform.prev_timestamp i == null) && were_zero platform (i + 1) n

pub set_timestamps-zero :
    {S : Type 0} (platform : Platform) (i n : ℕ) (s : S)
    → were_zero platform i n ≡ true
    → set_timestamps platform i n s ≡ ok tt s
unfolding set_timestamps set_coro_timestamp were_zero
set_timestamps-zero platform i zero s zeros = refl
set_timestamps-zero platform i (suc n) s zeros =
    let here : (platform.prev_timestamp i == null) ≡ true = ground arith in
    let rest : were_zero platform (i + 1) n ≡ true = ground arith in
    rw here (set_timestamps-zero platform (i + 1) n s rest)

pub set_timestamps-other :
    {S : Type 0} (platform : Platform) (i n : ℕ) (s : S)
    → were_zero platform i n ≡ false
    → set_timestamps platform i n s ≡ fault
unfolding set_timestamps set_coro_timestamp were_zero
set_timestamps-other platform i zero s other = absurd (ground arith)
set_timestamps-other platform i (suc n) s other =
    elim (Bool-cases (platform.prev_timestamp i == null)) [
      | inl here ↦
          let rest : were_zero platform (i + 1) n ≡ false = ground arith in
          rw here (set_timestamps-other platform (i + 1) n s rest)
      | inr here ↦ rw here refl
    ]

module _ {W : Type 0} (env : Env W) where
  -- `coro_sched_init` at the start of a program.
  pub coro_sched_init-IsSched :
      (s : Sched W)
      → env.sched ≢ null
      → s.coro_list ≡ null
      → s.is_sched_waiting ≡ false
      → Returns (λ r u. IsSched env u [] × (u.world ≡ s.world)) (coro_sched_init env s)
  unfolding coro_sched_init
  coro_sched_init-IsSched s alive list waiting = returns (
    record {
      coro_list = list;
      chain = tt;
      this = refl;
      waiting = waiting;
      alive = alive;
      apart = refl;
      sched = zeroed;
      at = get-put_self env.sched zeroed s.coros;
      alone = refl;
    },
    refl,
  )

  -- `n` coroutines more, which have not run.
  pub record Started (n : ℕ) (s u : Sched W) : Type 0 where
    pub jobs : Jobs
    pub sched : IsSched env u jobs
    pub unfinished : IsUnfinished jobs
    pub count : length jobs ≡ n
    pub world : u.world ≡ s.world

  pub new_coros_lem :
      (platform : Platform) (i n : ℕ) (s : Sched W) (xs : Jobs)
      → ltb platform.room timespec_size ≡ false
      → IsSched env s xs
      → IsUnfinished xs
      → Returns (λ r u. Started (length xs + n) s u) (new_coros env platform i n s)
  unfolding new_coros my_context_new
  new_coros_lem platform i zero s xs room sched un =
      returns
        (record { jobs = xs; sched = sched; unfinished = un; count = omega arith; world = refl })
  new_coros_lem platform i (suc n) s xs room sched un = rw room (
      Returns-and_then (coro_new-IsSched env platform.func (platform.context i) s xs sched)
        λ r u new.
          Returns-weaken (new_coros_lem platform (i + 1) n u _ room new.1 (refl, un)) λ a v t.
            record {
              jobs = t.jobs;
              sched = t.sched;
              unfinished = t.unfinished;
              count = t.count ∙ omega arith;
              world = t.world ∙ new.2;
            })

  -- Without room for a time, the first context writes past its memory.
  pub new_coros-small :
      (platform : Platform) (i n : ℕ) (s : Sched W)
      → ltb platform.room timespec_size ≡ true
      → 0 < n
      → new_coros env platform i n s ≡ fault
  unfolding new_coros my_context_new
  new_coros-small platform i zero s small some_coro = absurd (omega arith)
  new_coros-small platform i (suc n) s small some_coro = rw small refl

  -- The scheduler yields to itself.
  one_yield :
      (fuel : ℕ) (s : Sched W) (xs : Jobs)
      → IsSched env s xs
      → 0 < fuel
      → (u : Sched W) × (and_then (coro_yield env s) (λ to. run env fuel to) ≡ ok tt u)
        × IsSched env u xs
        × (u.world ≡ s.world)
  unfolding coro_yield run
  one_yield zero s xs sched enough = absurd (omega arith)
  one_yield (suc k) s xs sched enough =
      let x = sched.sched in
      let start = calm env xs s.coros s.world s in
      let h = put env.sched (switched x) s.coros in
      let same : (env.sched == env.sched) ≡ true = ground arith in
      let away : (x.next == null) ≡ true = ground (arith, sched.alone) in
      let eq : and_then (coro_yield env start) (λ to. run env (suc k) to)
          ≡ ok tt (calm env xs h s.world s) =
        rw
          (
            load-ok start env.sched sched.alive x sched.at,
            set_coro-ok start env.sched sched.alive x sched.at switched,
            away,
            same,
          )
          refl in
      (
        calm env xs h s.world s,
        ap (λ t. and_then (coro_yield env t) (λ to. run env (suc k) to)) (calm-eq env s xs sched)
            ∙ eq,
        record {
          coro_list = refl;
          chain =
              frame-put mk_coro s.coros null null env.sched (switched x) xs sched.apart sched.chain;
          this = refl;
          waiting = refl;
          alive = sched.alive;
          apart = sched.apart;
          sched = switched x;
          at = get-put_self env.sched (switched x) s.coros;
          alone = sched.alone;
        },
        refl,
      )

  -- `coro_yield` outside of any coroutine only counts the switches of the scheduler.
  pub yield_alone_lem :
      (fuel n : ℕ) (s : Sched W) (xs : Jobs)
      → IsSched env s xs
      → 0 < fuel
      → Returns (λ r u. IsSched env u xs × (u.world ≡ s.world)) (yield_alone env fuel n s)
  unfolding yield_alone
  yield_alone_lem fuel zero s xs sched enough = returns (sched, refl)
  yield_alone_lem fuel (suc n) s xs sched enough =
      let (u, eq, sched', world') = one_yield fuel s xs sched enough in
      let rest : Returns (λ r v. IsSched env v xs × (v.world ≡ s.world))
          (yield_alone env fuel n u) =
        Returns-weaken (yield_alone_lem fuel n u xs sched' enough) λ r v t. (t.0, t.1 ∙ world') in
      subst (λ m. Returns (λ r v. IsSched env v xs × (v.world ≡ s.world)) m)
        (ap (λ m. and_then m (λ a. yield_alone env fuel n)) (sym eq)
          ∙ sym (
              and_then_assoc (coro_yield env s) (λ to. run env fuel to)
                (λ a. yield_alone env fuel n)))
        rest
