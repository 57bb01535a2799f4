-- ===== src/Coro/Round.antt =====
-- A round of the scheduler of homework01/libcoro.c: from its switch to the first coroutine until it
-- runs again.
use mathlib.Core.List.{append_assoc}
use sysprog_labs_f.Base.{
  ℕ, zero, suc, ◌<◌, ◌≡◌, ◌≢◌, refl, sym, ◌∙◌, subst, true, false, [], ◌∷◌, ◌++◌, length, some,
  arith, ◌==◌, if◌then◌else◌,
}
use sysprog_labs_f.Base.Int.{ℤ}
use sysprog_labs_f.Memory.Store.{Ptr, null, Store, get, put, get-put_ne}
use sysprog_labs_f.Memory.Run.{ok, and_then}
use sysprog_labs_f.Memory.Chain.{
  Cell, cell, first, last, has-append, ◌∉◌, Seg, Seg-right, Seg-update,
}
use sysprog_labs_f.Coro.State.{Coro, Action, yields, gives, Sched, Env, switched, finished_with}
use sysprog_labs_f.Coro.Wait.{coro_yield, coro_return, resume, go_on, run}
use sysprog_labs_f.Coro.Jobs.{
  Job, mk_coro, Jobs, IsUnfinished, once_more, returned, after, world_after, pass, load-ok,
  set_coro-ok,
}

module _ {W : Type 0} (env : Env W) (s : Sched W) (alive : env.sched ≢ null) where
  -- The scheduler waits, and `this` runs.
  abbrev pub within : Store Coro → Ptr → W → Sched W
  within h this w = record s { is_sched_waiting = true; coro_this_ptr = this; coros = h; world = w }

  -- Where a coroutine jumps that yields.
  next_lem :
      (h : Store Coro) (prev : Ptr) (ys : Jobs)
      → Seg mk_coro h prev ys null
      → (if first ys null == null then env.sched else first ys null) ≡ first ys env.sched
  next_lem h prev [] chain = refl
  next_lem h prev (y ∷ ys) chain = ground (arith, chain.0)

  module _ (h : Store Coro) (c : Cell Job) (xs ys : Jobs) (this : Ptr) (w : W)
      (chain : Seg mk_coro h null (xs ++ c ∷ ys) null)
      (unfinished : c.datum.is_finished ≡ false) where
    abbrev here :
        (c.at ≢ null)
        × (get c.at h ≡ some (mk_coro c.datum (first ys null) (last null xs)))
        × (c.at ∉ ys)
        × Seg mk_coro h c.at ys null
    here = Seg-right mk_coro h null null xs (c ∷ ys) chain

    resume-go_on :
        let r = env.slice c.at w in
        resume env c.at (within h this w) ≡ go_on env c.at r.0 (within h c.at r.1)
    unfolding resume
    resume-go_on = rw (load-ok (within h this w) c.at here.0 _ here.1, unfinished) refl

    -- The coroutine yields.
    go_on_yields :
        (v : W)
        → go_on env c.at yields (within h c.at v)
          ≡ ok (first ys env.sched) (
              within
                (put c.at (mk_coro (once_more c.datum) (first ys null) (last null xs)) h)
                c.at
                v)
    unfolding coro_yield
    go_on_yields v =
        rw
          (
            load-ok (within h c.at v) c.at here.0 _ here.1,
            set_coro-ok (within h c.at v) c.at here.0 _ here.1 switched,
            next_lem h c.at ys here.3,
          )
          refl

    -- The coroutine returns.
    go_on_gives :
        (r : ℤ) (v : W)
        → go_on env c.at (gives r) (within h c.at v)
          ≡ ok env.sched (
              within
                (put c.at (mk_coro (returned r c.datum) (first ys null) (last null xs)) h)
                c.at
                v)
    unfolding coro_return
    go_on_gives r v = rw (set_coro-ok (within h c.at v) c.at here.0 _ here.1 (finished_with r)) refl

  -- What a round has made of the list.
  abbrev Ran : Store Coro → Store Coro → Jobs → Jobs → Type 0
  Ran h g xs ys =
      Seg mk_coro g null (xs ++ ys) null
      × (env.sched ∉ (xs ++ ys))
      × (get env.sched g ≡ get env.sched h)

  run_sched :
      (k : ℕ) (h : Store Coro) (this : Ptr) (w : W)
      → run env (suc k) env.sched (within h this w) ≡ ok tt (within h env.sched w)
  unfolding run
  run_sched k h this w = let same : (env.sched == env.sched) ≡ true = ground arith in rw same refl

  has-replaced :
      (a : Ptr) (xs ys : Jobs) (p : Ptr) (d e : Job)
      → a ∉ (xs ++ cell p d ∷ ys)
      → a ∉ (xs ++ cell p e ∷ ys)
  has-replaced a xs ys p d e out =
      ground (arith, has-append a xs (cell p d ∷ ys), has-append a xs (cell p e ∷ ys))

  get-sched :
      (h : Store Coro) (c : Cell Job) (xs ys : Jobs) (x : Coro)
      → env.sched ∉ (xs ++ c ∷ ys)
      → get env.sched (put c.at x h) ≡ get env.sched h
  get-sched h c xs ys x out =
      get-put_ne env.sched c.at x h (ground (arith, has-append env.sched xs (c ∷ ys)))

  -- What a round of the coroutines `ys` gives, whatever ran before them.
  abbrev Rounds : ℕ → Jobs → Type 0
  Rounds k ys =
      (h : Store Coro) (xs : Jobs) (this : Ptr) (w : W)
      → Seg mk_coro h null (xs ++ ys) null
      → env.sched ∉ (xs ++ ys)
      → (g : Store Coro) × (run env k (first ys env.sched) (within h this w)
          ≡ ok tt (within g env.sched (pass env ys w).1))
        × Ran h g xs (pass env ys w).0

  Rounds-go_on :
      (h : Store Coro) (c : Cell Job) (xs ys : Jobs) (k : ℕ) (a : Action) (v : W)
      → Seg mk_coro h null (xs ++ c ∷ ys) null
      → env.sched ∉ (xs ++ c ∷ ys)
      → c.datum.is_finished ≡ false
      → 0 < k
      → Rounds k ys
      → (g : Store Coro) × (and_then (go_on env c.at a (within h c.at v)) (λ to. run env k to)
          ≡ ok tt (within g env.sched (world_after env a (pass env ys v).1 v)))
        × Ran h g xs (after env c a (pass env ys v).0 ys)
  Rounds-go_on h c xs ys k yields v chain out un enough rest =
      let c' = cell c.at (once_more c.datum) in
      let x = mk_coro c'.datum (first ys null) (last null xs) in
      let assoc = append_assoc xs (c' ∷ []) ys in
      let (g, eq, ran) =
        rest (put c.at x h) (xs ++ c' ∷ []) c.at v
          (subst (λ l. Seg mk_coro (put c.at x h) null l null) (sym assoc)
            (Seg-update mk_coro h null null c.at c.datum c'.datum xs ys chain))
          (subst (λ l. env.sched ∉ l) (sym assoc)
            (has-replaced env.sched xs ys c.at c.datum c'.datum out)) in
      let ran' = append_assoc xs (c' ∷ []) (pass env ys v).0 in
      (
        g,
        rw (go_on_yields h c xs ys c.at v chain un) eq,
        (
          subst (λ l. Seg mk_coro g null l null) ran' ran.0,
          subst (λ l. env.sched ∉ l) ran' ran.1,
          ran.2 ∙ get-sched h c xs ys x out,
        ),
      )
  Rounds-go_on h c xs ys zero (gives r) v chain out un enough rest = absurd (omega arith)
  Rounds-go_on h c xs ys (suc k) (gives r) v chain out un enough rest =
      let x = mk_coro (returned r c.datum) (first ys null) (last null xs) in
      (
        put c.at x h,
        rw (go_on_gives h c xs ys c.at v chain un r v) (run_sched k (put c.at x h) c.at v),
        (
          Seg-update mk_coro h null null c.at c.datum (returned r c.datum) xs ys chain,
          has-replaced env.sched xs ys c.at c.datum (returned r c.datum) out,
          get-sched h c xs ys x out,
        ),
      )

  run_step :
      (h : Store Coro) (c : Cell Job) (xs ys : Jobs) (this : Ptr) (w : W) (k : ℕ)
      → Seg mk_coro h null (xs ++ c ∷ ys) null
      → env.sched ∉ (xs ++ c ∷ ys)
      → c.datum.is_finished ≡ false
      → let r = env.slice c.at w in
        run env (suc k) c.at (within h this w)
        ≡ and_then (go_on env c.at r.0 (within h c.at r.1)) (λ to. run env k to)
  unfolding run
  run_step h c xs ys this w k chain out un =
      let other : (c.at == env.sched) ≡ false = ground (arith, has-append env.sched xs (c ∷ ys)) in
      rw (other, resume-go_on h c xs ys this w chain un) refl

  pub run_lem : (ys : Jobs) (k : ℕ) → IsUnfinished ys → length ys < k → Rounds k ys
  unfolding pass
  run_lem [] zero un enough h xs this w chain out = absurd (omega arith)
  run_lem [] (suc k) un enough h xs this w chain out = (h, run_sched k h this w, (chain, out, refl))
  run_lem (c ∷ ys) zero un enough h xs this w chain out = absurd (omega arith)
  run_lem (c ∷ ys) (suc k) un enough h xs this w chain out =
      let r = env.slice c.at w in
      let (g, eq, ran) =
        Rounds-go_on h c xs ys k r.0 r.1 chain out un.0 (omega arith)
          (run_lem ys k un.1 (omega arith)) in
      (g, rw (run_step h c xs ys this w k chain out un.0) eq, ran)
