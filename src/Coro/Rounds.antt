-- ===== src/Coro/Rounds.antt =====
-- `coro_sched_wait` of homework01/libcoro.c.
use sysprog_labs_f.Base.{
  ℕ, suc, ◌<◌, ◌≡◌, ◌≢◌, refl, sym, ap, ◌∙◌, true, false, [], ◌∷◌, length, some, arith, ◌==◌,
}
use sysprog_labs_f.Memory.Store.{null, Store, get, put, get-put_self}
use sysprog_labs_f.Memory.Chain.{Cell, first, ◌∉◌, Seg, frame-put}
use sysprog_labs_f.Coro.State.{Coro, Action, yields, gives, Sched, Env, switched}
use sysprog_labs_f.Coro.Wait.{coro_sched_wait, coro_yield_to}
use sysprog_labs_f.Coro.Jobs.{Job, mk_coro, Jobs, IsSched, IsUnfinished, after, pass, set_coro-ok}
use sysprog_labs_f.Coro.Round.{run_lem}
use sysprog_labs_f.Coro.Finding.{find_finished-null}

module _ {W : Type 0} (env : Env W) where
  -- The scheduler runs, with the members written out that it branches on.
  abbrev pub calm : Jobs → Store Coro → W → Sched W → Sched W
  calm xs h w s = record s {
    is_sched_waiting = false;
    coro_this_ptr = env.sched;
    coro_list = first xs null;
    coros = h;
    world = w;
  }

  pub calm-eq : (s : Sched W) (xs : Jobs) → IsSched env s xs → s ≡ calm xs s.coros s.world s
  calm-eq s xs sched i = record s {
    is_sched_waiting = sched.waiting i;
    coro_this_ptr = sched.this i;
    coro_list = sched.coro_list i;
  }

  first-after :
      (c : Cell Job) (a : Action) (ran rest : Jobs) → first (after env c a ran rest) null ≡ c.at
  first-after c yields ran rest = refl
  first-after c (gives r) ran rest = refl

  first-pass : (xs : Jobs) (w : W) → first (pass env xs w).0 null ≡ first xs null
  unfolding pass
  first-pass [] w = refl
  first-pass (c ∷ xs) w = first-after c (env.slice c.at w).0 _ xs

  pass-calm :
      (fuel k : ℕ) (s : Sched W) (h : Store Coro) (w : W) (c : Cell Job) (xs : Jobs) (x : Coro)
      → Seg mk_coro h null (c ∷ xs) null
      → env.sched ≢ null
      → env.sched ∉ (c ∷ xs)
      → get env.sched h ≡ some x
      → IsUnfinished (c ∷ xs)
      → length (c ∷ xs) < fuel
      → let r = pass env (c ∷ xs) w in
        (g : Store Coro) × (coro_sched_wait env fuel (suc k) (calm (c ∷ xs) h w s)
          ≡ coro_sched_wait env fuel k (calm r.0 g r.1 s))
        × Seg mk_coro g null r.0 null
        × (env.sched ∉ r.0)
        × (get env.sched g ≡ some (switched x))
  unfolding coro_sched_wait coro_yield_to
  pass-calm fuel k s h w c xs x chain alive out at un enough =
      let start = calm (c ∷ xs) h w s in
      let live : (c.at == null) ≡ false = ground (arith, chain.0) in
      let waiting = record start { is_sched_waiting = true } in
      let h₁ = put env.sched (switched x) h in
      let chain₁ = frame-put mk_coro h null null env.sched (switched x) (c ∷ xs) out chain in
      let (g, eq, ran) =
        run_lem env start alive (c ∷ xs) fuel un enough h₁ [] env.sched w chain₁ out in
      (
        g,
        rw
            (
              live,
              find_finished-null start fuel null (c ∷ xs) chain un enough,
              set_coro-ok waiting env.sched alive x at switched,
              eq,
            )
            (ap
              (λ p. coro_sched_wait env fuel k (record s {
                is_sched_waiting = false;
                coro_this_ptr = env.sched;
                coro_list = p;
                coros = g;
                world = (pass env (c ∷ xs) w).1;
              }))
              (sym (first-pass (c ∷ xs) w))),
        ran.0,
        ran.1,
        ran.2 ∙ get-put_self env.sched (switched x) h,
      )

-- Refinement of a round. The scheduler runs on a list of coroutines that is not empty, none of them
-- finished, with fuel above its length: the wait goes on as a wait with one round less in a state
-- in which the coroutines have run as in `pass`, in the order of the list and once each, with one
-- more switch each, up to the first that returned, which is marked as finished with its result.
pub coro_sched_wait-pass :
    {W : Type 0} (env : Env W) (fuel k : ℕ) (s : Sched W) (c : Cell Job) (xs : Jobs)
    → IsSched env s (c ∷ xs)
    → IsUnfinished (c ∷ xs)
    → length (c ∷ xs) < fuel
    → (u : Sched W) × (coro_sched_wait env fuel (suc k) s ≡ coro_sched_wait env fuel k u)
      × IsSched env u (pass env (c ∷ xs) s.world).0
      × (u.world ≡ (pass env (c ∷ xs) s.world).1)
coro_sched_wait-pass env fuel k s c xs sched un enough =
    let r = pass env (c ∷ xs) s.world in
    let (g, eq, chain, out, at) =
      pass-calm env fuel k s s.coros s.world c xs sched.sched sched.chain sched.alive sched.apart
        sched.at un enough in
    (
      calm env r.0 g r.1 s,
      ap (coro_sched_wait env fuel (suc k)) (calm-eq env s (c ∷ xs) sched) ∙ eq,
      record {
        coro_list = refl;
        chain = chain;
        this = refl;
        waiting = refl;
        alive = sched.alive;
        apart = out;
        sched = switched sched.sched;
        at = at;
        alone = sched.alone;
      },
      refl,
    )
