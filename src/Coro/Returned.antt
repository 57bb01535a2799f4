-- ===== src/Coro/Returned.antt =====
-- What `coro_sched_wait` of homework01/libcoro.c returns.
use sysprog_labs_f.Base.{
  ℕ, zero, suc, ◌+◌, ◌≤◌, ◌<◌, ◌≡◌, ◌≢◌, refl, sym, ap, ◌∙◌, subst, true, false, List, [], ◌∷◌,
  ◌++◌, map, some, length, arith, ◌==◌, ◌⊎◌, inl, inr,
}
use sysprog_labs_f.Base.Int.{ℤ}
use sysprog_labs_f.Memory.Store.{Ptr, null, Store, get}
use sysprog_labs_f.Memory.Run.{ok, Returns, returns, Returns-weaken}
use sysprog_labs_f.Memory.Chain.{
  Cell, first, has-append, ◌∉◌, Seg, Seg-right, Seg-others, has-without,
}
use sysprog_labs_f.Coro.State.{Coro, Action, yields, gives, Sched, Env}
use sysprog_labs_f.Coro.Wait.{coro_sched_wait}
use sysprog_labs_f.Coro.Jobs.{Job, mk_coro, Jobs, IsSched, IsUnfinished, after, pass}
use sysprog_labs_f.Coro.Finding.{Found, IsUnfinished-cases, find_finished_lem, coro_list_delete_lem}
use sysprog_labs_f.Coro.Rounds.{calm, calm-eq, coro_sched_wait-pass}

abbrev pub addresses : Jobs → List Ptr
addresses xs = map (λ c. c.at) xs

-- The wait has returned the coroutine `at`, which has finished in memory. It has left the list,
-- where the others keep their order.
pub record Waited {W : Type 0} (env : Env W) (xs : Jobs) (r : Ptr) (u : Sched W) : Type 0 where
  pub before : Jobs
  pub at : Cell Job
  pub behind : Jobs
  pub all : addresses (before ++ at ∷ behind) ≡ addresses xs
  pub result : r ≡ at.at
  pub finished : (x : Coro) × (get r u.coros ≡ some x) × (x.is_finished ≡ true)
  pub sched : IsSched env u (before ++ behind)

-- The wait has taken the coroutine `found.at` off, as it is, and nothing has run.
pub record Took {W : Type 0} (env : Env W) (s : Sched W) (xs : Jobs) (found : Found xs) (r : Ptr)
    (u : Sched W) : Type 0 where
  pub result : r ≡ found.at.at
  pub sched : IsSched env u (found.before ++ found.behind)
  pub off : found.at.at ∉ (found.before ++ found.behind)
  pub there : (x : Coro) × (get found.at.at u.coros ≡ some x) × (x.is_finished ≡ true)
  pub live : found.at.at ≢ null
  pub apart : env.sched ≢ found.at.at
  pub world : u.world ≡ s.world

pub length-addresses : (xs ys : Jobs) → addresses xs ≡ addresses ys → length xs ≡ length ys
length-addresses xs ys e = sym (length-map xs) ∙ ap length e ∙ length-map ys
  where
    length-map : (xs : Jobs) → length (addresses xs) ≡ length xs
    length-map [] = refl
    length-map (x ∷ xs) = omega (arith, length-map xs)

pub Action-cases : (a : Action) → (a ≡ yields) ⊎ ((r : ℤ) × (a ≡ gives r))
Action-cases yields = inl refl
Action-cases (gives r) = inr (r, refl)

module _ {W : Type 0} (env : Env W) where
  addresses-after :
      (c : Cell Job) (a : Action) (ran rest : Jobs)
      → addresses ran ≡ addresses rest
      → addresses (after env c a ran rest) ≡ addresses (c ∷ rest)
  addresses-after c yields ran rest e = ap (λ l. c.at ∷ l) e
  addresses-after c (gives r) ran rest e = refl

  pub addresses-pass : (xs : Jobs) (w : W) → addresses (pass env xs w).0 ≡ addresses xs
  unfolding pass
  addresses-pass [] w = refl
  addresses-pass (c ∷ xs) w = addresses-after c (env.slice c.at w).0 _ xs (addresses-pass xs _)

  first-live :
      (h : Store Coro) (xs ys : Jobs) (c : Cell Job)
      → Seg mk_coro h null (xs ++ c ∷ ys) null
      → (first (xs ++ c ∷ ys) null == null) ≡ false
  first-live h [] ys c chain = ground (arith, chain.0)
  first-live h (x ∷ xs) ys c chain = ground (arith, chain.0)

  found_calm :
      (fuel k : ℕ) (s : Sched W) (h : Store Coro) (w : W) (xs ys : Jobs) (c : Cell Job)
      → Seg mk_coro h null (xs ++ c ∷ ys) null
      → IsUnfinished xs
      → c.datum.is_finished ≡ true
      → length (xs ++ c ∷ ys) < fuel
      → (g : Store Coro) × (coro_sched_wait env fuel (suc k) (calm env (xs ++ c ∷ ys) h w s)
          ≡ ok c.at (calm env (xs ++ ys) g w s))
        × Seg mk_coro g null (xs ++ ys) null
        × ((a : Ptr) → a ∉ (xs ++ ys) → get a g ≡ get a h)
  unfolding coro_sched_wait
  found_calm fuel k s h w xs ys c chain un ended enough =
      let start = calm env (xs ++ c ∷ ys) h w s in
      let at = Seg-right mk_coro h null null xs (c ∷ ys) chain in
      let live : (c.at == null) ≡ false = ground (arith, at.0) in
      let (g, eq, chain₁, same) = coro_list_delete_lem start h c xs ys chain in
      (
        g,
        rw
            (
              first-live h xs ys c chain,
              find_finished_lem start fuel null xs c ys chain un ended enough,
              live,
              eq,
            )
            refl,
        chain₁,
        same,
      )

  -- A coroutine of the list has finished.
  pub wait-Found :
      (fuel k : ℕ) (s : Sched W) (xs : Jobs) (found : Found xs)
      → IsSched env s xs
      → length xs < fuel
      → Returns (Took env s xs found) (coro_sched_wait env fuel (suc k) s)
  wait-Found fuel k s xs found sched enough =
      let all = found.before ++ found.at ∷ found.behind in
      let chain = subst (λ l. Seg mk_coro s.coros null l null) found.eq sched.chain in
      let out : env.sched ∉ all = subst (λ l. env.sched ∉ l) found.eq sched.apart in
      let kept = has-without env.sched found.before found.behind found.at out in
      let off = Seg-others mk_coro s.coros null null found.before found.behind found.at chain in
      let (g, eq, chain₁, same) =
        found_calm fuel k s s.coros s.world found.before found.behind found.at chain
          found.unfinished found.finished (subst (λ l. length l < fuel) found.eq enough) in
      let start : s ≡ calm env all s.coros s.world s =
        calm-eq env s xs sched ∙ ap (λ l. calm env l s.coros s.world s) found.eq in
      let at = Seg-right mk_coro s.coros null null found.before (found.at ∷ found.behind) chain in
      rw (ap (coro_sched_wait env fuel (suc k)) start ∙ eq) (
        returns (record {
          result = refl;
          sched = record {
            coro_list = refl;
            chain = chain₁;
            this = refl;
            waiting = refl;
            alive = sched.alive;
            apart = kept;
            sched = sched.sched;
            at = same env.sched kept ∙ sched.at;
            alone = sched.alone;
          };
          off = off;
          there = (_, same found.at.at off ∙ at.1, found.finished);
          live = at.0;
          apart = ground (arith, has-append env.sched found.before (found.at ∷ found.behind), out);
          world = refl;
        }))

  Took-Waited :
      (s u : Sched W) (xs : Jobs) (found : Found xs) (r : Ptr)
      → Took env s xs found r u
      → Waited env xs r u
  Took-Waited s u xs found r t = record {
    before = found.before;
    at = found.at;
    behind = found.behind;
    all = ap addresses (sym found.eq);
    result = t.result;
    finished =
        subst (λ p. (x : Coro) × (get p u.coros ≡ some x) × (x.is_finished ≡ true)) (sym t.result)
          t.there;
    sched = t.sched;
  }

  module _ (measure : W → ℕ)
      (less : (p : Ptr) (w : W)
        → (env.slice p w).0 ≡ yields
        → measure (env.slice p w).1 < measure w) where
    -- A round in which no coroutine returns makes the measure smaller.
    measure-pass :
        (xs : Jobs) (w : W)
        → IsUnfinished (pass env xs w).0
        → measure (pass env xs w).1 + length xs ≤ measure w
    unfolding pass
    measure-pass [] w un = omega arith
    measure-pass (c ∷ xs) w un = elim (Action-cases (env.slice c.at w).0) [
      | inl e ↦
          let first_one = less c.at w e in
          let un' : IsUnfinished (after env c yields (pass env xs (env.slice c.at w).1).0 xs) =
            rw e at un in
          let rest = measure-pass xs (env.slice c.at w).1 un'.1 in rw e (omega arith)
      | inr (r, e) ↦
          let un' : IsUnfinished (after env c (gives r) (pass env xs (env.slice c.at w).1).0 xs) =
            rw e at un in
          absurd (ground (arith, un'.0))
    ]

    wait_rounds :
        (fuel k : ℕ) (s : Sched W) (xs : Jobs)
        → IsSched env s xs
        → 0 < length xs
        → length xs < fuel
        → measure s.world + 1 < k
        → Returns (Waited env xs) (coro_sched_wait env fuel k s)
    wait_rounds fuel zero s xs sched some_left enough rounds = absurd (omega arith)
    wait_rounds fuel (suc zero) s xs sched some_left enough rounds = absurd (omega arith)
    wait_rounds fuel (suc (suc k)) s [] sched some_left enough rounds = absurd (omega arith)
    wait_rounds fuel (suc (suc k)) s (c ∷ xs) sched some_left enough rounds =
        elim (IsUnfinished-cases (c ∷ xs)) [
          | inr found ↦
              Returns-weaken (wait-Found fuel (suc k) s (c ∷ xs) found sched enough)
                λ r u. Took-Waited s u (c ∷ xs) found r
          | inl un ↦
              let ran = (pass env (c ∷ xs) s.world).0 in
              let (u, eq, sched', world') =
                coro_sched_wait-pass env fuel (suc k) s c xs sched un enough in
              let same = addresses-pass (c ∷ xs) s.world in
              let len = length-addresses ran (c ∷ xs) same in
              let waited : Returns (Waited env ran) (coro_sched_wait env fuel (suc k) u) =
                elim (IsUnfinished-cases ran) [
                  | inr found ↦
                      Returns-weaken (wait-Found fuel k u ran found sched' (omega (arith, len)))
                        λ r v. Took-Waited u v ran found r
                  | inl still ↦
                      let smaller = measure-pass (c ∷ xs) s.world still in
                      let now : measure u.world ≡ measure (pass env (c ∷ xs) s.world).1 =
                        ap measure world' in
                      wait_rounds fuel (suc k) u ran sched' (omega (arith, len))
                        (omega (arith, len)) (omega (arith, len))
                ] in
              rw eq (
                Returns-weaken waited λ r v t. record {
                  before = t.before;
                  at = t.at;
                  behind = t.behind;
                  all = t.all ∙ same;
                  result = t.result;
                  finished = t.finished;
                  sched = t.sched;
                })
        ]

-- The scheduler runs on a list of coroutines that is not empty, and a measure of what they run
-- falls each time one of them yields. With fuel above the length of the list, and rounds above the
-- measure and one, `coro_sched_wait` returns without a fault: the result is a coroutine of the list
-- that in memory is marked as finished, it has left the list, and the others stay there in their
-- order, ready for the next wait.
pub coro_sched_wait_lem :
    {W : Type 0} (env : Env W) (measure : W → ℕ) (fuel k : ℕ) (s : Sched W) (c : Cell Job)
    (xs : Jobs)
    → ((p : Ptr) (w : W) → (env.slice p w).0 ≡ yields → measure (env.slice p w).1 < measure w)
    → IsSched env s (c ∷ xs)
    → length (c ∷ xs) < fuel
    → measure s.world + 1 < k
    → Returns (Waited env (c ∷ xs)) (coro_sched_wait env fuel k s)
coro_sched_wait_lem env measure fuel k s c xs less sched enough rounds =
    wait_rounds env measure less fuel k s (c ∷ xs) sched (omega arith) enough rounds
