-- ===== src/Coro/Program.antt =====
-- What a program promises of its coroutines to the scheduler of homework01/libcoro.c, and what a
-- round then does to the state that they share.
use sysprog_labs_f.Base.{
  ℕ, ◌+◌, ◌≤◌, ◌<◌, ◌≡◌, refl, ap, false, List, [], ◌∷◌, ◌++◌, length, arith, ◌⊎◌, inl, inr,
}
use sysprog_labs_f.Base.Int.{ℤ}
use sysprog_labs_f.Memory.Store.{Ptr}
use sysprog_labs_f.Memory.Chain.{Cell, cell}
use sysprog_labs_f.Coro.State.{yields, gives, Env}
use sysprog_labs_f.Coro.Jobs.{Job, Jobs, IsUnfinished, once_more, returned, pass}
use sysprog_labs_f.Coro.Finding.{Found}
use sysprog_labs_f.Coro.Returned.{addresses, Action-cases}

-- The coroutines at the addresses `Mine` keep `Inv`. `measure` falls each time one of them yields,
-- and does not grow when one returns, which is then `Over` and stays so.
pub record Program {W : Type 0} (env : Env W) : Type 1 where
  pub Mine : Ptr → Type 0
  pub Inv : W → Type 0
  pub Over : Ptr → W → Type 0
  pub measure : W → ℕ
  pub kept : (p : Ptr) (w : W) → Mine p → Inv w → Inv (env.slice p w).1
  pub stays : (p q : Ptr) (w : W) → Over q w → Over q (env.slice p w).1
  pub yielded :
      (p : Ptr) (w : W)
      → Mine p
      → Inv w
      → (env.slice p w).0 ≡ yields
      → measure (env.slice p w).1 < measure w
  pub ended :
      (p : Ptr) (w : W) (r : ℤ)
      → Mine p
      → Inv w
      → (env.slice p w).0 ≡ gives r
      → (measure (env.slice p w).1 ≤ measure w) × Over p (env.slice p w).1

abbrev pub Each : (Ptr → Type 0) → List Ptr → Type 0
Each P [] = Unit {0}
Each P (p ∷ ps) = P p × Each P ps

pub IsUnfinished-append :
    (xs ys : Jobs) → IsUnfinished xs → IsUnfinished ys → IsUnfinished (xs ++ ys)
IsUnfinished-append [] ys l r = r
IsUnfinished-append (x ∷ xs) ys l r = (l.0, IsUnfinished-append xs ys l.1 r)

module _ {W : Type 0} (env : Env W) (program : Program env) where
  -- What holds of the state when coroutines have run from `w` to `v`.
  pub record Later (w v : W) : Type 0 where
    pub inv : program.Inv v
    pub stays : (q : Ptr) → program.Over q w → program.Over q v
    pub less : program.measure v ≤ program.measure w

  pub Later-trans : (w v u : W) → Later w v → Later v u → Later w u
  Later-trans w v u a b = record {
    inv = b.inv;
    stays = λ q o. b.stays q (a.stays q o);
    less = omega (arith, a.less, b.less);
  }

  Later-slice : (p : Ptr) (w : W) → program.Mine p → program.Inv w → Later w (env.slice p w).1
  Later-slice p w mine inv = record {
    inv = program.kept p w mine inv;
    stays = λ q o. program.stays p q w o;
    less = elim (Action-cases (env.slice p w).0) [
      | inl e ↦ omega (arith, program.yielded p w mine inv e)
      | inr (r, e) ↦ (program.ended p w r mine inv e).0
    ];
  }

  -- The one coroutine of `xs` that has finished, and the state.
  pub record Ended (xs : Jobs) (w : W) : Type 0 where
    pub found : Found xs
    pub others : IsUnfinished found.behind
    pub over : program.Over found.at.at w

  Ended-cons :
      (c : Cell Job) (xs : Jobs) (w : W)
      → c.datum.is_finished ≡ false
      → Ended xs w
      → Ended (c ∷ xs) w
  Ended-cons c xs w un e = record {
    found = record {
      before = c ∷ e.found.before;
      at = e.found.at;
      behind = e.found.behind;
      eq = ap (λ l. c ∷ l) e.found.eq;
      unfinished = (un, e.found.unfinished);
      finished = e.found.finished;
    };
    others = e.others;
    over = e.over;
  }

  -- Either all the coroutines have yielded, each of which made the measure smaller, or one has
  -- returned.
  abbrev pub Passed : Jobs → W → Jobs × W → Type 0
  Passed xs w r =
      Later w r.1
      × ((IsUnfinished r.0 × (program.measure r.1 + length xs ≤ program.measure w)) ⊎ Ended r.0 r.1)

  pub pass-Passed :
      (xs : Jobs) (w : W)
      → IsUnfinished xs
      → Each program.Mine (addresses xs)
      → program.Inv w
      → Passed xs w (pass env xs w)
  unfolding pass
  pass-Passed [] w un mine inv =
      (record { inv = inv; stays = λ q o. o; less = omega arith }, inl (tt, omega arith))
  pass-Passed (c ∷ xs) w un mine inv =
      let v = (env.slice c.at w).1 in
      let one = Later-slice c.at w mine.0 inv in
      elim (Action-cases (env.slice c.at w).0) [
        | inl e ↦
            let less = program.yielded c.at w mine.0 inv e in
            let (later, cases) = pass-Passed xs v un.1 mine.1 one.inv in
            rw e (
              Later-trans w v _ one later,
              elim cases [
                | inl (still, smaller) ↦ inl ((un.0, still), omega arith)
                | inr ended ↦ inr (Ended-cons (cell c.at (once_more c.datum)) _ _ un.0 ended)
              ],
            )
        | inr (r, e) ↦ rw e (
          one,
          inr (record {
            found = record {
              before = [];
              at = cell c.at (returned r c.datum);
              behind = xs;
              eq = refl;
              unfinished = tt;
              finished = refl;
            };
            others = un.1;
            over = (program.ended c.at w r mine.0 inv e).1;
          }),
        )
      ]
