-- ===== src/Coro/WaitAll.antt =====
-- A program of homework01 waits for all its coroutines: the loop of `main` in homework01/solution.c over
-- `coro_sched_wait` and `coro_delete` of homework01/libcoro.c.
use sysprog_labs_f.Base.{
  ℕ, zero, suc, ◌+◌, ◌<◌, ◌≡◌, ◌≢◌, refl, sym, ap, subst, false, [], ◌∷◌, ◌++◌, length, some, arith,
  ◌==◌, if◌then◌else◌,
}
use sysprog_labs_f.Memory.Store.{Ptr, null, get, get-remove}
use sysprog_labs_f.Memory.Run.{
  Cmd, ok, pure, diverge, Returns, returns, Returns-and_then, Returns-weaken, ◌>>=◌, ◌>>◌,
}
use sysprog_labs_f.Memory.Chain.{Cell, ◌∉◌, frame-remove}
use sysprog_labs_f.Coro.State.{Coro, Sched, Env}
use sysprog_labs_f.Coro.Api.{coro_delete}
use sysprog_labs_f.Coro.Wait.{coro_sched_wait}
use sysprog_labs_f.Coro.Jobs.{mk_coro, Job, Jobs, IsSched, IsUnfinished, load-ok}
use sysprog_labs_f.Coro.Returned.{addresses, length-addresses}
use sysprog_labs_f.Coro.Program.{Program, Each, Later, Later-trans}
use sysprog_labs_f.Coro.Ended.{Taken, wait_unfinished}

-- `fuel` and `rounds` are for each wait, and there are fewer coroutines than the last argument.
unfoldable pub wait_all : {W : Type 0} → Env W → ℕ → ℕ → ℕ → Cmd (Sched W) (Unit {0})
wait_all env fuel rounds zero = diverge
wait_all env fuel rounds (suc n) = do
  c ← coro_sched_wait env fuel rounds
  if c == null then pure tt else do coro_delete c; wait_all env fuel rounds n

module _ {W : Type 0} (env : Env W) where
  -- A coroutine that is in no list is deleted.
  coro_delete-IsSched :
      (s : Sched W) (xs : Jobs) (p : Ptr) (x : Coro)
      → IsSched env s xs
      → p ≢ null
      → p ∉ xs
      → env.sched ≢ p
      → get p s.coros ≡ some x
      → Returns (λ r u. IsSched env u xs × (u.world ≡ s.world)) (coro_delete p s)
  unfolding coro_delete
  coro_delete-IsSched s xs p x sched live off other at = rw (load-ok s p live x at) (
      returns (
        record {
          coro_list = sched.coro_list;
          chain = frame-remove mk_coro s.coros null null p xs off sched.chain;
          this = sched.this;
          waiting = sched.waiting;
          alive = sched.alive;
          apart = sched.apart;
          sched = sched.sched;
          at = ground (arith, get-remove env.sched p s.coros, sched.at);
          alone = sched.alone;
        },
        refl,
      ))

  -- Without coroutines there is nothing to wait for.
  pub wait_none :
      (fuel rounds : ℕ) (s : Sched W)
      → IsSched env s []
      → 0 < rounds
      → coro_sched_wait env fuel rounds s ≡ ok null s
  unfolding coro_sched_wait
  wait_none fuel zero s sched rounds = absurd (omega arith)
  wait_none fuel (suc k) s sched rounds = rw sched.coro_list refl

Each-without :
    (P : Ptr → Type 0) (xs ys : Jobs) (c : Cell Job)
    → Each P (addresses (xs ++ c ∷ ys))
    → Each P (addresses (xs ++ ys))
Each-without P [] ys c all = all.1
Each-without P (x ∷ xs) ys c all = (all.0, Each-without P xs ys c all.1)

Each-with :
    (P : Ptr → Type 0) (xs ys : Jobs) (c : Cell Job)
    → Each P (addresses (xs ++ ys))
    → P c.at
    → Each P (addresses (xs ++ c ∷ ys))
Each-with P [] ys c all one = (one, all)
Each-with P (x ∷ xs) ys c all one = (all.0, Each-with P xs ys c all.1 one)

length-without : (xs ys : Jobs) (c : Cell Job) → length (xs ++ c ∷ ys) ≡ suc (length (xs ++ ys))
length-without [] ys c = refl
length-without (x ∷ xs) ys c = ap suc (length-without xs ys c)

module _ {W : Type 0} (env : Env W) (program : Program env) where
  -- All the coroutines are over, and the list is empty.
  pub record AllOver (xs : Jobs) (w : W) (u : Sched W) : Type 0 where
    pub sched : IsSched env u []
    pub over : Each (λ p. program.Over p u.world) (addresses xs)
    pub later : Later env program w u.world

  wait_on :
      (fuel rounds n : ℕ) (s u v : Sched W) (xs : Jobs) (r : Ptr)
      → (t : Taken env program xs s.world r u) → u.world ≡ v.world
      → Returns (λ a z. AllOver (t.before ++ t.behind) v.world z) (wait_all env fuel rounds n v)
      → Returns (λ a z. AllOver xs s.world z) (wait_all env fuel rounds n v)
  wait_on fuel rounds n s u v xs r t same rest =
      let later = subst (λ w. Later env program s.world w) same t.later in
      let over = subst (λ w. program.Over t.at.at w) same t.over in
      Returns-weaken rest λ a z d. record {
        sched = d.sched;
        over =
            subst (λ l. Each (λ p. program.Over p z.world) l) t.all
              (Each-with (λ p. program.Over p z.world) t.before t.behind t.at d.over
                (d.later.stays t.at.at over));
        later = Later-trans env program s.world v.world z.world later d.later;
      }

  -- The scheduler runs on a list of coroutines that have not finished, and their code keeps what
  -- `Program` says. With fuel above the number of coroutines, rounds above the measure and one, and
  -- as many turns of the loop as there are coroutines and one: the loop that waits for a coroutine
  -- and deletes it ends without a fault, the list is empty, every coroutine is over, and the state
  -- that they share is still well-formed.
  pub wait_all_lem :
      (fuel rounds n : ℕ) (s : Sched W) (xs : Jobs)
      → IsSched env s xs
      → IsUnfinished xs
      → Each program.Mine (addresses xs)
      → program.Inv s.world
      → length xs < fuel
      → program.measure s.world + 1 < rounds
      → length xs < n
      → Returns (λ a u. AllOver xs s.world u) (wait_all env fuel rounds n s)
  unfolding wait_all
  wait_all_lem fuel rounds zero s xs sched un mine inv enough many more = absurd (omega arith)
  wait_all_lem fuel rounds (suc n) s [] sched un mine inv enough many more =
      rw (wait_none env fuel rounds s sched (omega arith)) (
        returns (record {
          sched = sched;
          over = tt;
          later = record { inv = inv; stays = λ q o. o; less = omega arith };
        }))
  wait_all_lem fuel rounds (suc n) s (c ∷ xs) sched un mine inv enough many more =
      Returns-and_then
        (wait_unfinished env program fuel rounds s (c ∷ xs) sched (omega arith) un mine inv enough
          many)
        λ r u t.
          let live : (r == null) ≡ false = ground (arith, t.result, t.live) in
          let left = t.before ++ t.behind in
          let deleted : Returns (λ b v. IsSched env v left × (v.world ≡ u.world))
              (coro_delete r u) =
            subst (λ p. Returns (λ b v. IsSched env v left × (v.world ≡ u.world)) (coro_delete p u))
              (sym t.result)
              (coro_delete-IsSched env u left t.at.at t.there.0 t.sched t.live t.off t.apart
                t.there.1) in
          rw live (
            Returns-and_then deleted λ b v d.
              let len = length-addresses (t.before ++ t.at ∷ t.behind) (c ∷ xs) t.all in
              let len' = length-without t.before t.behind t.at in
              let small = t.later.less in
              let now = ap program.measure d.1 in
              wait_on fuel rounds n s u v (c ∷ xs) r t (sym d.1) (
                wait_all_lem fuel rounds n v (t.before ++ t.behind) d.0 t.others
                  (Each-without program.Mine t.before t.behind t.at
                    (subst (λ l. Each program.Mine l) (sym t.all) mine))
                  (subst program.Inv (sym d.1) t.later.inv) (omega arith) (omega arith)
                  (omega arith)))
