-- ===== src/Coro/Ended.antt =====
-- `coro_sched_wait` of homework01/libcoro.c for a program whose coroutines keep what they promise.
use sysprog_labs_f.Base.{
  ℕ, zero, suc, ◌+◌, ◌<◌, ◌≡◌, ◌≢◌, sym, ap, ◌∙◌, subst, true, [], ◌∷◌, ◌++◌, length, some, arith,
  inl, inr,
}
use sysprog_labs_f.Memory.Store.{Ptr, null, get}
use sysprog_labs_f.Memory.Run.{Returns, Returns-weaken}
use sysprog_labs_f.Memory.Chain.{Cell, ◌∉◌}
use sysprog_labs_f.Coro.State.{Coro, Sched, Env}
use sysprog_labs_f.Coro.Wait.{coro_sched_wait}
use sysprog_labs_f.Coro.Jobs.{Job, Jobs, IsSched, IsUnfinished, pass}
use sysprog_labs_f.Coro.Rounds.{coro_sched_wait-pass}
use sysprog_labs_f.Coro.Returned.{addresses, addresses-pass, length-addresses, Took, wait-Found}
use sysprog_labs_f.Coro.Program.{
  Program, Each, IsUnfinished-append, Later, Later-trans, Ended, pass-Passed,
}

module _ {W : Type 0} (env : Env W) (program : Program env) where
  -- The wait has returned the coroutine `at`, which is over and still allocated. The others stay,
  -- and none of them has finished.
  pub record Taken (xs : Jobs) (w : W) (r : Ptr) (u : Sched W) : Type 0 where
    pub before : Jobs
    pub at : Cell Job
    pub behind : Jobs
    pub all : addresses (before ++ at ∷ behind) ≡ addresses xs
    pub result : r ≡ at.at
    pub finished : at.datum.is_finished ≡ true
    pub sched : IsSched env u (before ++ behind)
    pub others : IsUnfinished (before ++ behind)
    pub off : at.at ∉ (before ++ behind)
    pub there : (x : Coro) × (get at.at u.coros ≡ some x) × (x.is_finished ≡ true)
    pub live : at.at ≢ null
    pub apart : env.sched ≢ at.at
    pub over : program.Over at.at u.world
    pub later : Later env program w u.world

  Took-Taken :
      (s u : Sched W) (xs ys : Jobs) (w : W) (r : Ptr) (ended : Ended env program xs s.world)
      → addresses xs ≡ addresses ys
      → Later env program w s.world
      → Took env s xs ended.found r u
      → Taken ys w r u
  Took-Taken s u xs ys w r ended same later took =
      let f = ended.found in
      record {
        before = f.before;
        at = f.at;
        behind = f.behind;
        all = ap addresses (sym f.eq) ∙ same;
        result = took.result;
        finished = f.finished;
        sched = took.sched;
        others = IsUnfinished-append f.before f.behind f.unfinished ended.others;
        off = took.off;
        there = took.there;
        live = took.live;
        apart = took.apart;
        over = subst (λ v. program.Over f.at.at v) (sym took.world) ended.over;
        later = subst (λ v. Later env program w v) (sym took.world) later;
      }

  Taken-earlier :
      (xs ys : Jobs) (w v : W) (r : Ptr) (u : Sched W)
      → addresses xs ≡ addresses ys
      → Later env program w v
      → Taken xs v r u
      → Taken ys w r u
  Taken-earlier xs ys w v r u same later t = record {
    before = t.before;
    at = t.at;
    behind = t.behind;
    all = t.all ∙ same;
    result = t.result;
    finished = t.finished;
    sched = t.sched;
    others = t.others;
    off = t.off;
    there = t.there;
    live = t.live;
    apart = t.apart;
    over = t.over;
    later = Later-trans env program w v u.world later t.later;
  }

  -- No coroutine has finished: with enough rounds, the wait returns the first that does.
  pub wait_unfinished :
      (fuel k : ℕ) (s : Sched W) (xs : Jobs)
      → IsSched env s xs
      → 0 < length xs
      → IsUnfinished xs
      → Each program.Mine (addresses xs)
      → program.Inv s.world
      → length xs < fuel
      → program.measure s.world + 1 < k
      → Returns (Taken xs s.world) (coro_sched_wait env fuel k s)
  wait_unfinished fuel zero s xs sched some_left un mine inv enough rounds = absurd (omega arith)
  wait_unfinished fuel (suc zero) s xs sched some_left un mine inv enough rounds =
      absurd (omega arith)
  wait_unfinished fuel (suc (suc k)) s [] sched some_left un mine inv enough rounds =
      absurd (omega arith)
  wait_unfinished fuel (suc (suc k)) s (c ∷ xs) sched some_left un mine inv enough rounds =
      let r = pass env (c ∷ xs) s.world in
      let (u, eq, sched', world') = coro_sched_wait-pass env fuel (suc k) s c xs sched un enough in
      let same = addresses-pass env (c ∷ xs) s.world in
      let len = length-addresses r.0 (c ∷ xs) same in
      let (later, cases) = pass-Passed env program (c ∷ xs) s.world un mine inv in
      let now : Later env program s.world u.world =
        subst (λ v. Later env program s.world v) (sym world') later in
      rw eq (elim cases [
        | inr ended ↦
            let ended' : Ended env program r.0 u.world =
              subst (λ v. Ended env program r.0 v) (sym world') ended in
            Returns-weaken (wait-Found env fuel k u r.0 ended'.found sched' (omega (arith, len)))
              λ a v took. Took-Taken u v r.0 (c ∷ xs) s.world a ended' same now took
        | inl (still, smaller) ↦
            let smaller' = ap program.measure world' in
            Returns-weaken
              (wait_unfinished fuel (suc k) u r.0 sched' (omega (arith, len)) still
                (subst (λ l. Each program.Mine l) (sym same) mine) now.inv (omega (arith, len))
                (omega (arith, len)))
              λ a v t. Taken-earlier r.0 (c ∷ xs) s.world u.world a v same now t
      ])
