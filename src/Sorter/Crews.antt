-- ===== src/Sorter/Crews.antt =====
-- The coroutines of homework01/solution.c keep what the scheduler relies on, and are over at the end.
use sysprog_labs_f.Base.{
  ℕ, zero, suc, ◌<◌, ◌≡◌, ◌≢◌, refl, sym, ap, ◌∙◌, true, false, List, length, Bool-cases, ◌==◌, inl,
  inr, arith,
}
use sysprog_labs_f.Base.Int.{ℤ}
use sysprog_labs_f.Memory.Store.{Ptr, Malloc}
use sysprog_labs_f.Coro.State.{Coro, Action, yields, gives, Env}
use sysprog_labs_f.Coro.Program.{Program}
use sysprog_labs_f.Sorter.Sort.{Outcome}
use sysprog_labs_f.Sorter.Claims.{
  Phase, claiming, sorting, over, Crew, put_at, outcome_at, claim, store_sorted, go_on,
  coroutine_func_f, Reach, next,
}
use sysprog_labs_f.Sorter.ClaimLaws.{put_at-cases}
use sysprog_labs_f.Sorter.Measure.{elem, IsDistinct, left_to_do, coroutine_func_f-Stepped}

-- The coroutine library as homework01/solution.c uses it.
abbrev pub crew_env : Malloc Coro → Ptr → List Outcome → Env Crew
crew_env m sched outcomes = record { coros = m; sched = sched; slice = coroutine_func_f outcomes }

pub yields-ne-gives : (a : Action) (r : ℤ) → a ≡ yields → a ≢ gives r
yields-ne-gives a r e f = absurd (ground (arith, sym e ∙ f))

module _ (outcomes : List Outcome) where
  put_at-other : (f : Ptr → Phase) (c q : Ptr) (p : Phase) → q ≢ c → put_at f c p q ≡ f q
  put_at-other f c q p other = elim (put_at-cases f c p q) [
    | inl (here, eq) ↦ absurd (other here)
    | inr (ne, eq) ↦ eq
  ]

  claim-other : (c q : Ptr) (s : Crew) → q ≢ c → (claim outcomes c s).1.phase q ≡ s.phase q
  unfolding claim
  claim-other c q s other = ground (arith, other)

  go_on-other :
      (c q : Ptr) (p : Phase) (s : Crew) → q ≢ c → (go_on outcomes c p s).1.phase q ≡ s.phase q
  go_on-other c q claiming s other = claim-other c q s other
  go_on-other c q (sorting i zero) s other =
      claim-other c q (store_sorted outcomes c i s) other ∙ put_at-other s.phase c q claiming other
  go_on-other c q (sorting i (suc n)) s other = put_at-other s.phase c q (sorting i n) other
  go_on-other c q over s other = refl

  pub other_phase :
      (c q : Ptr) (s : Crew) → q ≢ c → (coroutine_func_f outcomes c s).1.phase q ≡ s.phase q
  unfolding coroutine_func_f
  other_phase c q s other = go_on-other c q (s.phase c) s other

  pub stays_over :
      (c q : Ptr) (s : Crew) → s.phase q ≡ over → (coroutine_func_f outcomes c s).1.phase q ≡ over
  unfolding coroutine_func_f
  stays_over c q s ended = elim (Bool-cases (q == c)) [
    | inl e ↦
        let same : q ≡ c = ground arith in
        let at : s.phase c ≡ over = ap s.phase (sym same) ∙ ended in rw at ended
    | inr e ↦ other_phase c q s (ground arith) ∙ ended
  ]

  -- The coroutines at `ps` take turns from the state `s`, and no other has started.
  pub record Runs (ps : List Ptr) (s t : Crew) : Type 0 where
    pub reach : Reach outcomes s t
    pub others : (q : Ptr) → elem q ps ≡ false → t.phase q ≡ claiming

  pub next-Runs :
      (p : Ptr) (ps : List Ptr) (s t : Crew)
      → elem p ps ≡ true
      → Runs ps s t
      → Runs ps s (coroutine_func_f outcomes p t).1
  next-Runs p ps s t mine runs = record {
    reach = next p runs.reach;
    others =
        λ q out. other_phase p q t (λ e. ground (arith, ap (λ a. elem a ps) e)) ∙ runs.others q out;
  }

  -- What `coroutine_func_f` promises to the scheduler.
  unfoldable pub crew_program :
      (m : Malloc Coro) (sched : Ptr) (ps : List Ptr) (s : Crew)
      → ((i : ℕ) → i < length outcomes → 0 < (outcome_at outcomes i).yields)
      → IsDistinct ps
      → Program (crew_env m sched outcomes)
  crew_program m sched ps s often apart = record {
    Mine = λ p. elem p ps ≡ true;
    Inv = λ t. Runs ps s t;
    Over = λ p t. t.phase p ≡ over;
    measure = left_to_do outcomes ps;
    kept = λ p t mine runs. next-Runs p ps s t mine runs;
    stays = λ p q t ended. stays_over p q t ended;
    yielded = λ p t mine runs act.
        elim (coroutine_func_f-Stepped outcomes often ps apart p mine t) [
          | inl (e, less) ↦ less
          | inr (e, less, ended) ↦ absurd (yields-ne-gives _ _ act e)
        ];
    ended = λ p t r mine runs act.
        elim (coroutine_func_f-Stepped outcomes often ps apart p mine t) [
          | inl (e, less) ↦ absurd (yields-ne-gives _ _ e act)
          | inr (e, less, ended) ↦ (less, ended)
        ];
  }
