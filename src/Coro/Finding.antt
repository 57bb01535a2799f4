-- ===== src/Coro/Finding.antt =====
-- How the scheduler of homework01/libcoro.c finds a coroutine that has finished and takes it off.
use sysprog_labs_f.Base.{
  ℕ, zero, suc, ◌<◌, ◌≡◌, refl, ap, true, false, [], ◌∷◌, ◌++◌, length, arith, ◌==◌, ◌⊎◌, inl, inr,
  Bool-cases,
}
use sysprog_labs_f.Memory.Store.{Ptr, null, Store, get}
use sysprog_labs_f.Memory.Run.{ok}
use sysprog_labs_f.Memory.Chain.{Cell, first, last, ◌∉◌, Seg, Seg-left, Seg-right}
use sysprog_labs_f.Memory.Relink.{unlink}
use sysprog_labs_f.Memory.Rotate.{last-ne_null}
use sysprog_labs_f.Coro.State.{Coro, Sched, set_next, set_prev}
use sysprog_labs_f.Coro.Api.{coro_list_delete}
use sysprog_labs_f.Coro.Wait.{find_finished}
use sysprog_labs_f.Coro.Jobs.{Job, mk_coro, Jobs, IsUnfinished, load-ok, relink_coro-ok}

-- The first coroutine that has finished, between the others.
pub record Found (xs : Jobs) : Type 0 where
  pub before : Jobs
  pub at : Cell Job
  pub behind : Jobs
  pub eq : xs ≡ before ++ at ∷ behind
  pub unfinished : IsUnfinished before
  pub finished : at.datum.is_finished ≡ true

pub IsUnfinished-cases : (xs : Jobs) → IsUnfinished xs ⊎ Found xs
IsUnfinished-cases [] = inl tt
IsUnfinished-cases (c ∷ xs) = elim (Bool-cases c.datum.is_finished) [
  | inl ended ↦
      inr
        (record { before = []; at = c; behind = xs; eq = refl; unfinished = tt; finished = ended })
  | inr going ↦ elim (IsUnfinished-cases xs) [
    | inl rest ↦ inl (going, rest)
    | inr r ↦ inr (record {
      before = c ∷ r.before;
      at = r.at;
      behind = r.behind;
      eq = ap (λ l. c ∷ l) r.eq;
      unfinished = (going, r.unfinished);
      finished = r.finished;
    })
  ]
]

module _ {W : Type 0} (s : Sched W) where
  pub find_finished-null :
      (k : ℕ) (prev : Ptr) (xs : Jobs)
      → Seg mk_coro s.coros prev xs null
      → IsUnfinished xs
      → length xs < k
      → find_finished k (first xs null) s ≡ ok null s
  unfolding find_finished
  find_finished-null zero prev xs chain un enough = absurd (omega arith)
  find_finished-null (suc k) prev [] chain un enough = refl
  find_finished-null (suc k) prev (c ∷ xs) chain un enough =
      let live : (c.at == null) ≡ false = ground (arith, chain.0) in
      rw (live, load-ok s c.at chain.0 _ chain.1, un.0)
        (find_finished-null k c.at xs chain.3 un.1 (omega arith))

  pub find_finished_lem :
      (k : ℕ) (prev : Ptr) (xs : Jobs) (c : Cell Job) (ys : Jobs)
      → Seg mk_coro s.coros prev (xs ++ c ∷ ys) null
      → IsUnfinished xs
      → c.datum.is_finished ≡ true
      → length (xs ++ c ∷ ys) < k
      → find_finished k (first (xs ++ c ∷ ys) null) s ≡ ok c.at s
  unfolding find_finished
  find_finished_lem zero prev xs c ys chain un ended enough = absurd (omega arith)
  find_finished_lem (suc k) prev [] c ys chain un ended enough =
      let live : (c.at == null) ≡ false = ground (arith, chain.0) in
      rw (live, load-ok s c.at chain.0 _ chain.1, ended) refl
  find_finished_lem (suc k) prev (x ∷ xs) c ys chain un ended enough =
      let live : (x.at == null) ≡ false = ground (arith, chain.0) in
      rw (live, load-ok s x.at chain.0 _ chain.1, un.0)
        (find_finished_lem k x.at xs c ys chain.3 un.1 ended (omega arith))

  -- The coroutine `c` leaves the list, as it is.
  pub coro_list_delete_lem :
      (h : Store Coro) (c : Cell Job) (xs ys : Jobs)
      → Seg mk_coro h null (xs ++ c ∷ ys) null
      → (g : Store Coro) × (coro_list_delete c.at
            (record s { coro_list = first (xs ++ c ∷ ys) null; coros = h })
          ≡ ok tt (record s { coro_list = first (xs ++ ys) null; coros = g }))
        × Seg mk_coro g null (xs ++ ys) null
        × ((a : Ptr) → a ∉ (xs ++ ys) → get a g ≡ get a h)
  unfolding coro_list_delete
  coro_list_delete_lem h c [] ys chain =
      let before = record s { coro_list = c.at; coros = h } in
      let (h₁, h₂, eq₁, eq₂, chain₁, same) =
        unlink mk_coro (set_next (first ys null)) (set_prev null) h c [] ys (λ d n p. refl)
          (λ d n p. refl) chain in
      (
        h₂,
        rw
            (
              load-ok before c.at chain.0 _ chain.1,
              relink_coro-ok before (set_next (first ys null)) null h₁ eq₁,
              relink_coro-ok (record before { coros = h₁ }) (set_prev null) (first ys null) h₂ eq₂,
            )
            refl,
        chain₁,
        same,
      )
  coro_list_delete_lem h c (x ∷ xs) ys chain =
      let before = record s { coro_list = x.at; coros = h } in
      let at = Seg-right mk_coro h null null (x ∷ xs) (c ∷ ys) chain in
      let prev = last x.at xs in
      let live =
        last-ne_null mk_coro h null c.at x xs
          (Seg-left mk_coro h null null (x ∷ xs) (c ∷ ys) chain) in
      let alive : (prev == null) ≡ false = ground arith in
      let (h₁, h₂, eq₁, eq₂, chain₁, same) =
        unlink mk_coro (set_next (first ys null)) (set_prev prev) h c (x ∷ xs) ys (λ d n p. refl)
          (λ d n p. refl) chain in
      (
        h₂,
        rw
            (
              load-ok before c.at at.0 _ at.1,
              relink_coro-ok before (set_next (first ys null)) prev h₁ eq₁,
              relink_coro-ok (record before { coros = h₁ }) (set_prev prev) (first ys null) h₂ eq₂,
              alive,
            )
            refl,
        chain₁,
        same,
      )
