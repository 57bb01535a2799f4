-- ===== src/Sorter/Measure.antt =====
-- How much the coroutines of homework01/solution.c have left to do: each yield makes it less.
use sysprog_labs_f.Base.{
  ℕ, zero, suc, ◌+◌, ◌-◌, ◌≤◌, ◌<◌, ◌≡◌, refl, sym, ap, ◌∙◌, Bool, true, false, ◌||◌, List, [], ◌∷◌,
  length, ltb, ◌==◌, Bool-cases, ◌⊎◌, inl, inr, arith,
}
use sysprog_labs_f.Base.Int.{pos}
use sysprog_labs_f.Memory.Store.{Ptr}
use sysprog_labs_f.Coro.State.{Action, yields, gives}
use sysprog_labs_f.Sorter.Sort.{Outcome}
use sysprog_labs_f.Sorter.Claims.{
  Phase, claiming, sorting, over, Crew, put_at, outcome_at, files_total, claim, store_sorted, go_on,
  coroutine_func_f,
}
use sysprog_labs_f.Sorter.ClaimLaws.{put_at-cases}

-- The yields of a coroutine in the sort of its file.
abbrev busy : Phase → ℕ
busy claiming = 0
busy (sorting i n) = n
busy over = 0

-- The yields in the sorts of the files from `i` on.
abbrev pub remaining : List Outcome → ℕ → ℕ
remaining [] i = 0
remaining (o ∷ os) zero = o.yields + remaining os 0
remaining (o ∷ os) (suc i) = remaining os i

abbrev pub elem : Ptr → List Ptr → Bool
elem p [] = false
elem p (q ∷ ps) = (q == p) || elem p ps

abbrev pub IsDistinct : List Ptr → Type 0
IsDistinct [] = Unit {0}
IsDistinct (p ∷ ps) = (elem p ps ≡ false) × IsDistinct ps

abbrev pub pending : List Ptr → (Ptr → Phase) → ℕ
pending [] f = 0
pending (p ∷ ps) f = busy (f p) + pending ps f

abbrev pub left_to_do : List Outcome → List Ptr → Crew → ℕ
left_to_do outcomes ps s = pending ps s.phase + remaining outcomes s.next_file_idx

remaining-next :
    (os : List Outcome) (i : ℕ)
    → i < length os
    → remaining os i ≡ (outcome_at os i).yields + remaining os (suc i)
remaining-next [] i less = absurd (omega arith)
remaining-next (o ∷ os) zero less = refl
remaining-next (o ∷ os) (suc i) less = remaining-next os i (omega arith)

pending-other :
    (ps : List Ptr) (f : Ptr → Phase) (c : Ptr) (p : Phase)
    → elem c ps ≡ false
    → pending ps (put_at f c p) ≡ pending ps f
pending-other [] f c p out = refl
pending-other (q ∷ ps) f c p out =
    let rest = pending-other ps f c p (ground arith) in
    elim (put_at-cases f c p q) [
      | inl (here, eq) ↦ absurd (ground (arith, out))
      | inr (other, eq) ↦ let same = ap busy eq in omega arith
    ]

-- One coroutine moves.
pending-put_at :
    (ps : List Ptr) (f : Ptr → Phase) (c : Ptr) (p : Phase)
    → IsDistinct ps
    → elem c ps ≡ true
    → pending ps (put_at f c p) + busy (f c) ≡ pending ps f + busy p
pending-put_at [] f c p apart mine = absurd (ground arith)
pending-put_at (q ∷ ps) f c p apart mine = elim (put_at-cases f c p q) [
  | inl (here, eq) ↦
      let none_else = pending-other ps f c p (ap (λ a. elem a ps) (sym here) ∙ apart.0) in
      let one = ap busy eq in let same = ap (λ a. busy (f a)) here in omega arith
  | inr (other, eq) ↦
      let rest = pending-put_at ps f c p apart.1 (ground (arith, mine)) in
      let same = ap busy eq in omega arith
]

-- What a coroutine does: it yields, and there is less to do, or it returns, and is over.
abbrev pub Stepped : List Outcome → List Ptr → Ptr → Crew → Action × Crew → Type 0
Stepped outcomes ps c s r =
    ((r.0 ≡ yields) × (left_to_do outcomes ps r.1 < left_to_do outcomes ps s))
    ⊎ ((r.0 ≡ gives (pos 0))
        × (left_to_do outcomes ps r.1 ≤ left_to_do outcomes ps s)
        × (r.1.phase c ≡ over))

module _ (outcomes : List Outcome)
    (often : (i : ℕ) → i < length outcomes → 0 < (outcome_at outcomes i).yields) (ps : List Ptr)
    (apart : IsDistinct ps) (c : Ptr) (mine : elem c ps ≡ true) where
  claim-Stepped : (s : Crew) → busy (s.phase c) ≡ 0 → Stepped outcomes ps c s (claim outcomes c s)
  unfolding claim
  claim-Stepped s idle =
      let i = s.next_file_idx in
      elim (Bool-cases (ltb i (files_total outcomes))) [
        | inl more ↦
            let less : i < length outcomes = ground arith in
            let succ : suc i ≡ i + 1 = omega arith in
            let next =
              remaining-next outcomes i less
              ∙ ap (λ j. (outcome_at outcomes i).yields + remaining outcomes j) succ in
            let some_yield = often i less in
            let put =
              pending-put_at ps s.phase c (sorting i ((outcome_at outcomes i).yields - 1)) apart
                mine in
            rw more (inl (refl, omega arith))
        | inr no_more ↦
            let put = pending-put_at ps s.phase c over apart mine in
            rw no_more (
              inr (
                refl,
                omega arith,
                elim (put_at-cases s.phase c over c) [
                  | inl (here, eq) ↦ eq
                  | inr (other, eq) ↦ absurd (other refl)
                ],
              ))
      ]

  go_on-Stepped :
      (p : Phase) (s : Crew) → s.phase c ≡ p → Stepped outcomes ps c s (go_on outcomes c p s)
  go_on-Stepped claiming s e = claim-Stepped s (ap busy e)
  go_on-Stepped (sorting i zero) s e =
      let put = pending-put_at ps s.phase c claiming apart mine in
      let was = ap busy e in
      let idle : busy (put_at s.phase c claiming c) ≡ 0 = elim (put_at-cases s.phase c claiming c) [
        | inl (here, eq) ↦ ap busy eq
        | inr (other, eq) ↦ absurd (other refl)
      ] in
      elim (claim-Stepped (store_sorted outcomes c i s) idle) [
        | inl (act, less) ↦ inl (act, omega arith)
        | inr (act, less, ended) ↦ inr (act, omega arith, ended)
      ]
  go_on-Stepped (sorting i (suc n)) s e =
      let put = pending-put_at ps s.phase c (sorting i n) apart mine in
      let was = ap busy e in inl (refl, omega arith)
  go_on-Stepped over s e = inr (refl, omega arith, e)

  pub coroutine_func_f-Stepped :
      (s : Crew) → Stepped outcomes ps c s (coroutine_func_f outcomes c s)
  unfolding coroutine_func_f
  coroutine_func_f-Stepped s = go_on-Stepped (s.phase c) s refl
