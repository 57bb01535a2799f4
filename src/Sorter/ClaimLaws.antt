-- ===== src/Sorter/ClaimLaws.antt =====
-- Each file is claimed by one coroutine, and sorted, in homework01/solution.c.
use sysprog_labs_f.Base.{
  ℕ, zero, suc, ◌+◌, ◌≤◌, ◌<◌, ◌≡◌, ◌≢◌, refl, sym, ap, ◌∙◌, Bool, true, false, List, some, ltb,
  ◌==◌, Bool-cases, ◌⊎◌, inl, inr, arith,
}
use sysprog_labs_f.Memory.Store.{Ptr}
use sysprog_labs_f.Sorter.Sort.{Outcome}
use sysprog_labs_f.Sorter.Claims.{
  Phase, claiming, sorting, over, Crew, put_at, files_total, array_of, at_phase, claim,
  store_sorted, go_on, coroutine_func_f, Reach, start, next,
}

-- The file that a coroutine has claimed, counted from 1.
abbrev pub claim_of : Phase → ℕ
claim_of claiming = 0
claim_of (sorting i n) = suc i
claim_of over = 0

abbrev pub is_over : Phase → Bool
is_over claiming = false
is_over (sorting i n) = false
is_over over = true

-- The coroutine `c` has claimed the file `i` and not stored it yet.
abbrev pub Holds : Crew → Ptr → ℕ → Type 0
Holds s c i = claim_of (s.phase c) ≡ suc i

-- Every file that was claimed is in the work of one coroutine, or its array is stored.
pub record IsShared (outcomes : List Outcome) (s : Crew) : Type 0 where
  pub claimed : (c : Ptr) (i : ℕ) → Holds s c i → i < s.next_file_idx
  pub alone : (c d : Ptr) (i : ℕ) → Holds s c i → Holds s d i → c ≡ d
  pub kept :
      (i : ℕ)
      → i < s.next_file_idx
      → (s.dest i ≡ some (array_of outcomes i)) ⊎ ((c : Ptr) × Holds s c i)
  pub ended : (c : Ptr) → is_over (s.phase c) ≡ true → files_total outcomes ≤ s.next_file_idx
  pub bound : s.next_file_idx ≤ files_total outcomes

pub put_at-cases :
    {A : Type 0} (f : ℕ → A) (i : ℕ) (a : A) (j : ℕ)
    → ((j ≡ i) × (put_at f i a j ≡ a)) ⊎ ((j ≢ i) × (put_at f i a j ≡ f j))
put_at-cases f i a j = elim (Bool-cases (j == i)) [
  | inl e ↦ inl (ground arith, rw e refl)
  | inr e ↦ inr (ground arith, rw e refl)
]

module _ (outcomes : List Outcome) (s : Crew) (c : Ptr) (shared : IsShared outcomes s) where
  -- A coroutine whose claim stays the same: it sorts on, or ends with no file left.
  same-IsShared :
      (p : Phase)
      → claim_of p ≡ claim_of (s.phase c)
      → (is_over p ≡ true → files_total outcomes ≤ s.next_file_idx)
      → IsShared outcomes (at_phase outcomes c p s)
  same-IsShared p same finished = record {
    claimed = λ d i e. shared.claimed d i (sym (claims d) ∙ e);
    alone = λ d₁ d₂ i e₁ e₂. shared.alone d₁ d₂ i (sym (claims d₁) ∙ e₁) (sym (claims d₂) ∙ e₂);
    kept = λ i less. elim (shared.kept i less) [
      | inl stored ↦ inl stored
      | inr (d, e) ↦ inr (d, claims d ∙ e)
    ];
    ended = λ d e. elim (put_at-cases s.phase c p d) [
      | inl (here, eq) ↦ finished (ap is_over (sym eq) ∙ e)
      | inr (other, eq) ↦ shared.ended d (ap is_over (sym eq) ∙ e)
    ];
    bound = shared.bound;
  }
    where
      claims : (d : Ptr) → claim_of (put_at s.phase c p d) ≡ claim_of (s.phase d)
      claims d = elim (put_at-cases s.phase c p d) [
        | inl (here, eq) ↦ ap claim_of eq ∙ same ∙ ap (λ q. claim_of (s.phase q)) (sym here)
        | inr (other, eq) ↦ ap claim_of eq
      ]

  -- The array is stored.
  store_sorted-IsShared : (i : ℕ) → Holds s c i → IsShared outcomes (store_sorted outcomes c i s)
  store_sorted-IsShared i holds = record {
    claimed = λ d j e. elim (put_at-cases s.phase c claiming d) [
      | inl (here, eq) ↦ absurd (ground (arith, ap claim_of eq, e))
      | inr (other, eq) ↦ shared.claimed d j (sym (ap claim_of eq) ∙ e)
    ];
    alone = λ d₁ d₂ j e₁ e₂. elim (put_at-cases s.phase c claiming d₁) [
      | inl (here, eq) ↦ absurd (ground (arith, ap claim_of eq, e₁))
      | inr (other₁, eq₁) ↦ elim (put_at-cases s.phase c claiming d₂) [
        | inl (here, eq) ↦ absurd (ground (arith, ap claim_of eq, e₂))
        | inr (other₂, eq₂) ↦
            shared.alone d₁ d₂ j (sym (ap claim_of eq₁) ∙ e₁) (sym (ap claim_of eq₂) ∙ e₂)
      ]
    ];
    kept = λ j less. elim (put_at-cases s.dest i (some (array_of outcomes i)) j) [
      | inl (here, eq) ↦ inl (eq ∙ ap (λ k. some (array_of outcomes k)) (sym here))
      | inr (other, eq) ↦ elim (shared.kept j less) [
        | inl stored ↦ inl (eq ∙ stored)
        | inr (d, e) ↦ elim (put_at-cases s.phase c claiming d) [
          | inl (here, eq') ↦
              absurd (
                other
                  (let two = sym e ∙ ap (λ q. claim_of (s.phase q)) here ∙ holds in omega arith))
          | inr (other', eq') ↦ inr (d, ap claim_of eq' ∙ e)
        ]
      ]
    ];
    ended = λ d e. elim (put_at-cases s.phase c claiming d) [
      | inl (here, eq) ↦ absurd (ground (arith, ap is_over eq, e))
      | inr (other, eq) ↦ shared.ended d (ap is_over (sym eq) ∙ e)
    ];
    bound = shared.bound;
  }

  -- The next file is claimed.
  next-IsShared :
      (n : ℕ)
      → claim_of (s.phase c) ≡ 0
      → s.next_file_idx < files_total outcomes
      → IsShared outcomes (
          at_phase outcomes c
            (sorting s.next_file_idx n)
            (record s { next_file_idx = s.next_file_idx + 1 }))
  next-IsShared n idle less = record {
    claimed = λ d j e. elim (put_at-cases s.phase c (sorting s.next_file_idx n) d) [
      | inl (here, eq) ↦ let new = sym (ap claim_of eq) ∙ e in omega arith
      | inr (other, eq) ↦ let old = shared.claimed d j (sym (ap claim_of eq) ∙ e) in omega arith
    ];
    alone = λ d₁ d₂ j e₁ e₂. elim (put_at-cases s.phase c (sorting s.next_file_idx n) d₁) [
      | inl (here₁, eq₁) ↦ elim (put_at-cases s.phase c (sorting s.next_file_idx n) d₂) [
        | inl (here₂, eq₂) ↦ here₁ ∙ sym here₂
        | inr (other₂, eq₂) ↦
            let new = sym (ap claim_of eq₁) ∙ e₁ in
            let old = shared.claimed d₂ j (sym (ap claim_of eq₂) ∙ e₂) in absurd (omega arith)
      ]
      | inr (other₁, eq₁) ↦ elim (put_at-cases s.phase c (sorting s.next_file_idx n) d₂) [
        | inl (here₂, eq₂) ↦
            let new = sym (ap claim_of eq₂) ∙ e₂ in
            let old = shared.claimed d₁ j (sym (ap claim_of eq₁) ∙ e₁) in absurd (omega arith)
        | inr (other₂, eq₂) ↦
            shared.alone d₁ d₂ j (sym (ap claim_of eq₁) ∙ e₁) (sym (ap claim_of eq₂) ∙ e₂)
      ]
    ];
    kept = λ j less'. elim (Bool-cases (j == s.next_file_idx)) [
      | inl e ↦ elim (put_at-cases s.phase c (sorting s.next_file_idx n) c) [
        | inl (here, eq) ↦ inr (c, ap claim_of eq ∙ ap suc (ground arith))
        | inr (other, eq) ↦ absurd (other refl)
      ]
      | inr e ↦ elim (shared.kept j (ground (arith, less'))) [
        | inl stored ↦ inl stored
        | inr (d, held) ↦ elim (put_at-cases s.phase c (sorting s.next_file_idx n) d) [
          | inl (here, eq) ↦
              let two = sym held ∙ ap (λ q. claim_of (s.phase q)) here ∙ idle in
              absurd (omega arith)
          | inr (other, eq) ↦ inr (d, ap claim_of eq ∙ held)
        ]
      ]
    ];
    ended = λ d e. elim (put_at-cases s.phase c (sorting s.next_file_idx n) d) [
      | inl (here, eq) ↦ absurd (ground (arith, ap is_over eq, e))
      | inr (other, eq) ↦ let before = shared.ended d (ap is_over (sym eq) ∙ e) in omega arith
    ];
    bound = omega arith;
  }

module _ (outcomes : List Outcome) where
  claim-IsShared :
      (c : Ptr) (s : Crew)
      → IsShared outcomes s
      → claim_of (s.phase c) ≡ 0
      → IsShared outcomes (claim outcomes c s).1
  unfolding claim
  claim-IsShared c s shared idle = elim (Bool-cases (ltb s.next_file_idx (files_total outcomes))) [
    | inl more ↦ rw more (next-IsShared outcomes s c shared _ idle (ground arith))
    | inr no_more ↦ rw no_more (same-IsShared outcomes s c shared over (sym idle) λ e. ground arith)
  ]

  go_on-IsShared :
      (c : Ptr) (p : Phase) (s : Crew)
      → IsShared outcomes s
      → s.phase c ≡ p
      → IsShared outcomes (go_on outcomes c p s).1
  go_on-IsShared c claiming s shared e = claim-IsShared c s shared (ap claim_of e)
  go_on-IsShared c (sorting i zero) s shared e =
      claim-IsShared c (store_sorted outcomes c i s)
        (store_sorted-IsShared outcomes s c shared i (ap claim_of e))
        (elim (put_at-cases s.phase c claiming c) [
          | inl (here, eq) ↦ ap claim_of eq
          | inr (other, eq) ↦ absurd (other refl)
        ])
  go_on-IsShared c (sorting i (suc n)) s shared e =
      same-IsShared outcomes s c shared (sorting i n) (sym (ap claim_of e))
        λ never. absurd (ground arith)
  go_on-IsShared c over s shared e = shared

  pub Reach-IsShared : (s t : Crew) → IsShared outcomes s → Reach outcomes s t → IsShared outcomes t
  unfolding coroutine_func_f
  Reach-IsShared s t shared start = shared
  Reach-IsShared s t shared (next {t = u} c r) =
      go_on-IsShared c (u.phase c) u (Reach-IsShared s u shared r) refl

  -- Before the first coroutine runs.
  pub record IsStart (s : Crew) : Type 0 where
    pub next_file_idx : s.next_file_idx ≡ 0
    pub phase : (c : Ptr) → s.phase c ≡ claiming

  pub IsStart-IsShared : (s : Crew) → IsStart s → IsShared outcomes s
  IsStart-IsShared s begin = record {
    claimed = λ c i e. let none_yet = sym (ap claim_of (begin.phase c)) ∙ e in absurd (omega arith);
    alone = λ c d i e₁ e₂.
        let none_yet = sym (ap claim_of (begin.phase c)) ∙ e₁ in absurd (omega arith);
    kept = λ i less. absurd (omega (arith, begin.next_file_idx));
    ended = λ c e. absurd (ground (arith, sym (ap is_over (begin.phase c)) ∙ e));
    bound = omega (arith, begin.next_file_idx);
  }
