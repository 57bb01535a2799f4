-- ===== src/Sorter/Claims.antt =====
-- `coroutine_func_f` of homework01/solution.c: coroutines that share a list of files. A coroutine goes
-- on from one `coro_yield` to the next, and what it does is given for coroutines that take turns in
-- any order. `outcomes` is what reading and sorting each file gives.
use sysprog_labs_f.Base.{
  ℕ, zero, suc, ◌+◌, ◌-◌, List, [], ◌∷◌, Option, some, length, ltb, ◌==◌, if◌then◌else◌,
}
use sysprog_labs_f.Base.Int.{ℤ, pos}
use sysprog_labs_f.Memory.Store.{Ptr}
use sysprog_labs_f.Sorter.Sort.{Outcome, get_sorted_numbers, ◌>>=◌}
use sysprog_labs_f.Coro.State.{Action, yields, gives}

-- Where a coroutine is: at the test of its loop, in the sort of a file with so many yields to come, or
-- at its end.
pub data Phase : Type 0 where
  claiming : Phase
  sorting : ℕ → ℕ → Phase
  over : Phase

-- What the coroutines share, and where each is. A destination that is not written yet is `none`.
pub record Crew : Type 0 where
  pub next_file_idx : ℕ
  pub dest : ℕ → Option (List ℤ)
  pub phase : Ptr → Phase

abbrev pub put_at : {A : Type 0} → (ℕ → A) → ℕ → A → ℕ → A
put_at f i a j = if j == i then a else f j

abbrev pub outcome_at : List Outcome → ℕ → Outcome
outcome_at [] i = record { array = []; yields = 0 }
outcome_at (o ∷ os) zero = o
outcome_at (o ∷ os) (suc i) = outcome_at os i

-- What sorting the array that was read from each file gives.
unfoldable pub sort_files : List (List ℤ) → Option (List Outcome)
sort_files [] = some []
sort_files (numbers ∷ rest) = do
  o ← get_sorted_numbers (length numbers) numbers
  os ← sort_files rest
  some (o ∷ os)

module _ (outcomes : List Outcome) where
  abbrev pub files_total : ℕ
  files_total = length outcomes

  abbrev pub array_of : ℕ → List ℤ
  array_of i = (outcome_at outcomes i).array

  abbrev pub at_phase : Ptr → Phase → Crew → Crew
  at_phase c p s = record s { phase = put_at s.phase c p }

  -- The test of the loop, and with a file left the way to the first yield of its sort.
  unfoldable pub claim : Ptr → Crew → Action × Crew
  claim c s =
      let i = s.next_file_idx in
      if ltb i files_total
      then (
        yields,
        at_phase c (sorting i ((outcome_at outcomes i).yields - 1))
            (record s { next_file_idx = i + 1 }),
      )
      else (gives (pos 0), at_phase c over s)

  -- The sorted array is stored, and the coroutine is back at the head of its loop.
  abbrev pub store_sorted : Ptr → ℕ → Crew → Crew
  store_sorted c i s = at_phase c claiming (record s { dest = put_at s.dest i (some (array_of i)) })

  abbrev pub go_on : Ptr → Phase → Crew → Action × Crew
  go_on c claiming s = claim c s
  go_on c (sorting i zero) s = claim c (store_sorted c i s)
  go_on c (sorting i (suc n)) s = (yields, at_phase c (sorting i n) s)
  go_on c over s = (gives (pos 0), s)

  unfoldable pub coroutine_func_f : Ptr → Crew → Action × Crew
  unfolding claim
  coroutine_func_f c s = go_on c (s.phase c) s

  -- The states that coroutines reach that take turns in any order.
  pub data Reach (s : Crew) : Crew → Type 0 where
    start : Reach s s
    next : {t : Crew} (c : Ptr) → Reach s t → Reach s (coroutine_func_f c t).1
