-- ===== src/ThreadPool/Delete.antt =====
-- When homework04/thread_pool.c deletes a task, and what is left then.
use sysprog_labs_f.Base.{
  ◌+◌, ◌-◌, ◌≡◌, ◌≢◌, refl, sym, ap, ◌∙◌, subst, Bool, true, false, ◌||◌, ◌&&◌, List, [], ◌∷◌, ◌++◌,
  length, none, some, arith, ◌==◌, if◌then◌else◌, Bool-cases, inl, inr,
}
use sysprog_labs_f.Memory.Store.{Ptr, null, Store, get, remove}
use sysprog_labs_f.Memory.Run.{ok}
use sysprog_labs_f.Memory.Chain.{Cell, first, last, ◌∈◌, ◌∉◌, Seg}
use sysprog_labs_f.ThreadPool.State.{Tp, Task, TpTask, success}
use sysprog_labs_f.ThreadPool.Tasks.{
  is_removable, all_removable, remove_tp_task, remove_tp_tasks, delete_task,
}
use sysprog_labs_f.ThreadPool.Pool.{Entry, mk_task, Entries, load_task-ok, load_tp_task-ok}
use sysprog_labs_f.ThreadPool.Take.{shaped}
use sysprog_labs_f.ThreadPool.Remove.{remove_lem, apart_all}

-- `xs` without the task at `q`.
unfoldable pub drop_at : Ptr → Entries → Entries
drop_at q [] = []
drop_at q (c ∷ xs) = let rest = drop_at q xs in if c.at == q then xs else c ∷ rest

unfoldable pub without : List Ptr → Entries → Entries
without [] xs = xs
without (q ∷ qs) xs = without qs (drop_at q xs)

abbrev pub among : Ptr → List Ptr → Bool
among q [] = false
among q (p ∷ ps) = (p == q) || among q ps

-- The addresses are those of distinct tasks of the pool.
abbrev pub IsOwned : List Ptr → Entries → Type 0
IsOwned [] xs = Unit {0}
IsOwned (q ∷ qs) xs = (q ∈ xs) × (among q qs ≡ false) × IsOwned qs xs

abbrev pub removable_at : Ptr → Entries → Bool
removable_at q [] = false
removable_at q (c ∷ xs) =
    if c.at == q then is_removable (mk_task c.datum null null) else removable_at q xs

-- Each task at these addresses is joined, or detached and finished.
abbrev pub all_removable_at : List Ptr → Entries → Bool
all_removable_at [] xs = true
all_removable_at (q ∷ qs) xs = removable_at q xs && all_removable_at qs xs

-- A list, taken apart at `q`.
record Split (q : Ptr) (xs : Entries) : Type 0 where
  before : Entries
  at : Cell Entry
  behind : Entries
  eq : xs ≡ before ++ at ∷ behind
  at-eq : at.at ≡ q
  rest : drop_at q xs ≡ before ++ behind

split : (q : Ptr) (xs : Entries) → q ∈ xs → Split q xs
unfolding drop_at
split q [] i = absurd (ground arith)
split q (c ∷ xs) i = elim (Bool-cases (c.at == q)) [
  | inl here ↦ record {
    before = [];
    at = c;
    behind = xs;
    eq = refl;
    at-eq = ground arith;
    rest = rw here refl;
  }
  | inr out ↦
      let r = split q xs (ground arith) in
      record {
        before = c ∷ r.before;
        at = r.at;
        behind = r.behind;
        eq = ap (λ l. c ∷ l) r.eq;
        at-eq = r.at-eq;
        rest = rw out (ap (λ l. c ∷ l) r.rest);
      }
]

length-drop_at : (q : Ptr) (xs : Entries) → q ∈ xs → length xs ≡ length (drop_at q xs) + 1
unfolding drop_at
length-drop_at q [] i = absurd (ground arith)
length-drop_at q (c ∷ xs) i = ground (arith, length-drop_at q xs)

mem-drop_at : (q a : Ptr) (xs : Entries) → (a == q) ≡ false → a ∈ xs → a ∈ drop_at q xs
unfolding drop_at
mem-drop_at q a [] ne i = i
mem-drop_at q a (c ∷ xs) ne i = ground (arith, mem-drop_at q a xs ne)

not-mem-drop_at : (q a : Ptr) (xs : Entries) → a ∉ xs → a ∉ drop_at q xs
unfolding drop_at
not-mem-drop_at q a [] out = out
not-mem-drop_at q a (c ∷ xs) out = ground (arith, not-mem-drop_at q a xs)

IsOwned-drop_at :
    (q : Ptr) (qs : List Ptr) (xs : Entries)
    → among q qs ≡ false
    → IsOwned qs xs
    → IsOwned qs (drop_at q xs)
IsOwned-drop_at q [] xs out own = tt
IsOwned-drop_at q (p ∷ ps) xs out own =
    (mem-drop_at q p xs (ground arith) own.0, own.1, IsOwned-drop_at q ps xs (ground arith) own.2)

pub length-without :
    (qs : List Ptr) (xs : Entries) → IsOwned qs xs → length xs - length qs ≡ length (without qs xs)
unfolding without
length-without [] xs own = omega arith
length-without (q ∷ qs) xs own =
    let shorter = length-drop_at q xs own.0 in
    let rest = length-without qs (drop_at q xs) (IsOwned-drop_at q qs xs own.1 own.2) in omega arith

-- The state with the list `xs` of the pool.
abbrev pub holding : Entries → Store TpTask → Tp → Tp
holding xs h s = shaped (first xs null) (last null xs) h s

pub remove_at :
    (s : Tp) (h : Store TpTask) (q : Ptr) (xs : Entries)
    → q ∈ xs
    → Seg mk_task h null xs null
    → (g : Store TpTask) × (remove_tp_task q (holding xs h s) ≡ ok tt (holding (drop_at q xs) g s))
      × Seg mk_task g null (drop_at q xs) null
      × ((a : Ptr) → a ∉ drop_at q xs → get a g ≡ (if q == a then none else get a h))
      × (q ∉ drop_at q xs)
remove_at s h q xs i chain =
    let r = split q xs i in
    let (g, eq, chain₁, freed) =
      remove_lem s h r.at r.before r.behind (subst (λ l. Seg mk_task h null l null) r.eq chain) in
    (
      g,
      ap (λ l. remove_tp_task q (holding l h s)) r.eq
          ∙ ap (λ p. remove_tp_task p (holding (r.before ++ r.at ∷ r.behind) h s)) (sym r.at-eq)
          ∙ eq
          ∙ ap (λ l. ok tt (holding l g s)) (sym r.rest),
      subst (λ l. Seg mk_task g null l null) (sym r.rest) chain₁,
      λ a out.
          freed a (subst (λ l. a ∉ l) r.rest out)
          ∙ ap (λ p. if p == a then none else get a h) r.at-eq,
      subst (λ p. p ∉ drop_at q xs) r.at-eq
          (subst (λ l. r.at.at ∉ l) (sym r.rest)
            (apart_all h r.at r.before r.behind
              (subst (λ l. Seg mk_task h null l null) r.eq chain))),
    )

-- What the second loop leaves in memory: the tasks are freed, and nothing is allocated.
record Freed (qs : List Ptr) (xs : Entries) (h g : Store TpTask) : Type 0 where
  gone : (a : Ptr) → among a qs ≡ true → get a g ≡ none
  no_new : (a : Ptr) → a ∉ xs → get a h ≡ none → get a g ≡ none

-- The second loop.
remove_tp_tasks_lem :
    (s : Tp) (h : Store TpTask) (qs : List Ptr) (xs : Entries)
    → IsOwned qs xs
    → Seg mk_task h null xs null
    → (g : Store TpTask) × (remove_tp_tasks qs (holding xs h s)
        ≡ ok tt (holding (without qs xs) g s))
      × Seg mk_task g null (without qs xs) null
      × Freed qs xs h g
unfolding remove_tp_tasks without
remove_tp_tasks_lem s h [] xs own chain =
    (h, refl, chain, record { gone = λ a i. absurd (ground arith); no_new = λ a out none. none })
remove_tp_tasks_lem s h (q ∷ qs) xs own chain =
    let (g, eq, chain₁, freed, out) = remove_at s h q xs own.0 chain in
    let (k, eq₂, chain₂, rest) =
      remove_tp_tasks_lem s g qs (drop_at q xs) (IsOwned-drop_at q qs xs own.1 own.2) chain₁ in
    let q_gone : get q k ≡ none = rest.no_new q out (ground (arith, freed q out)) in
    (
      k,
      rw (eq, eq₂) refl,
      chain₂,
      record {
        gone = λ a i. elim (Bool-cases (q == a)) [
          | inl same ↦ subst (λ p. get p k ≡ none) (ground arith) q_gone
          | inr other ↦ rest.gone a (ground arith)
        ];
        no_new = λ a away unused.
            let there = not-mem-drop_at q a xs away in
            rest.no_new a there (ground (arith, freed a there));
      },
    )

pub get-removable_at :
    (h : Store TpTask) (prev q : Ptr) (xs : Entries)
    → q ∈ xs
    → Seg mk_task h prev xs null
    → (q ≢ null) × (x : TpTask) × (get q h ≡ some x) × (is_removable x ≡ removable_at q xs)
get-removable_at h prev q [] i chain = absurd (ground arith)
get-removable_at h prev q (c ∷ xs) i chain = elim (Bool-cases (c.at == q)) [
  | inl here ↦
      let same : c.at ≡ q = ground arith in
      (ground (arith, chain.0), _, ap (λ p. get p h) (sym same) ∙ chain.1, rw here refl)
  | inr out ↦
      let r = get-removable_at h c.at q xs (ground arith) chain.3 in
      (r.0, r.1, r.2, r.3 ∙ rw out refl)
]

-- The first loop.
pub all_removable_lem :
    (s : Tp) (qs : List Ptr) (xs : Entries)
    → IsOwned qs xs
    → Seg mk_task s.tp_tasks null xs null
    → all_removable qs s ≡ ok (all_removable_at qs xs) s
unfolding all_removable
all_removable_lem s [] xs own chain = refl
all_removable_lem s (q ∷ qs) xs own chain =
    let r = get-removable_at s.tp_tasks null q xs own.0 chain in
    let rest = all_removable_lem s qs xs own.2 chain in
    elim (Bool-cases (removable_at q xs)) [
      | inl good ↦ rw (load_tp_task-ok s q r.0 r.1 r.2, r.3, good) rest
      | inr bad ↦ rw (load_tp_task-ok s q r.0 r.1 r.2, r.3, bad) refl
    ]

pub head-null :
    (h : Store TpTask) (q : Ptr) (xs : Entries)
    → q ∈ xs
    → Seg mk_task h null xs null
    → (q == null) ≡ false
head-null h q xs i chain = let r = get-removable_at h null q xs i chain in ground (arith, r.0)

pub delete_task_lem :
    (s : Tp) (h : Store TpTask) (task : Ptr) (t : Task) (q : Ptr) (qs : List Ptr) (xs : Entries)
    → task ≢ null
    → get task s.tasks ≡ some t
    → t.list ≡ q ∷ qs
    → IsOwned (q ∷ qs) xs
    → Seg mk_task h null xs null
    → all_removable_at (q ∷ qs) xs ≡ true
    → (g : Store TpTask) × (delete_task task (holding xs h s)
        ≡ ok success (record (holding (without (q ∷ qs) xs) g s) {
          tasks = remove task s.tasks;
          tasks_cnt = s.tasks_cnt - length (q ∷ qs);
        }))
      × Seg mk_task g null (without (q ∷ qs) xs) null
      × ((a : Ptr) → among a (q ∷ qs) ≡ true → get a g ≡ none)
unfolding delete_task
delete_task_lem s h task t q qs xs ne at list own chain good =
    let (g, eq, chain₁, freed) = remove_tp_tasks_lem s h (q ∷ qs) xs own chain in
    (
      g,
      rw
          (
            load_task-ok (holding xs h s) task ne t at,
            list,
            head-null h q xs own.0 chain,
            all_removable_lem (holding xs h s) (q ∷ qs) xs own chain,
            good,
            eq,
          )
          refl,
      chain₁,
      freed.gone,
    )
