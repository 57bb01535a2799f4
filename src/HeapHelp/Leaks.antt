-- ===== src/HeapHelp/Leaks.antt =====
-- What the report of utils/heap_help/heap_help.c counts.
use mathlib.Core.List.{append_assoc, append-nil}
use sysprog_labs_f.Base.{
  Option, ℕ, ◌+◌, ◌-◌, ◌≤◌, ◌≡◌, refl, sym, ap, ◌∙◌, subst, Bool, true, false, not, ◌&&◌, List, [],
  ◌∷◌, ◌++◌, map, ◌==◌, ltb, if◌then◌else◌, length, min, arith, Bool-cases, inl, inr,
}
use sysprog_labs_f.Memory.Store.{Ptr}
use sysprog_labs_f.Memory.Run.{Returns, returns, Returns-and_then, Returns-weaken}
use sysprog_labs_f.HeapHelp.State.{Allocation}
use sysprog_labs_f.HeapHelp.Report.{
  Symbol, trace_resolve, symbols, failures, trace_is_internal, Line, leak_of, Tally, report_limit,
  report_leak, report_round, report_loop,
}

-- An allocation with a recorded stack, no symbol of which is internal to the C library.
unfoldable pub is_leak : (Ptr → Option Symbol) → Allocation → Bool
is_leak resolve a = not (a.trace_size == 0) && not (trace_is_internal (symbols resolve a))

unfoldable pub leaks_of : (Ptr → Option Symbol) → List Allocation → List Allocation
leaks_of resolve [] = []
leaks_of resolve (a ∷ rest) =
    if is_leak resolve a then a ∷ leaks_of resolve rest else leaks_of resolve rest

unfoldable pub total_size : List Allocation → ℕ
total_size [] = 0
total_size (a ∷ rest) = a.size + total_size rest

-- What the loop should print once `n` leaks are: for each allocation a line for each address of its
-- stack without a symbol, and then, for a leak, the next number, the size and the names of its stack,
-- as long as `report_limit` is not reached.
unfoldable pub printed : (Ptr → Option Symbol) → ℕ → List Allocation → List Line
printed resolve n [] = []
printed resolve n (a ∷ rest) =
    let same = printed resolve n rest in
    let more = printed resolve (n + 1) rest in
    failures resolve a
    ++ (if is_leak resolve a && ltb n report_limit
        then leak_of (n + 1) a.size (map (λ sym. sym.name) (symbols resolve a)) ∷ more
        else same)

-- The tally with the leaks `ls` added, and `hidden` other entries taken off the count.
pub record Tallied (resolve : Ptr → Option Symbol) (t : Tally) (live : List Allocation) (u : Tally)
    : Type 0 where
  pub count : u.count + length live ≡ t.count + length (leaks_of resolve live)
  pub report_count :
      u.report_count ≡ min report_limit (t.report_count + length (leaks_of resolve live))
  pub leak_size : u.leak_size ≡ t.leak_size + total_size (leaks_of resolve live)
  pub lines : u.lines ≡ t.lines ++ printed resolve t.report_count live

failures-untraced :
    (resolve : Ptr → Option Symbol) (a : Allocation)
    → (a.trace_size == 0) ≡ true
    → failures resolve a ≡ []
unfolding trace_resolve
failures-untraced resolve a untraced = let e : a.trace_size ≡ 0 = ground arith in rw e refl

hidden_round :
    (resolve : Ptr → Option Symbol) (a : Allocation) (t : Tally)
    → is_leak resolve a ≡ false
    → ltb 0 t.count ≡ true
    → Returns
        (λ _ u. u ≡ record t { count = t.count - 1; lines = t.lines ++ failures resolve a })
        (report_round resolve a t)
unfolding is_leak report_round
hidden_round resolve a t hidden positive = elim (Bool-cases (a.trace_size == 0)) [
  | inl untraced ↦
      let e : failures resolve a ≡ [] = failures-untraced resolve a untraced in
      rw (positive, untraced)
        (returns λ i. record t {
          count = t.count - 1;
          lines = (sym (append-nil t.lines) ∙ ap (λ l. t.lines ++ l) (sym e)) i;
        })
  | inr traced ↦
      let internal : trace_is_internal (symbols resolve a) ≡ true = ground arith in
      rw (positive, traced, internal) (returns refl)
]

leak_round :
    (resolve : Ptr → Option Symbol) (a : Allocation) (t : Tally)
    → is_leak resolve a ≡ true
    → ltb 0 t.count ≡ true
    → Returns
        (λ _ u.
          u
          ≡ record (report_leak
              (symbols resolve a)
              a
              (record t { lines = t.lines ++ failures resolve a })) {
                leak_size = t.leak_size + a.size;
              })
        (report_round resolve a t)
unfolding is_leak report_round report_leak
leak_round resolve a t leak positive =
    let traced : (a.trace_size == 0) ≡ false = ground arith in
    let outer : trace_is_internal (symbols resolve a) ≡ false = ground arith in
    elim (Bool-cases (ltb t.report_count report_limit)) [
      | inl more ↦ rw (positive, traced, outer, more) (returns refl)
      | inr full ↦ rw (positive, traced, outer, full) (returns refl)
    ]

leaks_of-hidden :
    (resolve : Ptr → Option Symbol) (a : Allocation) (rest : List Allocation)
    → is_leak resolve a ≡ false
    → leaks_of resolve (a ∷ rest) ≡ leaks_of resolve rest
unfolding leaks_of
leaks_of-hidden resolve a rest e = rw e refl

leaks_of-leak :
    (resolve : Ptr → Option Symbol) (a : Allocation) (rest : List Allocation)
    → is_leak resolve a ≡ true
    → leaks_of resolve (a ∷ rest) ≡ a ∷ leaks_of resolve rest
unfolding leaks_of
leaks_of-leak resolve a rest e = rw e refl

Tallied-hidden :
    (resolve : Ptr → Option Symbol) (a : Allocation) (rest : List Allocation) (t u : Tally)
    → is_leak resolve a ≡ false
    → ltb 0 t.count ≡ true
    → Tallied resolve
        (record t { count = t.count - 1; lines = t.lines ++ failures resolve a })
        rest
        u
    → Tallied resolve t (a ∷ rest) u
unfolding printed
Tallied-hidden resolve a rest t u hidden positive w =
    let e = leaks_of-hidden resolve a rest hidden in
    let before : 1 ≤ t.count = ground arith in
    record {
      count = rw e (let c = w.count in omega arith);
      report_count = rw e w.report_count;
      leak_size = rw e w.leak_size;
      lines = rw hidden (w.lines ∙ append_assoc t.lines (failures resolve a) _);
    }

Tallied-leak :
    (resolve : Ptr → Option Symbol) (a : Allocation) (rest : List Allocation) (t u : Tally)
    → is_leak resolve a ≡ true
    → t.report_count ≤ report_limit
    → Tallied resolve
        (record (report_leak
          (symbols resolve a)
          a
          (record t { lines = t.lines ++ failures resolve a })) {
            leak_size = t.leak_size + a.size;
          })
        rest
        u
    → Tallied resolve t (a ∷ rest) u
unfolding report_leak total_size printed
Tallied-leak resolve a rest t u leak bound =
    let e = leaks_of-leak resolve a rest leak in
    elim (Bool-cases (ltb t.report_count report_limit)) [
      | inl more ↦
          let below : t.report_count + 1 ≤ report_limit = ground arith in
          rw more λ w. record {
            count = rw e (let c = w.count in omega arith);
            report_count = rw e (let c = w.report_count in omega arith);
            leak_size = rw e (let c = w.leak_size in omega arith);
            lines =
                rw (leak, more)
                  (w.lines
                    ∙ append_assoc (t.lines ++ failures resolve a) (_ ∷ []) _
                    ∙ append_assoc t.lines (failures resolve a) _);
          }
      | inr full ↦
          let above : t.report_count ≡ report_limit = ground arith in
          rw full λ w. record {
            count = rw e (let c = w.count in omega arith);
            report_count = rw e (let c = w.report_count in omega arith);
            leak_size = rw e (let c = w.leak_size in omega arith);
            lines = rw (leak, full) (w.lines ∙ append_assoc t.lines (failures resolve a) _);
          }
    ]

report_leak-count :
    (syms : List Symbol) (a : Allocation) (t : Tally) → (report_leak syms a t).count ≡ t.count
unfolding report_leak
report_leak-count syms a t = elim (Bool-cases (ltb t.report_count report_limit)) [
  | inl more ↦ rw more refl
  | inr full ↦ rw full refl
]

report_leak-bound :
    (syms : List Symbol) (a : Allocation) (t : Tally)
    → t.report_count ≤ report_limit
    → (report_leak syms a t).report_count ≤ report_limit
unfolding report_leak
report_leak-bound syms a t bound = elim (Bool-cases (ltb t.report_count report_limit)) [
  | inl more ↦ rw more (ground arith)
  | inr full ↦ rw full bound
]

pub report_loop_lem :
    (resolve : Ptr → Option Symbol) (live : List Allocation) (t : Tally)
    → length live ≤ t.count
    → t.report_count ≤ report_limit
    → Returns (λ _ u. Tallied resolve t live u) (report_loop resolve live t)
unfolding report_loop leaks_of total_size printed
report_loop_lem resolve [] t enough bound = returns record {
  count = refl;
  report_count = omega arith;
  leak_size = omega arith;
  lines = sym (append-nil t.lines);
}
report_loop_lem resolve (a ∷ rest) t enough bound =
    let positive : ltb 0 t.count ≡ true = ground arith in
    elim (Bool-cases (is_leak resolve a)) [
      | inl leak ↦ Returns-and_then (leak_round resolve a t leak positive) λ _ v e.
          subst (λ w. Returns (λ _ u. Tallied resolve t (a ∷ rest) u) (report_loop resolve rest w))
            (sym e)
            (Returns-weaken
              (report_loop_lem resolve rest
                (record (report_leak (symbols resolve a) a
                  (record t { lines = t.lines ++ failures resolve a })) {
                    leak_size = t.leak_size + a.size;
                  })
                (rw
                  (report_leak-count (symbols resolve a) a
                    (record t { lines = t.lines ++ failures resolve a }))
                  (omega arith))
                (report_leak-bound (symbols resolve a) a
                  (record t { lines = t.lines ++ failures resolve a }) bound))
              λ _ u w. Tallied-leak resolve a rest t u leak bound w)
      | inr hidden ↦ Returns-and_then (hidden_round resolve a t hidden positive) λ _ v e.
          subst (λ w. Returns (λ _ u. Tallied resolve t (a ∷ rest) u) (report_loop resolve rest w))
            (sym e)
            (Returns-weaken
              (report_loop_lem resolve rest
                (record t { count = t.count - 1; lines = t.lines ++ failures resolve a })
                (omega arith) bound)
              λ _ u w. Tallied-hidden resolve a rest t u hidden positive w)
    ]
