-- ===== src/Coro/StackLaws.antt =====
-- The signal handling of homework01/libcoro.c leaves nothing behind but the coroutine's position.
use sysprog_labs_f.Base.{
  ℕ, ◌≡◌, ◌≢◌, refl, ap, ◌∙◌, true, false, Option, some, arith, ◌⊎◌, inl, inr, Bool-cases,
}
use sysprog_labs_f.Memory.Store.{Ptr, null}
use sysprog_labs_f.Coro.Stacks.{
  Stack, Sigaction, System, Process, coro_body, update_ctx, handle_signal, restore_stack, roll_back,
  remember_stack,
}

-- No call fails, so that the process is not ended.
pub record Works (system : System) : Type 0 where
  pub sigprocmask :
      (m : system.Mask) (s : system.State) → (t : system.State) × (system.sigprocmask m s ≡ some t)
  pub sigaction :
      (a : Sigaction) (s : system.State) → (t : system.State) × (system.sigaction a s ≡ some t)
  pub sigaltstack :
      (k : Stack) (s : system.State) → (t : system.State) × (system.sigaltstack k s ≡ some t)

-- What the caller sees: all is as before, and `c` goes on on its own stack.
pub record IsRolledBack (system : System) (s : Process system) (c stack : Ptr) (t : Process system)
    : Type 0 where
  pub mask : system.mask t.signals ≡ system.mask s.signals
  pub action : system.action t.signals ≡ system.action s.signals
  pub altstack :
      (system.altstack t.signals ≡ system.altstack s.signals)
      ⊎ (((system.altstack s.signals).is_disabled ≡ true)
          × ((system.altstack t.signals).is_disabled ≡ true))
  pub this : t.coro_this_ptr ≡ s.coro_this_ptr
  pub remembered : t.ctx c ≡ some stack
  pub others : (p : Ptr) → p ≢ c → t.ctx p ≡ s.ctx p

module _ (system : System) (ctx : Ptr → Option Ptr) (c stack : Ptr) where
  update_ctx_self : update_ctx system ctx c stack c ≡ some stack
  update_ctx_self = ground arith

  update_ctx_other : (p : Ptr) → p ≢ c → update_ctx system ctx c stack p ≡ ctx p
  update_ctx_other p other = ground (arith, other)

module _ (system : System) (works : Works system) where
  -- The stack is restored, or was disabled and is so again.
  restore_stack_lem :
      (old : Stack) (s : Process system)
      → (system.altstack s.signals).is_disabled ≡ true
      → (k : system.State) × (restore_stack system old s ≡ some (record s { signals = k }))
        × (system.mask k ≡ system.mask s.signals)
        × (system.action k ≡ system.action s.signals)
        × ((system.altstack k ≡ old)
            ⊎ ((old.is_disabled ≡ true) × ((system.altstack k).is_disabled ≡ true)))
  unfolding restore_stack
  restore_stack_lem old s off = elim (Bool-cases old.is_disabled) [
    | inl disabled ↦ (s.signals, rw disabled refl, refl, refl, inr (disabled, off))
    | inr in_use ↦
        let (k, e) = works.sigaltstack old s.signals in
        let (m, a, l) = system.sigaltstack-altstack old s.signals k e in
        (k, rw (e, in_use) refl, m, a, inl l)
  ]

  pub roll_back_lem :
      (olds : system.Mask) (oldsa : Sigaction) (oldst : Stack) (old_this : Ptr) (s : Process system)
      → (k : system.State) × (roll_back system olds oldsa oldst old_this s
          ≡ some (record s { signals = k; coro_this_ptr = old_this }))
        × (system.mask k ≡ olds)
        × (system.action k ≡ oldsa)
        × ((system.altstack k ≡ oldst)
            ⊎ ((oldst.is_disabled ≡ true) × ((system.altstack k).is_disabled ≡ true)))
  unfolding roll_back
  roll_back_lem olds oldsa oldst old_this s =
      let off = record (system.altstack s.signals) { is_disabled = true } in
      let (k₁, e₁) = works.sigaltstack off s.signals in
      let (m₁, a₁, l₁) = system.sigaltstack-altstack off s.signals k₁ e₁ in
      let s₁ : Process system = record s { signals = k₁; coro_this_ptr = old_this } in
      let (k₂, e₂, m₂, a₂, l₂) =
        restore_stack_lem oldst s₁ (ap (λ (l : Stack). l.is_disabled) l₁) in
      let (k₃, e₃) = works.sigaction oldsa k₂ in
      let (m₃, a₃, l₃) = system.sigaction-action oldsa k₂ k₃ e₃ in
      let (k, e) = works.sigprocmask olds k₃ in
      let (m, a, l) = system.sigprocmask-mask olds k₃ k e in
      (
        k,
        rw (e₁, e₂, e₃, e) refl,
        m,
        a ∙ a₃,
        elim l₂ [
          | inl back ↦ inl (l ∙ l₃ ∙ back)
          | inr (was, is) ↦ inr (was, ap (λ (x : Stack). x.is_disabled) (l ∙ l₃) ∙ is)
        ],
      )

  -- If no call about signals fails, `coro_new` remembers a position of the new coroutine on the
  -- stack that it was given, and leaves behind nothing else: the signal mask, the handler of
  -- SIGUSR2, the running coroutine and the positions of the other coroutines are as before, and so
  -- is the signal stack, except that one which was disabled is only disabled again.
  pub remember_stack_lem :
      (body : ℕ) (c stack : Ptr) (stack_size : ℕ) (s : Process system)
      → (t : Process system) × (remember_stack system body c stack stack_size s ≡ some t)
        × IsRolledBack system s c stack t
  unfolding remember_stack handle_signal coro_body
  remember_stack_lem body c stack stack_size s =
      let k = s.signals in
      let own : Stack = record { ss_sp = stack; ss_size = stack_size; is_disabled = false } in
      let handler : Sigaction = record { sa_handler = body; is_on_stack = true } in
      let (k₁, e₁) = works.sigprocmask (system.blocking (system.mask k)) k in
      let (k₂, e₂) = works.sigaction handler k₁ in
      let (m₂, a₂, l₂) = system.sigaction-action handler k₁ k₂ e₂ in
      let (k₃, e₃) = works.sigaltstack own k₂ in
      let (m₃, a₃, l₃) = system.sigaltstack-altstack own k₂ k₃ e₃ in
      let on_stack : system.signal_stack k₃ ≡ stack =
        system.signal_stack-altstack k₃ (ap (λ (x : Sigaction). x.is_on_stack) (a₃ ∙ a₂))
          (ap (λ (x : Stack). x.is_disabled) l₃)
        ∙ ap (λ (x : Stack). x.ss_sp) l₃ in
      let (k₄, e₄) = works.sigprocmask (system.mask k₃) k₃ in
      let ctx = update_ctx system s.ctx c (system.signal_stack k₃) in
      let s₄ : Process system = record s { signals = k₄; coro_this_ptr = null; ctx = ctx } in
      let (k₅, e₅, m₅, a₅, l₅) =
        roll_back_lem (system.mask k) (system.action k) (system.altstack k) s.coro_this_ptr s₄ in
      (
        record s { signals = k₅; ctx = ctx },
        rw (e₁, e₂, e₃, e₄, e₅) refl,
        record {
          mask = m₅;
          action = a₅;
          altstack = l₅;
          this = refl;
          remembered = update_ctx_self system s.ctx c (system.signal_stack k₃) ∙ ap some on_stack;
          others = λ p other. update_ctx_other system s.ctx c (system.signal_stack k₃) p other;
        },
      )
