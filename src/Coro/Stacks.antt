-- ===== src/Coro/Stacks.antt =====
-- How `coro_new` of homework01/libcoro.c gives a coroutine a stack of its own: a signal handler
-- remembers its position on that stack, and then all changes to the process are rolled back.
use sysprog_labs_f.Base.{ℕ, ◌≡◌, Bool, true, false, Option, none, some, ◌==◌, if◌then◌else◌}
use sysprog_labs_f.Memory.Store.{Ptr, null}

-- `stack_t`, of whose flags only `SS_DISABLE` matters.
pub record Stack : Type 0 where
  pub ss_sp : Ptr
  pub ss_size : ℕ
  pub is_disabled : Bool

-- `struct sigaction` with an empty `sa_mask`, of whose flags only `SA_ONSTACK` matters.
pub record Sigaction : Type 0 where
  pub sa_handler : ℕ
  pub is_on_stack : Bool

-- The calls for SIGUSR2, as POSIX documents them: a call that succeeds changes what it is for, and
-- nothing else; `none` is a failure. `signal_stack` is the stack on which a delivered signal is
-- handled.
pub record System : Type 1 where
  pub Mask : Type 0
  pub State : Type 0
  pub mask : State → Mask
  pub action : State → Sigaction
  pub altstack : State → Stack
  pub blocking : Mask → Mask
  pub signal_stack : State → Ptr
  pub sigprocmask : Mask → State → Option State
  pub sigaction : Sigaction → State → Option State
  pub sigaltstack : Stack → State → Option State
  pub sigprocmask-mask :
      (m : Mask) (s t : State)
      → sigprocmask m s ≡ some t
      → (mask t ≡ m) × (action t ≡ action s) × (altstack t ≡ altstack s)
  pub sigaction-action :
      (a : Sigaction) (s t : State)
      → sigaction a s ≡ some t
      → (mask t ≡ mask s) × (action t ≡ a) × (altstack t ≡ altstack s)
  pub sigaltstack-altstack :
      (k : Stack) (s t : State)
      → sigaltstack k s ≡ some t
      → (mask t ≡ mask s) × (action t ≡ action s) × (altstack t ≡ k)
  pub signal_stack-altstack :
      (s : State)
      → (action s).is_on_stack ≡ true
      → (altstack s).is_disabled ≡ false
      → signal_stack s ≡ (altstack s).ss_sp

infixl 5 ◌>>=◌
abbrev ◌>>=◌ : {A B : Type 0} → Option A → (A → Option B) → Option B
none >>= f = none
some a >>= f = f a

module _ (system : System) where
  -- The process, which coroutine runs, and on which stack each coroutine goes on.
  pub record Process : Type 0 where
    pub signals : system.State
    pub coro_this_ptr : Ptr
    pub ctx : Ptr → Option Ptr

  abbrev pub update_ctx : (Ptr → Option Ptr) → Ptr → Ptr → Ptr → Option Ptr
  update_ctx ctx c stack p = if p == c then some stack else ctx p

  -- `coro_body` up to the jump to `start_point`, on the stack on which the signal is handled.
  unfoldable pub coro_body : Process → Process
  coro_body s =
      let c = s.coro_this_ptr in
      record s { coro_this_ptr = null; ctx = update_ctx s.ctx c (system.signal_stack s.signals) }

  -- A call that must not fail: `handle_error` ends the process.
  abbrev pub call : (system.State → Option system.State) → Process → Option Process
  call f s = do t ← f s.signals; some (record s { signals = t })

  -- The signal is raised and waited for. Its handler jumps back to `start_point`, which brings the
  -- mask back that was there.
  unfoldable pub handle_signal : Process → Option Process
  unfolding coro_body
  handle_signal s = call (system.sigprocmask (system.mask s.signals)) (coro_body s)

  -- `if ((oldst.ss_flags & SS_DISABLE) == 0 && sigaltstack(&oldst, NULL) != 0)`.
  unfoldable pub restore_stack : Stack → Process → Option Process
  restore_stack oldst s = if oldst.is_disabled then some s else call (system.sigaltstack oldst) s

  -- The roll-back.
  unfoldable pub roll_back : system.Mask → Sigaction → Stack → Ptr → Process → Option Process
  unfolding restore_stack
  roll_back olds oldsa oldst old_this s = do
    let newst = system.altstack s.signals
    s₁ ←
        call (system.sigaltstack (record newst { is_disabled = true }))
          (record s { coro_this_ptr = old_this })
    s₂ ← restore_stack oldst s₁
    s₃ ← call (system.sigaction oldsa) s₂
    call (system.sigprocmask olds) s₃

  -- The part of `coro_new` that is about signals, for the coroutine `c` and its memory `stack`.
  unfoldable pub remember_stack : ℕ → Ptr → Ptr → ℕ → Process → Option Process
  unfolding handle_signal roll_back
  remember_stack body c stack stack_size s = do
    let k = s.signals
    s₁ ← call (system.sigprocmask (system.blocking (system.mask k))) s
    s₂ ← call (system.sigaction (record { sa_handler = body; is_on_stack = true })) s₁
    s₃ ←
        call
          (system.sigaltstack (record { ss_sp = stack; ss_size = stack_size; is_disabled = false }))
          s₂
    s₄ ← handle_signal (record s₃ { coro_this_ptr = c })
    roll_back (system.mask k) (system.action k) (system.altstack k) s.coro_this_ptr s₄
