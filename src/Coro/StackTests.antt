-- ===== src/Coro/StackTests.antt =====
-- The signal handling of homework01/libcoro.c with a system that keeps what it is told.
use sysprog_labs_f.Base.{
  ◌≡◌, refl, sym, ap, Bool, true, false, not, ◌&&◌, none, some, some-eq, if◌then◌else◌, arith,
}
use sysprog_labs_f.Memory.Store.{Ptr, null}
use sysprog_labs_f.Coro.Stacks.{Stack, Sigaction, System, Process, remember_stack}
use sysprog_labs_f.Coro.StackLaws.{Works, IsRolledBack, remember_stack_lem}

-- The mask says whether SIGUSR2 is blocked.
record Signals : Type 0 where
  mask : Bool
  action : Sigaction
  altstack : Stack

abbrev chosen_stack : Signals → Ptr
chosen_stack s =
    if s.action.is_on_stack && not s.altstack.is_disabled then s.altstack.ss_sp else null

mask_set :
    (m : Bool) (s t : Signals)
    → some (record s { mask = m }) ≡ some t
    → (t.mask ≡ m) × (t.action ≡ s.action) × (t.altstack ≡ s.altstack)
mask_set m s t e =
    let same = sym (some-eq (record s { mask = m }) t e) in
    (
      ap (λ (u : Signals). u.mask) same,
      ap (λ (u : Signals). u.action) same,
      ap (λ (u : Signals). u.altstack) same,
    )

action_set :
    (a : Sigaction) (s t : Signals)
    → some (record s { action = a }) ≡ some t
    → (t.mask ≡ s.mask) × (t.action ≡ a) × (t.altstack ≡ s.altstack)
action_set a s t e =
    let same = sym (some-eq (record s { action = a }) t e) in
    (
      ap (λ (u : Signals). u.mask) same,
      ap (λ (u : Signals). u.action) same,
      ap (λ (u : Signals). u.altstack) same,
    )

altstack_set :
    (k : Stack) (s t : Signals)
    → some (record s { altstack = k }) ≡ some t
    → (t.mask ≡ s.mask) × (t.action ≡ s.action) × (t.altstack ≡ k)
altstack_set k s t e =
    let same = sym (some-eq (record s { altstack = k }) t e) in
    (
      ap (λ (u : Signals). u.mask) same,
      ap (λ (u : Signals). u.action) same,
      ap (λ (u : Signals). u.altstack) same,
    )

chosen_stack_lem :
    (s : Signals)
    → s.action.is_on_stack ≡ true
    → s.altstack.is_disabled ≡ false
    → chosen_stack s ≡ s.altstack.ss_sp
chosen_stack_lem s on enabled = ground (arith, on, enabled)

abbrev obedient : System
obedient = record {
  Mask = Bool;
  State = Signals;
  mask = λ s. s.mask;
  action = λ s. s.action;
  altstack = λ s. s.altstack;
  blocking = λ m. true;
  signal_stack = chosen_stack;
  sigprocmask = λ m s. some (record s { mask = m });
  sigaction = λ a s. some (record s { action = a });
  sigaltstack = λ k s. some (record s { altstack = k });
  sigprocmask-mask = mask_set;
  sigaction-action = action_set;
  sigaltstack-altstack = altstack_set;
  signal_stack-altstack = chosen_stack_lem;
}

obedient-Works : Works obedient
obedient-Works = record {
  sigprocmask = λ m s. (record s { mask = m }, refl);
  sigaction = λ a s. (record s { action = a }, refl);
  sigaltstack = λ k s. (record s { altstack = k }, refl);
}

-- No signal stack, and another handler of SIGUSR2.
abbrev process : Process obedient
process = record {
  signals = record {
    mask = false;
    action = record { sa_handler = 3; is_on_stack = false };
    altstack = record { ss_sp = null; ss_size = 0; is_disabled = true };
  };
  coro_this_ptr = 1;
  ctx = λ p. none;
}

remember_stack_lem_example :
    (t : Process obedient) × (remember_stack obedient 77 5 4096 1048576 process ≡ some t)
    × IsRolledBack obedient process 5 4096 t
remember_stack_lem_example = remember_stack_lem obedient obedient-Works 77 5 4096 1048576 process
