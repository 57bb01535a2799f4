-- ===== src/UserFs/Table.antt =====
-- The descriptor table of homework03/userfs.c: `get_fd` and `is_valid_fd`.
use sysprog_labs_f.Base.{
  ℕ, zero, suc, ◌+◌, ◌*◌, ◌/◌, Bool, true, false, ◌&&◌, List, ◌++◌, none, some, ◌==◌, leb,
  if◌then◌else◌, take, drop, not,
}
use sysprog_labs_f.Base.Int.{ℤ, pos, negsuc}
use sysprog_labs_f.Memory.Store.{null}
use sysprog_labs_f.Memory.Run.{Cmd, pure, read_state, modify, demand, ◌>>=◌, ◌>>◌}
use sysprog_labs_f.UserFs.State.{
  Fs, Table, absent, array, released, Slot, Env, failure, slots, read_slot,
}

-- The search for a free place: `n` rounds are left, `i` is the next index.
unfoldable pub scan_free : ℕ → ℕ → Cmd Fs ℤ
scan_free zero i = pure failure
scan_free (suc n) i = do
  slot ← read_slot i
  elim slot [ none ↦ pure (pos i) | some d ↦ scan_free n (i + 1) ]

-- The old array's places, and behind them what the new memory holds.
abbrev pub grown : List Slot → ℕ → List Slot → List Slot
grown old n raw = take n old ++ drop n raw

-- The first array.
unfoldable pub new_table : Env → Cmd Fs ℤ
new_table env = do
  modify λ s. record s { capacity = 10; descriptors = array (env.raw_slots 10) }
  pure (pos 0)

-- An array of twice the size.
unfoldable pub grow_table : Env → Cmd Fs ℤ
grow_table env = do
  capacity ← read_state (λ s. s.capacity * 2)
  old ← λ s. demand (slots s.descriptors) s
  modify λ s. record s {
    capacity = capacity;
    descriptors = array (grown old (capacity / 2) (env.raw_slots capacity));
  }
  read_state λ s. pos s.count

abbrev pub is_absent : Table → Bool
is_absent absent = true
is_absent (array l) = false
is_absent released = false

unfoldable pub choose_fd : Env → Cmd Fs ℤ
unfolding scan_free new_table grow_table
choose_fd env s =
    if is_absent s.descriptors
    then new_table env s
    else if s.count == s.capacity
    then grow_table env s
    else scan_free s.capacity 0 s

unfoldable pub get_fd : Env → Cmd Fs ℤ
unfolding choose_fd
get_fd env = do fd ← choose_fd env; modify λ s. record s { count = s.count + 1 }; pure fd

abbrev pub usable : Slot → Bool
usable none = false
usable (some d) = not (d.file == null) && d.is_occupied

unfoldable pub is_valid_fd : ℤ → Cmd Fs Bool
is_valid_fd (negsuc n) = pure false
is_valid_fd (pos n) = do
  capacity ← read_state (λ s. s.capacity)
  if leb capacity n then pure false else do pure (usable (← read_slot n))
