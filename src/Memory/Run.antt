-- ===== src/Memory/Run.antt =====
-- Commands over a state: a result, a fault (undefined behaviour, such as a read through a null or
-- a dangling pointer), or a loop that did not end within its fuel.
use sysprog_labs_f.Base.{◌≡◌, refl, Option, none, some}

pub data Run (S A : Type 0) : Type 0 where
  ok : A → S → Run S A
  fault : Run S A
  out_of_fuel : Run S A

abbrev pub Cmd : Type 0 → Type 0 → Type 0
Cmd S A = S → Run S A

abbrev pub pure : {S A : Type 0} → A → Cmd S A
pure a s = ok a s

abbrev pub crash : {S A : Type 0} → Cmd S A
crash s = fault

abbrev pub diverge : {S A : Type 0} → Cmd S A
diverge s = out_of_fuel

abbrev pub and_then : {S A B : Type 0} → Run S A → (A → Cmd S B) → Run S B
and_then (ok a s) k = k a s
and_then fault k = fault
and_then out_of_fuel k = out_of_fuel

infixl 5 ◌>>=◌ ◌>>◌
abbrev pub ◌>>=◌ : {S A B : Type 0} → Cmd S A → (A → Cmd S B) → Cmd S B
◌>>=◌ m k s = and_then (m s) k

abbrev pub ◌>>◌ : {S B : Type 0} → Cmd S (Unit {0}) → Cmd S B → Cmd S B
◌>>◌ m k s = and_then (m s) (λ _. k)

abbrev pub read_state : {S A : Type 0} → (S → A) → Cmd S A
read_state f s = ok (f s) s

abbrev pub modify : {S : Type 0} → (S → S) → Cmd S (Unit {0})
modify f s = ok tt (f s)

-- An option that must be there.
abbrev pub demand : {S A : Type 0} → Option A → Cmd S A
demand none s = fault
demand (some a) s = ok a s

-- The run ends with a result, without a fault and within its fuel, and the result and the state
-- that it leaves satisfy `P`.
pub data Returns {S A : Type 0} (P : A → S → Type 0) : Run S A → Type 0 where
  returns : {a : A} {s : S} → P a s → Returns P (ok a s)

pub Returns-and_then :
    {S A B : Type 0} {P : A → S → Type 0} {Q : B → S → Type 0} {m : Run S A} {k : A → Cmd S B}
    → Returns P m
    → ((a : A) (s : S) → P a s → Returns Q (k a s))
    → Returns Q (and_then m k)
Returns-and_then (returns p) next = next _ _ p

pub Returns-weaken :
    {S A : Type 0} {P Q : A → S → Type 0} {m : Run S A}
    → Returns P m
    → ((a : A) (s : S) → P a s → Q a s)
    → Returns Q m
Returns-weaken (returns p) weaken = returns (weaken _ _ p)

pub Returns-eq :
    {S A : Type 0} {P : A → S → Type 0} {m : Run S A}
    → Returns P m
    → (a : A) × (s : S) × (m ≡ ok a s) × P a s
Returns-eq (returns {a} {s} p) = (a, s, refl, p)

pub and_then_assoc :
    {S A B C : Type 0} (m : Run S A) (f : A → Cmd S B) (g : B → Cmd S C)
    → and_then m (λ a s. and_then (f a s) g) ≡ and_then (and_then m f) g
and_then_assoc (ok a s) f g = refl
and_then_assoc fault f g = refl
and_then_assoc out_of_fuel f g = refl

-- If the run ends without a fault and within its fuel, its result and state satisfy `P`.
abbrev pub IfReturns : {S A : Type 0} → (A → S → Type 0) → Run S A → Type 0
IfReturns P (ok a s) = P a s
IfReturns P fault = Unit {0}
IfReturns P out_of_fuel = Unit {0}

pub IfReturns-and_then :
    {S A B : Type 0} (P : A → S → Type 0) (Q : B → S → Type 0) (m : Run S A) (k : A → Cmd S B)
    → IfReturns P m
    → ((a : A) (s : S) → P a s → IfReturns Q (k a s))
    → IfReturns Q (and_then m k)
IfReturns-and_then P Q (ok a s) k p next = next a s p
IfReturns-and_then P Q fault k p next = tt
IfReturns-and_then P Q out_of_fuel k p next = tt

pub IfReturns-weaken :
    {S A : Type 0} (P Q : A → S → Type 0) (m : Run S A)
    → IfReturns P m
    → ((a : A) (s : S) → P a s → Q a s)
    → IfReturns Q m
IfReturns-weaken P Q (ok a s) p weaken = weaken a s p
IfReturns-weaken P Q fault p weaken = tt
IfReturns-weaken P Q out_of_fuel p weaken = tt

pub IfReturns-any : {S A : Type 0} (m : Run S A) → IfReturns (λ a s. Unit {0}) m
IfReturns-any (ok a s) = tt
IfReturns-any fault = tt
IfReturns-any out_of_fuel = tt
