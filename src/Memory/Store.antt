-- ===== src/Memory/Store.antt =====
-- The objects of one type that are allocated, by address. The other modules know a store by the
-- laws of `get` alone.
use sysprog_labs_f.Base.{
  ℕ, suc, ◌≤◌, ◌≡◌, ◌≢◌, refl, List, [], ◌∷◌, Option, none, some, max, arith, ◌==◌, if◌then◌else◌,
}

abbrev pub Ptr : Type 0
Ptr = ℕ

abbrev pub null : Ptr
null = 0

pub record Entry (A : Type 0) : Type 0 where
  pub address : Ptr
  pub object : A

abbrev pub Store : Type 0 → Type 0
Store A = List (Entry A)

module _ {A : Type 0} where
  unfoldable pub get : Ptr → Store A → Option A
  get p [] = none
  get p (e ∷ s) = if e.address == p then some e.object else get p s

  unfoldable pub put : Ptr → A → Store A → Store A
  put p a s = record { address = p; object = a } ∷ s

  unfoldable pub remove : Ptr → Store A → Store A
  remove p [] = []
  remove p (e ∷ s) = if e.address == p then remove p s else e ∷ remove p s

  pub get-put :
      (p q : Ptr) (a : A) (s : Store A) → get p (put q a s) ≡ (if q == p then some a else get p s)
  unfolding get put
  get-put p q a s = refl

  pub get-put_self : (p : Ptr) (a : A) (s : Store A) → get p (put p a s) ≡ some a
  unfolding get put
  get-put_self p a s = ground arith

  pub get-put_ne : (p q : Ptr) (a : A) (s : Store A) → q ≢ p → get p (put q a s) ≡ get p s
  unfolding get put
  get-put_ne p q a s h = ground arith

  pub get-remove :
      (p q : Ptr) (s : Store A) → get p (remove q s) ≡ (if q == p then none else get p s)
  unfolding get remove
  get-remove p q [] = ground arith
  get-remove p q (e ∷ s) = ground (arith, get-remove p q s)

  -- An address above all that are in use.
  unfoldable pub above : Store A → Ptr
  above [] = 1
  above (e ∷ s) = suc (max e.address (above s))

  pub above-ne_null : (s : Store A) → above s ≢ null
  unfolding above
  above-ne_null [] = omega arith
  above-ne_null (e ∷ s) = omega arith

  get-above : (s : Store A) (p : Ptr) → above s ≤ p → get p s ≡ none
  unfolding get above
  get-above [] p h = refl
  get-above (e ∷ s) p h = ground (arith, get-above s p)

  pub above-unused : (s : Store A) → get (above s) s ≡ none
  above-unused s = get-above s (above s) (omega arith)

-- What the code relies on of `malloc`, for one type of object: the address is not null and was not
-- in use. `raw` is what the new memory happens to hold.
pub record Malloc (A : Type 0) : Type 0 where
  pub place : Store A → Ptr
  pub raw : Store A → A
  pub place-ne_null : (s : Store A) → place s ≢ null
  pub place-unused : (s : Store A) → get (place s) s ≡ none

-- A `malloc` that takes the next address, and whose memory holds `a`.
unfoldable pub bump : {A : Type 0} → A → Malloc A
bump a = record {
  place = above;
  raw = λ s. a;
  place-ne_null = above-ne_null;
  place-unused = above-unused;
}
