-- ===== src/Base/Slices.antt =====
-- Slices of joined lists.
use Prim.Native.Nat.{ℕ, zero, suc, ◌-◌, min}
use mathlib.Core.Path.{◌≡◌, refl, ap}
use mathlib.Core.List.{List, [], ◌∷◌, ◌++◌}
use native.Mathlib.Omega.{arith}
use sysprog_labs_f.Base.Lists.{length, take, drop}

module _ {A : Type 0} where
  pub take-append :
      (n : ℕ) (xs ys : List A) → take n (xs ++ ys) ≡ take n xs ++ take (n - length xs) ys
  take-append zero xs ys = let e : 0 - length xs ≡ 0 = omega arith in rw e refl
  take-append (suc n) [] ys = let e : suc n - 0 ≡ suc n = omega arith in rw e refl
  take-append (suc n) (x ∷ xs) ys =
      let e : suc n - suc (length xs) ≡ n - length xs = omega arith in
      rw (e, take-append n xs ys) refl

  pub drop-append :
      (n : ℕ) (xs ys : List A) → drop n (xs ++ ys) ≡ drop n xs ++ drop (n - length xs) ys
  drop-append zero xs ys = let e : 0 - length xs ≡ 0 = omega arith in rw e refl
  drop-append (suc n) [] ys = let e : suc n - 0 ≡ suc n = omega arith in rw e refl
  drop-append (suc n) (x ∷ xs) ys =
      let e : suc n - suc (length xs) ≡ n - length xs = omega arith in
      rw (e, drop-append n xs ys) refl

  pub take-nil : (n : ℕ) → take {A = A} n [] ≡ []
  take-nil zero = refl
  take-nil (suc n) = refl

  pub drop-nil : (n : ℕ) → drop {A = A} n [] ≡ []
  drop-nil zero = refl
  drop-nil (suc n) = refl

  pub take-take : (n o : ℕ) (xs : List A) → take n (take o xs) ≡ take (min o n) xs
  take-take zero o xs = let e : min o 0 ≡ 0 = omega arith in rw e refl
  take-take (suc n) zero xs = let e : min 0 (suc n) ≡ 0 = omega arith in rw e refl
  take-take (suc n) (suc o) [] =
      let e : min (suc o) (suc n) ≡ suc (min o n) = omega arith in rw e refl
  take-take (suc n) (suc o) (x ∷ xs) =
      let e : min (suc o) (suc n) ≡ suc (min o n) = omega arith in
      rw e (ap (◌∷◌ x) (take-take n o xs))

  pub drop-take : (k o : ℕ) (xs : List A) → drop k (take o xs) ≡ take (o - k) (drop k xs)
  drop-take zero o xs = let e : o - 0 ≡ o = omega arith in rw e refl
  drop-take (suc k) zero xs = let e : 0 - suc k ≡ 0 = omega arith in rw e refl
  drop-take (suc k) (suc o) [] = rw take-nil refl
  drop-take (suc k) (suc o) (x ∷ xs) =
      let e : suc o - suc k ≡ o - k = omega arith in rw e (drop-take k o xs)
