-- ===== src/Base/Bytes.antt =====
-- Replacing a part of a list of bytes, as a write to a file does.
use Prim.Native.Nat.{ℕ, zero, suc, ◌+◌, ◌≤◌, max}
use mathlib.Core.Path.{◌≡◌, refl, ap, sym, ◌∙◌}
use mathlib.Core.List.{List, [], ◌∷◌, ◌++◌}
use native.Mathlib.Omega.{arith}
use sysprog_labs_f.Base.Lists.{length, take, drop}

module _ {A : Type 0} where
  -- From index `k` on, the elements of `new` replace those of `old`, or are added behind them.
  unfoldable pub overwrite : List A → ℕ → List A → List A
  overwrite [] k new = new
  overwrite (x ∷ old) (suc k) new = x ∷ overwrite old k new
  overwrite (x ∷ old) zero [] = x ∷ old
  overwrite (x ∷ old) zero (y ∷ new) = y ∷ overwrite old zero new

  pub overwrite-nil : (old : List A) (k : ℕ) → overwrite old k [] ≡ old
  unfolding overwrite
  overwrite-nil [] k = refl
  overwrite-nil (x ∷ old) zero = refl
  overwrite-nil (x ∷ old) (suc k) = ap (◌∷◌ x) (overwrite-nil old k)

  -- Behind a whole part.
  pub overwrite-skip :
      (a b new : List A) (k : ℕ) → overwrite (a ++ b) (length a + k) new ≡ a ++ overwrite b k new
  unfolding overwrite
  overwrite-skip [] b new k = ap (λ n. overwrite b n new) (omega arith)
  overwrite-skip (x ∷ a) b new k = ground (arith, overwrite-skip a b new k)

  -- Within the first part.
  pub overwrite-within :
      (a b new : List A) (k : ℕ)
      → k + length new ≤ length a
      → overwrite (a ++ b) k new ≡ overwrite a k new ++ b
  unfolding overwrite
  overwrite-within [] b [] k h = overwrite-nil b k
  overwrite-within [] b (y ∷ new) k h = absurd (omega arith)
  overwrite-within (x ∷ a) b new (suc k) h = ap (◌∷◌ x) (overwrite-within a b new k (omega arith))
  overwrite-within (x ∷ a) b [] zero h = refl
  overwrite-within (x ∷ a) b (y ∷ new) zero h =
      ap (◌∷◌ y) (overwrite-within a b new zero (omega arith))

  -- Up to the end of the first part, and on from the start of the second.
  pub overwrite-across :
      (a b new more : List A) (k : ℕ)
      → k + length new ≡ length a
      → overwrite (a ++ b) k (new ++ more) ≡ overwrite a k new ++ overwrite b 0 more
  unfolding overwrite
  overwrite-across [] b [] more k h = ap (λ n. overwrite b n more) (omega arith)
  overwrite-across [] b (y ∷ new) more k h = absurd (omega arith)
  overwrite-across (x ∷ a) b new more (suc k) h =
      ap (◌∷◌ x) (overwrite-across a b new more k (omega arith))
  overwrite-across (x ∷ a) b [] more zero h = absurd (omega arith)
  overwrite-across (x ∷ a) b (y ∷ new) more zero h =
      ap (◌∷◌ y) (overwrite-across a b new more zero (omega arith))

  -- Past the end of all that is there.
  pub overwrite-beyond :
      (a new more : List A) (k : ℕ)
      → length a ≤ k + length new
      → k ≤ length a
      → overwrite a k (new ++ more) ≡ overwrite a k new ++ more
  unfolding overwrite
  overwrite-beyond [] new more k h l = refl
  overwrite-beyond (x ∷ a) new more (suc k) h l =
      ap (◌∷◌ x) (overwrite-beyond a new more k (omega arith) (omega arith))
  overwrite-beyond (x ∷ a) [] more zero h l = absurd (omega arith)
  overwrite-beyond (x ∷ a) (y ∷ new) more zero h l =
      ap (◌∷◌ y) (overwrite-beyond a new more zero (omega arith) (omega arith))

  pub length-overwrite :
      (a new : List A) (k : ℕ)
      → k ≤ length a
      → length (overwrite a k new) ≡ max (k + length new) (length a)
  unfolding overwrite
  length-overwrite [] new k h = omega arith
  length-overwrite (x ∷ a) new (suc k) h = omega (arith, length-overwrite a new k (omega arith))
  length-overwrite (x ∷ a) [] zero h = omega arith
  length-overwrite (x ∷ a) (y ∷ new) zero h =
      omega (arith, length-overwrite a new zero (omega arith))

  -- What was written is read back.
  pub take-drop-overwrite :
      (a new : List A) (k : ℕ) → k ≤ length a → take (length new) (drop k (overwrite a k new)) ≡ new
  unfolding overwrite
  take-drop-overwrite [] new zero h = take-all new
    where
      take-all : (l : List A) → take (length l) l ≡ l
      take-all [] = refl
      take-all (x ∷ l) = ap (◌∷◌ x) (take-all l)
  take-drop-overwrite [] new (suc k) h = absurd (omega arith)
  take-drop-overwrite (x ∷ a) new (suc k) h = take-drop-overwrite a new k (omega arith)
  take-drop-overwrite (x ∷ a) [] zero h = refl
  take-drop-overwrite (x ∷ a) (y ∷ new) zero h =
      ap (◌∷◌ y) (take-drop-overwrite a new zero (omega arith))

  -- The same with the two ends as variables.
  take-splice_at :
      (m new : List A) (k o t e : ℕ)
      → k ≤ o
      → o ≤ length m
      → e ≡ k + length new
      → e ≤ length m
      → t ≡ max e o
      → take t (take k m ++ new ++ drop e m) ≡ overwrite (take o m) k new
  unfolding overwrite
  take-splice_at [] [] zero zero t e h l n b q = ground arith
  take-splice_at [] new (suc k) o t e h l n b q = absurd (omega arith)
  take-splice_at [] new zero (suc o) t e h l n b q = absurd (omega arith)
  take-splice_at [] (y ∷ new) zero zero t e h l n b q = absurd (omega arith)
  take-splice_at (x ∷ m) new (suc k) zero t e h l n b q = absurd (omega arith)
  take-splice_at (x ∷ m) new (suc k) (suc o) zero e h l n b q = absurd (omega arith)
  take-splice_at (x ∷ m) new (suc k) (suc o) (suc t) zero h l n b q = absurd (omega arith)
  take-splice_at (x ∷ m) new (suc k) (suc o) (suc t) (suc e) h l n b q = ap (◌∷◌ x) (
      take-splice_at m new k o t e (omega arith) (omega arith) (omega arith) (omega arith)
        (omega arith))
  take-splice_at (x ∷ m) [] zero o t zero h l n b q =
      ap (λ i. take i (x ∷ m)) (omega arith) ∙ sym (overwrite-nil (take o (x ∷ m)) zero)
  take-splice_at (x ∷ m) [] zero o t (suc e) h l n b q = absurd (omega arith)
  take-splice_at (x ∷ m) (y ∷ new) zero o t zero h l n b q = absurd (omega arith)
  take-splice_at (x ∷ m) (y ∷ new) zero o zero (suc e) h l n b q = absurd (omega arith)
  take-splice_at (x ∷ m) (y ∷ new) zero zero (suc t) (suc e) h l n b q = ap (◌∷◌ y) (
      take-splice_at m new zero zero t e (omega arith) (omega arith) (omega arith) (omega arith)
        (omega arith))
  take-splice_at (x ∷ m) (y ∷ new) zero (suc o) (suc t) (suc e) h l n b q = ap (◌∷◌ y) (
      take-splice_at m new zero o t e (omega arith) (omega arith) (omega arith) (omega arith)
        (omega arith))

  -- Splicing an array changes its occupied part by `overwrite`.
  pub take-splice :
      (m new : List A) (k o : ℕ)
      → k ≤ o
      → o ≤ length m
      → k + length new ≤ length m
      → take (max (k + length new) o) (take k m ++ new ++ drop (k + length new) m)
        ≡ overwrite (take o m) k new
  take-splice m new k o h l n = take-splice_at m new k o _ _ h l refl n refl
