-- ===== src/Memory/Rotate.antt =====
-- The first node of a doubly linked list goes behind the last one.
use sysprog_labs_f.Base.{◌≡◌, ◌≢◌, refl, ap, ◌∙◌, false, List, [], ◌∷◌, ◌++◌, some, arith, ◌==◌}
use sysprog_labs_f.Memory.Store.{Ptr, null, Store, put, get-put_self}
use sysprog_labs_f.Memory.Chain.{Cell, ◌∈◌, ◌∉◌, last, Seg, frame-put}
use sysprog_labs_f.Memory.Relink.{write, relink, write-ok, Seg-append, relink-first, relink-last}

pub write-eq-relink :
    {A : Type 0} (f : A → A) (p : Ptr) (h : Store A) → p ≢ null → write f p h ≡ relink f p h
unfolding relink
write-eq-relink f p h ne = ground arith

module _ {A D : Type 0} (mk : D → Ptr → Ptr → A) where
  pub last-mem : (y : Cell D) (zs : List (Cell D)) → last y.at zs ∈ (y ∷ zs)
  last-mem y [] = ground arith
  last-mem y (z ∷ zs) = ground (arith, last-mem z zs)

  pub mem-apart : (a b : Ptr) (xs : List (Cell D)) → b ∈ xs → a ∉ xs → (a == b) ≡ false
  mem-apart a b [] i out = absurd (ground arith)
  mem-apart a b (x ∷ xs) i out = ground (arith, mem-apart a b xs)

  pub last-ne_null :
      (h : Store A) (prev stop : Ptr) (y : Cell D) (zs : List (Cell D))
      → Seg mk h prev (y ∷ zs) stop
      → last y.at zs ≢ null
  last-ne_null h prev stop y [] s = s.0
  last-ne_null h prev stop y (z ∷ zs) s = last-ne_null h y.at stop z zs s.3

  module _ (next prev : Ptr → A → A)
      (next-mk : (v : Ptr) (d : D) (n p : Ptr) → next v (mk d n p) ≡ mk d v p)
      (prev-mk : (v : Ptr) (d : D) (n p : Ptr) → prev v (mk d n p) ≡ mk d n v) where
    pub record Rotated (h : Store A) (c y : Cell D) (zs : List (Cell D)) : Type 0 where
      pub h₁ : Store A
      pub h₂ : Store A
      pub h₃ : Store A
      pub h₄ : Store A
      pub first_back : write (prev null) y.at h ≡ some h₁
      pub moved_back : write (prev (last y.at zs)) c.at h₁ ≡ some h₂
      pub last_on : write (next c.at) (last y.at zs) h₂ ≡ some h₃
      pub moved_on : write (next null) c.at h₃ ≡ some h₄
      pub chain : Seg mk h₄ null (y ∷ zs ++ c ∷ []) null

    pub rotate :
        (h : Store A) (c y : Cell D) (zs : List (Cell D))
        → Seg mk h null (c ∷ y ∷ zs) null
        → Rotated h c y zs
    rotate h c y zs s =
        let end = last y.at zs in
        let (h₁, eq₁, s₁, same₁) =
          relink-first mk (prev null) h c.at null (y ∷ zs) (λ d n p. prev-mk null d n p) s.3 in
        let at₁ = same₁ c.at s.2 ∙ s.1 in
        let h₂ = put c.at (mk c.datum y.at end) h₁ in
        let s₂ = frame-put mk h₁ null null c.at (mk c.datum y.at end) (y ∷ zs) s.2 s₁ in
        let (h₃, eq₃, s₃, same₃) =
          relink-last mk (next c.at) h₂ null c.at (y ∷ zs) (λ d n p. next-mk c.at d n p) s₂ in
        let at₃ = same₃ c.at s.2 ∙ get-put_self c.at (mk c.datum y.at end) h₁ in
        let h₄ = put c.at (mk c.datum null end) h₃ in
        let s₄ = frame-put mk h₃ null c.at c.at (mk c.datum null end) (y ∷ zs) s.2 s₃ in
        record {
          h₁ = h₁;
          h₂ = h₂;
          h₃ = h₃;
          h₄ = h₄;
          first_back = write-eq-relink (prev null) y.at h s.3.0 ∙ eq₁;
          moved_back =
              write-ok (prev end) c.at h₁ _ s.0 at₁
              ∙ ap (λ a. some (put c.at a h₁)) (prev-mk end c.datum y.at null);
          last_on = write-eq-relink (next c.at) end h₂ (last-ne_null h c.at null y zs s.3) ∙ eq₃;
          moved_on =
              write-ok (next null) c.at h₃ _ s.0 at₃
              ∙ ap (λ a. some (put c.at a h₃)) (next-mk null c.datum y.at end);
          chain =
              Seg-append mk h₄ null null (y ∷ zs) (c ∷ []) s₄
                (s.0, get-put_self c.at (mk c.datum null end) h₃, refl, tt)
                (λ a i. ground (arith, s.2));
        }
