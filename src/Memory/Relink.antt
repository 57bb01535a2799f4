-- ===== src/Memory/Relink.antt =====
-- Writes to a link of a node, and what they make of a doubly linked list.
use sysprog_labs_f.Base.{
  ◌≡◌, ◌≢◌, refl, ap, ◌∙◌, List, [], ◌∷◌, ◌++◌, Option, none, some, arith, ◌==◌, if◌then◌else◌,
  Bool-cases, inl, inr,
}
use sysprog_labs_f.Memory.Store.{Ptr, null, Store, get, put, get-put_self, get-put_ne}
use sysprog_labs_f.Memory.Chain.{
  Cell, cell, ◌∈◌, ◌∉◌, has, first, last, has-append, first-append, Seg, frame, frame-put, Seg-left,
  Seg-right,
}

module _ {A : Type 0} where
  -- `p->field = …`; `none` is a fault.
  abbrev pub write : (A → A) → Ptr → Store A → Option (Store A)
  write f p h =
      if p == null then none else elim (get p h) [ none ↦ none | some a ↦ some (put p (f a) h) ]

  -- `if (p != NULL) p->field = …`.
  unfoldable pub relink : (A → A) → Ptr → Store A → Option (Store A)
  relink f p h = if p == null then some h else write f p h

  pub write-ok :
      (f : A → A) (p : Ptr) (h : Store A) (a : A)
      → p ≢ null
      → get p h ≡ some a
      → write f p h ≡ some (put p (f a) h)
  write-ok f p h a ne e = ground (arith, e)

  pub relink-null : (f : A → A) (h : Store A) → relink f null h ≡ some h
  unfolding relink
  relink-null f h = refl

  pub relink-ok :
      (f : A → A) (p : Ptr) (h : Store A) (a : A)
      → p ≢ null
      → get p h ≡ some a
      → relink f p h ≡ some (put p (f a) h)
  unfolding relink
  relink-ok f p h a ne e = ground (arith, e)

module _ {A D : Type 0} (mk : D → Ptr → Ptr → A) where
  -- The nodes of two lists that hang together are distinct.
  pub Seg-apart :
      (h : Store A) (prev stop : Ptr) (xs ys : List (Cell D))
      → Seg mk h prev (xs ++ ys) stop
      → (a : Ptr) → a ∈ xs
      → a ∉ ys
  Seg-apart h prev stop [] ys s a i = absurd (ground arith)
  Seg-apart h prev stop (x ∷ xs) ys s a i =
      ground (arith, has-append x.at xs ys, Seg-apart h x.at stop xs ys s.3 a)

  pub Seg-behind :
      (h : Store A) (prev stop : Ptr) (xs ys : List (Cell D))
      → Seg mk h prev (xs ++ ys) stop
      → (a : Ptr) → a ∈ ys
      → a ∉ xs
  Seg-behind h prev stop xs ys s a i = elim (Bool-cases (has a xs)) [
    | inl here ↦ let there = Seg-apart h prev stop xs ys s a here in absurd (ground arith)
    | inr out ↦ out
  ]

  pub Seg-append :
      (h : Store A) (prev stop : Ptr) (xs ys : List (Cell D))
      → Seg mk h prev xs (first ys stop)
      → Seg mk h (last prev xs) ys stop
      → ((a : Ptr) → a ∈ xs → a ∉ ys)
      → Seg mk h prev (xs ++ ys) stop
  Seg-append h prev stop [] ys s t apart = t
  Seg-append h prev stop (x ∷ xs) ys s t apart = (
    s.0,
    ground (arith, s.1, first-append xs ys stop),
    ground (arith, has-append x.at xs ys, apart x.at),
    Seg-append h x.at stop xs ys s.3 t λ a i. apart a (ground arith),
  )

  retarget :
      (f : A → A) (h : Store A) (prev stop target : Ptr) (x : Cell D) (xs : List (Cell D))
      → ((d : D) (n p : Ptr) → f (mk d n p) ≡ mk d target p)
      → Seg mk h prev (x ∷ xs) stop
      → (g : Store A) × (relink f (last x.at xs) h ≡ some g)
        × Seg mk g prev (x ∷ xs) target
        × ((a : Ptr) → a ∉ (x ∷ xs) → get a g ≡ get a h)
  retarget f h prev stop target x [] set s = (
    put x.at (mk x.datum target prev) h,
    relink-ok f x.at h _ s.0 s.1 ∙ ap (λ b. some (put x.at b h)) (set x.datum stop prev),
    (s.0, get-put_self x.at _ h, s.2, tt),
    λ a out. get-put_ne a x.at _ h (ground arith),
  )
  retarget f h prev stop target x (y ∷ xs) set s =
      let (g, eq, t, same) = retarget f h x.at stop target y xs set s.3 in
      (g, eq, (s.0, same x.at s.2 ∙ s.1, s.2, t), λ a out. same a (ground arith))

  -- The last node, if there is one, is made to lead to `target`.
  pub relink-last :
      (f : A → A) (h : Store A) (stop target : Ptr) (xs : List (Cell D))
      → ((d : D) (n p : Ptr) → f (mk d n p) ≡ mk d target p)
      → Seg mk h null xs stop
      → (g : Store A) × (relink f (last null xs) h ≡ some g)
        × Seg mk g null xs target
        × ((a : Ptr) → a ∉ xs → get a g ≡ get a h)
  relink-last f h stop target [] set s = (h, relink-null f h, tt, λ a out. refl)
  relink-last f h stop target (x ∷ xs) set s = retarget f h null stop target x xs set s

  -- The first node is made to lead back to `back`.
  pub relink-first :
      (f : A → A) (h : Store A) (prev back : Ptr) (ys : List (Cell D))
      → ((d : D) (n p : Ptr) → f (mk d n p) ≡ mk d n back)
      → Seg mk h prev ys null
      → (g : Store A) × (relink f (first ys null) h ≡ some g)
        × Seg mk g back ys null
        × ((a : Ptr) → a ∉ ys → get a g ≡ get a h)
  relink-first f h prev back [] set s = (h, relink-null f h, tt, λ a out. refl)
  relink-first f h prev back (c ∷ ys) set s = (
    put c.at (mk c.datum (first ys null) back) h,
    relink-ok f c.at h _ s.0 s.1 ∙ ap (λ b. some (put c.at b h)) (set c.datum (first ys null) prev),
    (s.0, get-put_self c.at _ h, s.2, frame-put mk h c.at null c.at _ ys s.2 s.3),
    λ a out. get-put_ne a c.at _ h (ground arith),
  )

  -- The links round the node `c` are made to pass it by: what is left is the list without it, and
  -- the node itself stays as it was.
  pub unlink :
      (f g : A → A) (h : Store A) (c : Cell D) (xs ys : List (Cell D))
      → ((d : D) (n p : Ptr) → f (mk d n p) ≡ mk d (first ys null) p)
      → ((d : D) (n p : Ptr) → g (mk d n p) ≡ mk d n (last null xs))
      → Seg mk h null (xs ++ c ∷ ys) null
      → (h₁ : Store A) × (h₂ : Store A) × (relink f (last null xs) h ≡ some h₁)
        × (relink g (first ys null) h₁ ≡ some h₂)
        × Seg mk h₂ null (xs ++ ys) null
        × ((a : Ptr) → a ∉ (xs ++ ys) → get a h₂ ≡ get a h)
  unlink f g h c xs ys set_next set_prev s =
      let left = Seg-left mk h null null xs (c ∷ ys) s in
      let right = (Seg-right mk h null null xs (c ∷ ys) s).3 in
      let apart : (a : Ptr) → a ∈ xs → a ∉ ys =
        λ a i. ground (arith, Seg-apart h null null xs (c ∷ ys) s a i) in
      let (h₁, eq₁, left₁, same₁) = relink-last f h c.at (first ys null) xs set_next left in
      let right₁ =
        frame mk h h₁ c.at null ys
          (λ a i. same₁ a (Seg-behind h null null xs (c ∷ ys) s a (ground arith))) right in
      let (h₂, eq₂, right₂, same₂) = relink-first g h₁ c.at (last null xs) ys set_prev right₁ in
      let left₂ = frame mk h₁ h₂ null (first ys null) xs (λ a i. same₂ a (apart a i)) left₁ in
      (
        h₁,
        h₂,
        eq₁,
        eq₂,
        Seg-append h₂ null null xs ys left₂ right₂ apart,
        λ a out.
            same₂ a (ground (arith, has-append a xs ys))
            ∙ same₁ a (ground (arith, has-append a xs ys)),
      )

  -- The same with the node behind `c` first.
  pub unlink_back :
      (f g : A → A) (h : Store A) (c : Cell D) (xs ys : List (Cell D))
      → ((d : D) (n p : Ptr) → f (mk d n p) ≡ mk d (first ys null) p)
      → ((d : D) (n p : Ptr) → g (mk d n p) ≡ mk d n (last null xs))
      → Seg mk h null (xs ++ c ∷ ys) null
      → (h₁ : Store A) × (h₂ : Store A) × (relink g (first ys null) h ≡ some h₁)
        × (relink f (last null xs) h₁ ≡ some h₂)
        × Seg mk h₂ null (xs ++ ys) null
        × ((a : Ptr) → a ∉ (xs ++ ys) → get a h₂ ≡ get a h)
  unlink_back f g h c xs ys set_next set_prev s =
      let left = Seg-left mk h null null xs (c ∷ ys) s in
      let right = (Seg-right mk h null null xs (c ∷ ys) s).3 in
      let apart : (a : Ptr) → a ∈ xs → a ∉ ys =
        λ a i. ground (arith, Seg-apart h null null xs (c ∷ ys) s a i) in
      let back : (a : Ptr) → a ∈ ys → a ∉ xs =
        λ a i. Seg-behind h null null xs (c ∷ ys) s a (ground arith) in
      let (h₁, eq₁, right₁, same₁) = relink-first g h c.at (last null xs) ys set_prev right in
      let left₁ = frame mk h h₁ null c.at xs (λ a i. same₁ a (apart a i)) left in
      let (h₂, eq₂, left₂, same₂) = relink-last f h₁ c.at (first ys null) xs set_next left₁ in
      let right₂ = frame mk h₁ h₂ (last null xs) null ys (λ a i. same₂ a (back a i)) right₁ in
      (
        h₁,
        h₂,
        eq₁,
        eq₂,
        Seg-append h₂ null null xs ys left₂ right₂ apart,
        λ a out.
            same₂ a (ground (arith, has-append a xs ys))
            ∙ same₁ a (ground (arith, has-append a xs ys)),
      )

  -- A new node before the first.
  pub push_front :
      (g : A → A) (h : Store A) (p : Ptr) (d : D) (ys : List (Cell D))
      → ((e : D) (n q : Ptr) → g (mk e n q) ≡ mk e n p)
      → p ≢ null
      → p ∉ ys
      → Seg mk h null ys null
      → get p h ≡ some (mk d (first ys null) null)
      → (h₁ : Store A) × (relink g (first ys null) h ≡ some h₁)
        × Seg mk h₁ null (cell p d ∷ ys) null
        × ((a : Ptr) → a ∉ ys → get a h₁ ≡ get a h)
  push_front g h p d ys set ne out s at =
      let (h₁, eq, t, same) = relink-first g h null p ys set s in
      (h₁, eq, (ne, same p out ∙ at, out, t), same)
