-- ===== src/Memory/Chain.antt =====
-- Doubly linked lists in a store. `mk d next prev` is the node that holds `d`.
use sysprog_labs_f.Base.{
  ◌≡◌, ◌≢◌, refl, Bool, true, false, ◌||◌, List, [], ◌∷◌, ◌++◌, none, some, arith, ◌==◌, ◌∙◌,
}
use sysprog_labs_f.Memory.Store.{
  Ptr, null, Store, get, put, remove, get-put, get-remove, get-put_self,
}

pub record Cell (D : Type 0) : Type 0 where
  pub at : Ptr
  pub datum : D

module _ {D : Type 0} where
  abbrev pub cell : Ptr → D → Cell D
  cell p d = record { at = p; datum = d }

  abbrev pub has : Ptr → List (Cell D) → Bool
  has a [] = false
  has a (c ∷ xs) = (c.at == a) || has a xs

  infix 40 ◌∈◌ ◌∉◌
  abbrev pub ◌∈◌ : Ptr → List (Cell D) → Type 0
  a ∈ xs = has a xs ≡ true

  abbrev pub ◌∉◌ : Ptr → List (Cell D) → Type 0
  a ∉ xs = has a xs ≡ false

  -- The address of the first node, or where the list ends.
  abbrev pub first : List (Cell D) → Ptr → Ptr
  first [] stop = stop
  first (c ∷ xs) stop = c.at

  -- The address of the last node, or what stands before the list.
  abbrev pub last : Ptr → List (Cell D) → Ptr
  last prev [] = prev
  last prev (c ∷ xs) = last c.at xs

  pub has-append : (a : Ptr) (xs ys : List (Cell D)) → has a (xs ++ ys) ≡ (has a xs || has a ys)
  has-append a [] ys = refl
  has-append a (x ∷ xs) ys = ground (arith, has-append a xs ys)

  pub has-without :
      (a : Ptr) (xs ys : List (Cell D)) (c : Cell D) → a ∉ (xs ++ c ∷ ys) → a ∉ (xs ++ ys)
  has-without a xs ys c out = ground (arith, has-append a xs (c ∷ ys), has-append a xs ys)

  pub has-ne : (a : Ptr) (xs ys : List (Cell D)) (c : Cell D) → a ∉ (xs ++ c ∷ ys) → c.at ≢ a
  has-ne a xs ys c out = ground (arith, has-append a xs (c ∷ ys))

  pub last-append : (p : Ptr) (xs ys : List (Cell D)) → last p (xs ++ ys) ≡ last (last p xs) ys
  last-append p [] ys = refl
  last-append p (x ∷ xs) ys = last-append x.at xs ys

  pub first-append :
      (xs ys : List (Cell D)) (stop : Ptr) → first (xs ++ ys) stop ≡ first xs (first ys stop)
  first-append [] ys stop = refl
  first-append (x ∷ xs) ys stop = refl

module _ {A D : Type 0} (mk : D → Ptr → Ptr → A) where
  -- From `first xs stop` the `next` pointers lead through the distinct nodes `xs` to `stop`, and
  -- each `prev` pointer leads back, that of the first node to `prev`.
  abbrev pub Seg : Store A → Ptr → List (Cell D) → Ptr → Type 0
  Seg h prev [] stop = Unit {0}
  Seg h prev (c ∷ xs) stop =
      (c.at ≢ null)
      × (get c.at h ≡ some (mk c.datum (first xs stop) prev))
      × (c.at ∉ xs)
      × Seg h c.at xs stop

  pub frame :
      (h g : Store A) (prev stop : Ptr) (xs : List (Cell D))
      → ((a : Ptr) → a ∈ xs → get a g ≡ get a h)
      → Seg h prev xs stop
      → Seg g prev xs stop
  frame h g prev stop [] same s = tt
  frame h g prev stop (c ∷ xs) same s = (
    s.0,
    same c.at (ground arith) ∙ s.1,
    s.2,
    frame h g c.at stop xs (λ a i. same a (ground arith)) s.3,
  )

  pub frame-put :
      (h : Store A) (prev stop p : Ptr) (a : A) (xs : List (Cell D))
      → p ∉ xs
      → Seg h prev xs stop
      → Seg (put p a h) prev xs stop
  frame-put h prev stop p a xs out s =
      frame h (put p a h) prev stop xs (λ q i. ground (arith, get-put q p a h)) s

  pub frame-remove :
      (h : Store A) (prev stop p : Ptr) (xs : List (Cell D))
      → p ∉ xs
      → Seg h prev xs stop
      → Seg (remove p h) prev xs stop
  frame-remove h prev stop p xs out s =
      frame h (remove p h) prev stop xs (λ q i. ground (arith, get-remove q p h)) s

  pub Seg-left :
      (h : Store A) (prev stop : Ptr) (xs ys : List (Cell D))
      → Seg h prev (xs ++ ys) stop
      → Seg h prev xs (first ys stop)
  Seg-left h prev stop [] ys s = tt
  Seg-left h prev stop (x ∷ xs) ys s = (
    s.0,
    ground (arith, first-append xs ys stop),
    ground (arith, has-append x.at xs ys),
    Seg-left h x.at stop xs ys s.3,
  )

  pub Seg-right :
      (h : Store A) (prev stop : Ptr) (xs ys : List (Cell D))
      → Seg h prev (xs ++ ys) stop
      → Seg h (last prev xs) ys stop
  Seg-right h prev stop [] ys s = s
  Seg-right h prev stop (x ∷ xs) ys s = Seg-right h x.at stop xs ys s.3

  -- The node in the middle is given another datum.
  pub Seg-update :
      (h : Store A) (prev stop p : Ptr) (d e : D) (xs ys : List (Cell D))
      → Seg h prev (xs ++ cell p d ∷ ys) stop
      → Seg (put p (mk e (first ys stop) (last prev xs)) h) prev (xs ++ cell p e ∷ ys) stop
  Seg-update h prev stop p d e [] ys s =
      (s.0, get-put_self p _ h, s.2, frame-put h p stop p _ ys s.2 s.3)
  Seg-update h prev stop p d e (x ∷ xs) ys s =
      let a = mk e (first ys stop) (last x.at xs) in
      (
        s.0,
        ground (
          arith,
          get-put x.at p a h,
          has-append x.at xs (cell p d ∷ ys),
          first-append xs (cell p d ∷ ys) stop,
          first-append xs (cell p e ∷ ys) stop,
        ),
        ground (arith, has-append x.at xs (cell p d ∷ ys), has-append x.at xs (cell p e ∷ ys)),
        Seg-update h x.at stop p d e xs ys s.3,
      )

  pub not-mem-unused :
      (h : Store A) (prev stop p : Ptr) (xs : List (Cell D))
      → get p h ≡ none
      → Seg h prev xs stop
      → p ∉ xs
  not-mem-unused h prev stop p [] unused s = refl
  not-mem-unused h prev stop p (x ∷ xs) unused s =
      ground (arith, not-mem-unused h x.at stop p xs unused s.3)

  pub not-mem-null :
      (h : Store A) (prev stop : Ptr) (xs : List (Cell D)) → Seg h prev xs stop → null ∉ xs
  not-mem-null h prev stop [] s = refl
  not-mem-null h prev stop (x ∷ xs) s = ground (arith, not-mem-null h x.at stop xs s.3)

  -- The last node is made to lead to `target`, a new node behind it.
  pub Seg-snoc :
      (h : Store A) (prev p : Ptr) (d e : D) (xs : List (Cell D)) (q : Ptr)
      → Seg h prev (xs ++ cell q d ∷ []) null
      → q ≢ p
      → p ≢ null
      → p ∉ xs
      → Seg
          (put p (mk e null q) (put q (mk d p (last prev xs)) h))
          prev
          (xs ++ cell q d ∷ cell p e ∷ [])
          null
  Seg-snoc h prev p d e [] q s ne pos out = (
    s.0,
    ground
        (arith, get-put q p (mk e null q) (put q (mk d p prev) h), get-put_self q (mk d p prev) h),
    ground arith,
    (pos, get-put_self p _ _, refl, tt),
  )
  Seg-snoc h prev p d e (x ∷ xs) q s ne pos out =
      let b = mk d p (last x.at xs) in
      (
        s.0,
        ground (
          arith,
          get-put x.at p (mk e null q) (put q b h),
          get-put x.at q b h,
          has-append x.at xs (cell q d ∷ []),
          first-append xs (cell q d ∷ []) null,
          first-append xs (cell q d ∷ cell p e ∷ []) null,
        ),
        ground (
          arith,
          has-append x.at xs (cell q d ∷ []),
          has-append x.at xs (cell q d ∷ cell p e ∷ []),
        ),
        Seg-snoc h x.at p d e xs q s.3 ne pos (ground arith),
      )

  -- The address of a node is that of no other.
  pub Seg-others :
      (h : Store A) (prev stop : Ptr) (xs ys : List (Cell D)) (c : Cell D)
      → Seg h prev (xs ++ c ∷ ys) stop
      → c.at ∉ (xs ++ ys)
  Seg-others h prev stop [] ys c s = s.2
  Seg-others h prev stop (x ∷ xs) ys c s =
      ground (arith, Seg-others h x.at stop xs ys c s.3, has-append x.at xs (c ∷ ys), s.2)
