-- ===== src/UserFs/Layout.antt =====
-- The blocks of a file in memory, and what an operation on one file leaves alone.
use sysprog_labs_f.Base.{
  ◌≡◌, ◌≢◌, refl, ap, ◌∙◌, sym, ◌⊎◌, inl, inr, List, [], ◌∷◌, ◌++◌, none, some, arith,
}
use sysprog_labs_f.Memory.Store.{Ptr, null, get}
use sysprog_labs_f.Memory.Run.{ok}
use sysprog_labs_f.Memory.Chain.{Cell, ◌∉◌, first, last, Seg}
use sysprog_labs_f.UserFs.State.{
  Fs, Block, File, load_block, load_file, update_block, update_file, with_block, with_file,
}
use sysprog_labs_f.UserFs.Content.{Content, mk_block}

-- `fl` gives the members of the file other than the two pointers to its blocks.
pub record IsFile (s : Fs) (f : Ptr) (fl : File) (xs : List (Cell Content)) : Type 0 where
  pub ne_null : f ≢ null
  pub holds :
      get f s.files ≡ some (record fl { block_list = first xs null; last_block = last null xs })
  pub lead : Ptr
  pub chain : Seg mk_block s.blocks lead xs null

-- `t` differs from `s` at most in the blocks `xs`, in blocks that `s` does not have, and in the
-- file `f`.
pub record Kept (f : Ptr) (xs : List (Cell Content)) (s t : Fs) : Type 0 where
  pub error : t.error ≡ s.error
  pub file_list : t.file_list ≡ s.file_list
  pub descriptors : t.descriptors ≡ s.descriptors
  pub count : t.count ≡ s.count
  pub capacity : t.capacity ≡ s.capacity
  pub files : (g : Ptr) → g ≢ f → get g t.files ≡ get g s.files
  pub blocks : (q : Ptr) → q ∉ xs → get q s.blocks ≢ none → get q t.blocks ≡ get q s.blocks

pub Kept-refl : (f : Ptr) (xs : List (Cell Content)) (s : Fs) → Kept f xs s s
Kept-refl f xs s = record {
  error = refl;
  file_list = refl;
  descriptors = refl;
  count = refl;
  capacity = refl;
  files = λ g h. refl;
  blocks = λ q h a. refl;
}

-- Two steps, where the blocks of the second are those of the first or new.
pub Kept-trans :
    {f : Ptr} {xs ys : List (Cell Content)} {s t u : Fs}
    → Kept f xs s t
    → Kept f ys t u
    → ((q : Ptr) → q ∉ xs → get q s.blocks ≢ none → q ∉ ys)
    → Kept f xs s u
Kept-trans {s} k l sub = record {
  error = l.error ∙ k.error;
  file_list = l.file_list ∙ k.file_list;
  descriptors = l.descriptors ∙ k.descriptors;
  count = l.count ∙ k.count;
  capacity = l.capacity ∙ k.capacity;
  files = λ g h. l.files g h ∙ k.files g h;
  blocks = λ q h a. let e = k.blocks q h a in l.blocks q (sub q h a) (λ z. a (sym e ∙ z)) ∙ e;
}

module _ (s : Fs) (p : Ptr) (h : p ≢ null) where
  pub load_block-ok : (b : Block) → get p s.blocks ≡ some b → load_block p s ≡ ok b s
  unfolding load_block
  load_block-ok b e = ground arith

  pub load_file-ok : (f : File) → get p s.files ≡ some f → load_file p s ≡ ok f s
  unfolding load_file
  load_file-ok f e = ground arith

  pub update_block-ok :
      (g : Block → Block) (b : Block)
      → get p s.blocks ≡ some b
      → update_block p g s ≡ ok tt (with_block p (g b) s)
  unfolding update_block
  update_block-ok g b e = rw (load_block-ok b e)

  pub update_file-ok :
      (g : File → File) (f : File)
      → get p s.files ≡ some f
      → update_file p g s ≡ ok tt (with_file p (g f) s)
  unfolding update_file
  update_file-ok g f e = rw (load_file-ok f e)

-- A list is empty or has a last element.
pub Snoc-cases :
    {A : Type 0} (xs : List A) → (xs ≡ []) ⊎ ((ys : List A) × (y : A) × (xs ≡ ys ++ y ∷ []))
Snoc-cases [] = inl refl
Snoc-cases {A} (x ∷ xs) = elim (Snoc-cases xs) [
  | inl e ↦ inr ([], x, ap (◌∷◌ x) e)
  | inr (ys, y, e) ↦ inr (x ∷ ys, y, ap (◌∷◌ x) e)
]
