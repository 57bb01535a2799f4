-- ===== src/UserFs/Content.antt =====
-- What the blocks of a file of homework03/userfs.c stand for: the bytes of the file.
use mathlib.Core.List.{append-nil}
use sysprog_labs_f.Base.{
  ℕ, ◌+◌, ◌≤◌, ◌≡◌, refl, ◌∙◌, sym, ◌⊎◌, inl, inr, List, [], ◌∷◌, ◌++◌, max, arith, length, take,
  drop, length-append, length-take, length-drop,
}
use sysprog_labs_f.Base.Bytes.{
  overwrite, overwrite-nil, overwrite-within, overwrite-across, overwrite-beyond, take-splice,
}
use sysprog_labs_f.Memory.Store.{Ptr}
use sysprog_labs_f.Memory.Chain.{Cell}
use sysprog_labs_f.UserFs.State.{Block, block_size}
use sysprog_labs_f.UserFs.Blocks.{splice}

-- A block without its links.
pub record Content : Type 0 where
  pub memory : List ℕ
  pub occupied : ℕ

abbrev pub mk_block : Content → Ptr → Ptr → Block
mk_block d next prev = record { memory = d.memory; occupied = d.occupied; next = next; prev = prev }

abbrev pub bytes : Content → List ℕ
bytes d = take d.occupied d.memory

-- The bytes of a file, block by block.
abbrev pub content : List (Cell Content) → List ℕ
content [] = []
content (c ∷ xs) = bytes c.datum ++ content xs

abbrev pub size : List (Cell Content) → ℕ
size [] = 0
size (c ∷ xs) = c.datum.occupied + size xs

pub record IsBlock (d : Content) : Type 0 where
  pub whole : length d.memory ≡ block_size
  pub fits : d.occupied ≤ block_size

-- Only behind a full block is there anything.
abbrev pub IsPacked : List (Cell Content) → Type 0
IsPacked [] = Unit {0}
IsPacked (c ∷ xs) =
    IsBlock c.datum × ((c.datum.occupied ≡ block_size) ⊎ (size xs ≡ 0)) × IsPacked xs

pub length-bytes : (d : Content) → IsBlock d → length (bytes d) ≡ d.occupied
length-bytes d b = omega (arith, length-take d.occupied d.memory)

pub length-content : (xs : List (Cell Content)) → IsPacked xs → length (content xs) ≡ size xs
length-content [] p = refl
length-content (c ∷ xs) p = omega (
  arith,
  length-append (bytes c.datum) (content xs),
  length-bytes c.datum p.0,
  length-content xs p.2,
)

pub content-nil : (xs : List (Cell Content)) → IsPacked xs → size xs ≡ 0 → content xs ≡ []
content-nil xs p e = empty (content xs) (length-content xs p ∙ e)
  where
    empty : (l : List ℕ) → length l ≡ 0 → l ≡ []
    empty [] e = refl
    empty (x ∷ l) e = absurd (omega arith)

-- A block after a round that writes `new` at `k`.
abbrev pub written : Content → ℕ → List ℕ → Content
written d k new = record {
  memory = splice d.memory k new;
  occupied = max (k + length new) d.occupied;
}

pub length-splice :
    (m new : List ℕ) (k : ℕ) → k + length new ≤ length m → length (splice m k new) ≡ length m
length-splice m new k h = omega (
  arith,
  length-append (take k m ++ new) (drop (k + length new) m),
  length-append (take k m) new,
  length-take k m,
  length-drop (k + length new) m,
)

module _ (d : Content) (k : ℕ) (new : List ℕ) (b : IsBlock d) (h : k ≤ d.occupied)
    (fit : k + length new ≤ block_size) where
  pub bytes-written : bytes (written d k new) ≡ overwrite (bytes d) k new
  bytes-written = take-splice d.memory new k d.occupied h (omega arith) (omega arith)

  pub written-IsBlock : IsBlock (written d k new)
  written-IsBlock = record {
    whole = length-splice d.memory new k (omega arith) ∙ b.whole;
    fits = omega arith;
  }

-- A write that starts at `k` in the first block: `new` goes there and `more` to the blocks behind.
pub content-written :
    (d : Content) (xs : List (Cell Content)) (k : ℕ) (new more : List ℕ)
    → IsBlock d
    → (d.occupied ≡ block_size) ⊎ (size xs ≡ 0)
    → IsPacked xs
    → k ≤ d.occupied
    → k + length new ≤ block_size
    → (more ≡ []) ⊎ (k + length new ≡ block_size)
    → overwrite (bytes d) k new ++ overwrite (content xs) 0 more
      ≡ overwrite (bytes d ++ content xs) k (new ++ more)
unfolding overwrite
content-written d xs k new more b (inl full) p h fit (inl done) =
    rw (done, overwrite-nil, append-nil)
      (sym (overwrite-within (bytes d) (content xs) new k (omega (arith, length-bytes d b))))
content-written d xs k new more b (inl full) p h fit (inr on) =
    sym (overwrite-across (bytes d) (content xs) new more k (omega (arith, length-bytes d b)))
content-written d xs k new more b (inr blank) p h fit (inl done) =
    rw (done, content-nil xs p blank) (simp append-nil)
content-written d xs k new more b (inr blank) p h fit (inr on) =
    rw (content-nil xs p blank, append-nil)
      (sym (
        overwrite-beyond (bytes d) new more k (omega (arith, length-bytes d b))
          (omega (arith, length-bytes d b))))
