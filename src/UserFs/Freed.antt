-- ===== src/UserFs/Freed.antt =====
-- The end of a file of homework03/userfs.c: its blocks and the file itself are freed.
use sysprog_labs_f.Base.{
  ℕ, zero, suc, ◌<◌, ◌≡◌, ◌≢◌, refl, ap, ◌∙◌, sym, false, List, [], ◌∷◌, length, none, some, ◌==◌,
  arith, Bool-cases, inl, inr,
}
use sysprog_labs_f.Memory.Store.{
  Ptr, null, Store, get, put, remove, get-remove, get-put_self, get-put_ne,
}
use sysprog_labs_f.Memory.Run.{ok}
use sysprog_labs_f.Memory.Chain.{Cell, has, ◌∈◌, ◌∉◌, first, Seg, frame-remove}
use sysprog_labs_f.UserFs.State.{Fs, Block, File, max_file_size, free_block, free_file, with_file}
use sysprog_labs_f.UserFs.Blocks.{free_blocks, free_file_memory}
use sysprog_labs_f.UserFs.Api.{drop_file}
use sysprog_labs_f.UserFs.Content.{Content, mk_block}
use sysprog_labs_f.UserFs.Layout.{load_block-ok, load_file-ok, update_file-ok}

-- The blocks `xs` are gone, and the others are as they were.
pub record AreFreed (xs : List (Cell Content)) (h g : Store Block) : Type 0 where
  pub gone : (q : Ptr) → q ∈ xs → get q g ≡ none
  pub kept : (q : Ptr) → q ∉ xs → get q g ≡ get q h

free_block-ok :
    (s : Fs) (p : Ptr) (b : Block)
    → p ≢ null
    → get p s.blocks ≡ some b
    → free_block p s ≡ ok tt (record s { blocks = remove p s.blocks })
unfolding free_block
free_block-ok s p b live at = rw (load_block-ok s p live b at) refl

pub free_file-ok :
    (s : Fs) (p : Ptr) (f : File)
    → p ≢ null
    → get p s.files ≡ some f
    → free_file p s ≡ ok tt (record s { files = remove p s.files })
unfolding free_file
free_file-ok s p f live at = rw (load_file-ok s p live f at) refl

abbrev emptied : File → File
emptied x = record x { bytes_left = max_file_size; block_list = null; last_block = null }

pub free_blocks_lem :
    (k : ℕ) (s : Fs) (lead : Ptr) (xs : List (Cell Content))
    → Seg mk_block s.blocks lead xs null
    → length xs < k
    → (g : Store Block) × (free_blocks k (first xs null) s ≡ ok tt (record s { blocks = g }))
      × AreFreed xs s.blocks g
unfolding free_blocks
free_blocks_lem zero s lead xs chain enough = absurd (omega arith)
free_blocks_lem (suc k) s lead [] chain enough =
    (s.blocks, refl, record { gone = λ q i. absurd (ground arith); kept = λ q i. refl })
free_blocks_lem (suc k) s lead (c ∷ xs) chain enough =
    let live : (c.at == null) ≡ false = ground (arith, chain.0) in
    let t : Fs = record s { blocks = remove c.at s.blocks } in
    let (g, eq, freed) =
      free_blocks_lem k t c.at xs (frame-remove mk_block s.blocks c.at null c.at xs chain.2 chain.3)
        (omega arith) in
    (
      g,
      rw (live, load_block-ok s c.at chain.0 _ chain.1, free_block-ok s c.at _ chain.0 chain.1) eq,
      record {
        gone = λ q i. elim (Bool-cases (c.at == q)) [
          | inl e ↦
              let same : c.at ≡ q = ground arith in
              let out : q ∉ xs = ap (λ a. has a xs) (sym same) ∙ chain.2 in
              freed.kept q out ∙ ground (arith, get-remove q c.at s.blocks)
          | inr e ↦ freed.gone q (ground (arith, i))
        ];
        kept = λ q out. freed.kept q (ground arith) ∙ ground (arith, get-remove q c.at s.blocks);
      },
    )

-- The file and its blocks are gone, and nothing else.
pub record IsDropped (f : Ptr) (xs : List (Cell Content)) (s t : Fs) : Type 0 where
  pub error : t.error ≡ s.error
  pub file_list : t.file_list ≡ s.file_list
  pub descriptors : t.descriptors ≡ s.descriptors
  pub count : t.count ≡ s.count
  pub capacity : t.capacity ≡ s.capacity
  pub gone : get f t.files ≡ none
  pub others : (g : Ptr) → g ≢ f → get g t.files ≡ get g s.files
  pub blocks : AreFreed xs s.blocks t.blocks

-- The blocks `xs` hang from the file.
pub record HasBlocks (s : Fs) (fl : File) (xs : List (Cell Content)) : Type 0 where
  pub head : fl.block_list ≡ first xs null
  pub lead : Ptr
  pub chain : Seg mk_block s.blocks lead xs null

pub drop_file_lem :
    (fuel : ℕ) (s : Fs) (f : Ptr) (fl : File) (xs : List (Cell Content))
    → f ≢ null
    → get f s.files ≡ some fl
    → HasBlocks s fl xs
    → length xs < fuel
    → (t : Fs) × (drop_file fuel f s ≡ ok tt t) × IsDropped f xs s t
unfolding drop_file free_file_memory
drop_file_lem fuel s f fl xs live at has_blocks enough =
    let (g, eq, freed) = free_blocks_lem fuel s has_blocks.lead xs has_blocks.chain enough in
    let cut : Fs = record s { blocks = g } in
    let eq' : free_blocks fuel fl.block_list s ≡ ok tt cut =
      ap (λ p. free_blocks fuel p s) has_blocks.head ∙ eq in
    let files = put f (emptied fl) s.files in
    (
      record cut { files = remove f files },
      rw
          (
            load_file-ok s f live fl at,
            eq',
            update_file-ok cut f live emptied fl at,
            free_file-ok (with_file f (emptied fl) cut) f (emptied fl) live
                (get-put_self f (emptied fl) s.files),
          )
          refl,
      record {
        error = refl;
        file_list = refl;
        descriptors = refl;
        count = refl;
        capacity = refl;
        gone = ground (arith, get-remove f f files);
        others =
            λ a other. ground (arith, get-remove a f files, get-put_ne a f (emptied fl) s.files);
        blocks = freed;
      },
    )
