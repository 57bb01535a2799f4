-- ===== src/UserFs/Create.antt =====
-- `create_block` puts a new, empty block at the end of the file's list.
use mathlib.Core.List.{append_assoc}
use sysprog_labs_f.Base.{
  ◌≡◌, ◌≢◌, refl, ◌∙◌, sym, subst, inl, inr, List, [], ◌∷◌, ◌++◌, some, arith,
}
use sysprog_labs_f.Memory.Store.{Ptr, null, get, put, get-put, get-put_self, get-put_ne}
use sysprog_labs_f.Memory.Run.{ok, Returns, returns}
use sysprog_labs_f.Memory.Chain.{
  Cell, cell, first, last, has-append, last-append, first-append, Seg-right, Seg-snoc, frame-put,
  not-mem-unused,
}
use sysprog_labs_f.UserFs.State.{Fs, Env, Block, File, with_block, with_file}
use sysprog_labs_f.UserFs.Blocks.{create_block}
use sysprog_labs_f.UserFs.Content.{Content, mk_block}
use sysprog_labs_f.UserFs.Layout.{
  IsFile, Kept, load_file-ok, update_block-ok, update_file-ok, Snoc-cases,
}

-- What a new block holds.
abbrev pub blank : Env → Fs → Content
blank env s = record { memory = (env.blocks.raw s.blocks).memory; occupied = 0 }

abbrev pub new_cell : Env → Fs → Cell Content
new_cell env s = cell (env.blocks.place s.blocks) (blank env s)

module _ (env : Env) (f : Ptr) (fl : File) (s : Fs) where
  abbrev Created : List (Cell Content) → Ptr → Fs → Type 0
  Created xs p t =
      (p ≡ env.blocks.place s.blocks) × IsFile t f fl (xs ++ new_cell env s ∷ []) × Kept f xs s t

  -- The new block as `malloc` and the three assignments leave it.
  abbrev made : Block
  made = record (env.blocks.raw s.blocks) { occupied = 0; next = null }

  abbrev place : Ptr
  place = env.blocks.place s.blocks

  abbrev s₁ : Fs
  s₁ = with_block place made s

  abbrev ends : Ptr → Ptr → File
  ends p q = record fl { block_list = p; last_block = q }

  create_block-first :
      f ≢ null
      → get f s.files ≡ some (ends null null)
      → create_block env f s ≡ ok place (with_file f (ends place place) s₁)
  unfolding create_block
  create_block-first ne e = ground (
    arith,
    load_file-ok s₁ f ne (ends null null) e,
    update_file-ok s₁ f ne (λ x. record x { last_block = place; block_list = place })
        (ends null null) e,
  )

  create_block-next :
      (head q r : Ptr) (d : Content)
      → f ≢ null
      → q ≢ null
      → q ≢ place
      → get f s.files ≡ some (ends head q)
      → get q s.blocks ≡ some (mk_block d null r)
      → create_block env f s
        ≡ ok place (
            with_file f (ends head place) (
              with_block place
                (mk_block (blank env s) null q)
                (with_block q (mk_block d place r) s₁)))
  unfolding create_block
  create_block-next head q r d ne pos apart e eq =
      let s₂ = with_block q (mk_block d place r) s₁ in
      let s₃ = with_block place (mk_block (blank env s) null q) s₂ in
      ground (
        arith,
        load_file-ok s₁ f ne (ends head q) e,
        update_block-ok s₁ q pos (λ x. record x { next = place }) (mk_block d null r)
            (get-put_ne q place made s.blocks (λ z. apart (sym z)) ∙ eq),
        update_block-ok s₂ place (env.blocks.place-ne_null s.blocks) (λ x. record x { prev = q })
            made
            (get-put_ne place q (mk_block d place r) s₁.blocks apart
              ∙ get-put_self place made s.blocks),
        update_file-ok s₃ f ne (λ x. record x { last_block = place }) (ends head q) e,
      )

  create_block-nil : IsFile s f fl [] → Returns (Created []) (create_block env f s)
  create_block-nil is = rw (create_block-first is.ne_null is.holds) (
      returns (
        refl,
        record {
          ne_null = is.ne_null;
          holds = get-put_self f _ s.files;
          lead = made.prev;
          chain = (env.blocks.place-ne_null s.blocks, get-put_self place made s.blocks, refl, tt);
        },
        record {
          error = refl;
          file_list = refl;
          descriptors = refl;
          count = refl;
          capacity = refl;
          files = λ g h. get-put_ne g f _ s.files (λ z. h (sym z));
          blocks = λ q out a.
              get-put_ne q place made s.blocks
                (λ z. a (rw (← z) (env.blocks.place-unused s.blocks)));
        },
      ))

  create_block-snoc :
      (xs : List (Cell Content)) (c : Cell Content)
      → IsFile s f fl (xs ++ c ∷ [])
      → Returns (Created (xs ++ c ∷ [])) (create_block env f s)
  create_block-snoc xs c is =
      let unused = env.blocks.place-unused s.blocks in
      let new = new_cell env s ∷ [] in
      let end = Seg-right mk_block s.blocks is.lead null xs (c ∷ []) is.chain in
      let out =
        not-mem-unused mk_block s.blocks is.lead null place (xs ++ c ∷ []) unused is.chain in
      let apart : c.at ≢ place = λ z. ground (arith, rw (← z) at unused, end.1) in
      let tail : last null (xs ++ c ∷ []) ≡ c.at = last-append null xs (c ∷ []) in
      let head : first (xs ++ c ∷ [] ++ new) null ≡ first (xs ++ c ∷ []) null =
        first-append (xs ++ c ∷ []) new null
        ∙ first-append xs (c ∷ []) place
        ∙ sym (first-append xs (c ∷ []) null) in
      rw
        (create_block-next _ c.at (last is.lead xs) c.datum is.ne_null end.0 apart
          (rw tail at is.holds) end.1)
        (returns (
          refl,
          record {
            ne_null = is.ne_null;
            holds = rw (head, last-append null (xs ++ c ∷ []) new) (get-put_self f _ s.files);
            lead = is.lead;
            chain = rw (append_assoc xs (c ∷ []) new) (
                Seg-snoc mk_block s₁.blocks is.lead place c.datum (blank env s) xs c.at
                  (frame-put mk_block s.blocks is.lead null place made (xs ++ c ∷ []) out is.chain)
                  apart (env.blocks.place-ne_null s.blocks)
                  (ground (arith, has-append place xs (c ∷ []))));
          },
          record {
            error = refl;
            file_list = refl;
            descriptors = refl;
            count = refl;
            capacity = refl;
            files = λ g h. get-put_ne g f _ s.files (λ z. h (sym z));
            blocks = λ q o a.
                let other : place ≢ q = λ z. a (rw (← z) unused) in
                let b = mk_block c.datum place (last is.lead xs) in
                ground (
                  arith,
                  has-append q xs (c ∷ []),
                  get-put q place (mk_block (blank env s) null c.at) (put c.at b s₁.blocks),
                  get-put q c.at b s₁.blocks,
                  get-put q place made s.blocks,
                );
          },
        ))

  pub create_block_lem :
      (xs : List (Cell Content)) → IsFile s f fl xs → Returns (Created xs) (create_block env f s)
  create_block_lem xs is = elim (Snoc-cases xs) [
    | inl e ↦
        subst (λ ys. IsFile s f fl ys → Returns (Created ys) (create_block env f s)) (sym e)
          create_block-nil is
    | inr (ys, y, e) ↦
        subst (λ ys. IsFile s f fl ys → Returns (Created ys) (create_block env f s)) (sym e)
          (create_block-snoc ys y) is
  ]
