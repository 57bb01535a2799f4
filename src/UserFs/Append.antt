-- ===== src/UserFs/Append.antt =====
-- A new file of homework03/userfs.c at the end of the file list.
use mathlib.Core.List.{append_assoc}
use sysprog_labs_f.Base.{
  ℕ, zero, suc, ◌<◌, ◌≡◌, ◌≢◌, refl, sym, ap, ◌∙◌, subst, true, false, List, [], ◌∷◌, ◌++◌, length,
  some, ◌==◌, arith, inl, inr,
}
use sysprog_labs_f.Memory.Store.{Ptr, null, get, get-put_self, get-put_ne}
use sysprog_labs_f.Memory.Run.{ok}
use sysprog_labs_f.Memory.Chain.{
  Cell, cell, ◌∉◌, first, last, has-append, Seg, Seg-right, Seg-snoc, frame-put, not-mem-unused,
  has-ne,
}
use sysprog_labs_f.UserFs.State.{Fs, Env, max_file_size, with_file}
use sysprog_labs_f.UserFs.Names.{last_file, append_file}
use sysprog_labs_f.UserFs.Api.{create_file}
use sysprog_labs_f.UserFs.Layout.{load_file-ok, update_file-ok, Snoc-cases}
use sysprog_labs_f.UserFs.Listed.{Entry, mk_file, Entries, AreListed, IsListed}

last_file_lem :
    (s : Fs) (k : ℕ) (prev : Ptr) (xs : Entries) (q : Cell Entry)
    → Seg mk_file s.files prev (xs ++ q ∷ []) null
    → length (xs ++ q ∷ []) < k
    → last_file k (first (xs ++ q ∷ []) null) s ≡ ok q.at s
unfolding last_file
last_file_lem s zero prev xs q chain enough = absurd (omega arith)
last_file_lem s (suc k) prev [] q chain enough = rw (load_file-ok s q.at chain.0 _ chain.1) refl
last_file_lem s (suc k) prev (x ∷ []) q chain enough =
    let more : (q.at == null) ≡ false = ground (arith, chain.3.0) in
    rw (load_file-ok s x.at chain.0 _ chain.1, more)
      (last_file_lem s k x.at [] q chain.3 (omega arith))
last_file_lem s (suc k) prev (x ∷ y ∷ xs) q chain enough =
    let more : (y.at == null) ≡ false = ground (arith, chain.3.0) in
    rw (load_file-ok s x.at chain.0 _ chain.1, more)
      (last_file_lem s k x.at (y ∷ xs) q chain.3 (omega arith))

-- The new file `p` behind the others.
abbrev pub Appended : Fs → Ptr → Entry → Entries → Fs → Type 0
Appended s p e xs t =
    (t.file_list ≡ first (xs ++ cell p e ∷ []) null)
    × Seg mk_file t.files null (xs ++ cell p e ∷ []) null
    × (t.descriptors ≡ s.descriptors)
    × (t.count ≡ s.count)
    × (t.capacity ≡ s.capacity)
    × (t.blocks ≡ s.blocks)

first-ne_null :
    (s : Fs) (ys : Entries) (q : Cell Entry)
    → Seg mk_file s.files null (ys ++ q ∷ []) null
    → first (ys ++ q ∷ []) null ≢ null
first-ne_null s [] q chain = chain.0
first-ne_null s (y ∷ ys) q chain = chain.0

first-snoc :
    (ys : Entries) (q z : Cell Entry)
    → first (ys ++ q ∷ []) null ≡ first ((ys ++ q ∷ []) ++ z ∷ []) null
first-snoc [] q z = refl
first-snoc (y ∷ ys) q z = refl

has-append-left : (a : Ptr) (xs ys : Entries) → a ∉ (xs ++ ys) → a ∉ xs
has-append-left a xs ys out = ground (arith, has-append a xs ys)

append_last :
    (fuel : ℕ) (s : Fs) (p : Ptr) (e : Entry) (ys : Entries) (q : Cell Entry)
    → s.file_list ≡ first (ys ++ q ∷ []) null
    → Seg mk_file s.files null (ys ++ q ∷ []) null
    → p ≢ null
    → p ∉ (ys ++ q ∷ [])
    → get p s.files ≡ some (mk_file e null null)
    → length (ys ++ q ∷ []) < fuel
    → (t : Fs) × (append_file fuel p s ≡ ok tt t) × Appended s p e (ys ++ q ∷ []) t
unfolding append_file
append_last fuel s p e ys q list chain live out at enough =
    let other : q.at ≢ p = has-ne p ys [] q out in
    let (q_live, q_at, q_apart, q_end) = Seg-right mk_file s.files null null ys (q ∷ []) chain in
    let x = mk_file q.datum p (last null ys) in
    let u = with_file q.at x s in
    let t = with_file p (mk_file e null q.at) u in
    let head : (s.file_list == null) ≡ false = ground (arith, list, first-ne_null s ys q chain) in
    (
      t,
      rw
          (
            head,
            ap (λ a. last_file fuel a s) list ∙ last_file_lem s fuel null ys q chain enough,
            update_file-ok s q.at q_live (λ f. record f { next = p }) _ q_at,
            update_file-ok u p live (λ f. record f { prev = q.at }) _
                (get-put_ne p q.at x s.files other ∙ at),
          )
          refl,
      (
        list ∙ first-snoc ys q (cell p e),
        subst (λ l. Seg mk_file t.files null l null)
            (sym (append_assoc ys (q ∷ []) (cell p e ∷ [])))
            (Seg-snoc mk_file s.files null p q.datum e ys q.at chain other live
              (has-append-left p ys (q ∷ []) out)),
        refl,
        refl,
        refl,
        refl,
      ),
    )

append_first :
    (fuel : ℕ) (s : Fs) (p : Ptr) (e : Entry)
    → s.file_list ≡ null
    → p ≢ null
    → get p s.files ≡ some (mk_file e null null)
    → (t : Fs) × (append_file fuel p s ≡ ok tt t) × Appended s p e [] t
unfolding append_file
append_first fuel s p e list live at =
    let head : (s.file_list == null) ≡ true = ground (arith, list) in
    (record s { file_list = p }, rw head refl, (refl, (live, at, refl, tt), refl, refl, refl, refl))

append_file_lem :
    (fuel : ℕ) (s : Fs) (p : Ptr) (e : Entry) (xs : Entries)
    → s.file_list ≡ first xs null
    → Seg mk_file s.files null xs null
    → p ≢ null
    → p ∉ xs
    → get p s.files ≡ some (mk_file e null null)
    → length xs < fuel
    → (t : Fs) × (append_file fuel p s ≡ ok tt t) × Appended s p e xs t
append_file_lem fuel s p e xs list chain live out at enough = elim (Snoc-cases xs) [
  | inl none_yet ↦
      subst (λ l. (t : Fs) × (append_file fuel p s ≡ ok tt t) × Appended s p e l t) (sym none_yet)
        (append_first fuel s p e (list ∙ ap (λ l. first l null) none_yet) live at)
  | inr (ys, q, all) ↦
      subst (λ l. (t : Fs) × (append_file fuel p s ≡ ok tt t) × Appended s p e l t) (sym all)
        (append_last fuel s p e ys q (list ∙ ap (λ l. first l null) all)
          (subst (λ l. Seg mk_file s.files null l null) all chain) live (subst (λ l. p ∉ l) all out)
          at (subst (λ l. length l < fuel) all enough))
]

-- A file without blocks.
abbrev pub new_entry : List ℕ → Entry
new_entry filename = record {
  block_list = null;
  last_block = null;
  refs = 0;
  name = filename;
  bytes_left = max_file_size;
  in_list = true;
}

AreListed-snoc :
    (xs : Entries) (c : Cell Entry)
    → AreListed xs
    → c.datum.in_list ≡ true
    → AreListed (xs ++ c ∷ [])
AreListed-snoc [] c all one = (one, tt)
AreListed-snoc (x ∷ xs) c all one = (all.0, AreListed-snoc xs c all.1 one)

-- A new file is at the end of the list.
pub create_file_lem :
    (env : Env) (fuel : ℕ) (s : Fs) (filename : List ℕ) (xs : Entries)
    → IsListed s xs
    → length xs < fuel
    → let p = env.files.place s.files in
      (t : Fs) × (create_file env fuel filename s ≡ ok p t)
      × IsListed t (xs ++ cell p (new_entry filename) ∷ [])
      × (t.descriptors ≡ s.descriptors)
      × (t.count ≡ s.count)
      × (t.capacity ≡ s.capacity)
      × (t.blocks ≡ s.blocks)
unfolding create_file
create_file_lem env fuel s filename xs is enough =
    let p = env.files.place s.files in
    let e = new_entry filename in
    let live = env.files.place-ne_null s.files in
    let away =
      not-mem-unused mk_file s.files null null p xs (env.files.place-unused s.files) is.chain in
    let u = with_file p (mk_file e null null) s in
    let (t, eq, (list, chain, table, count, capacity, blocks)) =
      append_file_lem fuel u p e xs is.file_list
        (frame-put mk_file s.files null null p (mk_file e null null) xs away is.chain) live away
        (get-put_self p (mk_file e null null) s.files) enough in
    (
      t,
      rw eq refl,
      record {
        file_list = list;
        chain = chain;
        listed = AreListed-snoc xs (cell p e) is.listed refl;
      },
      table,
      count,
      capacity,
      blocks,
    )
