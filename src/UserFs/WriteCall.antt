-- ===== src/UserFs/WriteCall.antt =====
-- `ufs_write`: the whole call on an open descriptor, and its refusals.
use sysprog_labs_f.Base.{
  ℕ, zero, suc, ◌+◌, ◌-◌, ◌^◌, ◌≤◌, ◌<◌, ◌≡◌, ◌≢◌, refl, ◌⊎◌, ap, ◌∙◌, sym, subst, List, [], ◌∷◌,
  none, some, min, max, true, false, arith, ltb, not, Bool, if◌then◌else◌, ◌==◌, length, get_elem?,
  set, get_elem?-set-some, get_elem?-set_ne,
}
use sysprog_labs_f.Base.Bytes.{overwrite, length-overwrite}
use sysprog_labs_f.Base.Int.{ℤ, pos}
use sysprog_labs_f.Memory.Store.{Ptr, null, get, get-put_self, get-put_ne}
use sysprog_labs_f.Memory.Run.{Run, ok, Returns, returns, Returns-eq}
use sysprog_labs_f.Memory.Chain.{Cell, ◌∉◌, first, last, Seg}
use sysprog_labs_f.UserFs.State.{
  Fs, Env, File, Filedesc, no_mem, no_permission, array, failure, fail,
}
use sysprog_labs_f.UserFs.Blocks.{last_of, sub_size}
use sysprog_labs_f.UserFs.Api.{ufs_write, write_file, finish_write}
use sysprog_labs_f.UserFs.Content.{Content, mk_block, content, size, IsPacked, length-content}
use sysprog_labs_f.UserFs.Layout.{IsFile, Kept, load_block-ok, load_file-ok, update_file-ok}
use sysprog_labs_f.UserFs.Write.{write_loop_lem}
use sysprog_labs_f.UserFs.Open.{
  IsOpen, IsOpen-places, is_valid_fd-open, descriptor-open, store_descriptor-open,
}

-- The walk to the last block.
last_of_lem :
    (s : Fs) (lead : Ptr) (xs : List (Cell Content)) (k : ℕ)
    → Seg mk_block s.blocks lead xs null
    → 0 < length xs
    → length xs ≤ k
    → last_of k (first xs null) s ≡ ok (last null xs) s
unfolding last_of
last_of_lem s lead [] k c some_left h = absurd (omega arith)
last_of_lem s lead (x ∷ xs) zero c some_left h = absurd (omega arith)
last_of_lem s lead (x ∷ []) (suc k) c some_left h = rw (load_block-ok s x.at c.0 _ c.1)
last_of_lem s lead (x ∷ y ∷ xs) (suc k) c some_left h =
    let next : (y.at == null) ≡ false = ground (arith, c.3.0) in
    rw (load_block-ok s x.at c.0 _ c.1, next)
      (last_of_lem s x.at (y ∷ xs) k c.3 (omega arith) (omega arith))

length_pos : (xs : List (Cell Content)) → 0 < size xs → 0 < length xs
length_pos [] h = h
length_pos (x ∷ xs) h = omega arith

-- What a successful `ufs_write` of `buf` through the descriptor `d` leaves.
pub record Written (s : Fs) (i : ℕ) (d : Filedesc) (fl : File) (xs : List (Cell Content))
    (buf : List ℕ) (r : ℤ) (t : Fs) : Type 0 where
  pub result : r ≡ pos (length buf)
  pub blocks : List (Cell Content)
  pub file : IsFile t d.file (record fl { bytes_left = fl.bytes_left - length buf }) blocks
  pub packed : IsPacked blocks
  pub short : length blocks ≤ length xs + length buf
  pub bytes : content blocks ≡ overwrite (content xs) (min d.offset (size xs)) buf
  pub advanced : IsOpen t i (record d { offset = d.offset + length buf })
  pub other_descriptors : (j : ℕ) (e : Filedesc) → i ≢ j → IsOpen s j e → IsOpen t j e
  pub other_files : (g : Ptr) → g ≢ d.file → get g t.files ≡ get g s.files
  pub other_blocks : (q : Ptr) → q ∉ xs → get q s.blocks ≢ none → get q t.blocks ≡ get q s.blocks
  pub error : t.error ≡ s.error

module _ (env : Env) (fuel : ℕ) (s : Fs) (i : ℕ) (d : Filedesc) (buf : List ℕ)
    (open_at : IsOpen s i d) where
  -- The call behind the test on the descriptor.
  abbrev permitted : Bool → Run Fs ℤ
  permitted b = (if not b then fail no_permission else write_file env fuel (pos i) d buf) s

  pub ufs_write-open : ufs_write env fuel (pos i) buf s ≡ permitted d.can_write
  unfolding ufs_write
  ufs_write-open = rw (is_valid_fd-open s i d open_at, descriptor-open s i d open_at)

  module _ (fl : File) (xs : List (Cell Content)) (is : IsFile s d.file fl xs) (p : IsPacked xs)
      (some_left : 0 < length buf) (room : length buf ≤ fl.bytes_left)
      (word : fl.bytes_left < 2 ^ 64) (enough : length xs + length buf < fuel) where
    open_elsewhere :
        (j : ℕ) (e : Filedesc) → IsOpen s j e → get_elem? open_at.places j ≡ some (some e)
    open_elsewhere j e o = IsOpen-places s j e o open_at.places open_at.table

    finish_write_lem :
        (t : Fs) (ys : List (Cell Content))
        → IsFile t d.file fl ys
        → IsPacked ys
        → content ys ≡ overwrite (content xs) (min d.offset (size xs)) buf
        → length ys ≤ length xs + length buf
        → Kept d.file xs s t
        → Returns (Written s i d fl xs buf) (finish_write fuel (pos i) d (length buf) t)
    unfolding finish_write
    finish_write_lem t ys isy q read short kept =
        let places =
          array (set open_at.places i (some (record d { offset = d.offset + length buf }))) in
        let open_t : IsOpen t i d = record {
          places = open_at.places;
          table = kept.descriptors ∙ open_at.table;
          holds = open_at.holds;
          within = rw kept.capacity open_at.within;
          file = open_at.file;
          occupied = open_at.occupied;
        } in
        let left : sub_size fl.bytes_left (length buf) ≡ fl.bytes_left - length buf = omega arith in
        let grown : size ys ≡ max (min d.offset (size xs) + length buf) (size xs) = omega (
          arith,
          ap length read,
          length-overwrite (content xs) buf (min d.offset (size xs)),
          length-content ys q,
          length-content xs p,
        ) in
        rw
          (
            load_file-ok t d.file isy.ne_null _ isy.holds,
            last_of_lem t isy.lead ys fuel isy.chain (length_pos ys (omega arith)) (omega arith),
            store_descriptor-open t i d open_t (record d { offset = d.offset + length buf }),
            update_file-ok (record t { descriptors = places }) d.file isy.ne_null _ _ isy.holds,
          )
          (returns (record {
            result = refl;
            blocks = ys;
            file = record {
              ne_null = isy.ne_null;
              holds = rw (← left) (get-put_self d.file _ t.files);
              lead = isy.lead;
              chain = isy.chain;
            };
            packed = q;
            short = short;
            bytes = read;
            advanced = record {
              places = set open_at.places i (some (record d { offset = d.offset + length buf }));
              table = refl;
              holds = get_elem?-set-some open_at.places i (some d) _ open_at.holds;
              within = open_t.within;
              file = open_at.file;
              occupied = open_at.occupied;
            };
            other_descriptors = λ j e ne o. record {
              places = set open_at.places i (some (record d { offset = d.offset + length buf }));
              table = refl;
              holds = get_elem?-set_ne open_at.places _ ne ∙ open_elsewhere j e o;
              within = rw kept.capacity o.within;
              file = o.file;
              occupied = o.occupied;
            };
            other_files = λ g h. get-put_ne g d.file _ t.files (λ z. h (sym z)) ∙ kept.files g h;
            other_blocks = kept.blocks;
            error = kept.error;
          }))

    write_file_lem : Returns (Written s i d fl xs buf) (write_file env fuel (pos i) d buf s)
    unfolding write_file
    write_file_lem =
        let (n, t, eq, (en, (ys, isy, q, read, short, kept))) =
          Returns-eq (write_loop_lem d.file fl env fuel s [] xs d.offset buf 0 is p enough) in
        let test : ltb fl.bytes_left (length buf) ≡ false = ground arith in
        let all : n ≡ length buf = omega arith in
        rw (load_file-ok s d.file is.ne_null _ is.holds, test, eq, all)
          (finish_write_lem t ys isy q read short kept)

    -- A write through an open descriptor that may write, of some bytes that fit into what is left
    -- for the file, a 64-bit number, whose blocks are packed, with more fuel than blocks and bytes:
    -- the call returns the number of bytes. The content of the file is overwritten with them from
    -- the offset on, or from the end if that is nearer, and its blocks are packed again; the offset
    -- grows and `bytes_left` shrinks by the number. The other descriptors, the other files, their
    -- blocks and the error code stay.
    pub ufs_write_lem :
        d.can_write ≡ true → Returns (Written s i d fl xs buf) (ufs_write env fuel (pos i) buf s)
    ufs_write_lem allowed =
        rw ufs_write-open (
          subst (λ b. Returns (Written s i d fl xs buf) (permitted b)) (sym allowed) write_file_lem)

  -- A write through an open descriptor that may not write, or of more bytes than are left for the
  -- file, returns -1 and changes the error code alone: to `no_permission` in the first case, and
  -- else to `no_mem`.
  pub ufs_write_refused :
      (fl : File)
      → get d.file s.files ≡ some fl
      → (d.can_write ≡ false) ⊎ (fl.bytes_left < length buf)
      → ufs_write env fuel (pos i) buf s
        ≡ ok failure (record s { error = if d.can_write then no_mem else no_permission })
  unfolding write_file
  ufs_write_refused fl at why =
      rw ufs_write-open (ground (arith, load_file-ok s d.file open_at.file fl at))
