-- ===== src/UserFs/Unlinked.antt =====
-- A file of homework03/userfs.c that is deleted while a descriptor of it is open.
use sysprog_labs_f.Base.{
  ℕ, ◌<◌, ◌^◌, ◌≡◌, ◌≢◌, refl, sym, ap, ◌∙◌, subst, true, false, List, ◌∷◌, ◌++◌, length, take,
  drop, some-eq, some, inl, inr,
}
use sysprog_labs_f.Base.Int.{pos}
use sysprog_labs_f.Memory.Store.{null, get}
use sysprog_labs_f.Memory.Run.{and_then, Returns, returns, Returns-and_then}
use sysprog_labs_f.Memory.Chain.{Cell, first, last, Seg, Seg-right}
use sysprog_labs_f.UserFs.State.{Fs, File, Filedesc}
use sysprog_labs_f.UserFs.Api.{ufs_delete, ufs_read}
use sysprog_labs_f.UserFs.Content.{Content, mk_block, content, IsPacked}
use sysprog_labs_f.UserFs.Layout.{IsFile}
use sysprog_labs_f.UserFs.Open.{IsOpen, moved_IsOpen}
use sysprog_labs_f.UserFs.Listed.{mk_file, Entries, IsListed, Named}
use sysprog_labs_f.UserFs.Freed.{HasBlocks}
use sysprog_labs_f.UserFs.Delete.{unlisted, ufs_delete_lem}
use sysprog_labs_f.UserFs.ReadCall.{ufs_read_lem}

module _ (s : Fs) (name : List ℕ) (xs : Entries) (n : Named name xs) (is : IsListed s xs)
    (fl : File) (bs : List (Cell Content)) (file : IsFile s n.at.at fl bs) where
  -- The file as the list has it.
  same_file :
      mk_file n.at.datum (first n.behind null) (last null n.before)
      ≡ record fl { block_list = first bs null; last_block = last null bs }
  same_file =
      let chain = subst (λ l. Seg mk_file s.files null l null) n.eq is.chain in
      let at = (Seg-right mk_file s.files null null n.before (n.at ∷ n.behind) chain).1 in
      some-eq _ _ (sym at ∙ file.holds)

  unlisted-HasBlocks : HasBlocks s (unlisted n) bs
  unlisted-HasBlocks = record {
    head = ap (λ (f : File). f.block_list) same_file;
    lead = file.lead;
    chain = file.chain;
  }

  -- Its bytes stay.
  unlisted-IsFile :
      (t : Fs)
      → get n.at.at t.files ≡ some (unlisted n)
      → t.blocks ≡ s.blocks
      → IsFile t n.at.at (record fl { in_list = false }) bs
  unlisted-IsFile t at blocks = record {
    ne_null = file.ne_null;
    holds = at ∙ ap (λ (f : File). some (record f { in_list = false })) same_file;
    lead = file.lead;
    chain = subst (λ h. Seg mk_block h file.lead bs null) (sym blocks) file.chain;
  }

-- A file of the list that is deleted while a descriptor of it is open can still be read: if the
-- descriptor may read, the blocks of the file are packed, the fuel is above the number of files and
-- of blocks, and fewer than 2 ^ 63 bytes are asked for, then a read behind the delete returns the
-- bytes of the file from the offset on, as many as asked for or as there are, and the file is off
-- the list.
pub read-delete :
    (fuel : ℕ) (s : Fs) (name : List ℕ) (xs : Entries) (n : Named name xs) (i k : ℕ) (d : Filedesc)
    (fl : File) (bs : List (Cell Content))
    → IsListed s xs
    → IsOpen s i d
    → d.file ≡ n.at.at
    → d.can_read ≡ true
    → n.at.datum.refs ≢ 0
    → IsFile s n.at.at fl bs
    → IsPacked bs
    → length xs < fuel
    → length bs < fuel
    → k < 2 ^ 63
    → let out = take k (drop d.offset (content bs)) in
      Returns
        (λ r u. (r ≡ (pos (length out), out)) × IsListed u (n.before ++ n.behind))
        (and_then (ufs_delete fuel name s) λ r. ufs_read fuel (pos i) k)
read-delete fuel s name xs n i k d fl bs is open_at same can_read in_use file packed enough
      enough_bs word =
    Returns-and_then
      (ufs_delete_lem fuel s name xs n bs is (unlisted-HasBlocks s name xs n is fl bs file) enough
        enough_bs)
      λ r t (_, off, ended). elim ended [
        | inl (closed, gone, freed) ↦ absurd (in_use closed)
        | inr (still, at, blocks) ↦
            let o = moved_IsOpen s t i d off.descriptors off.capacity open_at in
            let f = unlisted-IsFile s name xs n is fl bs file t at blocks in
            let f' = subst (λ q. IsFile t q (record fl { in_list = false }) bs) (sym same) f in
            rw
              (ufs_read_lem fuel t i d k o (record fl { in_list = false }) bs f' packed enough_bs
                word can_read)
              (returns (
                refl,
                record {
                  file_list = off.listed.file_list;
                  chain = off.listed.chain;
                  listed = off.listed.listed;
                },
              ))
      ]
