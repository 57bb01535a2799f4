-- ===== src/ThreadPool/Remove.antt =====
-- What `delete_task` of homework04/thread_pool.c does to the list of the pool.
use sysprog_labs_f.Base.{
  ◌≡◌, ◌≢◌, refl, ◌∙◌, false, [], ◌∷◌, ◌++◌, none, some, arith, ◌==◌, if◌then◌else◌,
}
use sysprog_labs_f.Memory.Store.{Ptr, null, Store, get, remove, get-remove}
use sysprog_labs_f.Memory.Run.{ok}
use sysprog_labs_f.Memory.Chain.{
  Cell, first, last, has-append, last-append, ◌∉◌, Seg, Seg-left, Seg-right, frame-remove,
}
use sysprog_labs_f.Memory.Relink.{unlink_back, relink-first, Seg-behind}
use sysprog_labs_f.Memory.Rotate.{last-ne_null, write-eq-relink, last-mem, mem-apart}
use sysprog_labs_f.ThreadPool.State.{Tp, TpTask, set_next, set_prev}
use sysprog_labs_f.ThreadPool.Tasks.{remove_tp_task}
use sysprog_labs_f.ThreadPool.Pool.{Entry, mk_task, Entries, load_tp_task-ok, relink_tp_task-ok}
use sysprog_labs_f.ThreadPool.Take.{shaped, set_tp_task-write}

-- The entry is in the list of the pool.
pub Seg-get :
    (h : Store TpTask) (c : Cell Entry) (xs ys : Entries)
    → Seg mk_task h null (xs ++ c ∷ ys) null
    → (c.at ≢ null) × (get c.at h ≡ some (mk_task c.datum (first ys null) (last null xs)))
Seg-get h c xs ys s = let r = Seg-right mk_task h null null xs (c ∷ ys) s in (r.0, r.1)

pub apart_all :
    (h : Store TpTask) (c : Cell Entry) (xs ys : Entries)
    → Seg mk_task h null (xs ++ c ∷ ys) null
    → c.at ∉ (xs ++ ys)
apart_all h c xs ys s = ground (
  arith,
  has-append c.at xs ys,
  Seg-behind mk_task h null null xs (c ∷ ys) s c.at,
  (Seg-right mk_task h null null xs (c ∷ ys) s).2,
)

-- The last task of the pool, when `c` goes.
last_without :
    (h : Store TpTask) (c : Cell Entry) (xs ys : Entries)
    → Seg mk_task h null (xs ++ c ∷ ys) null
    → (if last null (xs ++ c ∷ ys) == c.at then last null xs else last null (xs ++ c ∷ ys))
      ≡ last null (xs ++ ys)
last_without h c xs [] s = rw (last-append null xs (c ∷ []), last-append null xs []) (ground arith)
last_without h c xs (y ∷ ys) s =
    let out = (Seg-right mk_task h null null xs (c ∷ y ∷ ys) s).2 in
    rw (last-append null xs (c ∷ y ∷ ys), last-append null xs (y ∷ ys))
      (ground (arith, mem-apart mk_task c.at (last y.at ys) (y ∷ ys) (last-mem mk_task y ys) out))

pub remove_lem :
    (s : Tp) (h : Store TpTask) (c : Cell Entry) (xs ys : Entries)
    → Seg mk_task h null (xs ++ c ∷ ys) null
    → (g : Store TpTask) × (remove_tp_task c.at
          (shaped (first (xs ++ c ∷ ys) null) (last null (xs ++ c ∷ ys)) h s)
        ≡ ok tt (shaped (first (xs ++ ys) null) (last null (xs ++ ys)) g s))
      × Seg mk_task g null (xs ++ ys) null
      × ((a : Ptr) → a ∉ (xs ++ ys) → get a g ≡ (if c.at == a then none else get a h))
unfolding remove_tp_task
remove_lem s h c [] ys q =
    let before = shaped c.at (last c.at ys) h s in
    let (g, eq, chain, same) =
      relink-first mk_task (set_prev null) h c.at null ys (λ d n p. refl) q.3 in
    (
      remove c.at g,
      rw
          (
            load_tp_task-ok before c.at q.0 _ q.1,
            last_without h c [] ys q,
            relink_tp_task-ok (shaped c.at (last null ys) h s) (set_prev null) (first ys null) g eq,
          )
          refl,
      frame-remove mk_task g null null c.at ys q.2 chain,
      λ a out. ground (arith, get-remove a c.at g, same a out),
    )
remove_lem s h c (x ∷ xs) ys q =
    let before = shaped x.at (last x.at (xs ++ c ∷ ys)) h s in
    let at = Seg-get h c (x ∷ xs) ys q in
    let prev = last x.at xs in
    let left = Seg-left mk_task h null null (x ∷ xs) (c ∷ ys) q in
    let live = last-ne_null mk_task h null c.at x xs left in
    let alive : (prev == null) ≡ false = ground arith in
    let (h₁, h₂, eq₁, eq₂, chain, same) =
      unlink_back mk_task (set_next (first ys null)) (set_prev prev) h c (x ∷ xs) ys (λ d n p. refl)
        (λ d n p. refl) q in
    let after = last x.at (xs ++ ys) in
    (
      remove c.at h₂,
      rw
          (
            load_tp_task-ok before c.at at.0 _ at.1,
            last_without h c (x ∷ xs) ys q,
            relink_tp_task-ok (shaped x.at after h s) (set_prev prev) (first ys null) h₁ eq₁,
            alive,
            set_tp_task-write (shaped x.at after h₁ s) (set_next (first ys null)) prev h₂
                (write-eq-relink _ prev h₁ live ∙ eq₂),
          )
          refl,
      frame-remove mk_task h₂ null null c.at (x ∷ xs ++ ys) (apart_all h c (x ∷ xs) ys q) chain,
      λ a out. ground (arith, get-remove a c.at h₂, same a out),
    )
