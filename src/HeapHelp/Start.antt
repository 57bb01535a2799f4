-- ===== src/HeapHelp/Start.antt =====
-- The start of the detector of utils/heap_help/heap_help.c, and the allocator that serves before it.
use Prim.Native.String.{String}
use sysprog_labs_f.Base.{
  ℕ, ◌+◌, ◌-◌, ◌≤◌, ◌<◌, ◌≡◌, ◌≢◌, refl, sym, subst, true, false, Option, arith, ltb, leb, ◌==◌,
}
use sysprog_labs_f.Memory.Store.{Ptr, null}
use sysprog_labs_f.Memory.Run.{ok, Returns, returns, ◌>>=◌, ◌>>◌, pure}
use sysprog_labs_f.HeapHelp.State.{Hh, real_ones, heaph_lock, heaph_unlock}
use sysprog_labs_f.HeapHelp.Static.{
  mode_of, heaph_init, heaph_touch, static_malloc, static_allocator_touch,
}

-- The state before the start: no thread is at it.
abbrev before_start : Hh → Hh
before_start s = record s { is_init_done = false; init_lock = false; init_lock_count = 0 }

abbrev after_start : Option String → Hh → Hh
after_start hh_report s = record s {
  is_init_done = true;
  defaults = real_ones;
  report_mode = mode_of hh_report s.report_mode;
}

heaph_touch-before :
    (hh_report : Option String) (s : Hh)
    → heaph_touch hh_report (before_start s) ≡ ok tt (after_start hh_report (before_start s))
unfolding heaph_touch heaph_init heaph_lock heaph_unlock
heaph_touch-before hh_report s = refl

heaph_touch-after :
    (hh_report later : Option String) (s : Hh)
    → heaph_touch later (after_start hh_report s) ≡ ok tt (after_start hh_report s)
unfolding heaph_touch
heaph_touch-after hh_report later s = refl

-- While the detector has not started and its lock is free, with no thread at it, the first
-- `heaph_touch` starts it: the system's functions are taken, the report mode is what `HHREPORT`
-- asks for, the lock is free again, and nothing else changes. A `heaph_touch` behind it changes
-- nothing, whatever `HHREPORT` says then.
pub heaph_touch_lem :
    (hh_report later : Option String) (s : Hh)
    → s.is_init_done ≡ false
    → s.init_lock ≡ false
    → s.init_lock_count ≡ 0
    → (heaph_touch hh_report >> heaph_touch later) s
      ≡ ok tt (record s {
        is_init_done = true;
        defaults = real_ones;
        report_mode = mode_of hh_report s.report_mode;
      })
heaph_touch_lem hh_report later s done lock count =
    let e : s ≡ before_start s =
      λ i. record s { is_init_done = done i; init_lock = lock i; init_lock_count = count i } in
    subst (λ t. (heaph_touch hh_report >> heaph_touch later) t ≡ ok tt (after_start hh_report t))
      (sym e)
      (rw (heaph_touch-before hh_report s) (heaph_touch-after hh_report later (before_start s)))

-- While the detector starts: the lock is held and the static buffer is there.
abbrev starting : Hh → Hh
starting s = record s { is_init_done = false; init_lock = true }

-- Two regions behind one another, within the buffer.
pub record Regions (s : Hh) (a b : ℕ) (p q : Ptr) (t : Hh) : Type 0 where
  pub low : s.static_buf + s.static_used ≤ p
  pub apart : p + a ≤ q
  pub within : q + b ≤ s.static_buf + s.static_size
  pub used : t.static_buf + t.static_used ≡ q + b

static_malloc-starting :
    (region : Ptr) (a b : ℕ) (s : Hh)
    → s.static_buf ≢ null
    → s.static_used + a + b < s.static_size
    → Returns
        (λ (p, q) t. Regions (starting s) a b p q t)
        ((static_malloc region a >>= λ p. static_malloc region b >>= λ q. pure (p, q)) (starting s))
unfolding static_malloc static_allocator_touch
static_malloc-starting region a b s there room =
    let live : (s.static_buf == null) ≡ false = ground arith in
    let fits : leb s.static_used s.static_size ≡ true = ground arith in
    let first : ltb a (s.static_size - s.static_used) ≡ true = ground arith in
    let fits_on : leb (s.static_used + a) s.static_size ≡ true = ground arith in
    let second : ltb b (s.static_size - (s.static_used + a)) ≡ true = ground arith in
    rw (live, fits, first, live, fits_on, second)
      (returns
        record { low = omega arith; apart = omega arith; within = omega arith; used = omega arith })

-- While the detector starts and holds its lock, with the static buffer in place and more room than
-- two requests need, two calls of `static_malloc` return disjoint regions, the second behind the
-- first, both behind what was used before and within the buffer, and all up to the end of the
-- second counts as used.
pub static_malloc_lem :
    (region : Ptr) (a b : ℕ) (s : Hh)
    → s.is_init_done ≡ false
    → s.init_lock ≡ true
    → s.static_buf ≢ null
    → s.static_used + a + b < s.static_size
    → Returns
        (λ (p, q) t. Regions s a b p q t)
        ((static_malloc region a >>= λ p. static_malloc region b >>= λ q. pure (p, q)) s)
static_malloc_lem region a b s done held there room =
    let e : s ≡ starting s = λ i. record s { is_init_done = done i; init_lock = held i } in
    subst
      (λ u.
        Returns (λ (p, q) t. Regions u a b p q t)
          ((static_malloc region a >>= λ p. static_malloc region b >>= λ q. pure (p, q)) u))
      (sym e) (static_malloc-starting region a b s there room)
