-- ===== src/Sorter/Time.antt =====
-- The clock arithmetic of homework01/solution.c: `get_time_diff` and `update_coro_work_time`.
use sysprog_labs_f.Base.{
  ℕ, ◌+◌, ◌*◌, ◌/◌, ◌≤◌, ◌<◌, ◌≡◌, arith, ltb, if◌then◌else◌, Bool-cases, inl, inr,
}
use sysprog_labs_f.Base.Int.{
  ℤ, pos, pos_part, neg_part, ◌+ℤ◌, ◌-ℤ◌, ◌≤ℤ◌, ltb_ℤ, one_part, +ℤ_parts, -ℤ_parts,
}

-- `struct timespec`.
pub record Timespec : Type 0 where
  pub tv_sec : ℤ
  pub tv_nsec : ℤ

abbrev pub billion : ℕ
billion = 1000000000

-- The nanoseconds lie within a second.
pub record IsNormal (t : Timespec) : Type 0 where
  pub lower : pos 0 ≤ℤ t.tv_nsec
  pub upper : pos_part t.tv_nsec < billion

unfoldable pub get_time_diff : Timespec → Timespec → Timespec
get_time_diff from to =
    let sec_diff = to.tv_sec -ℤ from.tv_sec in
    let nsec_diff = to.tv_nsec -ℤ from.tv_nsec in
    if ltb_ℤ nsec_diff (pos 0)
    then record { tv_sec = sec_diff -ℤ pos 1; tv_nsec = nsec_diff +ℤ pos billion }
    else record { tv_sec = sec_diff; tv_nsec = nsec_diff }

-- `coro_work_time` after `update_coro_work_time`, from the time before and the difference.
unfoldable pub add_work_time : Timespec → Timespec → Timespec
add_work_time work diff =
    let sec = work.tv_sec +ℤ diff.tv_sec in
    let nsec = work.tv_nsec +ℤ diff.tv_nsec in
    let additional_secs = pos_part nsec / billion in
    if ltb 0 additional_secs
    then record {
      tv_sec = sec +ℤ pos additional_secs;
      tv_nsec = nsec -ℤ pos (additional_secs * billion);
    }
    else record { tv_sec = sec; tv_nsec = nsec }

unfoldable pub update_coro_work_time : Timespec → Timespec → Timespec → Timespec
unfolding add_work_time get_time_diff
update_coro_work_time work prev now = add_work_time work (get_time_diff prev now)

-- The two sides of a time in nanoseconds.
abbrev pub gain : Timespec → ℕ
gain t = billion * pos_part t.tv_sec + pos_part t.tv_nsec

abbrev pub loss : Timespec → ℕ
loss t = billion * neg_part t.tv_sec + neg_part t.tv_nsec

-- `a + b` and `c` are the same time.
abbrev pub Sums : Timespec → Timespec → Timespec → Type 0
Sums a b c = gain a + gain b + loss c ≡ loss a + loss b + gain c

-- The difference of two times whose nanoseconds lie within a second has nanoseconds within a second
-- too, and added to the first it gives the second.
pub get_time_diff_lem :
    (from to : Timespec)
    → IsNormal from
    → IsNormal to
    → IsNormal (get_time_diff from to) × Sums from (get_time_diff from to) to
unfolding get_time_diff
get_time_diff_lem from to a b =
    let sec = to.tv_sec -ℤ from.tv_sec in
    let nsec = to.tv_nsec -ℤ from.tv_nsec in
    let sec_parts = -ℤ_parts to.tv_sec from.tv_sec in
    let nsec_parts = -ℤ_parts to.tv_nsec from.tv_nsec in
    elim (Bool-cases (ltb_ℤ nsec (pos 0))) [
      | inl below ↦
          let test : pos_part nsec + 0 < 0 + neg_part nsec = ground arith in
          let sec_less = -ℤ_parts sec (pos 1) in
          let nsec_more = +ℤ_parts nsec (pos billion) in
          let sign = one_part (nsec +ℤ pos billion) in
          rw below (
            record {
              lower = omega (arith, a.lower, b.lower);
              upper = omega (arith, a.lower, a.upper, b.lower, b.upper);
            },
            omega arith,
          )
      | inr not_below ↦
          let test : 0 + neg_part nsec ≤ pos_part nsec + 0 = ground arith in
          let sign = one_part nsec in
          rw not_below
            (record { lower = omega arith; upper = omega (arith, a.lower, b.upper) }, omega arith)
    ]

-- Adding a difference to the work time, both with nanoseconds within a second, keeps the
-- nanoseconds within a second and adds exactly that time.
pub add_work_time_lem :
    (work diff : Timespec)
    → IsNormal work
    → IsNormal diff
    → IsNormal (add_work_time work diff) × Sums work diff (add_work_time work diff)
unfolding add_work_time
add_work_time_lem work diff a b =
    let sec = work.tv_sec +ℤ diff.tv_sec in
    let nsec = work.tv_nsec +ℤ diff.tv_nsec in
    let extra = pos_part nsec / billion in
    let sec_parts = +ℤ_parts work.tv_sec diff.tv_sec in
    let nsec_parts = +ℤ_parts work.tv_nsec diff.tv_nsec in
    let sign = one_part nsec in
    let work_sign = one_part work.tv_nsec in
    let diff_sign = one_part diff.tv_nsec in
    elim (Bool-cases (ltb 0 extra)) [
      | inl over ↦
          let test : 0 < extra = ground arith in
          let sec_more = +ℤ_parts sec (pos extra) in
          let nsec_less = -ℤ_parts nsec (pos (extra * billion)) in
          let last_sign = one_part (nsec -ℤ pos (extra * billion)) in
          rw over (
            record {
              lower = omega (arith, a.lower, b.lower);
              upper = omega (arith, a.lower, b.lower);
            },
            omega arith,
          )
      | inr under ↦
          let test : extra ≡ 0 = ground arith in
          rw under
            (record { lower = omega (arith, a.lower, b.lower); upper = omega arith }, omega arith)
    ]

-- The work time of a coroutine and the two time stamps having nanoseconds within a second, the
-- updated work time has so too, and it has grown by exactly the time between the two stamps.
pub update_coro_work_time_lem :
    (work prev now : Timespec)
    → IsNormal work
    → IsNormal prev
    → IsNormal now
    → let result = update_coro_work_time work prev now in
      IsNormal result
      × (gain work + gain now + loss prev + loss result
          ≡ loss work + loss now + gain prev + gain result)
unfolding update_coro_work_time
update_coro_work_time_lem work prev now a b c =
    let (normal, sums) = get_time_diff_lem prev now b c in
    let (normal', sums') = add_work_time_lem work (get_time_diff prev now) a normal in
    (normal', omega arith)
