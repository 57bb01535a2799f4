-- ===== src/Coro/New.antt =====
-- What `coro_new` of homework01/libcoro.c does to the list of coroutines.
use sysprog_labs_f.Base.{ℕ, ◌≡◌, ◌≢◌, refl, sym, ap, ◌∙◌, false, ◌∷◌, some, arith}
use sysprog_labs_f.Base.Int.{pos}
use sysprog_labs_f.Memory.Store.{Ptr, null, Store, get, put, get-put_self, get-put_ne}
use sysprog_labs_f.Memory.Run.{ok, Returns, returns}
use sysprog_labs_f.Memory.Chain.{cell, first, ◌∉◌, Seg, frame-put, not-mem-unused}
use sysprog_labs_f.Memory.Relink.{push_front}
use sysprog_labs_f.Coro.State.{Coro, Sched, Env, set_prev}
use sysprog_labs_f.Coro.Api.{coro_new, new_coro}
use sysprog_labs_f.Coro.Jobs.{Job, mk_coro, Jobs, IsSched, set_coro-ok, relink_coro-ok}
use sysprog_labs_f.Coro.Rounds.{calm, calm-eq}

-- A coroutine that has not run yet.
abbrev pub new_job : ℕ → Ptr → Job
new_job func func_arg = record {
  ret = pos 0;
  func_arg = func_arg;
  func = func;
  is_finished = false;
  switch_count = 0;
}

module _ {W : Type 0} (env : Env W) (func : ℕ) (func_arg : Ptr) where
  new_calm :
      (s : Sched W) (h : Store Coro) (xs : Jobs) (x : Coro)
      → Seg mk_coro h null xs null
      → env.sched ∉ xs
      → get env.sched h ≡ some x
      → let p = env.coros.place h in
        (g : Store Coro) × (coro_new env func func_arg (calm env xs h s.world s)
          ≡ ok p (calm env (cell p (new_job func func_arg) ∷ xs) g s.world s))
        × Seg mk_coro g null (cell p (new_job func func_arg) ∷ xs) null
        × (env.sched ∉ (cell p (new_job func func_arg) ∷ xs))
        × (get env.sched g ≡ some x)
  unfolding coro_new
  new_calm s h xs x chain out at =
      let p = env.coros.place h in
      let start = calm env xs h s.world s in
      let unused = env.coros.place-unused h in
      let live = env.coros.place-ne_null h in
      let away = not-mem-unused mk_coro h null null p xs unused chain in
      let raw = new_coro (env.coros.raw h) func func_arg in
      let h₁ = put p raw h in
      let first_xs = first xs null in
      let h₂ = put p (mk_coro (new_job func func_arg) first_xs null) h₁ in
      let chain₂ =
        frame-put mk_coro h₁ null null p _ xs away
          (frame-put mk_coro h null null p raw xs away chain) in
      let (g, eq, chain₃, same) =
        push_front mk_coro (set_prev p) h₂ p (new_job func func_arg) xs (λ d n q. refl) live away
          chain₂ (get-put_self p _ h₁) in
      let other : p ≢ env.sched =
        λ e. absurd (ground (arith, sym unused ∙ ap (λ q. get q h) e ∙ at)) in
      (
        g,
        rw
            (
              set_coro-ok (record start { coros = h₁ }) p live raw (get-put_self p raw h)
                  (λ y. record y { next = first_xs; prev = null }),
              relink_coro-ok (record start { coros = h₂ }) (set_prev p) first_xs g eq,
            )
            refl,
        chain₃,
        ground (arith, other),
        same env.sched out
            ∙ get-put_ne env.sched p _ h₁ other
            ∙ get-put_ne env.sched p raw h other
            ∙ at,
      )

-- While the scheduler runs, `coro_new` returns the new address and puts a coroutine there that has
-- not run at the head of the list, with the function and the argument given. The others stay, what
-- they run stays, and the scheduler still runs.
pub coro_new-IsSched :
    {W : Type 0} (env : Env W) (func : ℕ) (func_arg : Ptr) (s : Sched W) (xs : Jobs)
    → IsSched env s xs
    → Returns
        (λ r u.
          (r ≡ env.coros.place s.coros)
          × IsSched env u (cell r (new_job func func_arg) ∷ xs)
          × (u.world ≡ s.world))
        (coro_new env func func_arg s)
coro_new-IsSched env func func_arg s xs sched =
    let (g, eq, chain, out, at) =
      new_calm env func func_arg s s.coros xs sched.sched sched.chain sched.apart sched.at in
    rw (ap (coro_new env func func_arg) (calm-eq env s xs sched) ∙ eq) (
      returns (
        refl,
        record {
          coro_list = refl;
          chain = chain;
          this = refl;
          waiting = refl;
          alive = sched.alive;
          apart = out;
          sched = sched.sched;
          at = at;
          alone = sched.alone;
        },
        refl,
      ))
