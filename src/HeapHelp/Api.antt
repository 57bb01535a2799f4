-- ===== src/HeapHelp/Api.antt =====
-- The functions that utils/heap_help/heap_help.c defines in place of the standard ones. Each takes
-- what the function that it calls returns.
use Prim.Native.String.{String}
use sysprog_labs_f.Base.{ℕ, ◌+◌, ◌*◌, not, ◌&&◌, List, Option, ◌==◌, if◌then◌else◌}
use sysprog_labs_f.Memory.Store.{Ptr, null}
use sysprog_labs_f.Memory.Run.{Cmd, pure, crash, read_state, ◌>>=◌, ◌>>◌}
use sysprog_labs_f.HeapHelp.State.{
  Hh, heaph_assert, acquire_allocs, release_allocs, alloc_is_static, enter, leave,
}
use sysprog_labs_f.HeapHelp.Trace.{alloc_trace_new, alloc_free}
use sysprog_labs_f.HeapHelp.Static.{heaph_touch}

-- The environment of a call: `HHREPORT`, and what `backtrace` records.
pub record Outside : Type 0 where
  pub hh_report : Option String
  pub trace : List Ptr

-- A result that is not NULL is recorded.
abbrev trace_result : Outside → Ptr → ℕ → Cmd Hh (Unit {0})
trace_result o res size = if res == null then pure tt else alloc_trace_new o.trace res size

unfoldable pub malloc : Outside → Ptr → ℕ → Cmd Hh Ptr
malloc o res size = do heaph_touch o.hh_report; enter; trace_result o res size; leave; pure res

unfoldable pub calloc : Outside → Ptr → ℕ → ℕ → Cmd Hh Ptr
calloc o res num size = do
  heaph_touch o.hh_report
  enter
  trace_result o res (num * size)
  leave
  pure res

-- `length` is that of the text.
unfoldable pub strdup : Outside → Ptr → Ptr → ℕ → Cmd Hh Ptr
strdup o ptr res length = do
  heaph_touch o.hh_report
  λ s. heaph_assert (not s.is_exit_done) s
  λ s. heaph_assert (not (alloc_is_static ptr s)) s
  enter
  trace_result o res (length + 1)
  leave
  pure res

-- The branches of `realloc` behind the call of `default_realloc`.
unfoldable pub trace_realloc : Outside → Ptr → Ptr → ℕ → Cmd Hh (Unit {0})
trace_realloc o ptr res size =
    if ptr == null && not (res == null)
    then alloc_trace_new o.trace res size
    else if not (ptr == null) && res == null
    then alloc_free ptr
    else if not (ptr == null) && not (res == ptr)
    then alloc_free ptr >> alloc_trace_new o.trace res size
    else pure tt

unfoldable pub realloc : Outside → Ptr → Ptr → ℕ → Cmd Hh Ptr
unfolding trace_realloc
realloc o old res size = do
  heaph_touch o.hh_report
  enter
  ptr ← read_state (λ s. if alloc_is_static old s then null else old)
  trace_realloc o ptr res size
  leave
  pure res

unfoldable pub free : Outside → Ptr → Cmd Hh (Unit {0})
free o ptr s =
    if ptr == null
    then pure tt s
    else if alloc_is_static ptr s
    then pure tt s
    else (do heaph_touch o.hh_report; enter; alloc_free ptr; leave) s

-- `old` is `*linep` before the call, `new` behind it, with a text of the given length.
unfoldable pub trace_getline : Outside → Ptr → Ptr → ℕ → Cmd Hh (Unit {0})
trace_getline o old new length =
    if old == null && not (new == null)
    then alloc_trace_new o.trace new (length + 1)
    else if not (old == null) && new == null
    then crash
    else if not (old == null) && not (new == null) && not (old == new)
    then alloc_free old >> alloc_trace_new o.trace new (length + 1)
    else if not (old == new)
    then crash
    else pure tt

unfoldable pub getline : Outside → Ptr → Ptr → ℕ → ℕ → Cmd Hh ℕ
unfolding trace_getline
getline o old new length res = do
  heaph_touch o.hh_report
  enter
  λ s. heaph_assert (not (alloc_is_static old s)) s
  trace_getline o old new length
  leave
  pure res

-- `size` is that of `struct addrinfo`, `rc` and `res` what the system's function gives.
unfoldable pub getaddrinfo : Outside → ℕ → ℕ → Ptr → Cmd Hh ℕ
getaddrinfo o size rc res = do
  heaph_touch o.hh_report
  enter
  if rc == 0 && not (res == null) then alloc_trace_new o.trace res size else pure tt
  leave
  pure rc

unfoldable pub freeaddrinfo : Outside → Ptr → Cmd Hh (Unit {0})
freeaddrinfo o ai = if ai == null then pure tt else do
  λ s. heaph_assert (not (alloc_is_static ai s)) s
  heaph_touch o.hh_report
  enter
  alloc_free ai
  leave

unfoldable pub heaph_get_alloc_count : Cmd Hh ℕ
heaph_get_alloc_count = do
  acquire_allocs
  res ← read_state (λ s. s.alloc_count)
  release_allocs
  pure res
