-- ===== src/Memory.antt =====
-- src/sexp_memory.c and src/sexp_memory.h: the wrappers round malloc, calloc, realloc and free, in
-- both builds: `max_memory` is `none` where _SEXP_LIMIT_MEMORY_ is not defined, so that the
-- wrappers are the functions of the C library. `refuses n` says whether the C library returns
-- NULL to the n-th request; sizes are size_t values of 64 bits. The global `sexp_errno` stands
-- here too, since every allocation may set it.
pub mod Accounting
pub mod Quiet
use sfsexp.Prelude.{
  ℕ, ◌+◌, ◌-◌, ◌*◌, ◌%◌, ◌^◌, Bool, true, false, not, Option, none, some, ltb, if◌then◌else◌,
}
use sfsexp.Errors.{Errcode, err_ok, err_mem_limit, err_bad_param}

pub record Heap : Type 0 where
  pub max_memory : Option ℕ
  pub used_memory : ℕ
  pub refuses : ℕ → Bool
  pub requests : ℕ
  pub sexp_errno : Errcode

abbrev pub size_mod : ℕ
size_mod = 2 ^ 64

abbrev pub set_errno : Errcode → Heap → Heap
set_errno e h = record h { sexp_errno = e }

pub reset_sexp_errno : Heap → Heap
reset_sexp_errno h = set_errno err_ok h

-- `sexp_used_memory+grow > sexp_max_memory`, in size_t arithmetic.
unfoldable pub over_limit : Option ℕ → ℕ → ℕ → Bool
over_limit none used grow = false
over_limit (some m) used grow = ltb m ((used + grow) % size_mod)

-- `sexp_used_memory += grow`, in the limited build only.
unfoldable pub charge : Option ℕ → ℕ → ℕ → ℕ
charge none used grow = used
charge (some m) used grow = (used + grow) % size_mod

-- One request to the C library, its answer, and the counter's update when it is not NULL.
unfoldable pub request : ℕ → Heap → Heap × Bool
unfolding charge
request grow h = if h.refuses h.requests then (record h { requests = h.requests + 1 }, false) else (
  record h { requests = h.requests + 1; used_memory = charge h.max_memory h.used_memory grow },
  true,
)

-- The three wrappers make the same test with the number of bytes by which they grow.
abbrev guarded_request : ℕ → Heap → Heap × Bool
guarded_request grow h =
    if over_limit h.max_memory h.used_memory grow
    then (set_errno err_mem_limit h, false)
    else request grow h

-- The result is whether the pointer returned is not NULL.
unfoldable pub sexp_malloc : ℕ → Heap → Heap × Bool
unfolding over_limit request
sexp_malloc size h = guarded_request size h

unfoldable pub sexp_calloc : ℕ → ℕ → Heap → Heap × Bool
unfolding over_limit request
sexp_calloc count size h = guarded_request ((size * count) % size_mod) h

unfoldable pub sexp_realloc : ℕ → ℕ → Heap → Heap × Bool
unfolding over_limit request
sexp_realloc size oldsize h = guarded_request ((size + size_mod - oldsize) % size_mod) h

unfoldable pub sexp_free : ℕ → Heap → Heap
sexp_free size h = elim h.max_memory [
  | none ↦ h
  | some m ↦ if ltb h.used_memory size then h else record h { used_memory = h.used_memory - size }
]

-- The limit can be set only in the limited build; the result is false for -1.
pub set_sexp_max_memory : ℕ → Heap → Heap × Bool
set_sexp_max_memory newsize h =
    if ltb 0 newsize
    then if ltb newsize h.used_memory
      then (set_errno err_bad_param h, false)
      else (record h { max_memory = some newsize }, true)
    else (set_errno err_bad_param h, false)
