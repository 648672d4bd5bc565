-- ===== src/Memory/Quiet.antt =====
-- Heaps whose requests all succeed: the unlimited build, with a C library that never returns NULL.
use sfsexp.Prelude.{ℕ, ◌≡◌, refl, Bool, false, true, none, arith}
use sfsexp.Memory.{Heap, over_limit, request, sexp_malloc, sexp_calloc, sexp_realloc, sexp_free}

pub record IsQuiet (h : Heap) : Type 0 where
  pub unlimited : h.max_memory ≡ none
  pub grants : (n : ℕ) → h.refuses n ≡ false

-- A request succeeds, and the heap stays quiet.
abbrev pub Grants : Heap × Bool → Type 0
Grants r = (r.1 ≡ true) × IsQuiet r.0

request_quiet : (grow : ℕ) (h : Heap) → IsQuiet h → Grants (request grow h)
unfolding request
request_quiet grow h q =
    rw (q.grants h.requests) (refl, record { unlimited = q.unlimited; grants = q.grants })

over_limit_quiet :
    (h : Heap) (grow : ℕ) → IsQuiet h → over_limit h.max_memory h.used_memory grow ≡ false
unfolding over_limit
over_limit_quiet h grow q = ground (arith, q.unlimited)

module _ (h : Heap) (q : IsQuiet h) where
  pub sexp_malloc_quiet : (size : ℕ) → Grants (sexp_malloc size h)
  unfolding sexp_malloc
  sexp_malloc_quiet size = rw (over_limit_quiet h size q) (request_quiet size h q)

  pub sexp_calloc_quiet : (count size : ℕ) → Grants (sexp_calloc count size h)
  unfolding sexp_calloc
  sexp_calloc_quiet count size = rw (over_limit_quiet h _ q) (request_quiet _ h q)

  pub sexp_realloc_quiet : (size oldsize : ℕ) → Grants (sexp_realloc size oldsize h)
  unfolding sexp_realloc
  sexp_realloc_quiet size oldsize = rw (over_limit_quiet h _ q) (request_quiet _ h q)

  sexp_free_eq : (size : ℕ) → sexp_free size h ≡ h
  unfolding sexp_free
  sexp_free_eq size = ground (arith, q.unlimited)

  pub sexp_free-IsQuiet : (size : ℕ) → IsQuiet (sexp_free size h)
  sexp_free-IsQuiet size = rw (sexp_free_eq size) q
