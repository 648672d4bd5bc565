-- ===== src/Memory/Accounting.antt =====
-- The accounting of src/sexp_memory.c: the counter, the limit, and sequences of calls.
use sfsexp.Prelude.{ℕ, ◌+◌, ◌≤◌, ◌<◌, ◌≡◌, true, false, Option, none, some, List, [], ◌∷◌, arith}
use sfsexp.Memory.{
  Heap, size_mod, sexp_malloc, sexp_calloc, sexp_realloc, sexp_free, set_sexp_max_memory,
}

-- The bytes accounted for are within the limit.
abbrev pub Within : Option ℕ → ℕ → Type 0
Within none used = Unit
Within (some m) used = used ≤ m

abbrev pub IsWithin : Heap → Type 0
IsWithin h = Within h.max_memory h.used_memory

-- A call of one of the wrappers with its size arguments.
pub data Call : Type 0 where
  malloc : ℕ → Call
  calloc : ℕ → ℕ → Call
  realloc : ℕ → ℕ → Call
  free : ℕ → Call
  set_max : ℕ → Call

pub run_call : Call → Heap → Heap
run_call (malloc size) h = (sexp_malloc size h).0
run_call (calloc count size) h = (sexp_calloc count size h).0
run_call (realloc size oldsize) h = (sexp_realloc size oldsize h).0
run_call (free size) h = sexp_free size h
run_call (set_max newsize) h = (set_sexp_max_memory newsize h).0

pub run_calls : List Call → Heap → Heap
run_calls [] h = h
run_calls (c ∷ cs) h = run_calls cs (run_call c h)

run_call-IsWithin : (c : Call) (h : Heap) → IsWithin h → IsWithin (run_call c h)
unfolding run_call sexp_malloc sexp_calloc sexp_realloc sexp_free set_sexp_max_memory
run_call-IsWithin (malloc size) h v = ground arith
run_call-IsWithin (calloc count size) h v = ground arith
run_call-IsWithin (realloc size oldsize) h v = ground arith
run_call-IsWithin (free size) h v = ground arith
run_call-IsWithin (set_max newsize) h v = ground arith

-- Whatever sequence of calls the program makes, the counter never passes the limit in force.
pub run_calls-IsWithin : (cs : List Call) (h : Heap) → IsWithin h → IsWithin (run_calls cs h)
unfolding run_calls
run_calls-IsWithin [] h v = v
run_calls-IsWithin (c ∷ cs) h v = run_calls-IsWithin cs (run_call c h) (run_call-IsWithin c h v)

-- A granted block is charged for exactly, as long as the sum fits a size_t.
pub sexp_malloc_charges :
    (m size : ℕ) (h : Heap)
    → h.max_memory ≡ some m
    → h.used_memory + size < size_mod
    → (sexp_malloc size h).1 ≡ true
    → ((sexp_malloc size h).0.used_memory ≡ h.used_memory + size)
      × ((sexp_malloc size h).0.max_memory ≡ some m)
unfolding sexp_malloc
sexp_malloc_charges m size h e fits g = ground arith

-- In the limited build, freeing a block with the size it was granted for gives the counter back.
pub free-malloc :
    (m size : ℕ) (h : Heap)
    → h.max_memory ≡ some m
    → h.used_memory + size < size_mod
    → (sexp_malloc size h).1 ≡ true
    → (sexp_free size (sexp_malloc size h).0).used_memory ≡ h.used_memory
unfolding sexp_free
free-malloc m size h e fits g = ground (arith, sexp_malloc_charges m size h e fits g)

-- A refused block leaves the counter alone.
pub sexp_malloc_refused :
    (size : ℕ) (h : Heap)
    → (sexp_malloc size h).1 ≡ false
    → (sexp_malloc size h).0.used_memory ≡ h.used_memory
unfolding sexp_malloc
sexp_malloc_refused size h g = ground arith
