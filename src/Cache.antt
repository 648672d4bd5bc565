-- ===== src/Cache.antt =====
-- src/parser.c, the allocation of `sexp_t` and `parse_data_t` elements through the caches
-- `sexp_t_cache` and `pd_cache`, stacks of elements that are not in use, with
-- `set_parser_buffer_params` and `sexp_cleanup`. A cached element is a unit: its fields are stale.
-- It is the build with the caches, without `_NO_MEMORY_MANAGEMENT_`, in which each cache holds fewer
-- than 2^31 elements.
-- The record `World` is the state that all calls of the library share.
pub mod Quiet
pub mod Storage
use sfsexp.Prelude.{
  ℕ, zero, suc, ◌*◌, Bool, true, false, List, [], ◌∷◌, ◌++◌, Option, none, some, ltb, if◌then◌else◌,
}
use sfsexp.Errors.{Errcode, err_ok, err_memory, err_bad_param}
use sfsexp.Memory.{Heap, set_errno, sexp_malloc, sexp_free}
use sfsexp.FastStack.{FastStack, make_stack, destroy_stack, push, pop, empty_stack}
use sfsexp.Sexp.{Elt, value, list, CharPtr, null, stale, text, Value, Event}

abbrev pub Cached : Type 0
Cached = Unit {0}

pub record World : Type 0 where
  pub heap : Heap
  pub sexp_t_cache : Option (FastStack Cached)
  pub pd_cache : Option (FastStack Cached)
  pub val_start_size : ℕ
  pub val_grow_size : ℕ
  pub events : List Event

-- sizeof on a 64-bit machine
abbrev pub sizeof_sexp : ℕ
sizeof_sexp = 72

abbrev pub sizeof_parse_data : ℕ
sizeof_parse_data = 16

abbrev pub on_heap : (Heap → Heap × Bool) → World → World × Bool
on_heap f w = let (h, granted) = f w.heap in (record w { heap = h }, granted)

abbrev pub world_errno : Errcode → World → World
world_errno e w = record w { heap = set_errno e w.heap }

pub set_parser_buffer_params : ℕ → ℕ → World → World × Errcode
set_parser_buffer_params ss gs w =
    if ltb 0 ss
    then if ltb 0 gs
      then (record w { val_start_size = ss; val_grow_size = gs }, err_ok)
      else (record w { val_start_size = ss }, err_bad_param)
    else (w, err_bad_param)

-- One of the two caches, and the heap, after an element is requested.
abbrev Taken : Type 0
Taken = Heap × Option (FastStack Cached) × Bool

-- `sexp_malloc` of an element, with the error code where it is refused.
unfoldable pub fresh : ℕ → Option (FastStack Cached) → Heap → Taken
fresh size cache h =
    let (h', granted) = sexp_malloc size h in
    if granted then (h', cache, true) else (set_errno err_memory h', cache, false)

-- The body that `sexp_t_allocate` and `pd_allocate` share: make the cache if there is none, take a
-- cached element if there is one.
unfoldable pub take_cached : ℕ → Option (FastStack Cached) → Heap → Taken
unfolding fresh
take_cached size none h =
    let (h', made) = make_stack h in
    elim made [ none ↦ (set_errno err_memory h', none, false) | some s ↦ fresh size (some s) h' ]
take_cached size (some s) h =
    if empty_stack s
    then fresh size (some s) h
    else let (h', cache, lvl) = pop (some s) h in (h', cache, true)

-- The body that `sexp_t_deallocate` and `pd_deallocate` share: make the cache if there is none, and
-- push the element. Where no cache can be made the element is freed. Where the push fails, NULL
-- replaces the cache.
unfoldable pub put_cached : ℕ → Option (FastStack Cached) → Heap → Heap × Option (FastStack Cached)
put_cached size none h =
    let (h', made) = make_stack h in
    elim made [
      | none ↦ (sexp_free size (set_errno err_memory h'), none)
      | some s ↦ push (some s) tt h'
    ]
put_cached size (some s) h = push (some s) tt h

unfoldable pub sexp_t_allocate : World → World × Bool
sexp_t_allocate w =
    let (h, cache, granted) = take_cached sizeof_sexp w.sexp_t_cache w.heap in
    (record w { heap = h; sexp_t_cache = cache }, granted)

-- The `val` of the element that `sexp_t_allocate` is about to return: NULL in one from the cache,
-- where `sexp_t_deallocate` left that, and anything in a new one.
abbrev pub unassigned_val : World → CharPtr
unassigned_val w = elim w.sexp_t_cache [
  | none ↦ stale
  | some s ↦ if empty_stack s then stale else null
]

unfoldable pub pd_allocate : World → World × Bool
pd_allocate w =
    let (h, cache, granted) = take_cached sizeof_parse_data w.pd_cache w.heap in
    (record w { heap = h; pd_cache = cache }, granted)

unfoldable pub pd_deallocate : World → World
pd_deallocate w =
    let (h, cache) = put_cached sizeof_parse_data w.pd_cache w.heap in
    record w { heap = h; pd_cache = cache }

-- The text of a value is freed first; `none` where its pointer was never assigned.
unfoldable pub free_text : CharPtr → ℕ → Heap → Option Heap
free_text null size h = some h
free_text stale size h = none
free_text (text s) size h = some (sexp_free size h)

unfoldable pub free_elt_text : Elt → Heap → Option Heap
unfolding free_text
free_elt_text (value v) h = free_text v.val v.val_allocated h
free_elt_text (list l) h = some h

unfoldable pub sexp_t_deallocate : Elt → World → Option World
unfolding free_elt_text
sexp_t_deallocate e w = elim (free_elt_text e w.heap) [
  | none ↦ none
  | some h ↦
      let (h', cache) = put_cached sizeof_sexp w.sexp_t_cache h in
      some (record w { heap = h'; sexp_t_cache = cache })
]

-- `sexp_free` of the data of the levels from top down.
free_cached : ℕ → List Cached → Heap → Heap
free_cached size [] h = h
free_cached size (_ ∷ below) h = free_cached size below (sexp_free size h)

drop_cache : ℕ → Option (FastStack Cached) → Heap → Heap
drop_cache size none h = h
drop_cache size (some s) h = destroy_stack (some s) (free_cached size s.used h)

pub sexp_cleanup : World → World
sexp_cleanup w =
    let freed = drop_cache sizeof_parse_data w.pd_cache w.heap in
    record w {
      heap = drop_cache sizeof_sexp w.sexp_t_cache freed;
      pd_cache = none;
      sexp_t_cache = none;
    }
