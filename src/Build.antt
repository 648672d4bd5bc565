-- ===== src/Build.antt =====
-- src/sexp.c, the constructors of elements and `destroy_sexp`. A write outside of a buffer, and a
-- read of a pointer that was never assigned, is `none`.
pub mod Laws
pub mod Storage
use sfsexp.Prelude.{
  ℕ, ◌+◌, ◌%◌, Bool, true, false, Option, none, some, Bytes, ltb, if◌then◌else◌, length,
}
use sfsexp.Errors.{err_memory, err_bad_constructor}
use sfsexp.Memory.{Heap, size_mod, sexp_malloc, sexp_free}
use sfsexp.Sexp.{
  AtomType, binary, CharPtr, null, stale, text, Value, Elt, value, list, Sexp, nil, node,
}
use sfsexp.Cache.{
  World, on_heap, world_errno, sexp_t_allocate, sexp_t_deallocate, unassigned_val, free_text,
}
use sfsexp.SexpOps.{is_binary}

-- A new element, or NULL with the error code for memory.
abbrev pub element : Elt → World × Bool → World × Sexp
element e (w, true) = (w, node e nil)
element e (w, false) = (world_errno err_memory w, nil)

unfoldable pub new_sexp_list : Sexp → World → World × Sexp
new_sexp_list l w = element (list l) (sexp_t_allocate w)

abbrev pub binary_elt : Option Bytes → ℕ → Elt
binary_elt d binlength = value (record {
  aty = binary;
  val = null;
  val_allocated = 0;
  val_used = 0;
  bindata = d;
  binlength = binlength;
})

unfoldable pub new_sexp_binary_atom : Option Bytes → ℕ → World → World × Sexp
new_sexp_binary_atom d binlength w = element (binary_elt d binlength) (sexp_t_allocate w)

-- The element with its text; the fields for binary data are not assigned.
abbrev pub text_elt : AtomType → CharPtr → ℕ → Elt
text_elt aty s size = value (record {
  aty = aty;
  val = s;
  val_allocated = size;
  val_used = size;
  bindata = none;
  binlength = 0;
})

-- `strcpy(sx->val, buf)` into memory of `size` bytes, or giving up where there is none.
unfoldable pub fill_text : Bytes → AtomType → ℕ → World × Bool → Option (World × Sexp)
fill_text buf aty size (w, false) = elim (sexp_t_deallocate (text_elt aty null 0) w) [
  | none ↦ none
  | some w' ↦ some (world_errno err_memory w', nil)
]
fill_text buf aty size (w, true) =
    if ltb (length buf) size then some (w, node (text_elt aty (text buf) size) nil) else none

abbrev pub with_text : Bytes → AtomType → ℕ → World × Bool → Option (World × Sexp)
with_text buf aty size (w, false) = some (world_errno err_memory w, nil)
with_text buf aty size (w, true) = fill_text buf aty size (on_heap (sexp_malloc size) w)

-- `bs + 1` is a size_t.
unfoldable pub new_sexp_atom : Bytes → ℕ → AtomType → World → Option (World × Sexp)
unfolding fill_text
new_sexp_atom buf bs aty w =
    if is_binary aty
    then some (world_errno err_bad_constructor w, nil)
    else with_text buf aty ((bs + 1) % size_mod) (sexp_t_allocate w)

abbrev pub on_some : Option World → (World → Option World) → Option World
on_some none f = none
on_some (some w) f = f w

abbrev pub with_heap : World → Option Heap → Option World
with_heap w none = none
with_heap w (some h) = some (record w { heap = h })

-- What is freed of a value: its binary data, or else what `val` points to.
unfoldable pub free_value : Value → Heap → Option Heap
unfolding free_text
free_value v h = elim v.bindata [
  | none ↦ free_text v.val v.val_allocated h
  | some b ↦
      if is_binary v.aty then some (sexp_free v.binlength h) else free_text v.val v.val_allocated h
]

-- An element whose `val`, `bindata`, `next` and `list` were set to NULL.
abbrev pub cleared : Elt → Elt
cleared (list l) = list nil
cleared (value v) = value (record v { val = null; bindata = none })

unfoldable pub destroy_sexp : Sexp → World → Option World
unfolding free_value
destroy_sexp nil w = some w
destroy_sexp (node (list l) rest) w =
    on_some (on_some (destroy_sexp l w) (destroy_sexp rest)) (sexp_t_deallocate (list nil))
destroy_sexp (node (value v) rest) w =
    on_some (on_some (with_heap w (free_value v w.heap)) (destroy_sexp rest))
      (sexp_t_deallocate (cleared (value v)))
