-- ===== src/SexpOps.antt =====
-- src/sexp_ops.c: looking for an atom, the length of a list, copying an expression. A call that
-- reads a pointer that was never assigned, or past the end of a buffer, is `none`.
pub mod Search
pub mod Copy
use sfsexp.Prelude.{
  ℕ, zero, suc, ◌+◌, ◌*◌, ◌%◌, ◌^◌, Bool, true, false, ◌&&◌, ◌||◌, List, [], ◌∷◌, Option, none,
  some, Bytes, ltb, leb, ◌==◌, if◌then◌else◌, length,
}
use sfsexp.Errors.{err_memory, err_badcontent}
use sfsexp.Memory.{size_mod, sexp_malloc, sexp_calloc}
use sfsexp.FastStack.{int_inc}
use sfsexp.Sexp.{
  AtomType, binary, CharPtr, null, stale, text, Value, Elt, value, list, Sexp, nil, node,
}
use sfsexp.Cache.{World, on_heap, world_errno, sexp_t_allocate, sexp_t_deallocate}

-- `strcmp(s, t) == 0`
abbrev pub strcmp_eq : Bytes → Bytes → Bool
strcmp_eq [] [] = true
strcmp_eq [] (d ∷ t) = false
strcmp_eq (c ∷ s) [] = false
strcmp_eq (c ∷ s) (d ∷ t) = c == d && strcmp_eq s t

-- `val != NULL && strcmp(val, name) == 0`
unfoldable pub matches : Bytes → CharPtr → Option Bool
matches name null = some false
matches name stale = none
matches name (text s) = some (strcmp_eq s name)

-- What the search goes on with where an element does not match.
abbrev pub or_else : Option (Option Sexp) → Option (Option Sexp) → Option (Option Sexp)
or_else none next = none
or_else (some none) next = next
or_else (some (some s)) next = some (some s)

-- The element found, with what follows it, is the result of one that matches.
abbrev pub found_here : Option Bool → Sexp → Option (Option Sexp)
found_here none s = none
found_here (some false) s = some none
found_here (some true) s = some (some s)

unfoldable pub find_sexp : Bytes → Sexp → Option (Option Sexp)
unfolding matches
find_sexp name nil = some none
find_sexp name (node (list l) rest) = or_else (find_sexp name l) (find_sexp name rest)
find_sexp name (node (value v) rest) =
    or_else (found_here (matches name v.val) (node (value v) rest)) (find_sexp name rest)

-- The first loop: the values of one chain.
unfoldable pub scan_values : Bytes → Sexp → Option (Option Sexp)
unfolding matches
scan_values name nil = some none
scan_values name (node (list l) rest) = scan_values name rest
scan_values name (node (value v) rest) =
    or_else (found_here (matches name v.val) (node (value v) rest)) (scan_values name rest)

-- The second loop: the lists of one chain, each searched like a whole.
unfoldable pub scan_lists : Bytes → Sexp → Option (Option Sexp)
unfolding scan_values
scan_lists name nil = some none
scan_lists name (node (value v) rest) = scan_lists name rest
scan_lists name (node (list l) rest) =
    or_else (or_else (scan_values name l) (scan_lists name l)) (scan_lists name rest)

unfoldable pub bfs_find_sexp : Bytes → Sexp → Option (Option Sexp)
unfolding scan_values scan_lists
bfs_find_sexp name s = or_else (scan_values name s) (scan_lists name s)

-- `len++` for each element; the counter is an int, given by its 32 bits.
unfoldable pub chain_length : Sexp → ℕ
chain_length nil = 0
chain_length (node e rest) = int_inc (chain_length rest)

unfoldable pub sexp_list_length : Sexp → ℕ
unfolding chain_length
sexp_list_length nil = 0
sexp_list_length (node (value v) rest) = 1
sexp_list_length (node (list l) rest) = chain_length l

-- The element that is filled in, its fields zero at first.
abbrev pub blank : AtomType → Value
blank aty = record {
  aty = aty;
  val = null;
  val_allocated = 0;
  val_used = 0;
  bindata = none;
  binlength = 0;
}

-- A copy that is given up: the element goes back to the cache and the result is NULL.
unfoldable pub give_up : Elt → World → Option (World × Option Elt)
give_up e w = elim (sexp_t_deallocate e w) [ none ↦ none | some w' ↦ some (w', none) ]

-- The bytes that come first, at most so many.
abbrev pub first_bytes : ℕ → Bytes → Bytes
first_bytes zero s = []
first_bytes (suc n) [] = []
first_bytes (suc n) (c ∷ s) = c ∷ first_bytes n s

-- The binary data of a value. Where it is NULL, `s_new->bindata == NULL` takes it for a failed
-- allocation.
unfoldable pub copy_binary : Value → World → Option (World × Option Elt)
unfolding give_up
copy_binary v w = elim v.bindata [
  | none ↦
      let e = value (record (blank v.aty) { binlength = v.binlength }) in
      if ltb 0 v.binlength
      then give_up (value (blank v.aty)) (world_errno err_badcontent w)
      else give_up e (world_errno err_memory w)
  | some b ↦
      let (w', granted) = on_heap (sexp_malloc v.binlength) w in
      if granted
      then (if ltb (length b) v.binlength
          then none
          else some (
            w',
            some (
                value (record (blank v.aty) {
                  bindata = some (first_bytes v.binlength b);
                  binlength = v.binlength;
                })),
          ))
      else give_up (value (record (blank v.aty) { binlength = v.binlength }))
          (world_errno err_memory w')
]

-- `memcpy` of `val_used` bytes into zeroed memory of `val_allocated` bytes.
abbrev pub copied_bytes : Bytes → ℕ → ℕ → Option Bytes
copied_bytes s used allocated =
    if ltb allocated used
    then none
    else if ltb (length s) used
    then some s
    else if ltb used allocated
    then some (first_bytes used s)
    else none

unfoldable pub copy_text : Value → World → Option (World × Option Elt)
unfolding give_up
copy_text v w = elim v.val [
  | stale ↦ none
  | null ↦
      if ltb 0 v.val_used || ltb 0 v.val_allocated
      then give_up (value (blank v.aty)) (world_errno err_badcontent w)
      else some (w, some (value (blank v.aty)))
  | text s ↦
      let sized = record (blank v.aty) { val_used = v.val_used; val_allocated = v.val_allocated } in
      let (w', granted) = on_heap (sexp_calloc 1 v.val_allocated) w in
      if granted
      then elim (copied_bytes s v.val_used v.val_allocated) [
        | none ↦ none
        | some s' ↦ some (w', some (value (record sized { val = text s' })))
      ]
      else give_up (value sized) (world_errno err_memory w')
]

abbrev pub is_binary : AtomType → Bool
is_binary binary = true
is_binary _ = false

unfoldable pub copy_value : Value → World → Option (World × Option Elt)
unfolding copy_binary copy_text
copy_value v w = if is_binary v.aty then copy_binary v w else copy_text v w

-- The chain behind a copied element; a copy that failed leaves NULL there.
abbrev pub chained : Elt → Option (World × Sexp) → Option (World × Sexp)
chained e none = none
chained e (some (w, rest)) = some (w, node e rest)

abbrev pub copy_rest :
    (World → Option (World × Sexp)) → Option (World × Option Elt) → Option (World × Sexp)
copy_rest rest none = none
copy_rest rest (some (w, none)) = some (w, nil)
copy_rest rest (some (w, some e)) = chained e (rest w)

abbrev pub as_list : Option (World × Sexp) → Option (World × Option Elt)
as_list none = none
as_list (some (w, l)) = some (w, some (list l))

unfoldable pub copy_sexp : Sexp → World → Option (World × Sexp)
unfolding copy_value
copy_sexp nil w = some (w, nil)
copy_sexp (node (value v) rest) w =
    let (w', granted) = sexp_t_allocate w in
    if granted
    then copy_rest (copy_sexp rest) (copy_value v w')
    else some (world_errno err_memory w', nil)
copy_sexp (node (list l) rest) w =
    let (w', granted) = sexp_t_allocate w in
    if granted
    then copy_rest (copy_sexp rest) (as_list (copy_sexp l w'))
    else some (world_errno err_memory w', nil)
