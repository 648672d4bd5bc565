-- ===== src/Print/Buffer/Call.antt =====
-- src/sexp.c, `print_sexp` round the walk: the copy of the first element that the walk starts from, the
-- stack, and what is done behind the loop.
use sfsexp.Prelude.{
  ℕ, zero, suc, ◌+◌, ◌-◌, [], ◌∷◌, ◌++◌, Option, none, some, Bytes, ltb, ◌==◌, if◌then◌else◌,
}
use mathlib.Core.List.{reverse}
use sfsexp.Errors.{err_memory, err_buffer_full}
use sfsexp.Memory.{Heap, size_mod, set_errno}
use sfsexp.FastStack.{FastStack, make_stack, destroy_stack}
use sfsexp.Sexp.{Elt, Sexp, nil, node}
use sfsexp.Cache.{World, world_errno, sexp_t_deallocate}
use sfsexp.SexpOps.{copy_sexp}
use sfsexp.Print.{walk_rounds}
use sfsexp.Print.Call.{as_int, minus_one, alone, with_list}
use sfsexp.Print.Buffer.{
  Page, Ink, goes, full, outside, wild, ◌onto◌, add_char_break_full, enter_level, buffer_loop,
}

-- The bytes of the buffer.
abbrev pub memory : Page → Bytes
memory p = reverse p.before ++ p.after

-- What the call returns: `retval`, an int given by its 32 bits, and the buffer; or it wrote outside
-- of the buffer, or followed a NULL pointer, or the fuel was spent.
pub data BufferResult : Type 0 where
  result : ℕ → Bytes → World → BufferResult
  overruns strays unfinished : BufferResult

-- `while (depth != 0)` behind the loop.
unfoldable pub close_open : ℕ → Page → Ink
unfolding add_char_break_full
close_open zero p = goes p
close_open (suc d) p = add_char_break_full b')' p onto λ p'. close_open d (record p' { depth = d })

-- The stack is destroyed and the copy deallocated. The copy's list is the caller's.
unfoldable pub clean_up : Elt → World → ℕ → Page → BufferResult
clean_up fakehead w retval p =
    elim (sexp_t_deallocate fakehead (record w { heap = destroy_stack (some p.stack) p.heap })) [
      | none ↦ strays
      | some w' ↦ result retval (memory p) w'
    ]

-- `size - left` on a size_t
abbrev pub size_sub : ℕ → ℕ → ℕ
size_sub size left = if ltb size left then size + size_mod - left else size - left

-- The NUL behind the text; without space it takes the place of the last byte.
abbrev pub terminated : ℕ → Elt → World → Page → BufferResult
terminated size fakehead w p =
    if p.left == 0
    then elim p.before [
      | [] ↦ overruns
      | _ ∷ s ↦ clean_up fakehead w minus_one (record p { before = 0 ∷ s })
    ]
    else elim p.after [
      | [] ↦ overruns
      | _ ∷ s ↦ clean_up fakehead w (as_int (size_sub size p.left)) (record p { after = 0 ∷ s })
    ]

abbrev pub conclude_ink : ℕ → Elt → World → Ink → BufferResult
conclude_ink size fakehead w (goes p) = terminated size fakehead w p
conclude_ink size fakehead w (full p) =
    clean_up fakehead w minus_one (record p { heap = set_errno err_buffer_full p.heap })
conclude_ink size fakehead w outside = overruns
conclude_ink size fakehead w wild = strays

abbrev pub after_walk : ℕ → Elt → World → Option Ink → BufferResult
after_walk size fakehead w none = unfinished
after_walk size fakehead w (some i) =
    conclude_ink size fakehead w (i onto λ p. close_open p.depth p)

-- The loops on a new stack, or what is done where there is none.
unfoldable pub buffer_on :
    ℕ → Bytes → ℕ → Elt → World → Heap × Option (FastStack Sexp) → BufferResult
unfolding buffer_loop clean_up close_open enter_level
buffer_on fuel buf size fakehead w (h, none) =
    elim (sexp_t_deallocate fakehead (world_errno err_memory (record w { heap = h }))) [
      | none ↦ strays
      | some w' ↦ result minus_one buf w'
    ]
buffer_on fuel buf size fakehead w (h, some stack) = after_walk size fakehead w (
    buffer_loop fuel (
      enter_level (node fakehead nil)
        (record { before = []; after = buf; left = size; stack = stack; depth = 0; heap = h })))

unfoldable pub buffer_head : ℕ → Bytes → ℕ → Elt → World → BufferResult
unfolding buffer_on
buffer_head fuel buf size fakehead w = buffer_on fuel buf size fakehead w (make_stack w.heap)

-- What is done with the copy of the first element. The rounds are those of the walk, and one for each
-- byte: where a push fails, a round opens the same list once more.
unfoldable pub buffer_copy : Bytes → ℕ → Elt → Option (World × Sexp) → BufferResult
unfolding buffer_head walk_rounds
buffer_copy buf size e none = strays
buffer_copy buf size e (some (w, nil)) = result minus_one buf (world_errno err_memory w)
buffer_copy buf size e (some (w, node copy _)) =
    buffer_head (walk_rounds (node e nil) + suc size) buf size (with_list e copy) w

-- `buf` is the memory behind the pointer, `size` the caller's count of its bytes.
unfoldable pub print_sexp : Bytes → ℕ → Sexp → World → BufferResult
unfolding buffer_copy
print_sexp buf size nil w = elim buf [ [] ↦ overruns | _ ∷ s ↦ result 0 (0 ∷ s) w ]
print_sexp buf size (node e rest) w =
    if ltb size 1 then result minus_one buf w else buffer_copy buf size e (copy_sexp (alone e) w)
