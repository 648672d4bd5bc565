-- ===== src/Print/Call.antt =====
-- src/sexp.c, `print_sexp_cstr` round the walk: the copy of the first element that the walk starts
-- from, the string, the stack, and what is done behind the loop.
use sfsexp.Prelude.{ℕ, zero, suc, ◌+◌, ◌-◌, ◌%◌, Option, none, some, if◌then◌else◌, length}
use sfsexp.Errors.{err_memory}
use sfsexp.Memory.{Heap}
use sfsexp.FastStack.{FastStack, int_mod, make_stack, destroy_stack}
use sfsexp.Sexp.{Elt, value, list, Sexp, nil, node}
use sfsexp.Cache.{World, world_errno, sexp_t_deallocate}
use sfsexp.CString.{CString, snew}
use sfsexp.SexpOps.{copy_sexp}
use sfsexp.Print.{
  Printing, ◌then◌, put, push_chain, Printed, printed, strays, spent, print_loop, walk_rounds,
}

-- `while (depth != 0)` behind the loop.
unfoldable pub close_rest : ℕ → ℕ → Printing → Option Printing
unfolding put
close_rest grow zero p = some p
close_rest grow (suc d) p = put grow b')' (record p { depth = d }) then close_rest grow d

-- What the call returns: `retval`, an int given by its 32 bits, and the string for `*s`; or it strayed,
-- or the fuel was spent.
pub data CstrResult : Type 0 where
  result : ℕ → Option CString → World → CstrResult
  strayed unfinished : CstrResult

-- The first element alone, as it is copied.
abbrev pub alone : Elt → Sexp
alone (value v) = node (value v) nil
alone (list l) = node (list nil) nil

-- `fakehead->list = sx->list`
abbrev pub with_list : Elt → Elt → Elt
with_list (list l) copy = list l
with_list (value v) copy = copy

-- `(int)` of a size_t
abbrev pub as_int : ℕ → ℕ
as_int n = n % int_mod

abbrev pub minus_one : ℕ
minus_one = int_mod - 1

abbrev pub retval : Option CString → ℕ
retval none = 0
retval (some s) = as_int (length s.base)

abbrev pub concluded : Option CString → Option World → CstrResult
concluded s none = strayed
concluded s (some w) = result (retval s) s w

-- Behind the loops: the stack is destroyed and the copy deallocated. The copy's list is the caller's.
unfoldable pub conclude : Elt → World → Option Printing → CstrResult
conclude fakehead w none = strayed
conclude fakehead w (some p) =
    concluded p.out
      (sexp_t_deallocate fakehead (record w { heap = destroy_stack (some p.stack) p.heap }))

abbrev pub after_loop : ℕ → Elt → World → Printed → CstrResult
after_loop grow fakehead w strays = strayed
after_loop grow fakehead w spent = unfinished
after_loop grow fakehead w (printed p) = conclude fakehead w (close_rest grow p.depth p)

-- The loops on a new stack, or what is done where there is none.
unfoldable pub print_on :
    ℕ
    → ℕ
    → Option CString
    → Elt
    → World
    → Option CString
    → Heap × Option (FastStack Sexp)
    → CstrResult
unfolding print_loop conclude close_rest push_chain
print_on fuel grow s fakehead w _s (h, none) =
    elim (sexp_t_deallocate fakehead (world_errno err_memory (record w { heap = h }))) [
      | none ↦ strayed
      | some w' ↦ result minus_one s w'
    ]
print_on fuel grow s fakehead w _s (h, some stack) = after_loop grow fakehead w (
    print_loop fuel grow
      (push_chain (node fakehead nil) (record { out = _s; stack = stack; depth = 0; heap = h })))

unfoldable pub print_head : ℕ → ℕ → Option CString → Elt → World → Option CString → CstrResult
unfolding print_on
print_head fuel grow s fakehead w _s = print_on fuel grow s fakehead w _s (make_stack w.heap)

-- The string to print into: the caller's, or a new one.
unfoldable pub target : Option CString → ℕ → World → World × Option CString
target (some s) ss w = (w, some s)
target none ss w = let (h, s) = snew ss w.heap in (record w { heap = h }, s)

-- What is done with the copy of the first element.
unfoldable pub print_copy :
    ℕ → Option CString → Elt → Option CString → Option (World × Sexp) → CstrResult
unfolding print_head walk_rounds
print_copy grow s e _s none = strayed
print_copy grow s e _s (some (w, nil)) = result minus_one s (world_errno err_memory w)
print_copy grow s e _s (some (w, node copy _)) =
    print_head (walk_rounds (node e nil) + 1) grow s (with_list e copy) w _s

abbrev pub print_into : ℕ → Option CString → Elt → World × Option CString → CstrResult
print_into grow s e (w, _s) = print_copy grow s e _s (copy_sexp (alone e) w)

unfoldable pub print_sexp_cstr : ℕ → Option CString → Sexp → ℕ → World → CstrResult
unfolding target print_copy
print_sexp_cstr grow s nil ss w = result minus_one s w
print_sexp_cstr grow s (node e rest) ss w = print_into grow s e (target s ss w)
