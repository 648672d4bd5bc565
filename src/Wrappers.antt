-- ===== src/Wrappers.antt =====
-- src/parser.c, `destroy_continuation` and the two wrappers round `cparse_sexp`, `parse_sexp` and
-- `iparse_sexp`. The parser for events is an argument, as it is of `cparse_sexp`.
pub mod Total
pub mod Whole
pub mod Sequence
use sfsexp.Prelude.{
  ℕ, Bool, true, false, ◌&&◌, List, [], ◌∷◌, Option, none, some, Bytes, ltb, if◌then◌else◌,
}
use sfsexp.Errors.{Errcode, err_incomplete, err_bad_param}
use sfsexp.Memory.{sexp_free}
use sfsexp.FastStack.{FastStack, destroy_stack}
use sfsexp.Sexp.{Sexp, nil}
use sfsexp.Cache.{World, world_errno, pd_deallocate}
use sfsexp.Build.{on_some, destroy_sexp}
use sfsexp.Parser.Base.{ParseData, Pcont}
use sfsexp.Parser.Loop.{Ended, returned, returned_null, out_of_fuel}
use sfsexp.Parser.Entry.{cparse_sexp, sizeof_pcont}

-- `destroy_sexp(lvl_data->fst)` and `pd_deallocate(lvl_data)` for the levels from top to bottom, where
-- there is data.
unfoldable pub destroy_levels : List ParseData → World → Option World
destroy_levels [] w = some w
destroy_levels (none ∷ below) w = destroy_levels below w
destroy_levels (some fst ∷ below) w =
    on_some (destroy_sexp fst w) λ w'. destroy_levels below (pd_deallocate w')

abbrev pub free_with : ℕ → World → World
free_with size w = record w { heap = sexp_free size w.heap }

-- `sexp_free` of a block, if the pointer is not NULL.
abbrev pub free_block : Option Bytes → ℕ → World → World
free_block none size w = w
free_block (some b) size w = free_with size w

-- The stack, the two buffers and the continuation.
unfoldable pub free_pcont : Pcont → World → World
free_pcont pc w = free_with sizeof_pcont (
    free_block pc.val pc.val_allocated (
      free_block pc.bindata pc.binexpected
        (record w { heap = destroy_stack (some pc.stack) w.heap })))

-- `none` where a pointer that was never assigned is followed.
unfoldable pub destroy_continuation : Option Pcont → World → Option World
unfolding destroy_levels free_pcont
destroy_continuation none w = some w
destroy_continuation (some pc) w =
    on_some (destroy_levels pc.stack.used w) λ w'. some (free_pcont pc w')

-- What a wrapper returns: an expression or NULL; a failed assert or a fault; or it does not return,
-- which has no counterpart in the program.
pub data Answer : Type 0 where
  gives : Sexp → World → Answer
  crashes endless : Answer

-- What follows a call of the parser that returns.
abbrev pub on_return : Ended → (Pcont → World → Answer) → Answer
on_return (returned pc w) k = k pc w
on_return (returned_null w) k = gives nil w
on_return out_of_fuel k = endless
on_return _ k = crashes

abbrev pub is_incomplete : Errcode → Bool
is_incomplete err_incomplete = true
is_incomplete _ = false

abbrev pub used_up : Option ℕ → Bool
used_up none = true
used_up (some t) = false

-- `char dummy[2] = "\n\0"`
abbrev pub dummy : Bytes
dummy = b'\n' ∷ 0 ∷ []

abbrev pub answer : Sexp → Option World → Answer
answer sx none = crashes
answer sx (some w) = gives sx w

-- `sx = pc->last_sexp` and the end of the continuation.
unfoldable pub take_sexp : Pcont → World → Answer
unfolding destroy_continuation
take_sexp pc w = answer pc.last_sexp (destroy_continuation (some pc) w)

-- The expression is taken out of the continuation.
abbrev pub taken_from : Pcont → Ended → Option Pcont × Answer
taken_from cc (returned pc w) = (some (record pc { last_sexp = nil }), gives pc.last_sexp w)
taken_from cc (returned_null w) = (some cc, gives nil w)
taken_from cc out_of_fuel = (some cc, endless)
taken_from cc _ = (some cc, crashes)

module _ (eparse_sexp : Bytes → ℕ → Pcont → World → Ended) where
  -- An atom at the end of the input is ended by a newline behind it.
  unfoldable pub end_atom : Pcont → World → Answer
  unfolding take_sexp
  end_atom pc w =
      if is_incomplete w.heap.sexp_errno && used_up pc.last_pos
      then on_return (cparse_sexp eparse_sexp (some dummy) 2 (some pc) w) take_sexp
      else take_sexp pc w

  unfoldable pub parse_sexp : Option Bytes → ℕ → World → Answer
  unfolding end_atom
  parse_sexp none len w = gives nil w
  parse_sexp (some s) len w =
      if ltb len 1
      then gives nil w
      else on_return (cparse_sexp eparse_sexp (some s) len none w) end_atom

  -- A call without a continuation is an error, since a new one could not be returned.
  unfoldable pub iparse_sexp : Option Bytes → ℕ → Option Pcont → World → Option Pcont × Answer
  iparse_sexp s len none w = (none, gives nil (world_errno err_bad_param w))
  iparse_sexp s len (some cc) w = taken_from cc (cparse_sexp eparse_sexp s len (some cc) w)
