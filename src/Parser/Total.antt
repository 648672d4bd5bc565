-- ===== src/Parser/Total.antt =====
-- The termination of `cparse_sexp` of src/parser.c.
use sfsexp.Prelude.{ℕ, ◌≤◌, ◌≡◌, ◌≢◌, false, Option, none, some, Bytes, arith}
use sfsexp.Cache.{World}
use sfsexp.Parser.Base.{Pcont}
use sfsexp.Parser.Progress.{loop-ne-out_of_fuel, rank-le}
use sfsexp.Parser.Loop.{Ended, out_of_fuel, rounds, resume_at}
use sfsexp.Parser.Entry.{cparse_sexp, call_parser, init_continuation, continuation, is_events_only}

resume_at-ne-out_of_fuel :
    (pos : Option ℕ) (earlier : Option Bytes) (str : Bytes) (len : ℕ) (pc : Pcont) (w : World)
    → pc.binread ≤ pc.binexpected
    → resume_at pos earlier str len pc w ≢ out_of_fuel
unfolding resume_at
resume_at-ne-out_of_fuel none earlier str len pc w b =
    loop-ne-out_of_fuel (rounds str) str len _ b (omega (arith, rank-le pc.state))
resume_at-ne-out_of_fuel (some t) none str len pc w b = λ e. cc
resume_at-ne-out_of_fuel (some t) (some mem) str len pc w b =
    loop-ne-out_of_fuel (rounds mem) mem len _ b (omega (arith, rank-le pc.state))

-- What the caller's continuation, if there is one, must satisfy: no more binary data is read than
-- expected, and the mode builds expressions.
abbrev pub IsOrdered : Option Pcont → Type 0
IsOrdered none = Unit {0}
IsOrdered (some pc) = (pc.binread ≤ pc.binexpected) × (is_events_only pc.mode ≡ false)

init_continuation-IsOrdered :
    (str : Option Bytes) (w : World) → IsOrdered (init_continuation str w).1
unfolding init_continuation
init_continuation-IsOrdered str w = ground arith

pub continuation-IsOrdered :
    (str : Option Bytes) (lc : Option Pcont) (w : World)
    → IsOrdered lc
    → IsOrdered (continuation str lc w).1
unfolding continuation
continuation-IsOrdered str none w o = init_continuation-IsOrdered str w
continuation-IsOrdered str (some lc) w o = o

call_parser-ne-out_of_fuel :
    (eparse_sexp : Bytes → ℕ → Pcont → World → Ended) (str : Option Bytes) (len : ℕ)
    (pc : Option Pcont) (w : World)
    → IsOrdered pc
    → call_parser eparse_sexp str len pc w ≢ out_of_fuel
unfolding call_parser
call_parser-ne-out_of_fuel eparse_sexp str len none w o = λ e. cc
call_parser-ne-out_of_fuel eparse_sexp none len (some pc) w o = λ e. cc
call_parser-ne-out_of_fuel eparse_sexp (some str) len (some pc) w o =
    rw o.1 (resume_at-ne-out_of_fuel pc.last_pos pc.sbuffer str len pc w o.0)

-- `cparse_sexp` comes to an end on every input, without a continuation and from every one that has not
-- read more binary data than it expects and whose mode is not the one for events alone, whatever the
-- memory behind the input holds and whichever requests for memory are refused: four rounds for each byte of the buffer
-- and four more are enough.
pub cparse_sexp-ne-out_of_fuel :
    (eparse_sexp : Bytes → ℕ → Pcont → World → Ended) (str : Option Bytes) (len : ℕ)
    (lc : Option Pcont) (w : World)
    → IsOrdered lc
    → cparse_sexp eparse_sexp str len lc w ≢ out_of_fuel
unfolding cparse_sexp
cparse_sexp-ne-out_of_fuel eparse_sexp str len lc w o =
    call_parser-ne-out_of_fuel eparse_sexp str len _ _ (continuation-IsOrdered str lc w o)
