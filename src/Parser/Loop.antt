-- ===== src/Parser/Loop.antt =====
-- src/parser.c, `cparse_sexp` round the switch: the guard of the main loop, what follows the loop,
-- and restoring the state from a continuation.
use sfsexp.Prelude.{
  ℕ, zero, suc, ◌+◌, ◌*◌, Bool, true, false, ◌&&◌, ◌||◌, Option, none, some, Bytes, ltb, ◌==◌,
  if◌then◌else◌, length, get_elem?,
}
use sfsexp.Errors.{err_incomplete}
use sfsexp.Sexp.{nil}
use sfsexp.Cache.{World}
use sfsexp.Parser.Base.{State, blob, Pcont, Run, Outcome, next, done, aborted, fault, save}
use sfsexp.Parser.Structure.{close_all}
use sfsexp.Parser.Step.{step_char}
use sfsexp.Parser.Binary.{step_blob}

-- How the parser's run on a buffer ends; `out_of_fuel` has no counterpart in the program.
pub data Ended : Type 0 where
  returned : Pcont → World → Ended
  returned_null : World → Ended
  aborts faults out_of_fuel : Ended

abbrev pub is_blob : State → Bool
is_blob blob = true
is_blob _ = false

-- `lastPos = NULL` after an incomplete parse whose input is used up: at a NUL or at `bufEnd`.
unfoldable pub incomplete : Bytes → ℕ → Run → Outcome Run
incomplete mem len r = elim (get_elem? mem r.t) [
  | none ↦ fault
  | some c ↦
      if c == 0 || r.t == len
      then done (record r.cc { last_pos = none; last_sexp = nil; error = err_incomplete })
          (record r.w { heap = record r.w.heap { sexp_errno = err_incomplete } })
      else save err_incomplete nil r
]

-- Behind the loop. The byte at `t` is read once more.
unfoldable pub finish : Bytes → ℕ → Run → Outcome Run
unfolding incomplete
finish mem len r = if r.cc.depth == 0 && ltb 0 r.elts then close_all r else incomplete mem len r

-- One round: the guard of the loop and the switch, or what follows the loop. In state 15 a NUL does
-- not end the input, and no byte is read by the guard.
unfoldable pub round : Bytes → ℕ → Run → Outcome Run
round mem len r =
    if is_blob r.cc.state
    then if r.t == len then finish mem len r else step_blob (get_elem? mem r.t) r
    else elim (get_elem? mem r.t) [
      | none ↦ fault
      | some c ↦
          if c == 0 || r.t == len
          then finish mem len r
          else step_char r.cc.state c (get_elem? mem (r.t + 1)) r
    ]

abbrev pub continue_with : (Run → Ended) → Outcome Run → Ended
continue_with k (next r) = k r
continue_with k (done pc w) = returned pc w
continue_with k aborted = aborts
continue_with k fault = faults

unfoldable pub loop : ℕ → Bytes → ℕ → Run → Ended
loop zero mem len r = out_of_fuel
loop (suc f) mem len r = continue_with (loop f mem len) (round mem len r)

-- Rounds that are enough for a buffer, whatever the position and the state are.
abbrev pub rounds : Bytes → ℕ
rounds mem = 4 * length mem + 4

-- The loop, from the variables that a continuation holds, on the buffer that `t` points into. A
-- `lastPos` that is not NULL points into the buffer of the earlier call.
unfoldable pub resume_at : Option ℕ → Option Bytes → Bytes → ℕ → Pcont → World → Ended
resume_at none earlier str len pc w =
    loop (rounds str) str len
      (record { cc = record pc { sbuffer = some str }; t = 0; elts = 0; sx = nil; w = w })
resume_at (some t) none str len pc w = faults
resume_at (some t) (some mem) str len pc w =
    loop (rounds mem) mem len (record { cc = pc; t = t; elts = 0; sx = nil; w = w })

unfoldable pub resume : Bytes → ℕ → Pcont → World → Ended
unfolding resume_at loop
resume str len pc w = resume_at pc.last_pos pc.sbuffer str len pc w
