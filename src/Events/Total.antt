-- ===== src/Events/Total.antt =====
-- The termination of `eparse_sexp` of src/event_temp.c, and of `cparse_sexp` of src/parser.c with it.
use sfsexp.Prelude.{
  ℕ, zero, suc, ◌<◌, ◌≤◌, ◌≡◌, ◌≢◌, refl, Bool, false, ◌&&◌, ◌||◌, Option, none, some, Bytes, ltb,
  ◌==◌, get_elem?, Option-cases, Bool-cases, inl, inr, arith,
}
use sfsexp.Cache.{World}
use sfsexp.Parser.Base.{blob, Pcont, Run, Outcome, returns, faults, Meets-if}
use sfsexp.Parser.Frame.{Partly, Partly-intro}
use sfsexp.Parser.Loop.{Ended, out_of_fuel, is_blob, rounds}
use sfsexp.Parser.Entry.{cparse_sexp, call_parser, continuation, is_events_only}
use sfsexp.Parser.Progress.Measure.{Partly-mono}
use sfsexp.Parser.Progress.{left, get_elem?-lt, rank-le, is_blob→eq, continue_with-ne-out_of_fuel}
use sfsexp.Parser.Total.{cparse_sexp-ne-out_of_fuel}
use sfsexp.Events.Progress.{is_other, on_blob-Moves, on_char-Moves}
use sfsexp.Events.Loop.{suspend, leave_loop, tell_round, tell_loop, tell_from, eparse_sexp}

leave_loop-returns :
    (mem : Bytes) (len : ℕ) (r : Run) → Partly (λ (r' : Run). ⊥) (leave_loop mem len r)
unfolding leave_loop sfsexp.Events.leave
leave_loop-returns mem len r =
    Meets-if (r.cc.depth == 0 && ltb 0 r.elts) (λ _. returns tt)
      λ _. Partly-intro (suspend mem len r) λ r' e. ground arith

abbrev Shrinks : Bytes → Run → Outcome Run → Type 0
Shrinks mem r o =
    Partly (λ (r' : Run). (left mem r' < left mem r) × (is_other r'.cc.state ≡ false)) o

on_blob-Shrinks :
    (mem : Bytes) (r : Run)
    → r.cc.state ≡ blob
    → is_other r.cc.state ≡ false
    → Shrinks mem r (sfsexp.Events.Binary.on_blob (get_elem? mem r.t) r)
unfolding sfsexp.Events.Binary.on_blob sfsexp.Events.Binary.store_blob
on_blob-Shrinks mem r h b = elim (Option-cases (get_elem? mem r.t)) [
  | inl e ↦ rw e (faults tt)
  | inr (c, e) ↦ rw e (
      Partly-mono (on_blob-Moves (some c) r b)
        λ r' m. ground (arith, get_elem?-lt mem r.t e, rank-le r'.cc.state))
]

tell_round-Shrinks :
    (saved : Bool) (mem : Bytes) (len : ℕ) (r : Run)
    → is_other r.cc.state ≡ false
    → Shrinks mem r (tell_round saved mem len r)
unfolding tell_round
tell_round-Shrinks saved mem len r b =
    Meets-if (is_blob r.cc.state)
      (λ h.
        Meets-if (r.t == len) (λ _. Partly-mono (leave_loop-returns mem len r) λ _ x. absurd x)
          (λ _. on_blob-Shrinks mem r (is_blob→eq r.cc.state h) b))
      (λ h. elim (Option-cases (get_elem? mem r.t)) [
        | inl e ↦ rw e (faults tt)
        | inr (c, e) ↦ rw e (
            Meets-if (c == 0 || r.t == len)
              (λ _. Partly-mono (leave_loop-returns mem len r) λ _ x. absurd x)
              (λ _.
                Partly-mono (on_char-Moves saved r.cc.state c _ r refl b)
                  λ r' m. ground (arith, get_elem?-lt mem r.t e, rank-le r'.cc.state)))
      ])

tell_loop-ne-out_of_fuel :
    (f : ℕ) (saved : Bool) (mem : Bytes) (len : ℕ) (r : Run)
    → is_other r.cc.state ≡ false
    → left mem r < f
    → tell_loop f saved mem len r ≢ out_of_fuel
unfolding tell_loop
tell_loop-ne-out_of_fuel zero saved mem len r b h = absurd (omega arith)
tell_loop-ne-out_of_fuel (suc f) saved mem len r b h =
    continue_with-ne-out_of_fuel (tell_loop f saved mem len) (tell_round-Shrinks saved mem len r b)
      λ r' s. tell_loop-ne-out_of_fuel f saved mem len r' s.1 (omega arith)

tell_from-ne-out_of_fuel :
    (pos : Option ℕ) (earlier : Option Bytes) (str : Bytes) (len : ℕ) (pc : Pcont) (w : World)
    → is_other pc.state ≡ false
    → tell_from pos earlier str len pc w ≢ out_of_fuel
unfolding tell_from
tell_from-ne-out_of_fuel none earlier str len pc w b =
    tell_loop-ne-out_of_fuel (rounds str) pc.squoted str len _ b (omega (arith, rank-le pc.state))
tell_from-ne-out_of_fuel (some t) none str len pc w b = λ e. cc
tell_from-ne-out_of_fuel (some t) (some mem) str len pc w b =
    tell_loop-ne-out_of_fuel (rounds mem) pc.squoted mem len _ b (omega (arith, rank-le pc.state))

-- `eparse_sexp` comes to an end on every input, from every continuation whose state is one of the
-- fifteen: four rounds for each byte of the buffer and four more are enough.
pub eparse_sexp-ne-out_of_fuel :
    (str : Option Bytes) (len : ℕ) (pc : Pcont) (w : World)
    → is_other pc.state ≡ false
    → eparse_sexp str len pc w ≢ out_of_fuel
unfolding eparse_sexp
eparse_sexp-ne-out_of_fuel none len pc w b = λ e. cc
eparse_sexp-ne-out_of_fuel (some str) len pc w b =
    tell_from-ne-out_of_fuel pc.last_pos pc.sbuffer str len pc w b

-- `cparse_sexp` with `eparse_sexp` as the parser for events.
abbrev pub events_parser : Bytes → ℕ → Pcont → World → Ended
events_parser str = eparse_sexp (some str)

-- What the caller's continuation, if there is one, must satisfy: no more binary data is read than
-- expected, and the state has a case.
abbrev pub IsKnown : Option Pcont → Type 0
IsKnown none = Unit {0}
IsKnown (some pc) = (pc.binread ≤ pc.binexpected) × (is_other pc.state ≡ false)

-- `cparse_sexp` comes to an end in every mode, on every input, from a new continuation and from every
-- one that has not read more binary data than it expects and whose state is one of the fifteen,
-- whichever requests for memory are refused.
pub cparse_sexp-ends :
    (str : Option Bytes) (len : ℕ) (lc : Option Pcont) (w : World)
    → IsKnown lc
    → cparse_sexp events_parser str len lc w ≢ out_of_fuel
unfolding cparse_sexp continuation call_parser
cparse_sexp-ends str len none w k = cparse_sexp-ne-out_of_fuel events_parser str len none w tt
cparse_sexp-ends none len (some pc) w k = λ e. cc
cparse_sexp-ends (some str) len (some pc) w k = elim (Bool-cases (is_events_only pc.mode)) [
  | inl y ↦ rw y (eparse_sexp-ne-out_of_fuel (some str) len pc w k.1)
  | inr n ↦ cparse_sexp-ne-out_of_fuel events_parser (some str) len (some pc) w (k.0, n)
]
