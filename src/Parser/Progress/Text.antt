-- ===== src/Parser/Progress/Text.antt =====
-- The cases 1, 4, 5 and 7 to 10 of the main loop of src/parser.c get on.
use sfsexp.Prelude.{ℕ, true, false, Option, none, some, arith, ◌==◌, ◌&&◌}
use sfsexp.FastStack.{empty_stack}
use sfsexp.Sexp.{Elt, squote}
use sfsexp.Parser.Base.{
  start, atom, dquoted, dquoted_end, tick, quoted_list, quoted_string, Run, falls, returns, faults,
  Meets-bind, Meets-if,
}
use sfsexp.Parser.Frame.{
  Stays, Partly, put_char-Stays, overwrite-Stays, terminate-falls, make_atom-Stays, attach-Stays,
}
use sfsexp.Parser.Quoted.{is_quoted_close, step_quoted_close, step_quoted_list, step_quoted_string}
use sfsexp.Parser.Vars.{is_space, is_special, is_atom_char, goto, advance}
use sfsexp.Parser.Atoms.{
  used_inc, atom_type, deliver, step_atom, end_dquoted, dquoted_char, step_dquoted, step_tick,
}
use sfsexp.Parser.Structure.{step_start}
use sfsexp.Parser.Progress.Measure.{IsBlobBounded, MovesOn, StaysLow, Advances, Partly-mono}

pub step_start-Moves : (c : ℕ) (r : Run) → Advances r start (step_start c r)
unfolding step_start
step_start-Moves c r b =
    Meets-if (is_space c) (λ _. falls (ground arith))
      λ _.
        Meets-if (c == b';') (λ _. falls (ground arith))
          λ _.
            Meets-if (c == b'(') (λ _. falls (ground arith))
              λ _.
                Meets-if (c == b')') (λ _. falls (ground arith))
                  λ _.
                    Meets-if (c == b'"') (λ _. falls (ground arith))
                      λ _.
                        Meets-if (c == b'\'') (λ _. falls (ground arith))
                          λ _. Meets-bind (put_char-Stays true c _) λ r' s. falls (ground arith)

pub deliver-Stays : (result : Run) (sx : Elt) (r : Run) → Partly (Stays r) (deliver result sx r)
unfolding deliver
deliver-Stays result sx r =
    Meets-if (empty_stack r.cc.stack) (λ _. returns tt) λ _. attach-Stays sx r

pub step_atom-Moves : (c : ℕ) (r : Run) → Advances r atom (step_atom c r)
unfolding step_atom
step_atom-Moves c r b =
    Meets-if (r.cc.esc && is_special c)
      (λ _. Meets-bind (overwrite-Stays c r) λ r' s. falls (ground arith))
      λ _.
        Meets-if (is_atom_char c)
          (λ _. Meets-bind (put_char-Stays false c _) λ r' s. falls (ground arith))
          λ _. Meets-bind (terminate-falls r) λ s _.
            Meets-bind (make_atom-Stays (atom_type r.cc.squoted) false s (used_inc r))
              λ (r₁, sx) m. Meets-bind (deliver-Stays _ sx r₁) λ r₂ d. falls (ground arith)

pub end_dquoted-Moves : (r : Run) → IsBlobBounded r → Partly (MovesOn r.t) (end_dquoted r)
unfolding end_dquoted
end_dquoted-Moves r b =
    Meets-bind
      (Meets-if r.cc.squoted (λ _. put_char-Stays false b'"' (goto dquoted_end r))
        (λ _. falls (ground arith)))
      λ r₁ p. Meets-bind (terminate-falls r₁) λ s _.
        Meets-bind (make_atom-Stays _ _ s (used_inc r₁))
          λ (r₂, sx) m. Meets-bind (deliver-Stays _ sx r₂) λ r₃ d. falls (ground arith)

pub dquoted_char-Moves :
    (c : ℕ) (r : Run) → IsBlobBounded r → Partly (MovesOn r.t) (dquoted_char c r)
unfolding dquoted_char
dquoted_char-Moves c r b =
    Meets-if (c == b'"') (λ _. end_dquoted-Moves r b)
      λ _. Meets-bind (put_char-Stays false c r) λ r' s. falls (ground arith)

pub step_dquoted-Moves :
    (c : ℕ) (ahead : Option ℕ) (r : Run) → Advances r dquoted (step_dquoted c ahead r)
unfolding step_dquoted
step_dquoted-Moves c none r b =
    Meets-if (r.cc.esc && is_special c) (λ _. Meets-bind (overwrite-Stays c r) λ r' s. faults tt)
      λ _. Partly-mono (dquoted_char-Moves c r b) λ r' h. ground arith
step_dquoted-Moves c (some c') r b =
    Meets-if (r.cc.esc && is_special c)
      (λ _.
        Meets-bind (overwrite-Stays c r)
          λ r' s. Partly-mono (dquoted_char-Moves c' _ (ground arith)) λ r'' h. ground arith)
      λ _. Partly-mono (dquoted_char-Moves c r b) λ r' h. ground arith

pub step_tick-Moves : (c : ℕ) (r : Run) → Advances r tick (step_tick c r)
unfolding step_tick
step_tick-Moves c r b =
    Meets-if (c == b'"')
      (λ _. Meets-bind (put_char-Stays false b'"' _) λ r' s. falls (ground arith))
      λ _. Meets-if (c == b'(') (λ _. falls (ground arith)) λ _. falls (ground arith)

pub step_quoted_close-Stays :
    (r : Run) → IsBlobBounded r → Partly (StaysLow r.t) (step_quoted_close r)
unfolding step_quoted_close
step_quoted_close-Stays r b =
    Meets-if (r.cc.qdepth == 0)
      (λ _. Meets-bind (terminate-falls r) λ s _.
        Meets-bind (make_atom-Stays squote false s (goto start r))
          λ (r₁, sx) m. Partly-mono (deliver-Stays _ sx r₁) λ r₂ d. ground arith)
      λ _. falls (ground arith)

pub step_quoted_list-Moves : (c : ℕ) (r : Run) → Advances r quoted_list (step_quoted_list c r)
unfolding step_quoted_list
step_quoted_list-Moves c r b = Meets-bind (put_char-Stays false c _) λ r' s.
    Meets-if (is_quoted_close r'.cc.state)
      (λ _. Partly-mono (step_quoted_close-Stays (advance r') (ground arith)) λ r'' q. ground arith)
      (λ _. falls (ground arith))

pub step_quoted_string-Moves : (c : ℕ) (r : Run) → Advances r quoted_string (step_quoted_string c r)
unfolding step_quoted_string
step_quoted_string-Moves c r b = Meets-bind (put_char-Stays false c _) λ r' s. falls (ground arith)
