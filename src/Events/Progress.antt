-- ===== src/Events/Progress.antt =====
-- The rounds of the main loop of `eparse_sexp` of src/event_temp.c get on, in the measure of the loop
-- of `cparse_sexp`.
use sfsexp.Prelude.{ℕ, ◌<◌, ◌≤◌, ◌≡◌, ◌⊎◌, Bool, true, false, ◌&&◌, Option, none, some, ◌==◌, arith}
use sfsexp.Parser.Base.{
  State, start, open_paren, close_paren, atom, dquoted, dquoted_end, tick, quoted_list,
  quoted_close, quoted_string, comment, hash, hash_b, size_string, blob, other_state, Run, Outcome,
  falls, faults, Meets-bind, Meets-if,
}
use sfsexp.Parser.Frame.{Stays, Partly, Partly-intro, overwrite-Stays, terminate-falls}
use sfsexp.Parser.Vars.{is_space, is_special, is_atom_char, goto, advance}
use sfsexp.Parser.Quoted.{is_quoted_close}
use sfsexp.Parser.Binary.{atoi}
use sfsexp.Parser.Progress.Measure.{rank, Partly-mono}
use sfsexp.Events.{
  store_char, tell_text, tell_end, on_start, on_open, on_close, on_atom, tell_dquoted,
  on_dquoted_char, on_dquoted, on_tick, on_quoted_close, on_quoted_list, on_quoted_string,
  on_comment,
}
use sfsexp.Events.Binary.{
  on_hash, on_hash_b, on_size_string, start_blob, store_blob, on_blob, tell_blob,
}
use sfsexp.Events.Loop.{on_char}

-- A state that the switch has no case for.
abbrev pub is_other : State → Bool
is_other (other_state n) = true
is_other _ = false

-- From position `t` in state `q`, the run `r'` has moved on, or stays at a lower rank; its state has a
-- case.
abbrev pub Moves : ℕ → State → Run → Type 0
Moves t q r' =
    ((t < r'.t) ⊎ ((r'.t ≡ t) × (rank r'.cc.state < rank q))) × (is_other r'.cc.state ≡ false)

store_char-Stays : (c : ℕ) (r : Run) → Partly (Stays r) (store_char c r)
unfolding store_char
store_char-Stays c r = Partly-intro (store_char c r) (λ r' e. ground arith)

tell_end-same : (result r : Run) → Partly (λ r'. r' ≡ r) (tell_end result r)
unfolding tell_end
tell_end-same result r = Partly-intro (tell_end result r) (λ r' e. ground arith)

-- Code that returns or stops moves on from a state that has a case.
abbrev pub Advances : Run → State → Outcome Run → Type 0
Advances r q o = is_other r.cc.state ≡ false → Partly (Moves r.t q) o

on_start-Moves : (c : ℕ) (r : Run) → Advances r start (on_start c r)
unfolding on_start
on_start-Moves c r b =
    Meets-if (is_space c) (λ _. falls (ground arith))
      λ _.
        Meets-if (c == b';') (λ _. falls (ground arith))
          λ _.
            Meets-if (c == b'(') (λ _. falls (ground arith))
              λ _.
                Meets-if (c == b')') (λ _. falls (ground arith))
                  λ _.
                    Meets-if (c == b'"') (λ _. falls (ground arith))
                      λ _.
                        Meets-if (c == b'\'') (λ _. falls (ground arith))
                          λ _. Meets-bind (store_char-Stays c _) λ r' s. falls (ground arith)

on_open-Moves : (r : Run) → Advances r open_paren (on_open r)
unfolding on_open
on_open-Moves r b = falls (ground arith)

on_close-Moves : (saved : Bool) (r : Run) → Advances r close_paren (on_close saved r)
unfolding on_close sfsexp.Events.leave
on_close-Moves saved r b = Partly-intro (on_close saved r) λ r' e. ground arith

on_atom-Moves : (c : ℕ) (r : Run) → Advances r atom (on_atom c r)
unfolding on_atom sfsexp.Parser.Atoms.after_atom tell_text
on_atom-Moves c r b =
    Meets-if (r.cc.esc && is_special c)
      (λ _. Meets-bind (overwrite-Stays c r) λ r' s. falls (ground arith))
      λ _.
        Meets-if (is_atom_char c)
          (λ _. Meets-bind (store_char-Stays c _) λ r' s. falls (ground arith))
          λ _.
            Meets-bind (terminate-falls r)
              λ s _. Meets-bind (tell_end-same _ _) λ r₂ d. falls (ground arith)

tell_dquoted-Moves :
    (r : Run) → Partly (λ r'. (r.t < r'.t) × (is_other r'.cc.state ≡ false)) (tell_dquoted r)
unfolding tell_dquoted tell_text
tell_dquoted-Moves r =
    Meets-bind
      (Meets-if r.cc.squoted (λ _. store_char-Stays b'"' (goto dquoted_end r))
        (λ _. falls (ground arith)))
      λ r₁ p.
        Meets-bind (terminate-falls r₁)
          λ s _. Meets-bind (tell_end-same _ _) λ r₃ d. falls (ground arith)

on_dquoted_char-Moves :
    (c : ℕ) (r : Run)
    → is_other r.cc.state ≡ false
    → Partly (λ r'. (r.t < r'.t) × (is_other r'.cc.state ≡ false)) (on_dquoted_char c r)
unfolding on_dquoted_char
on_dquoted_char-Moves c r b =
    Meets-if (c == b'"') (λ _. tell_dquoted-Moves r)
      λ _. Meets-bind (store_char-Stays c r) λ r' s. falls (ground arith)

on_dquoted-Moves : (c : ℕ) (ahead : Option ℕ) (r : Run) → Advances r dquoted (on_dquoted c ahead r)
unfolding on_dquoted
on_dquoted-Moves c none r b =
    Meets-if (r.cc.esc && is_special c) (λ _. Meets-bind (overwrite-Stays c r) λ r' s. faults tt)
      λ _. Partly-mono (on_dquoted_char-Moves c r b) λ r' h. ground arith
on_dquoted-Moves c (some c') r b =
    Meets-if (r.cc.esc && is_special c)
      (λ _.
        Meets-bind (overwrite-Stays c r)
          λ r' s. Partly-mono (on_dquoted_char-Moves c' _ (ground arith)) λ r'' h. ground arith)
      λ _. Partly-mono (on_dquoted_char-Moves c r b) λ r' h. ground arith

on_tick-Moves : (c : ℕ) (r : Run) → Advances r tick (on_tick c r)
unfolding on_tick
on_tick-Moves c r b =
    Meets-if (c == b'"') (λ _. Meets-bind (store_char-Stays b'"' _) λ r' s. falls (ground arith))
      λ _. Meets-if (c == b'(') (λ _. falls (ground arith)) λ _. falls (ground arith)

on_quoted_close-Stays :
    (r : Run)
    → Partly
        (λ r'. (r'.t ≡ r.t) × (rank r'.cc.state ≤ 1) × (is_other r'.cc.state ≡ false))
        (on_quoted_close r)
unfolding on_quoted_close tell_text
on_quoted_close-Stays r =
    Meets-if (r.cc.qdepth == 0)
      (λ _.
        Meets-bind (terminate-falls r) λ s _. Partly-mono (tell_end-same _ _) λ r₂ d. ground arith)
      λ _. falls (ground arith)

on_quoted_list-Moves : (c : ℕ) (r : Run) → Advances r quoted_list (on_quoted_list c r)
unfolding on_quoted_list sfsexp.Parser.Quoted.quoted_nest
on_quoted_list-Moves c r b = Meets-bind (store_char-Stays c _) λ r' s.
    Meets-if (is_quoted_close r'.cc.state)
      (λ _. Partly-mono (on_quoted_close-Stays (advance r')) λ r'' q. ground arith)
      (λ _. falls (ground arith))

on_quoted_string-Moves : (c : ℕ) (r : Run) → Advances r quoted_string (on_quoted_string c r)
unfolding on_quoted_string
on_quoted_string-Moves c r b = Meets-bind (store_char-Stays c _) λ r' s. falls (ground arith)

on_hash-Moves : (c : ℕ) (r : Run) → Advances r hash (on_hash c r)
unfolding on_hash
on_hash-Moves c r b =
    Meets-if (c == b'b') (λ _. Meets-bind (store_char-Stays c _) λ r' s. falls (ground arith))
      λ _. falls (ground arith)

on_hash_b-Moves : (c : ℕ) (r : Run) → Advances r hash_b (on_hash_b c r)
unfolding on_hash_b
on_hash_b-Moves c r b =
    Meets-if (c == b'#') (λ _. Meets-bind (store_char-Stays c _) λ r' s. falls (ground arith))
      λ _. falls (ground arith)

on_size_string-Moves : (c : ℕ) (r : Run) → Advances r size_string (on_size_string c r)
unfolding on_size_string start_blob
on_size_string-Moves c r b =
    Meets-if (c == b'#')
      (λ _.
        Meets-bind (terminate-falls r)
          λ s _. Partly-intro (start_blob (atoi s) (advance r)) λ r' e. ground arith)
      λ _. Meets-bind (store_char-Stays c _) λ r' s. falls (ground arith)

store_blob-Moves :
    (c : Option ℕ) (r : Run)
    → Partly (λ r'. (r.t < r'.t) × (r'.cc.state ≡ r.cc.state)) (store_blob c r)
unfolding store_blob
store_blob-Moves none r = faults tt
store_blob-Moves (some c) r = Partly-intro (store_blob (some c) r) λ r' e. ground arith

pub on_blob-Moves : (c : Option ℕ) (r : Run) → Advances r blob (on_blob c r)
unfolding on_blob tell_blob
on_blob-Moves c r b = Meets-bind (store_blob-Moves c r) λ r₁ m.
    Meets-if (r₁.cc.binread == r₁.cc.binexpected) (λ _. falls (ground arith))
      (λ h. falls (ground arith))

pub on_char-Moves :
    (saved : Bool) (q : State) (c : ℕ) (ahead : Option ℕ) (r : Run)
    → r.cc.state ≡ q
    → Advances r q (on_char saved q c ahead r)
unfolding on_char on_comment
on_char-Moves saved start c ahead r e b = on_start-Moves c r b
on_char-Moves saved open_paren c ahead r e b = on_open-Moves r b
on_char-Moves saved close_paren c ahead r e b = on_close-Moves saved r b
on_char-Moves saved atom c ahead r e b = on_atom-Moves c r b
on_char-Moves saved dquoted c ahead r e b = on_dquoted-Moves c ahead r b
on_char-Moves saved dquoted_end c ahead r e b = falls (ground arith)
on_char-Moves saved tick c ahead r e b = on_tick-Moves c r b
on_char-Moves saved quoted_list c ahead r e b = on_quoted_list-Moves c r b
on_char-Moves saved quoted_close c ahead r e b =
    Partly-mono (on_quoted_close-Stays r) λ r' q. ground arith
on_char-Moves saved quoted_string c ahead r e b = on_quoted_string-Moves c r b
on_char-Moves saved comment c ahead r e b = falls (ground arith)
on_char-Moves saved hash c ahead r e b = on_hash-Moves c r b
on_char-Moves saved hash_b c ahead r e b = on_hash_b-Moves c r b
on_char-Moves saved size_string c ahead r e b = on_size_string-Moves c r b
on_char-Moves saved blob c ahead r e b = on_blob-Moves (some c) r b
on_char-Moves saved (other_state n) c ahead r e b = cc
