-- ===== src/Parser/Atoms.antt =====
-- src/parser.c, the cases 4, 5 and 7 of the main loop of `cparse_sexp`: an unquoted atom, a text in
-- double quotes, what follows a single quote. `c` is the byte at `t`; case 5 may look at the byte
-- behind it.
use sfsexp.Prelude.{ℕ, ◌+◌, Bool, true, false, ◌&&◌, Option, none, some, ◌==◌, if◌then◌else◌}
use sfsexp.Errors.{err_ok}
use sfsexp.FastStack.{empty_stack}
use sfsexp.Sexp.{AtomType, basic, squote, dquote, Elt, nil, node}
use sfsexp.Parser.Base.{
  start, close_paren, atom, dquoted, dquoted_end, quoted_list, Run, Outcome, next, fault, ◌>>=◌,
  save,
}
use sfsexp.Parser.Actions.{is_escape, put_char, overwrite, terminate, make_atom, attach}
use sfsexp.Parser.Vars.{
  goto, advance, set_esc, set_squoted, rewound, is_space, is_special, is_atom_char,
}

-- An element on an empty stack is the result; else it joins the top level.
unfoldable pub deliver : Run → Elt → Run → Outcome Run
deliver result sx r =
    if empty_stack r.cc.stack then save err_ok (node sx nil) result else attach sx r

abbrev pub used_inc : Run → Run
used_inc r = record r { cc = record r.cc { val_used = r.cc.val_used + 1 } }

-- The type of an unquoted atom.
abbrev pub atom_type : Bool → AtomType
atom_type squoted = if squoted then squote else basic

-- Behind an atom: a space is skipped, and a parenthesis closes at once.
unfoldable pub after_atom : ℕ → Run → Run
after_atom c r =
    if is_space c
    then set_squoted false (advance (goto start r))
    else if c == b')'
    then goto close_paren (set_squoted false r)
    else goto start (set_squoted false r)

-- case 4
unfoldable pub step_atom : ℕ → Run → Outcome Run
unfolding after_atom
step_atom c r =
    if r.cc.esc && is_special c
    then (overwrite c r >>= λ r'. next (set_esc false (advance r')))
    else if is_atom_char c
    then (put_char false c (set_esc (is_escape c) r) >>= λ r'. next (advance r'))
    else terminate r >>= λ s.
        make_atom (atom_type r.cc.squoted) false s (used_inc r) >>= λ (r', sx).
        deliver (set_esc false (goto start (set_squoted false r'))) sx r' >>= λ r''.
        next (after_atom c r'')

-- A quote ends the text. In a text behind a single quote it belongs to the text.
unfoldable pub end_dquoted : Run → Outcome Run
end_dquoted r =
    let r₀ = goto dquoted_end r in
    (if r.cc.squoted then put_char false b'"' r₀ else next r₀) >>= λ r₁. terminate r₁ >>= λ s.
    make_atom (if r.cc.squoted then squote else dquote) r.cc.squoted s (used_inc r₁) >>= λ (r₂, sx).
    deliver (goto start (set_esc false (set_squoted false (advance r₂)))) sx r₂ >>= λ r₃.
    next (advance r₃)

-- The second part of case 5, on the byte at `t`.
unfoldable pub dquoted_char : ℕ → Run → Outcome Run
unfolding end_dquoted
dquoted_char c r =
    if c == b'"'
    then end_dquoted r
    else put_char false c r >>= λ r'. next (advance (set_esc (is_escape c) r'))

-- case 5: the byte behind an escaped one is looked at in the same round, `ahead`, whatever the
-- length of the input is.
unfoldable pub step_dquoted : ℕ → Option ℕ → Run → Outcome Run
unfolding dquoted_char
step_dquoted c ahead r =
    if r.cc.esc && is_special c
    then (overwrite c r >>= λ r'. elim ahead [
      | none ↦ fault
      | some c' ↦ dquoted_char c' (set_esc false (advance r'))
    ])
    else dquoted_char c r

-- case 7
unfoldable pub step_tick : ℕ → Run → Outcome Run
step_tick c r =
    if c == b'"'
    then (put_char false b'"' (advance (rewound (goto dquoted r))) >>= λ r'.
        next (set_squoted true r'))
    else if c == b'('
    then next (goto quoted_list (rewound r))
    else next (set_squoted true (goto atom (rewound r)))
