-- ===== src/Parser/Quoted.antt =====
-- src/parser.c, the cases 8, 9 and 10 of the main loop of `cparse_sexp`: a list behind a single
-- quote, which is kept as text. `c` is the byte at `t`.
use sfsexp.Prelude.{ℕ, Bool, true, false, ◌&&◌, ◌==◌, if◌then◌else◌}
use sfsexp.Sexp.{squote}
use sfsexp.Parser.Base.{
  State, start, quoted_list, quoted_close, quoted_string, Run, Outcome, next, ◌>>=◌, uint_inc,
  uint_dec,
}
use sfsexp.Parser.Actions.{is_escape, put_char, terminate, make_atom}
use sfsexp.Parser.Vars.{goto, advance, set_esc, set_squoted}
use sfsexp.Parser.Atoms.{deliver}

-- case 9
unfoldable pub step_quoted_close : Run → Outcome Run
step_quoted_close r =
    if r.cc.qdepth == 0
    then (terminate r >>= λ s. make_atom squote false s (goto start r) >>= λ (r', sx).
        deliver (goto start (set_esc false (set_squoted false r'))) sx r')
    else next (goto quoted_list r)

-- What an unescaped byte changes in case 8.
unfoldable pub quoted_nest : ℕ → Run → Run
quoted_nest c r =
    if c == b'('
    then record r { cc = record r.cc { qdepth = uint_inc r.cc.qdepth } }
    else if c == b')'
    then goto quoted_close (record r { cc = record r.cc { qdepth = uint_dec r.cc.qdepth } })
    else if c == b'"'
    then goto quoted_string r
    else r

abbrev pub is_quoted_close : State → Bool
is_quoted_close quoted_close = true
is_quoted_close _ = false

-- case 8, which falls through to case 9 on a closing parenthesis
unfoldable pub step_quoted_list : ℕ → Run → Outcome Run
unfolding quoted_nest
step_quoted_list c r =
    put_char false c (set_esc (is_escape c) (if r.cc.esc then r else quoted_nest c r)) >>= λ r'.
    if is_quoted_close r'.cc.state then step_quoted_close (advance r') else next (advance r')

-- case 10
unfoldable pub step_quoted_string : ℕ → Run → Outcome Run
step_quoted_string c r =
    let r₀ = if c == b'"' && (if r.cc.esc then false else true) then goto quoted_list r else r in
    put_char false c (set_esc (is_escape c) r₀) >>= λ r'. next (advance r')
