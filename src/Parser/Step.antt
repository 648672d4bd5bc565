-- ===== src/Parser/Step.antt =====
-- src/parser.c, the switch on the state in the main loop of `cparse_sexp`.
use sfsexp.Prelude.{ℕ, Option, some}
use sfsexp.Errors.{err_unknown_state}
use sfsexp.Sexp.{nil}
use sfsexp.Parser.Base.{
  State, start, open_paren, close_paren, atom, dquoted, dquoted_end, tick, quoted_list,
  quoted_close, quoted_string, comment, hash, hash_b, size_string, blob, other_state, Run, Outcome,
  next, save,
}
use sfsexp.Parser.Vars.{goto, rewound}
use sfsexp.Parser.Structure.{step_start, step_open, step_close, step_comment}
use sfsexp.Parser.Atoms.{step_atom, step_dquoted, step_tick}
use sfsexp.Parser.Quoted.{step_quoted_list, step_quoted_close, step_quoted_string}
use sfsexp.Parser.Binary.{step_hash, step_hash_b, step_size_string, step_blob}

-- The switch. `c` is the byte at `t`, if there is one, and `ahead` the byte behind it.
unfoldable pub step_char : State → ℕ → Option ℕ → Run → Outcome Run
step_char start c ahead r = step_start c r
step_char open_paren c ahead r = step_open r
step_char close_paren c ahead r = step_close r
step_char atom c ahead r = step_atom c r
step_char dquoted c ahead r = step_dquoted c ahead r
step_char dquoted_end c ahead r = next (goto start (rewound r))
step_char tick c ahead r = step_tick c r
step_char quoted_list c ahead r = step_quoted_list c r
step_char quoted_close c ahead r = step_quoted_close r
step_char quoted_string c ahead r = step_quoted_string c r
step_char comment c ahead r = step_comment c r
step_char hash c ahead r = step_hash c r
step_char hash_b c ahead r = step_hash_b c r
step_char size_string c ahead r = step_size_string c r
step_char blob c ahead r = step_blob (some c) r
step_char (other_state n) c ahead r = save err_unknown_state nil r
