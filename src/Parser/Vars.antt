-- ===== src/Parser/Vars.antt =====
-- Assignments to the variables of the main loop of src/parser.c, and its tests on characters.
use sfsexp.Prelude.{ℕ, ◌+◌, Bool, true, false, ◌&&◌, ◌||◌, ltb, leb, ◌==◌}
use sfsexp.Parser.Base.{Mode, parser_inline_binary, State, Run}
use sfsexp.Parser.Actions.{rewind}

abbrev pub goto : State → Run → Run
goto q r = record r { cc = record r.cc { state = q } }

abbrev pub advance : Run → Run
advance r = record r { t = r.t + 1 }

abbrev pub set_esc : Bool → Run → Run
set_esc b r = record r { cc = record r.cc { esc = b } }

abbrev pub set_squoted : Bool → Run → Run
set_squoted b r = record r { cc = record r.cc { squoted = b } }

abbrev pub rewound : Run → Run
rewound r = record r { cc = record r.cc { val = rewind r.cc.val } }

abbrev pub is_space : ℕ → Bool
is_space c = c == b'\n' || c == b' ' || c == b'\t' || c == b'\r'

-- The characters that a backslash escapes.
abbrev pub is_special : ℕ → Bool
is_special c = c == b'"' || c == b'(' || c == b')' || c == b'\'' || c == b'\\'

-- The characters legal in atoms.
abbrev pub is_atom_char : ℕ → Bool
is_atom_char c = leb b'*' c && leb c b'~' || ltb 127 c || c == b'!' || leb b'#' c && leb c b'&'

abbrev pub is_binary_mode : Mode → Bool
is_binary_mode parser_inline_binary = true
is_binary_mode _ = false
