-- ===== src/Safety.antt =====
-- Runs of the parser of src/parser.c that touch no memory but their own: what holds between two
-- rounds on input without backslashes, in the normal mode, where no request for memory is refused.
pub mod Shapes
pub mod Starts
pub mod Texts
pub mod Quotes
pub mod Lists
pub mod Parse
use sfsexp.Prelude.{
  ℕ, zero, suc, ◌+◌, ◌≤◌, ◌<◌, ◌≡◌, Bool, true, false, List, [], ◌∷◌, some, Bytes, ◌==◌,
}
use sfsexp.Sexp.{list, Sexp, nil, snoc}
use sfsexp.Cache.{World}
use sfsexp.Parser.Base.{
  State, start, open_paren, close_paren, atom, dquoted, dquoted_end, tick, quoted_list,
  quoted_string, comment, ParseData, Pcont, Run, Outcome, Meets,
}
use sfsexp.Parser.Actions.{is_escape}
use sfsexp.RoundTrip.Conf.{Conf, InConf}

-- The levels below the top one, for so many lists that are open: each ends in the list that the level
-- above it fills.
abbrev pub Opened : ℕ → List ParseData → Type 0
Opened zero levels = levels ≡ []
Opened (suc d) levels =
    (x : Sexp) × (below : List ParseData) × (levels ≡ some (snoc x (list nil)) ∷ below)
    × Opened d below

-- The levels at a depth.
abbrev pub Shape : ℕ → List ParseData → Type 0
Shape zero levels = levels ≡ []
Shape (suc d) levels =
    (top : Sexp) × (below : List ParseData) × (levels ≡ some top ∷ below) × Opened (suc d) below

-- The states that are reached, and those in which the buffer may hold something.
abbrev pub Holding : State → Bytes → Type 0
Holding start s = s ≡ []
Holding open_paren s = s ≡ []
Holding close_paren s = s ≡ []
Holding tick s = s ≡ []
Holding comment s = s ≡ []
Holding dquoted_end s = s ≡ []
Holding atom s = Unit {0}
Holding dquoted s = Unit {0}
Holding quoted_list s = Unit {0}
Holding quoted_string s = Unit {0}
Holding _ s = ⊥

abbrev pub opens : State → ℕ
opens open_paren = 1
opens _ = 0

-- `n` is the offset of the NUL that ends the input.
pub record Good (n : ℕ) (k : Conf) : Type 0 where
  pub esc : k.esc ≡ false
  pub shape : Shape k.depth k.levels
  pub holding : Holding k.state k.text
  pub deep : k.depth + opens k.state ≤ k.t
  pub within : k.t ≤ n

abbrev pub Safe : ℕ → Run → Type 0
Safe n r = (k : Conf) × InConf k r × Good n k

-- Code that falls through to a safe run, or returns.
abbrev pub Keeps : ℕ → Outcome Run → Type 0
Keeps n o = Meets (Safe n) (λ _ _. Unit {0}) ⊥ o

-- A byte of such input.
pub record IsClean (c : ℕ) : Type 0 where
  pub nonzero : (c == 0) ≡ false
  pub plain : is_escape c ≡ false
