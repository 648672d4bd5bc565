-- ===== src/Parser/Progress/Measure.antt =====
-- What it means for a round of the main loop of src/parser.c to get on.
use sfsexp.Prelude.{ℕ, ◌≤◌, ◌<◌, ◌≡◌, ◌⊎◌}
use sfsexp.Parser.Base.{
  State, start, open_paren, close_paren, atom, dquoted_end, tick, quoted_close, hash, hash_b, blob,
  Run, Outcome, falls, returns, aborts, faults,
}
use sfsexp.Parser.Frame.{Partly}

abbrev pub rank : State → ℕ
rank start = 1
rank open_paren = 2
rank close_paren = 0
rank atom = 2
rank dquoted_end = 2
rank tick = 3
rank quoted_close = 2
rank hash = 3
rank hash_b = 3
rank blob = 2
rank _ = 0

-- No more binary data is read than is expected.
abbrev pub IsBlobBounded : Run → Type 0
IsBlobBounded r = r.cc.binread ≤ r.cc.binexpected

-- From position `t` in state `q`, the run `r'` has moved on, or stays at a lower rank.
abbrev pub Moves : ℕ → State → Run → Type 0
Moves t q r' = ((t < r'.t) ⊎ ((r'.t ≡ t) × (rank r'.cc.state < rank q))) × IsBlobBounded r'

abbrev pub MovesOn : ℕ → Run → Type 0
MovesOn t r' = (t < r'.t) × IsBlobBounded r'

abbrev pub StaysLow : ℕ → Run → Type 0
StaysLow t r' = (r'.t ≡ t) × (rank r'.cc.state ≤ 1) × IsBlobBounded r'

-- Code that returns or stops always moves on.
abbrev pub Advances : Run → State → Outcome Run → Type 0
Advances r q o = IsBlobBounded r → Partly (Moves r.t q) o

pub Partly-mono :
    {A : Type 0} {P Q : A → Type 0} {o : Outcome A}
    → Partly P o
    → ((a : A) → P a → Q a)
    → Partly Q o
Partly-mono (falls {a} p) k = falls (k a p)
Partly-mono (returns _) k = returns tt
Partly-mono (aborts _) k = aborts tt
Partly-mono (faults _) k = faults tt
