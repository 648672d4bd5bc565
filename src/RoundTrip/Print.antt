-- ===== src/RoundTrip/Print.antt =====
-- A reference printer for the trees that src/parser.c reads: the text that README and src/sexp.h
-- describe, one space between the elements of a list, quotes and backslashes escaped in a text in
-- double quotes. It is independent of print_sexp of src/sexp.c.
use sfsexp.Prelude.{
  ℕ, suc, ◌≡◌, Bool, true, false, ◌||◌, ◌∷◌, ◌++◌, [], Bytes, ◌==◌, if◌then◌else◌, ltb,
}
use sfsexp.Sexp.{AtomType, basic, squote, dquote, binary}
use sfsexp.Sexp.View.{Tree, atom, branch, Forest, bare, tree}
use sfsexp.Parser.Vars.{is_atom_char}
use sfsexp.Parser.Actions.{is_escape}

abbrev pub is_quoted : ℕ → Bool
is_quoted c = c == b'"' || c == b'\\'

-- The inside of a text in double quotes.
abbrev pub escape : Bytes → Bytes
escape [] = []
escape (c ∷ s) = if is_quoted c then b'\\' ∷ c ∷ escape s else c ∷ escape s

abbrev pub show_atom : AtomType → Bytes → Bytes
show_atom basic s = s
show_atom squote s = b'\'' ∷ s
show_atom dquote s = b'"' ∷ escape s ++ b'"' ∷ []
show_atom binary s = s

unfoldable mutual
  pub show : Tree → Bytes
  show (atom a s) = show_atom a s
  show (branch f) = b'(' ∷ show_all f ++ b')' ∷ []

  pub show_all : Forest → Bytes
  show_all bare = []
  show_all (tree t rest) = show t ++ show_rest rest

  -- The elements behind the first, a space before each.
  pub show_rest : Forest → Bytes
  show_rest bare = []
  show_rest (tree t rest) = b' ' ∷ show t ++ show_rest rest

-- Characters legal in atoms, none of them a backslash.
abbrev pub IsAtomText : Bytes → Type 0
IsAtomText [] = Unit {0}
IsAtomText (c ∷ s) = (is_atom_char c ≡ true) × (is_escape c ≡ false) × IsAtomText s

abbrev pub IsNulFree : Bytes → Type 0
IsNulFree [] = Unit {0}
IsNulFree (c ∷ s) = ((c == 0) ≡ false) × IsNulFree s

-- An unquoted atom is not empty and does not begin like a comment.
abbrev pub IsBasicText : Bytes → Type 0
IsBasicText [] = ⊥
IsBasicText (c ∷ s) = ((c == b';') ≡ false) × IsAtomText (c ∷ s)

abbrev pub IsAtom : AtomType → Bytes → Type 0
IsAtom basic s = IsBasicText s
IsAtom squote s = IsAtomText s
IsAtom dquote s = IsNulFree s
IsAtom binary s = ⊥

unfoldable mutual
  pub IsPrintable : Tree → Type 0
  IsPrintable (atom a s) = IsAtom a s
  IsPrintable (branch f) = ArePrintable f

  pub ArePrintable : Forest → Type 0
  ArePrintable bare = Unit {0}
  ArePrintable (tree t rest) = IsPrintable t × ArePrintable rest

abbrev pub max : ℕ → ℕ → ℕ
max a b = if ltb a b then b else a

-- The number of lists that are open at once.
unfoldable mutual
  pub nesting : Tree → ℕ
  nesting (atom a s) = 0
  nesting (branch f) = suc (nesting_all f)

  pub nesting_all : Forest → ℕ
  nesting_all bare = 0
  nesting_all (tree t rest) = max (nesting t) (nesting_all rest)
