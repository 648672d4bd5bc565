-- ===== src/RoundTrip/NulFree.antt =====
-- Texts without NUL, as src/parser.c reads them: printed expressions, and where they lie in memory.
use sfsexp.Prelude.{
  ℕ, Bytes, ◌+◌, ◌≤◌, ◌≡◌, refl, [], ◌∷◌, ◌++◌, append_assoc, some, length, get_elem?,
  length-append, Bool-cases, inl, inr, arith,
}
use mathlib.Core.Path.{subst}
use sfsexp.Sexp.{basic, squote, dquote, binary}
use sfsexp.Sexp.View.{Tree, Forest, bare, tree, branch}
use sfsexp.RoundTrip.Leads.{Reads}
use sfsexp.RoundTrip.Print.{
  is_quoted, escape, show, show_all, show_rest, IsPrintable, ArePrintable, IsNulFree, IsAtomText,
}

IsNulFree-append : (s s' : Bytes) → IsNulFree s → IsNulFree s' → IsNulFree (s ++ s')
IsNulFree-append [] s' h h' = h'
IsNulFree-append (c ∷ s) s' h h' = (h.0, IsNulFree-append s s' h.1 h')

IsAtomText-IsNulFree : (s : Bytes) → IsAtomText s → IsNulFree s
IsAtomText-IsNulFree [] h = tt
IsAtomText-IsNulFree (c ∷ s) h = (ground (arith, h.0), IsAtomText-IsNulFree s h.2)

escape-IsNulFree : (s : Bytes) → IsNulFree s → IsNulFree (escape s)
escape-IsNulFree [] h = tt
escape-IsNulFree (c ∷ s) h = elim (Bool-cases (is_quoted c)) [
  | inl q ↦ rw q (refl, (h.0, escape-IsNulFree s h.1))
  | inr n ↦ rw n (h.0, escape-IsNulFree s h.1)
]

mutual
  unfolding show IsPrintable

  pub show-IsNulFree : (u : Tree) → IsPrintable u → IsNulFree (show u)
  show-IsNulFree (Tree.atom basic []) p = tt
  show-IsNulFree (Tree.atom basic (c ∷ s)) p = IsAtomText-IsNulFree (c ∷ s) p.1
  show-IsNulFree (Tree.atom squote s) p = (refl, IsAtomText-IsNulFree s p)
  show-IsNulFree (Tree.atom dquote s) p =
      (refl, IsNulFree-append (escape s) (b'"' ∷ []) (escape-IsNulFree s p) (refl, tt))
  show-IsNulFree (Tree.atom binary s) p = absurd p
  show-IsNulFree (branch f) p =
      (refl, IsNulFree-append (show_all f) (b')' ∷ []) (show_all-IsNulFree f p) (refl, tt))

  show_all-IsNulFree : (f : Forest) → ArePrintable f → IsNulFree (show_all f)
  show_all-IsNulFree bare p = tt
  show_all-IsNulFree (tree u rest) p =
      IsNulFree-append (show u) (show_rest rest) (show-IsNulFree u p.0)
        (show_rest-IsNulFree rest p.1)

  show_rest-IsNulFree : (f : Forest) → ArePrintable f → IsNulFree (show_rest f)
  show_rest-IsNulFree bare p = tt
  show_rest-IsNulFree (tree u rest) p = (
    refl,
    IsNulFree-append (show u) (show_rest rest) (show-IsNulFree u p.0)
        (show_rest-IsNulFree rest p.1),
  )

pub get_elem?-append :
    (before : Bytes) (c : ℕ) (rest : Bytes)
    → get_elem? (before ++ c ∷ rest) (length before) ≡ some c
get_elem?-append [] c rest = refl
get_elem?-append (b ∷ before) c rest = get_elem?-append before c rest

-- A text without NUL lies ahead where it stands in the memory.
pub text-Reads :
    (before s rest : Bytes) (len : ℕ)
    → IsNulFree s
    → length before + length s ≤ len
    → Reads (before ++ (s ++ rest)) len (length before) s
text-Reads before [] rest len h l = tt
text-Reads before (c ∷ s) rest len h l = (
  record { byte = get_elem?-append before c (s ++ rest); nonzero = h.0; inside = omega (arith, l) },
  subst (λ m. Reads m len (length before + 1) s) (append_assoc before (c ∷ []) (s ++ rest))
      (subst (λ t. Reads (before ++ c ∷ [] ++ (s ++ rest)) len t s) (length-append before (c ∷ []))
        (text-Reads (before ++ c ∷ []) s rest len h.1
          (omega (arith, l, length-append before (c ∷ []))))),
)
