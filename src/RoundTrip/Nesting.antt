-- ===== src/RoundTrip/Nesting.antt =====
-- The nesting of a list and the length of its printed text.
use sfsexp.Prelude.{◌+◌, ◌≤◌, ◌∷◌, [], length, length-append, arith}
use sfsexp.Sexp.View.{Tree, Forest, atom, branch, bare, tree}
use sfsexp.RoundTrip.Print.{show, show_all, show_rest, nesting, nesting_all}

-- Each list that is open is a byte of the text.
mutual
  unfolding show nesting

  nesting-length : (u : Tree) → nesting u ≤ length (show u)
  nesting-length (atom a s) = omega arith
  nesting-length (branch f) =
      omega (arith, nesting_all-length f, length-append (show_all f) (b')' ∷ []))

  nesting_all-length : (f : Forest) → nesting_all f ≤ length (show_all f)
  nesting_all-length bare = omega arith
  nesting_all-length (tree u f) =
      ground (arith, nesting-length u, nesting_rest-length f, length-append (show u) (show_rest f))

  nesting_rest-length : (f : Forest) → nesting_all f ≤ length (show_rest f)
  nesting_rest-length bare = omega arith
  nesting_rest-length (tree u f) =
      ground (arith, nesting-length u, nesting_rest-length f, length-append (show u) (show_rest f))

pub nesting-branch : (f : Forest) → nesting (branch f) + 1 ≤ length (show (branch f))
unfolding show nesting
nesting-branch f = omega (arith, nesting_all-length f, length-append (show_all f) (b')' ∷ []))
