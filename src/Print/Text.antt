-- ===== src/Print/Text.antt =====
-- The text that the walk of src/sexp.c writes for a chain, and that of the reference printer.
use sfsexp.Prelude.{
  ℕ, suc, ◌+◌, ◌≤◌, ◌<◌, length, length-append, ◌≡◌, sym, ap, ◌∙◌, List, [], ◌∷◌, ◌++◌, append-nil,
  append_assoc, Bytes, arith,
}
use mathlib.Core.Path.{subst}
use sfsexp.Sexp.{value, list, Sexp, nil, node}
use sfsexp.Sexp.View.{Tree, Forest, branch, tree, view, view_all}
use sfsexp.Print.{Printing, more, print_round, print_loop, after_turn, walk_rounds}
use sfsexp.Print.Writing.{Writes, grow_limit}
use sfsexp.FastStack.{int_limit}
use sfsexp.Print.Walk.{AreTexts, gap, value-Writes, open-Writes, close-Writes}
use sfsexp.RoundTrip.Print.{show, show_all}

pub show-node :
    (t : Bytes) (u : Tree) (rest : Sexp)
    → t ++ show u ++ gap rest ++ show_all (view_all rest) ≡ t ++ show_all (tree u (view_all rest))
unfolding show view
show-node t u nil = append-nil (t ++ show u ++ []) ∙ append_assoc t (show u) []
show-node t u (node e rest) =
    append_assoc (t ++ show u) (b' ' ∷ []) (show_all (view_all (node e rest)))
    ∙ append_assoc t (show u) (b' ' ∷ show_all (view_all (node e rest)))

pub show-branch :
    (t : Bytes) (f : Forest) (s : Bytes)
    → t ++ b'(' ∷ [] ++ show_all f ++ b')' ∷ [] ++ s ≡ t ++ show (branch f) ++ s
unfolding show
show-branch t f s =
    ap (λ u. u ++ s)
      (append_assoc (t ++ b'(' ∷ []) (show_all f) (b')' ∷ [])
        ∙ append_assoc t (b'(' ∷ []) (show_all f ++ b')' ∷ []))

pub length-node :
    (u : Tree) (rest : Sexp)
    → length (show u) + length (gap rest) + length (show_all (view_all rest))
      ≡ length (show_all (tree u (view_all rest)))
length-node u rest = omega (
  arith,
  ap (λ v. length v) (show-node [] u rest),
  length-append (show u ++ gap rest) (show_all (view_all rest)),
  length-append (show u) (gap rest),
)

pub length-branch : (f : Forest) → length (show (branch f)) ≡ length (show_all f) + 2
unfolding show
length-branch f = omega (arith, length-append (show_all f) (b')' ∷ []))

module _ (grow : ℕ) (g : 0 < grow) (g' : grow < grow_limit) where
  round-print_loop :
      (n m : ℕ) (p p' : Printing)
      → m ≡ suc n
      → print_round grow p ≡ more p'
      → print_loop m grow p ≡ print_loop n grow p'
  unfolding print_loop
  round-print_loop n m p p' e r =
      ap (λ k. print_loop k grow p) e ∙ ap (after_turn (print_loop n grow)) r

  -- So many rounds bring the walk to the end of a chain, with the chain's text written.
  pub walk-Writes :
      (xs : Sexp) (below : List Sexp) (d : ℕ) (t : Bytes) (p : Printing) (f : ℕ)
      → AreTexts xs
      → d ≤ length below
      → length below ≤ length t
      → length t + length (show_all (view_all xs)) < int_limit
      → Writes (xs ∷ below) d t p
      → (p' : Printing) × (print_loop (walk_rounds xs + f) grow p ≡ print_loop f grow p')
        × Writes (nil ∷ below) d (t ++ show_all (view_all xs)) p'
  unfolding walk_rounds AreTexts show view
  walk-Writes nil below d t p f a i j b w = (
    p,
    ap (λ k. print_loop k grow p) (omega arith),
    subst (λ u. Writes (nil ∷ below) d u p) (sym (append-nil t)) w,
  )
  walk-Writes (node (value v) rest) below d t p f a i j b w =
      let s = show (view (value v)) in
      let parts = length-node (view (value v)) rest in
      let grown = length-append t s in
      let gapped = length-append (t ++ s) (gap rest) in
      let (p₁, e₁, w₁) =
        value-Writes grow g g' v rest below d t p a.0 (omega (arith, b, parts)) w in
      let (p₂, e₂, w₂) =
        walk-Writes rest below d _ p₁ f a.1 i (omega (arith, j, grown, gapped))
          (omega (arith, b, parts, grown, gapped)) w₁ in
      (
        p₂,
        round-print_loop (walk_rounds rest + f) _ p p₁ (omega arith) e₁ ∙ e₂,
        subst (λ u. Writes (nil ∷ below) d u p₂) (show-node t (view (value v)) rest) w₂,
      )
  walk-Writes (node (list l) rest) below d t p f a i j b w =
      let parts = length-node (branch (view_all l)) rest in
      let inner = length-branch (view_all l) in
      let opened = length-append t (b'(' ∷ []) in
      let shown = length-append (t ++ b'(' ∷ []) (show_all (view_all l)) in
      let gapped =
        length-append (t ++ b'(' ∷ [] ++ show_all (view_all l) ++ b')' ∷ []) (gap rest) in
      let closed = length-append (t ++ b'(' ∷ [] ++ show_all (view_all l)) (b')' ∷ []) in
      let (p₁, e₁, w₁) =
        open-Writes grow g g' l rest below d t p i (omega (arith, b, j, parts, inner))
          (omega (arith, b)) w in
      let (p₂, e₂, w₂) =
        walk-Writes l (node (list l) rest ∷ below) (suc d) _ p₁ (walk_rounds rest + f + 1) a.0
          (omega (arith, i)) (omega (arith, j, opened)) (omega (arith, b, parts, inner, opened))
          w₁ in
      let (p₃, e₃, w₃) =
        close-Writes grow g g' (list l) rest below d _ p₂ i
          (omega (arith, b, parts, inner, opened, shown)) w₂ in
      let (p₄, e₄, w₄) =
        walk-Writes rest below d _ p₃ f a.1 i (omega (arith, j, opened, shown, closed, gapped))
          (omega (arith, b, parts, inner, opened, shown, closed, gapped)) w₃ in
      (
        p₄,
        round-print_loop (walk_rounds l + (walk_rounds rest + f + 1)) _ p p₁ (omega arith) e₁
            ∙ e₂
            ∙ round-print_loop (walk_rounds rest + f) _ p₂ p₃ (omega arith) e₃
            ∙ e₄,
        subst (λ u. Writes (nil ∷ below) d u p₄)
            (ap (λ u. u ++ show_all (view_all rest)) (show-branch t (view_all l) (gap rest))
              ∙ show-node t (branch (view_all l)) rest)
            w₄,
      )
