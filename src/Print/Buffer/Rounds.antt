-- ===== src/Print/Buffer/Rounds.antt =====
-- The rounds of the walk of src/sexp.c that write into the buffer, one after the other.
use sfsexp.Prelude.{
  ℕ, suc, ◌+◌, ◌≤◌, ◌<◌, length, length-append, ◌≡◌, refl, sym, ap, ◌∙◌, false, List, [], ◌∷◌, ◌++◌,
  append-nil, append_assoc, Bytes, arith,
}
use mathlib.Core.Path.{subst}
use sfsexp.FastStack.{int_limit, int_inc, int_dec, is_low, empty_stack}
use sfsexp.Sexp.{Value, Elt, value, list, Sexp, nil, node}
use sfsexp.Sexp.View.{branch, view, view_all}
use sfsexp.Print.{walk_rounds}
use sfsexp.Print.Walk.{IsText, AreTexts, gap, show-value}
use sfsexp.Print.Text.{show-node, show-branch, length-node, length-branch}
use sfsexp.RoundTrip.Print.{show, show_all}
use sfsexp.Print.Buffer.{
  Page, Ink, ◌onto◌, write_value, advance_level, Round, more, after_paren, close_level, round_on,
  buffer_round, after_round, buffer_loop,
}
use sfsexp.Print.Buffer.Values.{write_value-Inks}
use sfsexp.Print.Buffer.Writing.{
  Inked, Inks, inks, cuts, Cut-append, Inks-onto, Inks-same, retext, add_char-Inks,
}
use sfsexp.Print.Buffer.Walk.{
  Reaches, reaches, halts, Reaches-then, rereach, advance-Inks, push-Inked, pop-Inked, at_depth,
}

module _ (buf : Bytes) (size : ℕ) where
  -- A round that wrote so much.
  more-Reaches :
      (m : ℕ) (used : List Sexp) (d : ℕ) (t : Bytes) (i : Ink)
      → Inks buf size used d t i
      → Reaches buf size m used d t (after_round (buffer_loop m) (more i))
  more-Reaches m used d t _ (inks w) = reaches w
  more-Reaches m used d t _ (cuts c) = halts c

  loop-round :
      (n m : ℕ) (p : Page) (r : Round)
      → m ≡ suc n
      → buffer_round p ≡ r
      → buffer_loop m p ≡ after_round (buffer_loop n) r
  unfolding buffer_loop
  loop-round n m p r e q = ap (λ k. buffer_loop k p) e ∙ ap (after_round (buffer_loop n)) q

  value-Reaches :
      (m n : ℕ) (v : Value) (rest : Sexp) (below : List Sexp) (d : ℕ) (t : Bytes) (p : Page)
      → m ≡ suc n
      → IsText v
      → Inked buf size (node (value v) rest ∷ below) d t p
      → Reaches buf size n
          (rest ∷ below)
          d
          (t ++ show (view (value v)) ++ gap rest)
          (buffer_loop m p)
  unfolding buffer_round show
  value-Reaches m n v rest below d t p e x w =
      subst (Reaches buf size n (rest ∷ below) d (t ++ show (view (value v)) ++ gap rest))
        (sym (
          loop-round n m p (more (write_value v p onto advance_level)) e
            (ap (round_on p) w.levels)))
        (more-Reaches n _ d _ _ (
          Inks-onto buf size (t ++ show (view (value v))) (gap rest)
            (retext buf size (ap (λ u. t ++ u) (sym (show-value v x)))
              (write_value-Inks buf size v x.bytes _ d t p x.plain x.stored x.used w))
            λ p₁ w₁. advance-Inks buf size (value v) rest below d _ p₁ w₁))

  open-Reaches :
      (m n : ℕ) (l rest : Sexp) (below : List Sexp) (d : ℕ) (t : Bytes) (p : Page)
      → m ≡ suc n
      → d ≤ length below
      → length below + 2 < int_limit
      → Inked buf size (node (list l) rest ∷ below) d t p
      → Reaches buf size n
          (l ∷ node (list l) rest ∷ below)
          (suc d)
          (t ++ b'(' ∷ [])
          (buffer_loop m p)
  unfolding buffer_round
  open-Reaches m n l rest below d t p e i s w =
      subst (Reaches buf size n (l ∷ node (list l) rest ∷ below) (suc d) (t ++ b'(' ∷ []))
        (sym (loop-round n m p _ e (ap (round_on p) w.levels)))
        (more-Reaches n _ (suc d) _ _ (
          Inks-same buf size
            (add_char-Inks buf size b'(' _ (suc d) t (record p { depth = int_inc p.depth })
              (at_depth buf size (int_inc p.depth) (suc d) _ d t p (omega (arith, w.depth, i, s))
                w))
            λ p₁ w₁. inks (push-Inked buf size l _ (suc d) _ p₁ (omega (arith, s)) w₁)))

  -- The parenthesis that ends a list inside a list.
  paren-Reaches :
      (n : ℕ) (e : Elt) (rest : Sexp) (below : List Sexp) (d : ℕ) (t : Bytes) (i : Ink)
      → Inks buf size (node e rest ∷ below) d t i
      → Reaches buf size n
          (rest ∷ below)
          d
          (t ++ gap rest)
          (after_round (buffer_loop n) (after_paren i))
  paren-Reaches n e rest below d t _ (cuts {p} c) = halts (Cut-append buf size t (gap rest) p c)
  paren-Reaches n e rest below d t _ (inks {p} w) =
      let filled : empty_stack p.stack ≡ false =
        ap (λ u. empty_stack (record p.stack { used = u })) w.levels in
      rw filled (more-Reaches n _ d _ _ (advance-Inks buf size e rest below d t p w))

  close-Reaches :
      (m n : ℕ) (e : Elt) (rest : Sexp) (below : List Sexp) (d : ℕ) (t : Bytes) (p : Page)
      → m ≡ suc n
      → d ≤ length below
      → Inked buf size (nil ∷ node e rest ∷ below) (suc d) t p
      → Reaches buf size n (rest ∷ below) d (t ++ b')' ∷ [] ++ gap rest) (buffer_loop m p)
  unfolding buffer_round close_level
  close-Reaches m n e rest below d t p q i w =
      let open_still : is_low p.depth ≡ false = ground (arith, w.depth, w.shallow, i) in
      let less : int_dec p.depth ≡ d = omega (arith, w.depth, w.shallow, i) in
      subst (Reaches buf size n (rest ∷ below) d (t ++ b')' ∷ [] ++ gap rest))
        (sym (loop-round n m p (close_level p) q (ap (round_on p) w.levels)))
        (rw open_still (
          rw less (
            paren-Reaches n e rest below d _ _ (
              add_char-Inks buf size b')' _ d t _
                (at_depth buf size d d _ _ t _ refl (pop-Inked buf size nil _ (suc d) t p w))))))

  -- So many rounds bring the walk to the end of a chain, with the chain's text written, or there was
  -- no space for it.
  pub walk-Reaches :
      (xs : Sexp) (below : List Sexp) (d : ℕ) (t : Bytes) (p : Page) (f : ℕ)
      → AreTexts xs
      → d ≤ length below
      → length below ≤ length t
      → length t + length (show_all (view_all xs)) < int_limit
      → Inked buf size (xs ∷ below) d t p
      → Reaches buf size f
          (nil ∷ below)
          d
          (t ++ show_all (view_all xs))
          (buffer_loop (walk_rounds xs + f) p)
  unfolding walk_rounds AreTexts show view
  walk-Reaches nil below d t p f a i j b w = rereach buf size (sym (append-nil t)) (
      subst (λ k. Reaches buf size f (nil ∷ below) d t (buffer_loop k p)) (sym (omega arith))
        (reaches w))
  walk-Reaches (node (value v) rest) below d t p f a i j b w =
      let parts = length-node (view (value v)) rest in
      let grown = length-append t (show (view (value v))) in
      let gapped = length-append (t ++ show (view (value v))) (gap rest) in
      rereach buf size (show-node t (view (value v)) rest) (
        Reaches-then buf size (t ++ show (view (value v)) ++ gap rest) (show_all (view_all rest))
          (value-Reaches _ (walk_rounds rest + f) v rest below d t p (omega arith) a.0 w)
          λ p₁ w₁.
            walk-Reaches rest below d _ p₁ f a.1 i (omega (arith, j, grown, gapped))
              (omega (arith, b, parts, grown, gapped)) w₁)
  walk-Reaches (node (list l) rest) below d t p f a i j b w =
      let parts = length-node (branch (view_all l)) rest in
      let inner = length-branch (view_all l) in
      let opened = length-append t (b'(' ∷ []) in
      let shown = length-append (t ++ b'(' ∷ []) (show_all (view_all l)) in
      let gapped =
        length-append (t ++ b'(' ∷ [] ++ show_all (view_all l) ++ b')' ∷ []) (gap rest) in
      let closed = length-append (t ++ b'(' ∷ [] ++ show_all (view_all l)) (b')' ∷ []) in
      rereach buf size
        (ap (λ u. u ++ show_all (view_all rest)) (show-branch t (view_all l) (gap rest))
          ∙ show-node t (branch (view_all l)) rest)
        (Reaches-then buf size (t ++ b'(' ∷ [] ++ show_all (view_all l) ++ b')' ∷ [] ++ gap rest)
          (show_all (view_all rest))
          (rereach buf size
            (sym (append_assoc (t ++ b'(' ∷ [] ++ show_all (view_all l)) (b')' ∷ []) (gap rest)))
            (Reaches-then buf size (t ++ b'(' ∷ [] ++ show_all (view_all l)) (b')' ∷ [] ++ gap rest)
              (Reaches-then buf size (t ++ b'(' ∷ []) (show_all (view_all l))
                (open-Reaches _ (walk_rounds l + (walk_rounds rest + f + 1)) l rest below d t p
                  (omega arith) i (omega (arith, b, j, parts, inner)) w)
                λ p₁ w₁.
                  walk-Reaches l (node (list l) rest ∷ below) (suc d) _ p₁
                    (walk_rounds rest + f + 1) a.0 (omega (arith, i)) (omega (arith, j, opened))
                    (omega (arith, b, parts, inner, opened)) w₁)
              λ p₂ w₂.
                rereach buf size
                  (append_assoc (t ++ b'(' ∷ [] ++ show_all (view_all l)) (b')' ∷ []) (gap rest))
                  (close-Reaches _ (walk_rounds rest + f) (list l) rest below d _ p₂ (omega arith) i
                    w₂)))
          λ p₃ w₃.
            walk-Reaches rest below d _ p₃ f a.1 i (omega (arith, j, opened, shown, closed, gapped))
              (omega (arith, b, parts, inner, opened, shown, closed, gapped)) w₃)
