-- ===== src/Print/Walk.antt =====
-- The rounds of the walk of src/sexp.c, and the text of the reference printer.
use sfsexp.Prelude.{
  ℕ, suc, ◌+◌, ◌≤◌, ◌<◌, length, length-append, ◌≡◌, refl, sym, ap, ◌∙◌, false, List, [], ◌∷◌, ◌++◌,
  append-nil, Option, some, Bytes, if◌then◌else◌, arith,
}
use mathlib.Core.Path.{subst}
use sfsexp.FastStack.{int_limit, int_inc, int_dec, is_low, set_top, empty_stack}
use sfsexp.FastStack.Quiet.{push-IsQuiet}
use sfsexp.Sexp.{text, Value, Elt, value, list, Sexp, nil, node}
use sfsexp.Sexp.View.{text_bytes, view}
use sfsexp.SexpOps.{is_binary}
use sfsexp.SexpOps.Copy.{text_of}
use sfsexp.Print.{
  Printing, more, over, turn, turn_on, put, ◌then◌, advance_on, advance_top, end_chain, pop_chain,
  push_chain, close_chain, print_round,
}
use sfsexp.Print.Writing.{
  Writes, grow_limit, Goes, goes, Goes-then, retext, put-Writes, put_value-Writes,
}
use sfsexp.RoundTrip.Print.{show_atom, show}

-- A value with a text, not binary.
pub record IsText (v : Value) : Type 0 where
  pub bytes : Bytes
  pub stored : v.val ≡ text bytes
  pub used : 0 < v.val_used
  pub plain : is_binary v.aty ≡ false

unfoldable pub AreTexts : Sexp → Type 0
AreTexts nil = Unit {0}
AreTexts (node (value v) rest) = IsText v × AreTexts rest
AreTexts (node (list l) rest) = AreTexts l × AreTexts rest

-- The space before what follows an element.
abbrev pub gap : Sexp → Bytes
gap nil = []
gap (node e rest) = b' ' ∷ []

set_top-Writes :
    (e : Elt) (rest : Sexp) (below : List Sexp) (d : ℕ) (t : Bytes) (p : Printing)
    → Writes (node e rest ∷ below) d t p
    → Writes (rest ∷ below) d t (record p { stack = set_top rest p.stack })
unfolding set_top
set_top-Writes e rest below d t p w = record {
  levels = ground (arith, w.levels, w.counted);
  counted = ground (arith, w.levels, w.counted);
  shallow = omega (arith, w.shallow);
  depth = w.depth;
  string = w.string;
  out = w.out;
  written = w.written;
  room = w.room;
  quiet = w.quiet;
}

pub show-value : (v : Value) (x : IsText v) → show (view (value v)) ≡ show_atom v.aty x.bytes
unfolding show view
show-value v x = ap (show_atom v.aty) (text_of v.aty v x.plain ∙ ap text_bytes x.stored)

close_chain-put :
    (grow : ℕ) (p p₁ : Printing)
    → is_low p.depth ≡ false
    → put grow b')' (pop_chain p) ≡ some p₁
    → close_chain grow p ≡ end_chain grow (record p₁ { depth = int_dec p₁.depth })
unfolding close_chain
close_chain-put grow p p₁ l e = rw l (rw e refl)

module _ (grow : ℕ) (g : 0 < grow) (g' : grow < grow_limit) where
  advance-Writes :
      (e : Elt) (rest : Sexp) (below : List Sexp) (d : ℕ) (t : Bytes) (p : Printing)
      → length t + length (gap rest) ≤ int_limit
      → Writes (node e rest ∷ below) d t p
      → Goes (Writes (rest ∷ below) d (t ++ gap rest)) (advance_top grow p)
  unfolding advance_top
  advance-Writes e nil below d t p b w =
      rw (ap (advance_on grow p) w.levels)
        (retext (sym (append-nil t)) (goes (set_top-Writes e nil below d t p w)))
  advance-Writes e (node f rest) below d t p b w = rw (ap (advance_on grow p) w.levels) (
      put-Writes grow g g' b' ' _ d t _ (omega (arith, b))
        (set_top-Writes e (node f rest) below d t p w))

  pub push-Writes :
      (l : Sexp) (used : List Sexp) (d : ℕ) (t : Bytes) (p : Printing)
      → length used + 1 < int_limit
      → Writes used d t p
      → Writes (l ∷ used) d t (push_chain l p)
  unfolding push_chain
  push-Writes l used d t p b w =
      let q = push-IsQuiet l p.stack p.heap w.quiet in
      rw q.0 (record {
        levels = ap (λ u. l ∷ u) w.levels;
        counted = omega (arith, w.counted, b);
        shallow = omega (arith, b);
        depth = w.depth;
        string = w.string;
        out = w.out;
        written = w.written;
        room = w.room;
        quiet = q.1;
      })

  pub pop-Writes :
      (l : Sexp) (used : List Sexp) (d : ℕ) (t : Bytes) (p : Printing)
      → Writes (l ∷ used) d t p
      → Writes used d t (pop_chain p)
  unfolding pop_chain
  pop-Writes l used d t p w = record {
    levels = ground (arith, w.levels, w.counted, w.shallow);
    counted = ground (arith, w.levels, w.counted, w.shallow);
    shallow = omega (arith, w.shallow);
    depth = w.depth;
    string = w.string;
    out = w.out;
    written = w.written;
    room = w.room;
    quiet = w.quiet;
  }

  pub Goes-some :
      {P : Printing → Type 0} {o : Option Printing} → Goes P o → (p : Printing) × (o ≡ some p) × P p
  Goes-some (goes {p} h) = (p, refl, h)

  -- The end of a list inside a list: its level is popped, the parenthesis written.
  pub close-Writes :
      (e : Elt) (rest : Sexp) (below : List Sexp) (d : ℕ) (t : Bytes) (p : Printing)
      → d ≤ length below
      → length t + 1 + length (gap rest) ≤ int_limit
      → Writes (nil ∷ node e rest ∷ below) (suc d) t p
      → (p' : Printing) × (print_round grow p ≡ more p')
        × Writes (rest ∷ below) d (t ++ b')' ∷ [] ++ gap rest) p'
  unfolding print_round
  close-Writes e rest below d t p i b w =
      let open_still : is_low p.depth ≡ false = ground (arith, w.depth, w.shallow, i) in
      let (p₁, e₁, w₁) = Goes-some (
        put-Writes grow g g' b')' _ (suc d) t _ (omega (arith, b))
          (pop-Writes nil _ (suc d) t p w)) in
      let p₂ : Printing = record p₁ { depth = int_dec p₁.depth } in
      let w₂ : Writes (node e rest ∷ below) d (t ++ b')' ∷ []) p₂ = record {
        levels = w₁.levels;
        counted = w₁.counted;
        shallow = w₁.shallow;
        depth = omega (arith, w₁.depth, w₁.shallow, i);
        string = w₁.string;
        out = w₁.out;
        written = w₁.written;
        room = w₁.room;
        quiet = w₁.quiet;
      } in
      let filled : empty_stack p₂.stack ≡ false =
        ap (λ u. empty_stack (record p₂.stack { used = u })) w₂.levels in
      let (p₃, e₃, w₃) =
        Goes-some
          (advance-Writes e rest below d _ p₂ (omega (arith, b, length-append t (b')' ∷ []))) w₂) in
      (
        p₃,
        ap (turn_on grow p) w.levels
            ∙ close_chain-put grow p p₁ open_still e₁
            ∙ ap (λ b. if b then over p₂ else turn (advance_top grow p₂)) filled
            ∙ ap turn e₃,
        w₃,
      )

  pub value-Writes :
      (v : Value) (rest : Sexp) (below : List Sexp) (d : ℕ) (t : Bytes) (p : Printing)
      → IsText v
      → length t + length (show (view (value v))) + length (gap rest) ≤ int_limit
      → Writes (node (value v) rest ∷ below) d t p
      → (p' : Printing) × (print_round grow p ≡ more p')
        × Writes (rest ∷ below) d (t ++ show (view (value v)) ++ gap rest) p'
  unfolding print_round show
  value-Writes v rest below d t p x b w =
      let shown = ap (λ u. length u) (show-value v x) in
      let wrote =
        put_value-Writes grow g g' v x.bytes _ d t p x.plain x.stored x.used
          (omega (arith, b, shown)) w in
      let (p', e, w') = Goes-some (
        Goes-then wrote λ p₁ w₁.
          advance-Writes (value v) rest below d _ p₁
            (omega (arith, b, shown, length-append t (show_atom v.aty x.bytes))) w₁) in
      (
        p',
        ap (turn_on grow p) w.levels ∙ ap turn e,
        subst (λ u. Writes (rest ∷ below) d (t ++ u ++ gap rest) p') (sym (show-value v x)) w',
      )

  pub open-Writes :
      (l rest : Sexp) (below : List Sexp) (d : ℕ) (t : Bytes) (p : Printing)
      → d ≤ length below
      → length below + 2 < int_limit
      → length t < int_limit
      → Writes (node (list l) rest ∷ below) d t p
      → (p' : Printing) × (print_round grow p ≡ more p')
        × Writes (l ∷ node (list l) rest ∷ below) (suc d) (t ++ b'(' ∷ []) p'
  unfolding print_round
  open-Writes l rest below d t p i s b w =
      let deeper : Writes (node (list l) rest ∷ below) (suc d) t
          (record p { depth = int_inc p.depth }) =
        record {
          levels = w.levels;
          counted = w.counted;
          shallow = w.shallow;
          depth = omega (arith, w.depth, w.shallow, i);
          string = w.string;
          out = w.out;
          written = w.written;
          room = w.room;
          quiet = w.quiet;
        } in
      let (p', e, w') = Goes-some (put-Writes grow g g' b'(' _ (suc d) t _ b deeper) in
      (
        push_chain l p',
        ap (turn_on grow p) w.levels ∙ ap (λ o. turn (o then λ p'. some (push_chain l p'))) e,
        push-Writes l _ (suc d) _ p' (omega (arith, s)) w',
      )
