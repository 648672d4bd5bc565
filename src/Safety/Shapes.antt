-- ===== src/Safety/Shapes.antt =====
-- What the blocks that the states of src/parser.c share do to the shape of the stack.
use sfsexp.Prelude.{ℕ, zero, suc, ◌≡◌, refl, sym, ap, ◌∙◌, true, false, List, ◌∷◌, some}
use mathlib.Core.Path.{subst}
use sfsexp.FastStack.{empty_stack}
use sfsexp.Sexp.{Elt, snoc}
use sfsexp.Parser.Base.{ParseData, Run, Meets, returns, Meets-then, Meets-else}
use sfsexp.Parser.Atoms.{deliver}
use sfsexp.RoundTrip.Conf.{Conf, InConf, attach-InConf}
use sfsexp.RoundTrip.Leads.{Surely-last}
use sfsexp.Safety.{Shape}

-- The run is that of `k` but for the levels, which still have their shape.
pub record Delivered (k : Conf) (r : Run) : Type 0 where
  pub levels : List ParseData
  pub shape : Shape k.depth levels
  pub run : InConf (record k { levels = levels }) r

deliver_at :
    (d : ℕ) (result : Run) (sx : Elt) (k : Conf) (r : Run)
    → k.depth ≡ d
    → Shape d k.levels
    → InConf k r
    → Meets (Delivered k) (λ _ _. Unit {0}) ⊥ (deliver result sx r)
unfolding deliver
deliver_at zero result sx k r e s i =
    let empty : empty_stack r.cc.stack ≡ true =
      ap (λ u. empty_stack (record r.cc.stack { used = u })) (i.0.levels ∙ s) in
    Meets-then _ empty (returns tt)
deliver_at (suc d) result sx k r e (top, below, l, o) i =
    let filled : empty_stack r.cc.stack ≡ false =
      ap (λ u. empty_stack (record r.cc.stack { used = u })) (i.0.levels ∙ l) in
    Meets-else _ filled (
      Surely-last (attach-InConf sx top below k r l i) λ r' i'. record {
        levels = some (snoc top sx) ∷ below;
        shape =
            subst (λ n. Shape n (some (snoc top sx) ∷ below)) (sym e) (snoc top sx, below, refl, o);
        run = i';
      })

pub deliver-Delivered :
    (result : Run) (sx : Elt) (k : Conf) (r : Run)
    → Shape k.depth k.levels
    → InConf k r
    → Meets (Delivered k) (λ _ _. Unit {0}) ⊥ (deliver result sx r)
deliver-Delivered result sx k r = deliver_at k.depth result sx k r refl
