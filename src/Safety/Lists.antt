-- ===== src/Safety/Lists.antt =====
-- The states 2 and 3 of src/parser.c, opening and closing a list, and what holds between two rounds.
use sfsexp.Prelude.{
  ℕ, zero, suc, ◌+◌, ◌≤◌, ◌<◌, length, ◌≡◌, refl, ap, ◌∙◌, true, false, List, [], ◌∷◌, some, ◌==◌,
  arith,
}
use mathlib.Core.Path.{subst}
use sfsexp.Sexp.{list, nil, node, snoc, Event}
use sfsexp.FastStack.{int_max, int_limit}
use sfsexp.Cache.{sexp_t_allocate}
use sfsexp.Cache.Quiet.{sexp_t_allocate_quiet}
use sfsexp.Parser.Base.{
  start, open_paren, close_paren, ParseData, uint_inc, Run, falls, returns, Meets-then, Meets-else,
}
use sfsexp.Parser.Actions.{made}
use sfsexp.Parser.Structure.{step_open, step_close}
use sfsexp.RoundTrip.Conf.{Conf, InConf, Surely, call_handler-IsReady, need-Ready}
use sfsexp.RoundTrip.Leads.{Surely-then, Surely-last}
use sfsexp.RoundTrip.Lists.{place, place-root, place-attached, open_level-InConf}
use sfsexp.RoundTrip.Closing.{closed, close_all-Delivers}
use sfsexp.Safety.{Opened, Shape, Good, Keeps}

pub Opened-length : (d : ℕ) (levels : List ParseData) → Opened d levels → length levels ≡ d
Opened-length zero levels o = ap (λ l. length l) o
Opened-length (suc d) levels (x, below, l, o) =
    ap (λ l. length l) l ∙ omega (arith, Opened-length d below o)

-- The levels with the new list in place.
pub placed :
    (d : ℕ) (k : Conf)
    → Shape d k.levels
    → (levels : List ParseData) × Opened (suc d) levels
      × ((r : Run) → InConf k r → Surely (InConf (record k { levels = levels })) (place r))
placed zero k s =
    (some (node (list nil) nil) ∷ [], (nil, [], refl, refl), λ r i. place-root k r s i)
placed (suc d) k (top, below, l, o) = (
  some (snoc top (list nil)) ∷ below,
  (top, below, refl, o),
  λ r i. place-attached top below k r l i,
)

pub Shape-eq : (d d' : ℕ) (levels : List ParseData) → d ≡ d' → Shape d levels → Shape d' levels
Shape-eq d d' levels e = subst (λ x. Shape x levels) e

module _ (n : ℕ) (k : Conf) (r : Run) (i : InConf k r) (g : Good n k) where
  pub step_open-Keeps : n < int_max → k.state ≡ open_paren → Keeps n (step_open r)
  unfolding step_open
  step_open-Keeps fits q =
      let empty : k.text ≡ [] = ground (arith, g.holding, q) in
      let deep : k.depth + 1 ≤ k.t = ground (arith, g.deep, q) in
      let k₁ : Conf = record k { depth = k.depth + 1 } in
      let (levels, o, put) = placed k.depth k₁ g.shape in
      Surely-then
        (need-Ready sexp_t_allocate (record r { cc = record r.cc { depth = uint_inc r.cc.depth } })
          (sexp_t_allocate_quiet r.w i.1))
        λ r₁ b.
          let i₁ : InConf k₁ (made (list nil) r₁) =
            (ground (arith, i.0, b.0, deep, fits, g.within), b.1) in
          let room : length levels + 1 < int_limit =
            omega (arith, Opened-length (suc k.depth) levels o, deep, fits, g.within) in
          Surely-then (put _ i₁) λ r₂ i₂. Surely-last (open_level-InConf _ r₂ room i₂) λ r₃ i₃. (
            record k { state = start; depth = k.depth + 1; levels = some nil ∷ levels },
            i₃,
            record {
              esc = g.esc;
              shape =
                  Shape-eq (suc k.depth) (k.depth + 1) (some nil ∷ levels) (omega arith)
                    (nil, levels, refl, o);
              holding = empty;
              deep = omega (arith, deep);
              within = g.within;
            },
          )

  close_at :
      (d : ℕ)
      → k.depth ≡ d
      → Shape d k.levels
      → k.t < n
      → k.state ≡ close_paren
      → Keeps n (step_close r)
  unfolding step_close
  close_at zero e s inside q =
      let done : (r.cc.depth == 0) ≡ true = ground (arith, i.0.depth, e) in
      Meets-then _ done (returns tt)
  close_at (suc zero) e (xs, below, l, (x, below', l', o)) inside q =
      let opened : (r.cc.depth == 0) ≡ false = ground (arith, i.0.depth, e) in
      Meets-else _ opened (
        Surely-then (closed xs x below' 0 k r (l ∙ ap (λ b. some xs ∷ b) l') e i) λ r₁ i₁.
          let complete : (r₁.cc.depth == 0) ≡ true = ground (arith, i₁.0.depth) in
          let told =
            call_handler-IsReady (λ h. h.end_sexpr) Event.end_sexpr r₁.cc.event_handlers r₁.w
              i₁.1 in
          Meets-then _ complete (
            close_all-Delivers [] 0 (λ _ _. Unit {0}) (snoc x (list xs))
              (record k {
                state = start;
                t = k.t + 1;
                depth = 0;
                levels = some (snoc x (list xs)) ∷ below';
              })
              _ (ground (arith, i₁.0), told) (ap (λ b. some (snoc x (list xs)) ∷ b) o) λ _ _ _. tt))
  close_at (suc (suc d)) e (xs, below, l, (x, below', l', o)) inside q =
      let opened : (r.cc.depth == 0) ≡ false = ground (arith, i.0.depth, e) in
      let deep : k.depth ≤ k.t = ground (arith, g.deep, q) in
      let empty : k.text ≡ [] = ground (arith, g.holding, q) in
      Meets-else _ opened (
        Surely-then (closed xs x below' (suc d) k r (l ∙ ap (λ b. some xs ∷ b) l') e i) λ r₁ i₁.
          let still : (r₁.cc.depth == 0) ≡ false = ground (arith, i₁.0.depth) in
          let told =
            call_handler-IsReady (λ h. h.end_sexpr) Event.end_sexpr r₁.cc.event_handlers r₁.w
              i₁.1 in
          Meets-else _ still (
            falls (
              record k {
                state = start;
                t = k.t + 1;
                depth = suc d;
                levels = some (snoc x (list xs)) ∷ below';
              },
              (ground (arith, i₁.0), told),
              record {
                esc = g.esc;
                shape = (snoc x (list xs), below', refl, o);
                holding = empty;
                deep = omega (arith, deep, e);
                within = omega (arith, inside);
              },
            )))

  pub step_close-Keeps : k.t < n → k.state ≡ close_paren → Keeps n (step_close r)
  step_close-Keeps = close_at k.depth refl g.shape
