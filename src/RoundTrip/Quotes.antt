-- ===== src/RoundTrip/Quotes.antt =====
-- An atom behind a single quote and a text in double quotes inside a list, states 1, 4, 5, 6 and 7
-- of src/parser.c.
use sfsexp.Prelude.{
  ℕ, ◌+◌, ◌≡◌, refl, sym, ap, ◌∙◌, Bool, true, false, List, [], ◌∷◌, ◌++◌, some, Bytes, length,
  ◌==◌, if◌then◌else◌, length-append, arith,
}
use mathlib.Core.List.{reverse, reverse-reverse}
use mathlib.Core.Path.{subst}
use sfsexp.Cache.{World}
use sfsexp.Sexp.{squote, dquote, Elt, Sexp, snoc}
use sfsexp.Sexp.View.{Tree, view}
use sfsexp.Parser.Base.{
  start, atom, dquoted, dquoted_end, tick, ParseData, Pcont, Run, next, falls, Meets-else,
}
use sfsexp.Parser.Actions.{put_char, atom_elt}
use sfsexp.Parser.Vars.{goto, advance, rewound}
use sfsexp.Parser.Structure.{step_start}
use sfsexp.Parser.Atoms.{dquoted_char, step_tick}
use sfsexp.Parser.Step.{step_char}
use sfsexp.RoundTrip.Conf.{Conf, InConf, Surely, terminate-InConf, make_atom-InConf}
use sfsexp.RoundTrip.Leads.{Leads, At, Reads, Reads-append, Carried, Surely-then, round_on}
use sfsexp.RoundTrip.Texts.{read_on, first_byte, first_byte-At, step_dquoted-plain, dquoted_text}
use sfsexp.RoundTrip.Elements.{behind_byte, behind, Between, deliver-InConf, pass, atom_rest}
use sfsexp.RoundTrip.Print.{escape, IsAtomText}

-- What follows a single quote is no other quote and no list.
tick_first :
    (mem : Bytes) (len t : ℕ) (b : Bool) (s : Bytes)
    → IsAtomText s
    → Reads mem len t (s ++ behind_byte b ∷ [])
    → (c : ℕ) × At mem len t c × ((c == b'"') ≡ false) × ((c == b'(') ≡ false)
tick_first mem len t true [] legal a = (_, a.0, refl, refl)
tick_first mem len t false [] legal a = (_, a.0, refl, refl)
tick_first mem len t b (c ∷ s) legal a = (c, a.0, ground (arith, legal.0), ground (arith, legal.0))

view-dquote : (s : Bytes) (m n : ℕ) → view (atom_elt dquote s m n) ≡ Tree.atom dquote s
unfolding view
view-dquote s m n = refl

-- The tree of the element made from what the buffer held.
view-quoted :
    (b : Bool) (s s' : Bytes) (m n : ℕ) (sx : Elt)
    → b ≡ false
    → s' ≡ s
    → sx ≡ atom_elt (if b then squote else dquote) s' m n
    → view sx ≡ Tree.atom dquote s
view-quoted b s s' m n sx eb es e =
    ap view e
    ∙ ap (λ c. view (atom_elt (if c then squote else dquote) s' m n)) eb
    ∙ view-dquote s' m n
    ∙ ap (Tree.atom dquote) es

module _ (mem : Bytes) (len : ℕ) (Q : Pcont → World → Type 0) where
  -- An atom behind a single quote.
  pub squote_elt :
      (b : Bool) (s : Bytes) (top : Sexp) (below : List ParseData) (k : Conf) (r : Run)
      → InConf k r
      → Between k
      → k.levels ≡ some top ∷ below
      → IsAtomText s
      → Reads mem len k.t (b'\'' ∷ s ++ behind_byte b ∷ [])
      → ((sx : Elt) (r' : Run)
          → view sx ≡ Tree.atom squote s
          → InConf (behind b (k.t + length (b'\'' ∷ s)) (some (snoc top sx) ∷ below) k.depth) r'
          → Leads mem len Q r')
      → Leads mem len Q r
  unfolding step_char step_start step_tick
  squote_elt b s top below k r i n l legal a on =
      let (c, ahead, no_quote, no_list) = tick_first mem len (k.t + 1) b s legal a.1 in
      round_on k r i (rw n.state refl) a.0 (
        rw n.state (
          falls (
            round_on (record k { state = tick; t = k.t + 1 }) (goto tick (advance r))
              (ground (arith, i.0), i.1) refl ahead
              (rw no_quote (
                rw no_list (
                  falls (
                    atom_rest mem len Q b s s top below
                      (record k { state = atom; t = k.t + 1; text = []; squoted = true }) _
                      (ground (arith, i.0, n), i.1) refl n.esc l refl legal a.1
                      λ sx r' v i'. on sx r' v (
                        subst (λ t. InConf (behind b t (some (snoc top sx) ∷ below) k.depth) r')
                          (omega arith) i'))))))))

  -- The closing quote, and the rounds up to state 1.
  dquoted_end_elt :
      (b : Bool) (s : Bytes) (top : Sexp) (below : List ParseData) (k : Conf) (r : Run)
      → InConf k r
      → k.state ≡ dquoted
      → k.esc ≡ false
      → k.squoted ≡ false
      → k.levels ≡ some top ∷ below
      → k.text ≡ reverse s
      → At mem len (k.t + 1) (behind_byte b)
      → ((sx : Elt) (r' : Run)
          → view sx ≡ Tree.atom dquote s
          → InConf (behind b (k.t + 1) (some (snoc top sx) ∷ below) k.depth) r'
          → Leads mem len Q r')
      → Carried mem len Q (dquoted_char b'"' r)
  unfolding step_char dquoted_char
  dquoted_end_elt b s top below k r i q e n l text a on =
      let plain : r.cc.squoted ≡ false = i.0.squoted ∙ n in
      let k₀ : Conf = record k { state = dquoted_end } in
      let r₀ : Run = goto dquoted_end r in
      let kept : Surely (InConf k₀) (if r.cc.squoted then put_char false b'"' r₀ else next r₀) =
        Meets-else _ plain (falls (ground (arith, i.0), i.1)) in
      Surely-then kept λ r₁ i₁. Surely-then (terminate-InConf k₀ r₁ i₁) λ s' e'.
        Surely-then (make_atom-InConf _ r.cc.squoted s' (r₁.cc.val_used + 1) k₀ r₁ i₁) λ p i₂.
          Surely-then (deliver-InConf _ p.1 top below _ p.0 l i₂.0) λ r₃ i₃. falls (
            round_on
              (record k₀ {
                t = k.t + 1;
                text = [];
                squoted = false;
                levels = some (snoc top p.1) ∷ below;
              })
              (advance r₃) (ground (arith, i₃.0, plain, n), i₃.1) refl a
              (falls (
                pass mem len Q b
                  (record k {
                    state = start;
                    t = k.t + 1;
                    text = [];
                    squoted = false;
                    levels = some (snoc top p.1) ∷ below;
                  })
                  (goto start (rewound (advance r₃))) (ground (arith, i₃.0, plain, n), i₃.1)
                  (record { state = refl; text = refl; esc = e; squoted = refl }) a
                  (λ r'. on p.1 r' (
                    view-quoted r.cc.squoted s s' _ _ p.1 plain
                      (e' ∙ ap reverse text ∙ reverse-reverse s) i₂.2)))))

  -- A text in double quotes.
  pub dquote_elt :
      (b : Bool) (s : Bytes) (top : Sexp) (below : List ParseData) (k : Conf) (r : Run)
      → InConf k r
      → Between k
      → k.levels ≡ some top ∷ below
      → Reads mem len k.t (b'"' ∷ (escape s ++ b'"' ∷ []) ++ behind_byte b ∷ [])
      → ((sx : Elt) (r' : Run)
          → view sx ≡ Tree.atom dquote s
          → InConf
              (behind b
                (k.t + length (b'"' ∷ escape s ++ b'"' ∷ []))
                (some (snoc top sx) ∷ below)
                k.depth)
              r'
          → Leads mem len Q r')
      → Leads mem len Q r
  unfolding step_char step_start
  dquote_elt b s top below k r i n l a on =
      let inside =
        Reads-append mem len (k.t + 1) (escape s ++ b'"' ∷ []) (behind_byte b ∷ []) a.1 in
      let k₁ : Conf = record k { state = dquoted; t = k.t + 1; text = [] } in
      round_on k r i (rw n.state refl) a.0 (
        rw n.state (
          falls (
            round_on k₁ (goto dquoted (advance (rewound r))) (ground (arith, i.0, n), i.1) refl
              (first_byte-At mem len (k.t + 1) s inside.0)
              (subst (Carried mem len Q)
                (sym (step_dquoted-plain (first_byte s) _ _ (i.0.esc ∙ n.esc)))
                (dquoted_text mem len Q s k₁ _ (ground (arith, i.0, n), i.1) refl n.esc inside.0
                  λ r' i'.
                    dquoted_end_elt b s top below (read_on (length (escape s)) s k₁) r' i' refl
                      n.esc n.squoted l refl
                      (subst (λ t. At mem len t (behind_byte b))
                        (omega (arith, length-append (escape s) (b'"' ∷ []))) inside.1.0)
                      λ sx r'' v i''. on sx r'' v (
                        subst (λ t. InConf (behind b t (some (snoc top sx) ∷ below) k.depth) r'')
                          (omega (arith, length-append (escape s) (b'"' ∷ []))) i''))))))
