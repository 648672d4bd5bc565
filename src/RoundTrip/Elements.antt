-- ===== src/RoundTrip/Elements.antt =====
-- An atom inside a list, states 1, 4, 5, 6 and 7 of src/parser.c: from its first byte to what lies
-- behind it, the element it makes stands last in the list.
use sfsexp.Prelude.{
  ℕ, ◌+◌, ◌≡◌, refl, ap, ◌∙◌, Bool, true, false, ◌&&◌, List, [], ◌∷◌, ◌++◌, some, Bytes, length,
  ◌==◌, if◌then◌else◌, arith,
}
use mathlib.Core.List.{reverse, reverse_aux, reverse-reverse}
use mathlib.Core.Path.{subst}
use sfsexp.Cache.{World}
use sfsexp.FastStack.{empty_stack}
use sfsexp.Sexp.{basic, Elt, Sexp, snoc}
use sfsexp.Sexp.View.{Tree, view}
use sfsexp.Parser.Base.{start, close_paren, atom, ParseData, Pcont, Run, falls, Meets-else}
use sfsexp.Parser.Actions.{is_escape, atom_elt}
use sfsexp.Parser.Vars.{goto, advance, set_esc, rewound, is_atom_char, is_special, is_space}
use sfsexp.Parser.Structure.{step_start}
use sfsexp.Parser.Atoms.{atom_type, step_atom, deliver, after_atom}
use sfsexp.Parser.Step.{step_char}
use sfsexp.RoundTrip.Conf.{
  Conf, InConf, Surely, put_char-InConf, terminate-InConf, make_atom-InConf, attach-InConf,
}
use sfsexp.RoundTrip.Leads.{Leads, At, Reads, Reads-append, Surely-then, round_on}
use sfsexp.RoundTrip.Texts.{read_on, atom_text}
use sfsexp.RoundTrip.Print.{IsBasicText, IsAtomText}

-- What stands behind an element of a list: a space or the end of the list.
abbrev pub behind_byte : Bool → ℕ
behind_byte true = b' '
behind_byte false = b')'

-- Where the parser is once it took notice of that byte, at `t`.
abbrev pub behind : Bool → ℕ → List ParseData → ℕ → Conf
behind b t levels depth = record {
  levels = levels;
  state = if b then start else close_paren;
  t = if b then t + 1 else t;
  depth = depth;
  text = [];
  esc = false;
  squoted = false;
}

-- Between two elements nothing is left over from the one before.
pub record Between (k : Conf) : Type 0 where
  pub state : k.state ≡ start
  pub text : k.text ≡ []
  pub esc : k.esc ≡ false
  pub squoted : k.squoted ≡ false

pub deliver-InConf :
    (result : Run) (sx : Elt) (top : Sexp) (below : List ParseData) (k : Conf) (r : Run)
    → k.levels ≡ some top ∷ below
    → InConf k r
    → Surely (InConf (record k { levels = some (snoc top sx) ∷ below })) (deliver result sx r)
unfolding deliver
deliver-InConf result sx top below k r l i =
    let filled : empty_stack r.cc.stack ≡ false =
      ap (λ u. empty_stack (record r.cc.stack { used = u })) (i.0.levels ∙ l) in
    rw filled (attach-InConf sx top below k r l i)

view-atom_elt :
    (b : Bool) (s : Bytes) (m n : ℕ)
    → view (atom_elt (atom_type b) s m n) ≡ Tree.atom (atom_type b) s
unfolding view
view-atom_elt true s m n = refl
view-atom_elt false s m n = refl

-- The tree of the element made from what the buffer held.
view-made :
    (b b' : Bool) (s s' : Bytes) (m n : ℕ) (sx : Elt)
    → b ≡ b'
    → s' ≡ s
    → sx ≡ atom_elt (atom_type b) s' m n
    → view sx ≡ Tree.atom (atom_type b') s
view-made b b' s s' m n sx eb es e =
    ap view e
    ∙ view-atom_elt b s' m n
    ∙ ap (λ c. Tree.atom (atom_type c) s') eb
    ∙ ap (Tree.atom (atom_type b')) es

behind_byte-ends : (b : Bool) → is_atom_char (behind_byte b) ≡ false
behind_byte-ends true = refl
behind_byte-ends false = refl

module _ (mem : Bytes) (len : ℕ) (Q : Pcont → World → Type 0) where
  -- Behind a list or a text in double quotes the byte takes a round of state 1.
  pub pass :
      (b : Bool) (k : Conf) (r : Run)
      → InConf k r
      → Between k
      → At mem len k.t (behind_byte b)
      → ((r' : Run) → InConf (behind b k.t k.levels k.depth) r' → Leads mem len Q r')
      → Leads mem len Q r
  unfolding step_char step_start
  pass true k r i n a on =
      round_on k r i (rw n.state refl) a
        (rw n.state (falls (on (advance r) (ground (arith, i.0, n), i.1))))
  pass false k r i n a on =
      round_on k r i (rw n.state refl) a
        (rw n.state (falls (on (goto close_paren r) (ground (arith, i.0, n), i.1))))

  after_atom-InConf :
      (b : Bool) (levels : List ParseData) (k : Conf) (r : Run)
      → k.esc ≡ false
      → InConf (record k { levels = levels; text = [] }) r
      → InConf (behind b k.t levels k.depth) (after_atom (behind_byte b) r)
  unfolding after_atom
  after_atom-InConf true levels k r n i = (ground (arith, i.0, n), i.1)
  after_atom-InConf false levels k r n i = (ground (arith, i.0, n), i.1)

  -- The byte behind an unquoted atom, in state 4.
  atom_end :
      (b : Bool) (s : Bytes) (top : Sexp) (below : List ParseData) (k : Conf) (r : Run)
      → InConf k r
      → k.state ≡ atom
      → k.esc ≡ false
      → k.levels ≡ some top ∷ below
      → k.text ≡ reverse s
      → At mem len k.t (behind_byte b)
      → ((sx : Elt) (r' : Run)
          → view sx ≡ Tree.atom (atom_type k.squoted) s
          → InConf (behind b k.t (some (snoc top sx) ∷ below) k.depth) r'
          → Leads mem len Q r')
      → Leads mem len Q r
  unfolding step_char step_atom
  atom_end b s top below k r i q n l e a on = round_on k r i (rw q refl) a (
      rw q (
        let unescaped : r.cc.esc ≡ false = ground (arith, i.0.esc) in
        Meets-else _ (ap (λ e'. e' && is_special (behind_byte b)) unescaped) (
          Meets-else _ (behind_byte-ends b) (
            Surely-then (terminate-InConf k r i) λ s' e'.
              Surely-then
                (make_atom-InConf (atom_type r.cc.squoted) false s' (r.cc.val_used + 1) k r i)
                λ p i'.
                  Surely-then
                    (deliver-InConf _ p.1 top below (record k { text = []; squoted = k.squoted })
                      p.0 l i'.0)
                    λ r'' i''. falls (
                      on p.1 _
                        (view-made r.cc.squoted k.squoted s s' _ _ p.1 i.0.squoted
                          (e' ∙ ap reverse e ∙ reverse-reverse s) i'.2)
                        (after_atom-InConf b _ k r'' n i''))))))

  -- An unquoted atom from its second byte on, in state 4.
  pub atom_rest :
      (b : Bool) (s₀ s : Bytes) (top : Sexp) (below : List ParseData) (k : Conf) (r : Run)
      → InConf k r
      → k.state ≡ atom
      → k.esc ≡ false
      → k.levels ≡ some top ∷ below
      → reverse_aux s k.text ≡ reverse s₀
      → IsAtomText s
      → Reads mem len k.t (s ++ behind_byte b ∷ [])
      → ((sx : Elt) (r' : Run)
          → view sx ≡ Tree.atom (atom_type k.squoted) s₀
          → InConf (behind b (k.t + length s) (some (snoc top sx) ∷ below) k.depth) r'
          → Leads mem len Q r')
      → Leads mem len Q r
  atom_rest b s₀ s top below k r i q n l e legal a on =
      let a' = Reads-append mem len k.t s (behind_byte b ∷ []) a in
      atom_text mem len Q s k r i q n legal a'.0 λ r' i'.
        atom_end b s₀ top below (read_on (length s) s k) r' i' q n l e a'.1.0
          λ sx r'' v i''. on sx r'' v i''

  -- An unquoted atom.
  pub basic_elt :
      (b : Bool) (c : ℕ) (s : Bytes) (top : Sexp) (below : List ParseData) (k : Conf) (r : Run)
      → InConf k r
      → Between k
      → k.levels ≡ some top ∷ below
      → IsBasicText (c ∷ s)
      → Reads mem len k.t (c ∷ s ++ behind_byte b ∷ [])
      → ((sx : Elt) (r' : Run)
          → view sx ≡ Tree.atom basic (c ∷ s)
          → InConf (behind b (k.t + length (c ∷ s)) (some (snoc top sx) ∷ below) k.depth) r'
          → Leads mem len Q r')
      → Leads mem len Q r
  unfolding step_char step_start
  basic_elt b c s top below k r i n l legal a on = round_on k r i (rw n.state refl) a.0 (
      rw n.state (
        let space : is_space c ≡ false = ground arith in
        let opens : (c == b'(') ≡ false = ground arith in
        let closes : (c == b')') ≡ false = ground arith in
        let quote : (c == b'"') ≡ false = ground arith in
        let tick : (c == b'\'') ≡ false = ground arith in
        rw space (
          rw legal.0 (
            rw opens (
              rw closes (
                rw quote (
                  rw tick (
                    Surely-then
                      (put_char-InConf true c k (set_esc (is_escape c) (rewound r))
                        (ground (arith, i.0, n, legal.1.1), i.1))
                      λ r' i'. falls (
                        atom_rest b (c ∷ s) s top below
                          (record k { state = atom; t = k.t + 1; text = c ∷ [] }) _
                          (ground (arith, i.0.mode, i'.0, n), i'.1) refl n.esc l refl legal.1.2 a.1
                          λ sx r'' v i''.
                            on sx r''
                              (subst (λ q. view sx ≡ Tree.atom (atom_type q) (c ∷ s)) n.squoted v)
                              (subst
                                (λ t. InConf (behind b t (some (snoc top sx) ∷ below) k.depth) r'')
                                (omega arith) i''))))))))))
