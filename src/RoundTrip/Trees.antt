-- ===== src/RoundTrip/Trees.antt =====
-- An expression inside a list, in the parser of src/parser.c and in the reference printer.
use sfsexp.Prelude.{
  ℕ, Bytes, suc, ◌+◌, ◌-◌, ◌<◌, ◌≡◌, refl, sym, ap, ◌∙◌, Bool, true, false, List, [], ◌∷◌, ◌++◌,
  append_assoc, append-nil, some, length, length-append, arith,
}
use mathlib.Core.Path.{subst}
use sfsexp.Sexp.{AtomType, basic, squote, dquote, binary, list, Elt, Sexp, nil, snoc}
use sfsexp.Sexp.View.{Tree, Forest, bare, tree, branch, view, view_all, plant, view-snoc}
use sfsexp.FastStack.{int_max}
use sfsexp.Cache.{World}
use sfsexp.Parser.Base.{start, ParseData, Pcont, Run}
use sfsexp.RoundTrip.Conf.{Conf, InConf}
use sfsexp.RoundTrip.Leads.{Leads, At, Reads, Reads-append, Reads-join, Reads-first}
use sfsexp.RoundTrip.Print.{show, show_all, IsPrintable, ArePrintable, nesting, nesting_all}
use sfsexp.RoundTrip.Elements.{behind_byte, behind, Between, pass, basic_elt}
use sfsexp.RoundTrip.Quotes.{squote_elt, dquote_elt}
use sfsexp.RoundTrip.Lists.{inside, opening, open_list, place-attached}
use sfsexp.RoundTrip.Closing.{close_inner}

abbrev pub join : Forest → Forest → Forest
join bare f = f
join (tree t g) f = tree t (join g f)

join-plant : (g : Forest) (t : Tree) (f : Forest) → join (plant g t) f ≡ join g (tree t f)
join-plant bare t f = refl
join-plant (tree u g) t f = ap (tree u) (join-plant g t f)

join-bare : (g : Forest) → join g bare ≡ g
join-bare bare = refl
join-bare (tree u g) = ap (tree u) (join-bare g)

-- An element behind the last, before more trees.
view-grown :
    (top : Sexp) (sx : Elt) (u : Tree) (f : Forest)
    → view sx ≡ u
    → join (view_all (snoc top sx)) f ≡ join (view_all top) (tree u f)
view-grown top sx u f v =
    ap (λ g. join g f) (view-snoc top sx ∙ ap (plant (view_all top)) v)
    ∙ join-plant (view_all top) u f

moved :
    (b : Bool) {t t' d d' : ℕ} {l l' : List ParseData} (r : Run)
    → t ≡ t'
    → l ≡ l'
    → d ≡ d'
    → InConf (behind b t l d) r
    → InConf (behind b t' l' d') r
moved b {t} {t'} {d} {d'} {l} {l'} r et el ed i =
    subst (λ x. InConf (behind b t' l' x) r) ed
      (subst (λ x. InConf (behind b t' x d) r) el (subst (λ x. InConf (behind b x l d) r) et i))

pub view-list : (xs : Sexp) (f : Forest) → view_all xs ≡ f → view (list xs) ≡ branch f
unfolding view
view-list xs f e = ap branch e

pub view_all-nil : view_all nil ≡ bare
unfolding view
view_all-nil = refl

show_all-text :
    (u v : Tree) (rest : Forest) (s : Bytes)
    → show_all (tree u (tree v rest)) ++ s ≡ show u ++ (b' ' ∷ show_all (tree v rest) ++ s)
unfolding show
show_all-text u v rest s = append_assoc (show u) (b' ' ∷ show_all (tree v rest)) s

show_all-last : (u : Tree) (s : Bytes) → show_all (tree u bare) ++ s ≡ show u ++ s
unfolding show
show_all-last u s = ap (λ x. x ++ s) (append-nil (show u))

module _ (mem : Bytes) (len : ℕ) (Q : Pcont → World → Type 0) where
  -- The parser stands before an element of a list.
  abbrev Before : Conf → Run → Sexp → List ParseData → Type 0
  Before k r top below =
      InConf k r
      × Between k
      × (k.levels ≡ some top ∷ below)
      × (0 < k.depth)
      × (length below ≡ k.depth)

  -- From before `u` the loop gets behind it.
  abbrev ReadsTree : Tree → Type 0
  ReadsTree u =
      (b : Bool) (top : Sexp) (below : List ParseData) (k : Conf) (r : Run)
      → Before k r top below
      → k.depth + nesting u < int_max
      → IsPrintable u
      → Reads mem len k.t (show u ++ behind_byte b ∷ [])
      → ((sx : Elt) (r' : Run)
          → view sx ≡ u
          → InConf (behind b (k.t + length (show u)) (some (snoc top sx) ∷ below) k.depth) r'
          → Leads mem len Q r')
      → Leads mem len Q r

  -- From before a list's first element the loop gets to the list's end.
  abbrev ReadsForest : Forest → Type 0
  ReadsForest f =
      (top : Sexp) (below : List ParseData) (k : Conf) (r : Run)
      → Before k r top below
      → k.depth + nesting_all f < int_max
      → ArePrintable f
      → Reads mem len k.t (show_all f ++ b')' ∷ [])
      → ((xs : Sexp) (r' : Run)
          → view_all xs ≡ join (view_all top) f
          → InConf (behind false (k.t + length (show_all f)) (some xs ∷ below) k.depth) r'
          → Leads mem len Q r')
      → Leads mem len Q r

  read_bare : ReadsForest bare
  unfolding show view nesting IsPrintable
  read_bare top below k r h fits p a on =
      pass mem len Q false k r h.0 h.1 a.0 λ r' i'.
        on top r' (sym (join-bare (view_all top))) (moved false r' (omega arith) h.2 refl i')

  read_last : (u : Tree) → ReadsTree u → ReadsForest (tree u bare)
  unfolding show nesting IsPrintable
  read_last u read_u top below k r h fits p a on =
      read_u false top below k r h (ground (arith, fits)) p.0
        (subst (Reads mem len k.t) (show_all-last u (b')' ∷ [])) a)
        λ sx r' v i'.
          on (snoc top sx) r' (sym (join-bare _) ∙ view-grown top sx u bare v)
            (moved false r' (omega (arith, ap length (append-nil (show u)))) refl refl i')

  read_next :
      (u v : Tree) (rest : Forest)
      → ReadsTree u
      → ReadsForest (tree v rest)
      → ReadsForest (tree u (tree v rest))
  unfolding show nesting IsPrintable
  read_next u v rest read_u read_rest top below k r h fits p a on =
      let ahead =
        Reads-append mem len k.t (show u) (b' ' ∷ show_all (tree v rest) ++ b')' ∷ [])
          (subst (Reads mem len k.t) (show_all-text u v rest (b')' ∷ [])) a) in
      read_u true top below k r h (ground (arith, fits)) p.0
        (Reads-join mem len k.t (show u) (b' ' ∷ []) ahead.0 (ahead.1.0, tt))
        λ sx r' w i'.
          read_rest (snoc top sx) below
            (behind true (k.t + length (show u)) (some (snoc top sx) ∷ below) k.depth) r'
            (i', record { state = refl; text = refl; esc = refl; squoted = refl }, refl, h.3, h.4)
            (ground (arith, fits)) p.1 ahead.1.1
            λ xs r'' e i''. on xs r'' (e ∙ view-grown top sx u (tree v rest) w) (
              moved false r''
                (omega (arith, length-append (show u) (b' ' ∷ show_all (tree v rest)))) refl refl
                i'')

  read_branch : (f : Forest) → ReadsForest f → ReadsTree (branch f)
  unfolding show nesting IsPrintable
  read_branch f read_f b top below k r h fits p a on =
      let inner = show_all f ++ b')' ∷ [] in
      let ahead = Reads-append mem len (k.t + 1) inner (behind_byte b ∷ []) a.1 in
      let (c, first) = Reads-first mem len (k.t + 1) b')' (show_all f) [] ahead.0 in
      let end = Reads-append mem len (k.t + 1) (show_all f) (b')' ∷ []) ahead.0 in
      let levels = some (snoc top (list nil)) ∷ below in
      open_list mem len Q c levels k r h.0 h.1 (omega (arith, fits)) (omega (arith, fits, h.4))
        (λ r' i'. place-attached top below (opening k) r' h.2 i') a.0 first
        λ r₁ i₁.
          read_f nil levels (inside (k.t + 1) (k.depth + 1) levels) r₁
            (
              i₁,
              record { state = refl; text = refl; esc = refl; squoted = refl },
              refl,
              omega arith,
              omega (arith, h.4),
            )
            (omega (arith, fits)) p ahead.0
            λ xs r₂ e i₂.
              close_inner mem len Q xs top below (k.depth - 1)
                (behind false (k.t + 1 + length (show_all f)) (some xs ∷ levels) (k.depth + 1)) r₂
                i₂ refl refl (omega (arith, h.3)) end.1.0
                λ r₃ i₃.
                  pass mem len Q b
                    (record {
                      levels = some (snoc top (list xs)) ∷ below;
                      state = start;
                      t = k.t + 1 + length (show_all f) + 1;
                      depth = suc (k.depth - 1);
                      text = [];
                      esc = false;
                      squoted = false;
                    })
                    r₃ i₃ (record { state = refl; text = refl; esc = refl; squoted = refl })
                    (subst (λ t. At mem len t (behind_byte b))
                      (omega (arith, length-append (show_all f) (b')' ∷ []))) ahead.1.0)
                    λ r₄ i₄.
                      on (list xs) r₄ (view-list xs f (e ∙ ap (λ g. join g f) view_all-nil)) (
                        moved b r₄ (omega (arith, length-append (show_all f) (b')' ∷ []))) refl
                          (omega (arith, h.3)) i₄)

  read_atom : (a : AtomType) (s : Bytes) → ReadsTree (Tree.atom a s)
  unfolding show IsPrintable
  read_atom basic [] b top below k r h fits p a on = absurd p
  read_atom basic (c ∷ s) b top below k r h fits p a on =
      basic_elt mem len Q b c s top below k r h.0 h.1 h.2 p a on
  read_atom squote s b top below k r h fits p a on =
      squote_elt mem len Q b s top below k r h.0 h.1 h.2 p a on
  read_atom dquote s b top below k r h fits p a on =
      dquote_elt mem len Q b s top below k r h.0 h.1 h.2 a on
  read_atom binary s b top below k r h fits p a on = absurd p

  mutual
    read_tree : (u : Tree) → ReadsTree u
    read_tree (Tree.atom a s) = read_atom a s
    read_tree (branch f) = read_branch f (read_forest f)

    pub read_forest : (f : Forest) → ReadsForest f
    read_forest bare = read_bare
    read_forest (tree u bare) = read_last u (read_tree u)
    read_forest (tree u (tree v rest)) =
        read_next u v rest (read_tree u) (read_forest (tree v rest))
