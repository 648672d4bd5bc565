-- ===== src/Safety/Quotes.antt =====
-- The states 8, 9 and 10 of src/parser.c, a list behind a single quote, and what holds between two
-- rounds.
use sfsexp.Prelude.{
  ℕ, ◌+◌, ◌≤◌, ◌<◌, ◌≡◌, refl, sym, ap, ◌∙◌, Bool, true, false, ◌&&◌, [], ◌∷◌, ◌==◌, if◌then◌else◌,
  arith, Bool-cases, inl, inr, ◌⊎◌,
}
use mathlib.Core.Path.{subst}
use sfsexp.Sexp.{squote}
use sfsexp.Parser.Base.{
  State, start, quoted_list, quoted_close, quoted_string, Run, next, falls, Meets-if, Meets-then,
  Meets-else, Meets-mono,
}
use sfsexp.Parser.Actions.{is_escape}
use sfsexp.Parser.Vars.{goto, advance, set_esc}
use sfsexp.Parser.Quoted.{
  step_quoted_close, quoted_nest, is_quoted_close, step_quoted_list, step_quoted_string,
}
use sfsexp.RoundTrip.Conf.{Conf, InConf, put_char-InConf, terminate-InConf, make_atom-InConf}
use sfsexp.RoundTrip.Leads.{Surely-then}
use sfsexp.Safety.{Holding, Good, Keeps, IsClean, Shape}
use sfsexp.Safety.Shapes.{deliver-Delivered}

-- A state of a quoted list.
abbrev pub IsQuoted : State → Type 0
IsQuoted q = (q ≡ quoted_list) ⊎ ((q ≡ quoted_close) ⊎ (q ≡ quoted_string))

close-Keeps :
    (n : ℕ) (k : Conf) (r : Run)
    → InConf k r
    → k.state ≡ quoted_close
    → k.esc ≡ false
    → Shape k.depth k.levels
    → k.depth ≤ k.t
    → k.t ≤ n
    → Keeps n (step_quoted_close r)
unfolding step_quoted_close
close-Keeps n k r i q e s deep within =
    Meets-if (r.cc.qdepth == 0)
      (λ _. Surely-then (terminate-InConf k r i) λ t _.
        Surely-then
          (make_atom-InConf squote false t r.cc.val_used (record k { state = start }) (goto start r)
            (ground (arith, i.0), i.1))
          λ p i'. Meets-mono (deliver-Delivered _ p.1 _ p.0 s i'.0) λ r' d. (
            record k { state = start; text = []; levels = d.levels },
            (ground (arith, d.run.0), d.run.1),
            record {
              esc = e;
              shape = d.shape;
              holding = refl;
              deep = omega (arith, deep);
              within = within;
            },
          ))
      λ _. falls (
        record k { state = quoted_list },
        (ground (arith, i.0), i.1),
        record { esc = e; shape = s; holding = tt; deep = omega (arith, deep); within = within },
      )

-- The byte changes the state and the nesting only.
nest-InConf :
    (c : ℕ) (k : Conf) (r : Run)
    → InConf k r
    → k.state ≡ quoted_list
    → (q : State) × IsQuoted q × InConf (record k { state = q }) (quoted_nest c r)
unfolding quoted_nest
nest-InConf c k r i q = elim (Bool-cases (c == b'(')) [
  | inl h ↦ rw h (quoted_list, inl refl, (ground (arith, i.0, q), i.1))
  | inr h ↦ rw h (elim (Bool-cases (c == b')')) [
    | inl h' ↦ rw h' (quoted_close, inr (inl refl), (ground (arith, i.0), i.1))
    | inr h' ↦ rw h' (elim (Bool-cases (c == b'"')) [
      | inl h'' ↦ rw h'' (quoted_string, inr (inr refl), (ground (arith, i.0), i.1))
      | inr h'' ↦ rw h'' (quoted_list, inl refl, (ground (arith, i.0, q), i.1))
    ])
  ])
]

module _ (n c : ℕ) (clean : IsClean c) (k : Conf) (r : Run) (i : InConf k r) (g : Good n k)
    (inside : k.t < n) where
  -- Behind the byte, in whichever state it led to.
  list_rest :
      (q : State) (r' : Run)
      → IsQuoted q
      → k.depth ≤ k.t
      → InConf (record k { state = q; text = c ∷ k.text }) r'
      → Keeps n (
          if is_quoted_close r'.cc.state then step_quoted_close (advance r') else next (advance r'))
  list_rest q r' (inl h) deep i' =
      let other : is_quoted_close r'.cc.state ≡ false = ap is_quoted_close (i'.0.state ∙ h) in
      Meets-else _ other (
        falls (
          record k { state = quoted_list; t = k.t + 1; text = c ∷ k.text },
          (ground (arith, i'.0, h), i'.1),
          record {
            esc = g.esc;
            shape = g.shape;
            holding = tt;
            deep = omega (arith, deep);
            within = omega (arith, inside);
          },
        ))
  list_rest q r' (inr (inl h)) deep i' =
      let this : is_quoted_close r'.cc.state ≡ true = ap is_quoted_close (i'.0.state ∙ h) in
      Meets-then _ this (
        close-Keeps n (record k { state = quoted_close; t = k.t + 1; text = c ∷ k.text })
          (advance r') (ground (arith, i'.0, h), i'.1) refl g.esc g.shape (omega (arith, deep))
          (omega (arith, inside)))
  list_rest q r' (inr (inr h)) deep i' =
      let other : is_quoted_close r'.cc.state ≡ false = ap is_quoted_close (i'.0.state ∙ h) in
      Meets-else _ other (
        falls (
          record k { state = quoted_string; t = k.t + 1; text = c ∷ k.text },
          (ground (arith, i'.0, h), i'.1),
          record {
            esc = g.esc;
            shape = g.shape;
            holding = tt;
            deep = omega (arith, deep);
            within = omega (arith, inside);
          },
        ))

  nested :
      k.state ≡ quoted_list
      → (q : State) × IsQuoted q
        × InConf
            (record k { state = q })
            (set_esc (is_escape c) (if r.cc.esc then r else quoted_nest c r))
  nested q =
      let (q', h, i') = nest-InConf c k r i q in
      let plain : r.cc.esc ≡ false = i.0.esc ∙ g.esc in
      (
        q',
        h,
        subst
            (λ b.
              InConf (record k { state = q' })
                (set_esc (is_escape c) (if b then r else quoted_nest c r)))
            (sym plain) (ground (arith, i'.0, clean.plain, g.esc), i'.1),
      )

  pub step_quoted_list-Keeps : k.state ≡ quoted_list → Keeps n (step_quoted_list c r)
  unfolding step_quoted_list
  step_quoted_list-Keeps q =
      let (q', h, i') = nested q in
      let deep : k.depth ≤ k.t = ground (arith, g.deep, q) in
      Surely-then (put_char-InConf false c (record k { state = q' }) _ i')
        λ r' i''. list_rest q' r' h deep i''

  string_next :
      k.state ≡ quoted_string
      → (b : Bool)
      → (q : State) × ((q ≡ quoted_list) ⊎ (q ≡ quoted_string))
        × InConf
            (record k { state = q })
            (set_esc (is_escape c) (if b then goto quoted_list r else r))
  string_next q true = (quoted_list, inl refl, (ground (arith, i.0, clean.plain, g.esc), i.1))
  string_next q false = (quoted_string, inr refl, (ground (arith, i.0, clean.plain, g.esc, q), i.1))

  Holding-quoted : (q : State) → (q ≡ quoted_list) ⊎ (q ≡ quoted_string) → Holding q (c ∷ k.text)
  Holding-quoted q (inl h) = rw h tt
  Holding-quoted q (inr h) = rw h tt

  pub step_quoted_string-Keeps : k.state ≡ quoted_string → Keeps n (step_quoted_string c r)
  unfolding step_quoted_string
  step_quoted_string-Keeps q =
      let deep : k.depth ≤ k.t = ground (arith, g.deep, q) in
      let (q', h, i') = string_next q (c == b'"' && (if r.cc.esc then false else true)) in
      Surely-then (put_char-InConf false c (record k { state = q' }) _ i') λ r' i''. falls (
        record k { state = q'; t = k.t + 1; text = c ∷ k.text },
        (ground (arith, i''.0), i''.1),
        record {
          esc = g.esc;
          shape = g.shape;
          holding = Holding-quoted q' h;
          deep = ground (arith, deep, h);
          within = omega (arith, inside);
        },
      )
