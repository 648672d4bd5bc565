-- ===== src/Safety/Texts.antt =====
-- The states 4 and 5 of src/parser.c and what holds between two rounds.
use sfsexp.Prelude.{
  ℕ, Bytes, ◌+◌, ◌≤◌, ◌<◌, ◌≡◌, refl, sym, ap, ◌∙◌, false, ◌&&◌, [], ◌∷◌, Option, ◌==◌,
  if◌then◌else◌, arith, Bool-cases, inl, inr,
}
use mathlib.Core.Path.{subst}
use sfsexp.Parser.Base.{
  start, close_paren, atom, dquoted, dquoted_end, Run, ◌>>=◌, next, Meets, falls, Meets-if,
  Meets-then, Meets-else, Meets-bind,
}
use sfsexp.Parser.Actions.{is_escape, put_char}
use sfsexp.Parser.Vars.{goto, advance, set_esc, is_space, is_special, is_atom_char}
use sfsexp.Parser.Atoms.{atom_type, after_atom, step_atom, end_dquoted, dquoted_char, step_dquoted}
use sfsexp.RoundTrip.Conf.{
  Conf, InConf, Surely, put_char-InConf, terminate-InConf, make_atom-InConf,
}
use sfsexp.RoundTrip.Leads.{Surely-then}
use sfsexp.RoundTrip.Texts.{step_dquoted-plain}
use sfsexp.Safety.{Good, Safe, Keeps, IsClean, Shape}
use sfsexp.Safety.Shapes.{deliver-Delivered}

after_atom-Safe :
    (n c : ℕ) (k : Conf) (r : Run)
    → InConf k r
    → k.text ≡ []
    → k.esc ≡ false
    → Shape k.depth k.levels
    → k.depth ≤ k.t
    → k.t < n
    → Safe n (after_atom c r)
unfolding after_atom
after_atom-Safe n c k r i empty e s deep inside = elim (Bool-cases (is_space c)) [
  | inl h ↦ rw h (
    record k { state = start; t = k.t + 1; squoted = false },
    (ground (arith, i.0), i.1),
    record {
      esc = e;
      shape = s;
      holding = empty;
      deep = omega (arith, deep);
      within = omega (arith, inside);
    },
  )
  | inr h ↦ rw h (elim (Bool-cases (c == b')')) [
    | inl h' ↦ rw h' (
      record k { state = close_paren; squoted = false },
      (ground (arith, i.0), i.1),
      record {
        esc = e;
        shape = s;
        holding = empty;
        deep = omega (arith, deep);
        within = omega (arith, inside);
      },
    )
    | inr h' ↦ rw h' (
      record k { state = start; squoted = false },
      (ground (arith, i.0), i.1),
      record {
        esc = e;
        shape = s;
        holding = empty;
        deep = omega (arith, deep);
        within = omega (arith, inside);
      },
    )
  ])
]

module _ (n c : ℕ) (clean : IsClean c) (k : Conf) (r : Run) (i : InConf k r) (g : Good n k)
    (inside : k.t < n) where
  pub step_atom-Keeps : k.state ≡ atom → Keeps n (step_atom c r)
  unfolding step_atom
  step_atom-Keeps q =
      let deep : k.depth ≤ k.t = ground (arith, g.deep, q) in
      let plain : r.cc.esc ≡ false = i.0.esc ∙ g.esc in
      Meets-else _ (ap (λ e. e && is_special c) plain) (
        Meets-if (is_atom_char c)
          (λ _.
            Surely-then
              (put_char-InConf false c k (set_esc (is_escape c) r)
                (ground (arith, i.0, clean.plain, g.esc), i.1))
              λ r' i'. falls (
                record k { t = k.t + 1; text = c ∷ k.text },
                (ground (arith, i'.0), i'.1),
                record {
                  esc = g.esc;
                  shape = g.shape;
                  holding = ground (arith, q);
                  deep = ground (arith, g.deep);
                  within = omega (arith, inside);
                },
              ))
          λ _. Surely-then (terminate-InConf k r i) λ s _.
            Surely-then
              (make_atom-InConf (atom_type r.cc.squoted) false s (r.cc.val_used + 1) k r i)
              λ p i'.
                Meets-bind (deliver-Delivered _ p.1 _ p.0 g.shape i'.0)
                  λ r'' d. falls (after_atom-Safe n c _ r'' d.run refl g.esc d.shape deep inside))

  put_plain :
      k.state ≡ dquoted
      → Meets
          (Safe n)
          (λ _ _. Unit {0})
          ⊥
          (put_char false c r >>= λ r'. next (advance (set_esc (is_escape c) r')))
  put_plain q =
      let deep : k.depth ≤ k.t = ground (arith, g.deep, q) in
      Surely-then (put_char-InConf false c k r i) λ r' i'. falls (
        record k { t = k.t + 1; text = c ∷ k.text; esc = false },
        (ground (arith, i'.0, clean.plain), i'.1),
        record {
          esc = refl;
          shape = g.shape;
          holding = ground (arith, q);
          deep = ground (arith, g.deep);
          within = omega (arith, inside);
        },
      )

  quoted_so_far :
      k.state ≡ dquoted
      → (s : Bytes) × Surely (InConf (record k { state = dquoted_end; text = s })) (
          if r.cc.squoted
          then put_char false b'"' (goto dquoted_end r)
          else next (goto dquoted_end r))
  quoted_so_far q = elim (Bool-cases r.cc.squoted) [
    | inl h ↦ (
      b'"' ∷ k.text,
      Meets-then _ h (
          put_char-InConf false b'"' (record k { state = dquoted_end }) (goto dquoted_end r)
            (ground (arith, i.0), i.1)),
    )
    | inr h ↦ (k.text, Meets-else _ h (falls (ground (arith, i.0), i.1)))
  ]

  end_dquoted-Keeps : k.state ≡ dquoted → Keeps n (end_dquoted r)
  unfolding end_dquoted
  end_dquoted-Keeps q =
      let deep : k.depth ≤ k.t = ground (arith, g.deep, q) in
      Surely-then (quoted_so_far q).1 λ r₁ i₁. Surely-then (terminate-InConf _ r₁ i₁) λ s _.
        Surely-then (make_atom-InConf _ r.cc.squoted s (r₁.cc.val_used + 1) _ r₁ i₁) λ p i₂.
          Meets-bind (deliver-Delivered _ p.1 _ p.0 g.shape i₂.0) λ r₃ d. falls (
            record k {
              state = dquoted_end;
              t = k.t + 1;
              text = [];
              levels = d.levels;
              squoted = if r.cc.squoted then false else k.squoted;
            },
            (ground (arith, d.run.0), d.run.1),
            record {
              esc = g.esc;
              shape = d.shape;
              holding = refl;
              deep = omega (arith, deep);
              within = omega (arith, inside);
            },
          )

  pub step_dquoted-Keeps : (ahead : Option ℕ) → k.state ≡ dquoted → Keeps n (step_dquoted c ahead r)
  unfolding dquoted_char
  step_dquoted-Keeps ahead q =
      subst (Keeps n) (sym (step_dquoted-plain c ahead r (i.0.esc ∙ g.esc)))
        (Meets-if (c == b'"') (λ _. end_dquoted-Keeps q) λ _. put_plain q)
