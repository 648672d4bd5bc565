-- ===== src/Safety/Starts.antt =====
-- The states 1, 6, 7 and 11 of src/parser.c and what holds between two rounds.
use sfsexp.Prelude.{ℕ, ◌+◌, ◌≤◌, ◌<◌, ◌≡◌, true, false, [], ◌∷◌, ◌==◌, arith, Bool-cases, inl, inr}
use sfsexp.Sexp.{Event}
use sfsexp.Parser.Base.{
  start, open_paren, close_paren, atom, dquoted, dquoted_end, tick, quoted_list, comment, Run, next,
  falls, Meets-if,
}
use sfsexp.Parser.Actions.{is_escape}
use sfsexp.Parser.Vars.{goto, advance, set_esc, rewound, is_space}
use sfsexp.Parser.Structure.{step_start, step_comment}
use sfsexp.Parser.Atoms.{step_tick}
use sfsexp.RoundTrip.Conf.{Conf, InConf, call_handler-IsReady, put_char-InConf}
use sfsexp.RoundTrip.Leads.{Surely-then}
use sfsexp.Safety.{Good, Keeps, IsClean}

module _ (n c : ℕ) (clean : IsClean c) (k : Conf) (r : Run) (i : InConf k r) (g : Good n k)
    (inside : k.t < n) where
  pub step_start-Keeps : k.state ≡ start → Keeps n (step_start c r)
  unfolding step_start
  step_start-Keeps q =
      let empty : k.text ≡ [] = ground (arith, g.holding, q) in
      let deep : k.depth ≤ k.t = ground (arith, g.deep, q) in
      Meets-if (is_space c)
        (λ _. falls (
          record k { t = k.t + 1 },
          (ground (arith, i.0), i.1),
          record {
            esc = g.esc;
            shape = g.shape;
            holding = g.holding;
            deep = ground (arith, g.deep);
            within = ground (arith, inside);
          },
        ))
        λ _.
          Meets-if (c == b';')
            (λ _. falls (
              record k { state = comment; t = k.t + 1 },
              (ground (arith, i.0), i.1),
              record {
                esc = g.esc;
                shape = g.shape;
                holding = empty;
                deep = omega (arith, deep);
                within = omega (arith, inside);
              },
            ))
            λ _.
              Meets-if (c == b'(')
                (λ _. falls (
                  record k { state = open_paren; t = k.t + 1 },
                  (
                    ground (arith, i.0),
                    call_handler-IsReady (λ h. h.start_sexpr) Event.start_sexpr _ _ i.1,
                  ),
                  record {
                    esc = g.esc;
                    shape = g.shape;
                    holding = empty;
                    deep = omega (arith, deep);
                    within = omega (arith, inside);
                  },
                ))
                λ _.
                  Meets-if (c == b')')
                    (λ _. falls (
                      record k { state = close_paren },
                      (ground (arith, i.0), i.1),
                      record {
                        esc = g.esc;
                        shape = g.shape;
                        holding = empty;
                        deep = omega (arith, deep);
                        within = g.within;
                      },
                    ))
                    λ _.
                      Meets-if (c == b'"')
                        (λ _. falls (
                          record k { state = dquoted; t = k.t + 1; text = [] },
                          (ground (arith, i.0, empty), i.1),
                          record {
                            esc = g.esc;
                            shape = g.shape;
                            holding = tt;
                            deep = omega (arith, deep);
                            within = omega (arith, inside);
                          },
                        ))
                        λ _.
                          Meets-if (c == b'\'')
                            (λ _. falls (
                              record k { state = tick; t = k.t + 1 },
                              (ground (arith, i.0), i.1),
                              record {
                                esc = g.esc;
                                shape = g.shape;
                                holding = empty;
                                deep = omega (arith, deep);
                                within = omega (arith, inside);
                              },
                            ))
                            λ _.
                              Surely-then
                                (put_char-InConf true c k (set_esc (is_escape c) (rewound r))
                                  (ground (arith, i.0, empty, clean.plain, g.esc), i.1))
                                λ r' i'. falls (
                                  record k { state = atom; t = k.t + 1; text = c ∷ k.text },
                                  (ground (arith, i'.0, i.0.mode), i'.1),
                                  record {
                                    esc = g.esc;
                                    shape = g.shape;
                                    holding = tt;
                                    deep = omega (arith, deep);
                                    within = omega (arith, inside);
                                  },
                                )

  pub step_comment-Keeps : k.state ≡ comment → Keeps n (step_comment c r)
  unfolding step_comment
  step_comment-Keeps q =
      let empty : k.text ≡ [] = ground (arith, g.holding, q) in
      let deep : k.depth ≤ k.t = ground (arith, g.deep, q) in
      elim (Bool-cases (c == b'\n')) [
        | inl e ↦ rw e (
            falls (
              record k { state = start; t = k.t + 1 },
              (ground (arith, i.0), i.1),
              record {
                esc = g.esc;
                shape = g.shape;
                holding = empty;
                deep = omega (arith, deep);
                within = omega (arith, inside);
              },
            ))
        | inr e ↦ rw e (
            falls (
              record k { t = k.t + 1 },
              (ground (arith, i.0), i.1),
              record {
                esc = g.esc;
                shape = g.shape;
                holding = g.holding;
                deep = ground (arith, g.deep);
                within = omega (arith, inside);
              },
            ))
      ]

  pub step_tick-Keeps : k.state ≡ tick → Keeps n (step_tick c r)
  unfolding step_tick
  step_tick-Keeps q =
      let empty : k.text ≡ [] = ground (arith, g.holding, q) in
      let deep : k.depth ≤ k.t = ground (arith, g.deep, q) in
      Meets-if (c == b'"')
        (λ _.
          Surely-then
            (put_char-InConf false b'"' (record k { state = dquoted; t = k.t + 1 })
              (advance (rewound (goto dquoted r))) (ground (arith, i.0, empty), i.1))
            λ r' i'. falls (
              record k { state = dquoted; t = k.t + 1; text = b'"' ∷ k.text; squoted = true },
              (ground (arith, i'.0), i'.1),
              record {
                esc = g.esc;
                shape = g.shape;
                holding = tt;
                deep = omega (arith, deep);
                within = omega (arith, inside);
              },
            ))
        λ _.
          Meets-if (c == b'(')
            (λ _. falls (
              record k { state = quoted_list; text = [] },
              (ground (arith, i.0, empty), i.1),
              record {
                esc = g.esc;
                shape = g.shape;
                holding = tt;
                deep = omega (arith, deep);
                within = g.within;
              },
            ))
            λ _. falls (
              record k { state = atom; text = []; squoted = true },
              (ground (arith, i.0, empty), i.1),
              record {
                esc = g.esc;
                shape = g.shape;
                holding = tt;
                deep = omega (arith, deep);
                within = g.within;
              },
            )

  -- State 6, which starts over without reading the byte.
  pub after_dquoted-Keeps : k.state ≡ dquoted_end → Keeps n (next (goto start (rewound r)))
  after_dquoted-Keeps q =
      let empty : k.text ≡ [] = ground (arith, g.holding, q) in
      let deep : k.depth ≤ k.t = ground (arith, g.deep, q) in
      falls (
        record k { state = start },
        (ground (arith, i.0, empty), i.1),
        record {
          esc = g.esc;
          shape = g.shape;
          holding = empty;
          deep = omega (arith, deep);
          within = g.within;
        },
      )
