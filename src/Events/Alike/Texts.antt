-- ===== src/Events/Alike/Texts.antt =====
-- The states 1, 4, 5, 7 and 11 of src/parser.c and of src/event_temp.c side by side.
use sfsexp.Prelude.{
  ℕ, Bytes, ◌+◌, ◌≡◌, ap, ◌∙◌, true, false, [], ◌∷◌, some, get_elem?, ◌==◌, arith, Bool-cases, inl,
  inr, ==_iff,
}
use sfsexp.Sexp.{Event}
use sfsexp.Parser.Base.{
  start, open_paren, close_paren, atom, dquoted, tick, quoted_list, comment, Run,
}
use sfsexp.Parser.Actions.{is_escape}
use sfsexp.Parser.Vars.{set_esc, rewound, is_space}
use sfsexp.Parser.Structure.{step_start, step_comment}
use sfsexp.Parser.Atoms.{step_tick}
use sfsexp.RoundTrip.Conf.{Conf, call_handler-IsReady}
use sfsexp.Safety.{Good, IsClean}
use sfsexp.Events.{on_start, on_comment, on_tick}
use sfsexp.Events.Alike.{AlikeAt, Both, both_next, Both-if, Both-bind, call_handler-events, Paired}
use sfsexp.Events.Alike.Blocks.{put-Both}

module _ (mem : Bytes) (n c : ℕ) (clean : IsClean c) (k : Conf) (rc re : Run) (a : AlikeAt k rc re)
    (g : Good n k) where
  pub on_start-Both :
      k.state ≡ start
      → k.squoted ≡ false
      → get_elem? mem k.t ≡ some c
      → Both (Paired mem) (step_start c rc) (on_start c re)
  unfolding step_start on_start
  on_start-Both q s byte =
      let empty : k.text ≡ [] = ground (arith, g.holding, q) in
      let (i, t, h) = a in
      Both-if (is_space c)
        (λ _. both_next (
          record k { t = k.t + 1 },
          ((ground (arith, i.0), i.1), (ground (arith, t.0), t.1), ground (arith, h)),
          ground (arith, q, s),
        ))
        λ _.
          Both-if (c == b';')
            (λ _. both_next (
              record k { state = comment; t = k.t + 1 },
              ((ground (arith, i.0), i.1), (ground (arith, t.0), t.1), ground (arith, h)),
              s,
            ))
            λ _.
              Both-if (c == b'(')
                (λ _. both_next (
                  record k { state = open_paren; t = k.t + 1 },
                  (
                    (
                      ground (arith, i.0),
                      call_handler-IsReady (λ h. h.start_sexpr) Event.start_sexpr _ _ i.1,
                    ),
                    (
                      ground (arith, t.0),
                      call_handler-IsReady (λ h. h.start_sexpr) Event.start_sexpr _ _ t.1,
                    ),
                    record {
                      qdepth = h.qdepth;
                      elts = h.elts;
                      handlers = h.handlers;
                      events =
                          call_handler-events (λ h. h.start_sexpr) Event.start_sexpr _ _ _ _
                            h.handlers h.events;
                    },
                  ),
                  s,
                ))
                λ _.
                  Both-if (c == b')')
                    (λ _. both_next (
                      record k { state = close_paren },
                      ((ground (arith, i.0), i.1), (ground (arith, t.0), t.1), ground (arith, h)),
                      s,
                    ))
                    λ _.
                      Both-if (c == b'"')
                        (λ _. both_next (
                          record k { state = dquoted; t = k.t + 1; text = [] },
                          (
                            (ground (arith, i.0, empty), i.1),
                            (ground (arith, t.0, empty), t.1),
                            ground (arith, h),
                          ),
                          s,
                        ))
                        λ _.
                          Both-if (c == b'\'')
                            (λ quote. both_next (
                              record k { state = tick; t = k.t + 1 },
                              (
                                (ground (arith, i.0), i.1),
                                (ground (arith, t.0), t.1),
                                ground (arith, h),
                              ),
                              (s, (k.t, omega arith, byte ∙ ap some ((==_iff c b'\'').0 quote))),
                            ))
                            λ _.
                              Both-bind
                                (put-Both true c k (set_esc (is_escape c) (rewound rc))
                                  (set_esc (is_escape c) (rewound re))
                                  (
                                    (ground (arith, i.0, empty, clean.plain, g.esc), i.1),
                                    (ground (arith, t.0, empty, clean.plain, g.esc), t.1),
                                    ground (arith, h),
                                  ))
                                λ rc' re' (i', t', h'). both_next (
                                  record k { state = atom; t = k.t + 1; text = c ∷ k.text },
                                  (
                                    (ground (arith, i'.0, i.0.mode), i'.1),
                                    (ground (arith, t'.0, t.0.mode), t'.1),
                                    ground (arith, h'),
                                  ),
                                  tt,
                                )

  pub on_comment-Both :
      k.state ≡ comment
      → k.squoted ≡ false
      → Both (Paired mem) (step_comment c rc) (on_comment c re)
  unfolding step_comment on_comment
  on_comment-Both q s =
      let (i, t, h) = a in
      elim (Bool-cases (c == b'\n')) [
        | inl y ↦ rw y (
            both_next (
              record k { state = start; t = k.t + 1 },
              ((ground (arith, i.0), i.1), (ground (arith, t.0), t.1), ground (arith, h)),
              s,
            ))
        | inr y ↦ rw y (
            both_next (
              record k { state = comment; t = k.t + 1 },
              ((ground (arith, i.0, q), i.1), (ground (arith, t.0, q), t.1), ground (arith, h)),
              s,
            ))
      ]

  -- A double quote does not follow a single quote.
  pub on_tick-Both :
      k.state ≡ tick
      → k.squoted ≡ false
      → (c == b'"') ≡ false
      → Both (Paired mem) (step_tick c rc) (on_tick c re)
  unfolding step_tick on_tick
  on_tick-Both q s apart =
      let empty : k.text ≡ [] = ground (arith, g.holding, q) in
      let (i, t, h) = a in
      rw apart (
        Both-if (c == b'(')
          (λ _. both_next (
            record k { state = quoted_list; text = [] },
            (
              (ground (arith, i.0, empty), i.1),
              (ground (arith, t.0, empty), t.1),
              ground (arith, h),
            ),
            s,
          ))
          λ _. both_next (
            record k { state = atom; text = []; squoted = true },
            (
              (ground (arith, i.0, empty), i.1),
              (ground (arith, t.0, empty), t.1),
              ground (arith, h),
            ),
            tt,
          ))
