-- ===== src/Events/Alike/Closing.antt =====
-- The state 3 of src/parser.c and of src/event_temp.c side by side, and the end of an expression.
use sfsexp.Prelude.{
  ℕ, Bytes, zero, suc, ◌+◌, ◌-◌, ◌<◌, ◌≡◌, refl, sym, ap, ◌∙◌, Bool, false, [], ◌∷◌, some, length,
  ◌==◌, arith,
}
use mathlib.Core.Path.{subst}
use sfsexp.FastStack.{int_limit, int_dec}
use sfsexp.Sexp.{Sexp, Event, list, snoc}
use sfsexp.Parser.Base.{start, close_paren, Run, next, falls, ◌>>=◌}
use sfsexp.Parser.Actions.{emit, pop_data, unwind, call_handler}
use sfsexp.Parser.Vars.{goto, advance, set_squoted}
use sfsexp.Parser.Structure.{step_close, close_all}
use sfsexp.RoundTrip.Conf.{Conf, InConf, Surely, pop_data-InConf, call_handler-IsReady}
use sfsexp.RoundTrip.Leads.{Surely-then}
use sfsexp.RoundTrip.Closing.{closed}
use sfsexp.Safety.{Good, Shape}
use sfsexp.Events.{on_close, set_height, leave}
use sfsexp.Events.Alike.{
  Heard, AlikeAt, Both, both_next, both_done, Both-then, Both-else, Both-left, Surely-and,
  call_handler-events, Paired,
}
use sfsexp.Events.Alike.Blocks.{pop_data-Heard}
use sfsexp.Events.Alike.Lists.{closed-Heard}

-- The last level popped, which only the parser that makes elements has.
pub close_all-Both :
    {R : Run → Run → Type 0} (k : Conf) (rc re : Run)
    → InConf k rc
    → Shape 0 k.levels
    → re.w.events ≡ rc.w.events
    → Both R (close_all rc) (leave re)
unfolding close_all leave unwind
close_all-Both k rc re i s e =
    let none_left : unwind rc.cc.stack.used rc ≡ next rc = ap (λ u. unwind u rc) (i.0.levels ∙ s) in
    rw none_left (both_done e)

close_top-Both :
    {R : Run → Run → Type 0} (top : Sexp) (k : Conf) (rc re : Run)
    → InConf k rc
    → k.levels ≡ some top ∷ []
    → re.w.events ≡ rc.w.events
    → Both R (close_all rc) (leave re)
unfolding close_all leave unwind
close_top-Both {R} top k rc re i l e =
    let one : unwind rc.cc.stack.used rc ≡ (pop_data rc >>= next) =
      ap (λ u. unwind u rc) (i.0.levels ∙ l) in
    let popped : Surely (λ r'. InConf (record k { levels = [] }) r' × Heard rc r')
        (pop_data rc >>= next) =
      Surely-then (Surely-and (pop_data-InConf top [] k rc l i) (pop_data-Heard rc))
        λ r₁ (i₁, h₁). falls (i₁.0, h₁) in
    rw one (Both-left popped λ r₁ (_, h₁). both_done (e ∙ sym h₁.events))

module _ (mem : Bytes) (n : ℕ) (saved : Bool) (k : Conf) (rc re : Run) (a : AlikeAt k rc re)
    (g : Good n k) (sq : k.squoted ≡ false) where
  told_end :
      (r₁ : Run)
      → Heard (advance (record rc { cc = record rc.cc { depth = rc.cc.depth - 1 } })) r₁
      → (call_handler (λ h. h.end_sexpr) Event.end_sexpr re.cc.event_handlers re.w).events
        ≡ (call_handler (λ h. h.end_sexpr) Event.end_sexpr r₁.cc.event_handlers r₁.w).events
  told_end r₁ p =
      call_handler-events (λ h. h.end_sexpr) Event.end_sexpr r₁.cc.event_handlers
        re.cc.event_handlers r₁.w re.w (a.2.handlers ∙ sym p.handlers) (a.2.events ∙ sym p.events)

  close_at :
      (d : ℕ)
      → k.depth ≡ d
      → Shape d k.levels
      → k.state ≡ close_paren
      → Both (Paired mem) (step_close rc) (on_close saved re)
  unfolding step_close on_close
  close_at zero e s q =
      Both-then _ _ (ap (λ d. d == 0) (a.0.0.depth ∙ e)) (ap (λ d. d == 0) (a.1.0.depth ∙ e))
        (both_done a.2.events)
  close_at (suc zero) e (xs, below, l, (x, below', l', o)) q =
      let (i, t, h) = a in
      Both-else _ _ (ap (λ d. d == 0) (i.0.depth ∙ e)) (ap (λ d. d == 0) (t.0.depth ∙ e)) (
        Both-left
          (Surely-and (closed xs x below' 0 k rc (l ∙ ap (λ b. some xs ∷ b) l') e i)
            (closed-Heard (advance (record rc { cc = record rc.cc { depth = rc.cc.depth - 1 } }))))
          λ r₁ (i₁, h₁).
            let told =
              call_handler-IsReady (λ h. h.end_sexpr) Event.end_sexpr r₁.cc.event_handlers r₁.w
                i₁.1 in
            Both-then _ _ (ap (λ d. d == 0) i₁.0.depth) (ap (λ d. d - 1 == 0) (t.0.depth ∙ e)) (
              close_top-Both (snoc x (list xs))
                (record k {
                  state = start;
                  t = k.t + 1;
                  depth = 0;
                  levels = some (snoc x (list xs)) ∷ below';
                })
                (goto start (emit (λ h. h.end_sexpr) Event.end_sexpr r₁))
                (set_squoted saved (
                  set_height 0 (
                    goto start (
                      emit (λ h. h.end_sexpr) Event.end_sexpr
                        (advance (record re { cc = record re.cc { depth = re.cc.depth - 1 } }))))))
                (ground (arith, i₁.0), told) (ap (λ b. some (snoc x (list xs)) ∷ b) o)
                (told_end r₁ h₁)))
  close_at (suc (suc d)) e (xs, below, l, (x, below', l', o)) q =
      let (i, t, h) = a in
      let open_c : (rc.cc.depth == 0) ≡ false = ground (arith, i.0.depth, e) in
      let open_e : (re.cc.depth == 0) ≡ false = ground (arith, t.0.depth, e) in
      let shallow : suc (suc (length below')) < int_limit =
        subst (λ u. length u < int_limit) (l ∙ ap (λ b. some xs ∷ b) l') i.0.shallow in
      let still_e : (re.cc.depth - 1 == 0) ≡ false = ground (arith, t.0.depth, e) in
      Both-else _ _ open_c open_e (
        Both-left
          (Surely-and (closed xs x below' (suc d) k rc (l ∙ ap (λ b. some xs ∷ b) l') e i)
            (closed-Heard (advance (record rc { cc = record rc.cc { depth = rc.cc.depth - 1 } }))))
          λ r₁ (i₁, h₁).
            let told =
              call_handler-IsReady (λ h. h.end_sexpr) Event.end_sexpr r₁.cc.event_handlers r₁.w
                i₁.1 in
            let still_c : (r₁.cc.depth == 0) ≡ false = ground (arith, i₁.0.depth) in
            Both-else _ _ still_c still_e (
              both_next (
                record k {
                  state = start;
                  t = k.t + 1;
                  depth = suc d;
                  levels = some (snoc x (list xs)) ∷ below';
                },
                (
                  (ground (arith, i₁.0), told),
                  (
                    record {
                      counted =
                          ap int_dec
                            (t.0.counted ∙ ap (λ l. length l) (l ∙ ap (λ b. some xs ∷ b) l'))
                          ∙ omega (arith, shallow);
                      state = refl;
                      at = ap (λ t. t + 1) t.0.at;
                      depth = omega (arith, t.0.depth, e);
                      text = t.0.text;
                      text_used = t.0.text_used;
                      room = t.0.room;
                      esc = t.0.esc;
                      squoted = t.0.squoted;
                      mode = t.0.mode;
                    },
                    call_handler-IsReady _ _ _ _ t.1,
                  ),
                  record {
                    qdepth = h.qdepth ∙ sym h₁.qdepth;
                    elts = h.elts ∙ sym h₁.elts;
                    handlers = h.handlers ∙ sym h₁.handlers;
                    events = told_end r₁ h₁;
                  },
                ),
                sq,
              )))

  pub on_close-Both : k.state ≡ close_paren → Both (Paired mem) (step_close rc) (on_close saved re)
  on_close-Both = close_at k.depth refl g.shape
