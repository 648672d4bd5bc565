-- ===== src/RoundTrip/Closing.antt =====
-- Closing a list, state 3 of src/parser.c: inside another list, and where the expression is complete.
use sfsexp.Prelude.{
  ℕ, Bytes, suc, ◌+◌, ◌-◌, ◌≡◌, refl, ap, ◌∙◌, true, false, List, [], ◌∷◌, some, ◌==◌, arith,
}
use sfsexp.Errors.{err_ok}
use sfsexp.Sexp.{list, Sexp, nil, node, snoc, Event}
use sfsexp.Cache.{World, world_errno}
use sfsexp.Parser.Base.{
  start, close_paren, ParseData, Pcont, Run, ◌>>=◌, next, falls, Meets, returns, Meets-else,
  Meets-then,
}
use sfsexp.Parser.Actions.{pop_data, unwind}
use sfsexp.Parser.Vars.{set_esc, goto, advance}
use sfsexp.Parser.Structure.{close_list, close_all, step_close}
use sfsexp.Parser.Step.{step_char}
use sfsexp.RoundTrip.Conf.{
  Conf, InConf, Surely, Surely-intro, call_handler-IsReady, pop_data-InConf,
}
use sfsexp.RoundTrip.Leads.{Leads, At, Surely-last, Surely-then, round_on}
use sfsexp.RoundTrip.Lists.{set_last_list-snoc}

close_list-InConf :
    (top : Sexp) (below : List ParseData) (k : Conf) (r : Run)
    → k.levels ≡ some (snoc top (list nil)) ∷ below
    → InConf k r
    → Surely (InConf (record k { levels = some (snoc top (list r.sx)) ∷ below })) (close_list r)
unfolding close_list
close_list-InConf top below k r l i =
    let stack = record r.cc.stack { used = some (snoc top (list r.sx)) ∷ below } in
    Surely-intro (record r { cc = record r.cc { stack = stack } })
      (ground (arith, i.0.levels, l, set_last_list-snoc top nil r.sx)) (ground (arith, i.0), i.1)

-- The list closed, with its contents in place, and what the state's code does to the rest.
pub closed :
    (xs top : Sexp) (below : List ParseData) (d : ℕ) (k : Conf) (r : Run)
    → k.levels ≡ some xs ∷ some (snoc top (list nil)) ∷ below
    → k.depth ≡ suc d
    → InConf k r
    → Surely
        (InConf (record k { t = k.t + 1; depth = d; levels = some (snoc top (list xs)) ∷ below }))
        (pop_data (advance (record r { cc = record r.cc { depth = r.cc.depth - 1 } }))
          >>= close_list)
closed xs top below d k r l e i =
    Surely-then
      (pop_data-InConf xs _ (record k { t = k.t + 1; depth = d }) _ l (ground (arith, i.0, e), i.1))
      λ r₁ i₁.
        Surely-last (close_list-InConf top below _ r₁ refl i₁.0)
          λ r₂ i₂. (ground (arith, i₂.0, i₁.1), i₂.1)

module _ (mem : Bytes) (len : ℕ) (Q : Pcont → World → Type 0) where
  pub close_inner :
      (xs top : Sexp) (below : List ParseData) (d : ℕ) (k : Conf) (r : Run)
      → InConf k r
      → k.state ≡ close_paren
      → k.levels ≡ some xs ∷ some (snoc top (list nil)) ∷ below
      → k.depth ≡ suc (suc d)
      → At mem len k.t b')'
      → ((r' : Run)
          → InConf
              (record k {
                state = start;
                t = k.t + 1;
                depth = suc d;
                levels = some (snoc top (list xs)) ∷ below;
              })
              r'
          → Leads mem len Q r')
      → Leads mem len Q r
  unfolding step_char step_close
  close_inner xs top below d k r i q l e a on =
      let opened : (r.cc.depth == 0) ≡ false = ground (arith, i.0.depth, e) in
      round_on k r i (rw q refl) a (
        rw q (
          Meets-else _ opened (
            Surely-then (closed xs top below (suc d) k r l e i) λ r₁ i₁.
              let open_still : (r₁.cc.depth == 0) ≡ false = ground (arith, i₁.0.depth) in
              let told =
                call_handler-IsReady (λ h. h.end_sexpr) Event.end_sexpr r₁.cc.event_handlers r₁.w
                  i₁.1 in
              Meets-else _ open_still (falls (on _ (ground (arith, i₁.0), told))))))

  -- What the call returns with the result in `sx`.
  abbrev pub Delivers : Sexp → Conf → Type 0
  Delivers sx k =
      (r : Run)
      → InConf k r
      → r.sx ≡ sx
      → Q (record r.cc { last_pos = some r.t; last_sexp = r.sx; error = err_ok })
          (world_errno err_ok r.w)

  pub close_all-Delivers :
      {P : Run → Type 0} (top : Sexp) (k : Conf) (r : Run)
      → InConf k r
      → k.levels ≡ some top ∷ []
      → Delivers top (record k { state = start; levels = []; esc = false })
      → Meets P Q ⊥ (close_all r)
  unfolding close_all unwind
  close_all-Delivers top k r i l on =
      let one : unwind r.cc.stack.used r ≡ (pop_data r >>= next) =
        ap (λ u. unwind u r) (i.0.levels ∙ l) in
      let popped : Surely (λ r'. InConf (record k { levels = [] }) r' × (r'.sx ≡ top))
          (pop_data r >>= next) =
        Surely-then (pop_data-InConf top [] k r l i) λ r₁ i₁. falls i₁ in
      rw one (
        Surely-then popped
          λ r₁ i₁. returns (on (goto start (set_esc false r₁)) (ground (arith, i₁.0), i₁.0.1) i₁.1))

  -- The parenthesis that completes the expression.
  pub close_outer :
      (xs : Sexp) (k : Conf) (r : Run)
      → InConf k r
      → k.state ≡ close_paren
      → k.levels ≡ some xs ∷ some (node (list nil) nil) ∷ []
      → k.depth ≡ 1
      → At mem len k.t b')'
      → Delivers
          (node (list xs) nil)
          (record k { state = start; t = k.t + 1; depth = 0; levels = []; esc = false })
      → Leads mem len Q r
  unfolding step_char step_close
  close_outer xs k r i q l e a on =
      let opened : (r.cc.depth == 0) ≡ false = ground (arith, i.0.depth, e) in
      round_on k r i (rw q refl) a (
        rw q (
          Meets-else _ opened (
            Surely-then (closed xs nil [] 0 k r l e i) λ r₁ i₁.
              let complete : (r₁.cc.depth == 0) ≡ true = ground (arith, i₁.0.depth) in
              let told =
                call_handler-IsReady (λ h. h.end_sexpr) Event.end_sexpr r₁.cc.event_handlers r₁.w
                  i₁.1 in
              Meets-then _ complete (
                close_all-Delivers (node (list xs) nil)
                  (record k {
                    state = start;
                    t = k.t + 1;
                    depth = 0;
                    levels = some (node (list xs) nil) ∷ [];
                  })
                  _ (ground (arith, i₁.0), told) refl on))))
