-- ===== src/RoundTrip/Lists.antt =====
-- Opening and closing a list inside a list, states 1, 2 and 3 of src/parser.c.
use sfsexp.Prelude.{
  ℕ, Bytes, ◌+◌, ◌<◌, ◌≡◌, refl, length, true, false, List, [], ◌∷◌, some, if◌then◌else◌, arith,
}
use sfsexp.Sexp.{list, Sexp, nil, node, snoc, Event}
use sfsexp.Cache.{World, sexp_t_allocate, pd_allocate}
use sfsexp.Cache.Quiet.{sexp_t_allocate_quiet, pd_allocate_quiet}
use sfsexp.FastStack.{is_low, int_limit}
use sfsexp.Parser.Base.{
  start, open_paren, ParseData, Pcont, Run, uint_mod, falls, Meets-else, Meets-then, Outcome,
}
use sfsexp.Parser.Actions.{emit, made, attach, set_last_list}
use sfsexp.Parser.Vars.{goto, advance}
use sfsexp.Parser.Structure.{root_level, step_start, open_level, step_open}
use sfsexp.Parser.Step.{step_char}
use sfsexp.RoundTrip.Conf.{
  Conf, InConf, Surely, call_handler-IsReady, need-Ready, attach-InConf, push_data-InConf,
}
use sfsexp.RoundTrip.Leads.{Leads, At, Surely-last, Surely-then, round_on}
use sfsexp.RoundTrip.Elements.{Between}

-- At the first byte inside a list, the list's level on the stack.
abbrev pub inside : ℕ → ℕ → List ParseData → Conf
inside t depth levels = record {
  levels = some nil ∷ levels;
  state = start;
  t = t;
  depth = depth;
  text = [];
  esc = false;
  squoted = false;
}

pub set_last_list-snoc :
    (top l sx : Sexp) → set_last_list (snoc top (list l)) sx ≡ some (snoc top (list sx))
unfolding set_last_list
set_last_list-snoc nil l sx = refl
set_last_list-snoc (node e nil) l sx = refl
set_last_list-snoc (node e (node d rest)) l sx = rw (set_last_list-snoc (node d rest) l sx) refl

pub open_level-InConf :
    (k : Conf) (r : Run)
    → length k.levels + 1 < int_limit
    → InConf k r
    → Surely (InConf (record k { state = start; levels = some nil ∷ k.levels })) (open_level r)
unfolding open_level
open_level-InConf k r room i =
    Surely-then (need-Ready pd_allocate r (pd_allocate_quiet r.w i.1)) λ r₁ a.
      let i₁ : InConf k r₁ = (ground (arith, i.0, a.0), a.1) in
      let i₂ = push_data-InConf (some nil) k r₁ room i₁ in falls (ground (arith, i₂.0), i₂.1)

-- The new list's place: last in the list around it, or alone on an empty stack.
abbrev pub place : Run → Outcome Run
place r = if is_low r.cc.stack.height then root_level r else attach (list nil) r

-- Where the parser is when it makes the new list.
abbrev pub opening : Conf → Conf
opening k = record k { state = open_paren; t = k.t + 1; depth = k.depth + 1 }

pub place-attached :
    (top : Sexp) (below : List ParseData) (k : Conf) (r : Run)
    → k.levels ≡ some top ∷ below
    → InConf k r
    → Surely (InConf (record k { levels = some (snoc top (list nil)) ∷ below })) (place r)
place-attached top below k r l i =
    let deep : is_low r.cc.stack.height ≡ false = ground (arith, i.0.counted, l) in
    Meets-else _ deep (attach-InConf (list nil) top below k r l i)

pub place-root :
    (k : Conf) (r : Run)
    → k.levels ≡ []
    → InConf k r
    → Surely (InConf (record k { levels = some (node (list nil) nil) ∷ [] })) (place r)
unfolding root_level
place-root k r l i =
    let empty : is_low r.cc.stack.height ≡ true = ground (arith, i.0.counted, l) in
    let g = pd_allocate_quiet r.w i.1 in
    let i₁ : InConf k (record r { w = (pd_allocate r.w).0 }) = (ground (arith, i.0), g.ready) in
    let i₂ = push_data-InConf (some (node (list nil) nil)) k _ (ground (arith, l)) i₁ in
    Meets-then _ empty (rw g.granted (falls (ground (arith, i₂.0, l), i₂.1)))

module _ (mem : Bytes) (len : ℕ) (Q : Pcont → World → Type 0) where
  pub open_list :
      (c : ℕ) (levels : List ParseData) (k : Conf) (r : Run)
      → InConf k r
      → Between k
      → k.depth + 1 < uint_mod
      → length levels + 1 < int_limit
      → ((r' : Run)
          → InConf (opening k) r'
          → Surely (InConf (record (opening k) { levels = levels })) (place r'))
      → At mem len k.t b'('
      → At mem len (k.t + 1) c
      → ((r' : Run) → InConf (inside (k.t + 1) (k.depth + 1) levels) r' → Leads mem len Q r')
      → Leads mem len Q r
  unfolding step_char step_start step_open
  open_list c levels k r i n fits room placed a a' on =
      let told =
        call_handler-IsReady (λ h. h.start_sexpr) Event.start_sexpr r.cc.event_handlers r.w i.1 in
      round_on k r i (rw n.state refl) a (
        rw n.state (
          falls (
            round_on (record k { state = open_paren; t = k.t + 1 })
              (emit (λ h. h.start_sexpr) Event.start_sexpr (goto open_paren (advance r)))
              (ground (arith, i.0), told) refl a'
              (Surely-then (need-Ready sexp_t_allocate _ (sexp_t_allocate_quiet _ told)) λ r₁ b.
                let i₁ : InConf (opening k) (made (list nil) r₁) =
                  (ground (arith, i.0, b.0, fits), b.1) in
                Surely-then (placed _ i₁) λ r₂ i₂.
                  Surely-last (open_level-InConf _ r₂ room i₂)
                    λ r₃ i₃. on r₃ (ground (arith, i₃.0, n), i₃.1)))))
