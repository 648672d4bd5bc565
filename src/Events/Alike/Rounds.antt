-- ===== src/Events/Alike/Rounds.antt =====
-- One round of `cparse_sexp` of src/parser.c and one of `eparse_sexp` of src/event_temp.c side by side.
use sfsexp.Prelude.{
  ℕ, Bytes, suc, ◌<◌, ◌≡◌, sym, ap, ◌∙◌, Bool, false, ◌&&◌, ◌||◌, [], Option, some, get_elem?, ltb,
  ◌==◌, arith, Bool-cases, inl, inr, ◌++◌, length, ◌∷◌, zero,
}
use mathlib.Core.Path.{subst}
use sfsexp.FastStack.{int_max}
use sfsexp.Parser.Base.{
  State, start, open_paren, close_paren, atom, dquoted, dquoted_end, tick, quoted_list,
  quoted_close, quoted_string, comment, hash, hash_b, size_string, blob, other_state, Run, next,
}
use sfsexp.Parser.Vars.{goto, rewound}
use sfsexp.Parser.Loop.{incomplete, finish}
use sfsexp.Parser.Step.{step_char}
use sfsexp.RoundTrip.Conf.{Conf}
use sfsexp.Safety.{Good, IsClean}
use sfsexp.Safety.Parse.{unreached, empty_at}
use sfsexp.Events.{set_height}
use sfsexp.Events.Loop.{on_char, suspend, leave_loop}
use sfsexp.Events.Alike.{AlikeAt, Both, both_next, both_done, Both-if, TameAt, Paired}
use sfsexp.Events.Alike.Texts.{on_start-Both, on_comment-Both, on_tick-Both}
use sfsexp.Events.Alike.Atoms.{on_atom-Both, on_dquoted-Both}
use sfsexp.Events.Alike.Quotes.{on_quoted_list-Both, on_quoted_string-Both}
use sfsexp.Events.Alike.Lists.{on_open-Both}
use sfsexp.Events.Alike.Closing.{on_close-Both, close_all-Both}

-- No double quote stands directly behind a single quote before offset `n`.
abbrev pub NoTickedQuote : Bytes → ℕ → Type 0
NoTickedQuote mem n =
    (u : ℕ)
    → suc u < n
    → get_elem? mem u ≡ some b'\''
    → (c : ℕ) → get_elem? mem (suc u) ≡ some c
    → (c == b'"') ≡ false

-- No double quote stands directly behind a single quote in the text.
abbrev pub IsUnticked : Bytes → Type 0
IsUnticked [] = Unit {0}
IsUnticked (_ ∷ []) = Unit {0}
IsUnticked (c ∷ d ∷ s) = ((c == b'\'' && d == b'"') ≡ false) × IsUnticked (d ∷ s)

-- The NUL is no double quote.
unticked_at :
    (s rest : Bytes) (u : ℕ)
    → IsUnticked s
    → suc u < length s
    → get_elem? (s ++ 0 ∷ rest) u ≡ some b'\''
    → (c : ℕ) → get_elem? (s ++ 0 ∷ rest) (suc u) ≡ some c
    → (c == b'"') ≡ false
unticked_at [] rest u p l e c e' = absurd (omega (arith, l))
unticked_at (x ∷ []) rest u p l e c e' = absurd (omega (arith, l))
unticked_at (x ∷ y ∷ s) rest zero p l e c e' = ground (arith, p, e, e')
unticked_at (x ∷ y ∷ s) rest (suc u) p l e c e' =
    unticked_at (y ∷ s) rest u p.1 (omega (arith, l)) e c e'

pub unticked : (s rest : Bytes) → IsUnticked s → NoTickedQuote (s ++ 0 ∷ rest) (length s)
unticked s rest p u l = unticked_at s rest u p l

module _ (mem : Bytes) (n : ℕ) (apart : NoTickedQuote mem n) (fits : n < int_max) (saved : Bool)
    (k : Conf) (rc re : Run) (a : AlikeAt k rc re) (g : Good n k) where
  after_dquoted-Both :
      k.state ≡ dquoted_end
      → k.squoted ≡ false
      → Both (Paired mem) (next (goto start (rewound rc))) (next (goto start (rewound re)))
  after_dquoted-Both q sq =
      let empty : k.text ≡ [] = ground (arith, g.holding, q) in
      let (i, t, h) = a in
      both_next (
        record k { state = start },
        ((ground (arith, i.0, empty), i.1), (ground (arith, t.0, empty), t.1), ground (arith, h)),
        sq,
      )

  pub on_char-Both :
      (c : ℕ) (ahead : Option ℕ) (q : State)
      → IsClean c
      → get_elem? mem k.t ≡ some c
      → k.t < n
      → TameAt mem q k.t k.squoted
      → k.state ≡ q
      → Both (Paired mem) (step_char q c ahead rc) (on_char saved q c ahead re)
  unfolding step_char on_char
  on_char-Both c ahead start p b l s e = on_start-Both mem n c p k rc re a g e s b
  on_char-Both c ahead open_paren p b l s e = on_open-Both mem n k rc re a g s fits e
  on_char-Both c ahead close_paren p b l s e = on_close-Both mem n saved k rc re a g s e
  on_char-Both c ahead atom p b l s e = on_atom-Both mem n c p k rc re a g e
  on_char-Both c ahead dquoted p b l s e = on_dquoted-Both mem n c p k rc re a g ahead e s
  on_char-Both c ahead dquoted_end p b l s e = after_dquoted-Both e s
  on_char-Both c ahead tick p b l (s, (u, at, behind)) e =
      on_tick-Both mem n c p k rc re a g e s
        (apart u (omega (arith, l, at)) behind c (subst (λ t. get_elem? mem t ≡ some c) at b))
  on_char-Both c ahead quoted_list p b l s e = on_quoted_list-Both mem n c p k rc re a g s e
  on_char-Both c ahead quoted_string p b l s e = on_quoted_string-Both mem n c p k rc re a g s e
  on_char-Both c ahead comment p b l s e = on_comment-Both mem n c p k rc re a g e s
  on_char-Both c ahead quoted_close p b l s e = absurd (unreached k quoted_close e g)
  on_char-Both c ahead hash p b l s e = absurd (unreached k hash e g)
  on_char-Both c ahead hash_b p b l s e = absurd (unreached k hash_b e g)
  on_char-Both c ahead size_string p b l s e = absurd (unreached k size_string e g)
  on_char-Both c ahead blob p b l s e = absurd (unreached k blob e g)
  on_char-Both c ahead (other_state m) p b l s e = absurd (unreached k (other_state m) e g)

  incomplete-Both :
      (len c : ℕ)
      → get_elem? mem rc.t ≡ some c
      → get_elem? mem re.t ≡ some c
      → Both (Paired mem) (incomplete mem len rc) (suspend mem len re)
  unfolding incomplete suspend
  incomplete-Both len c e e' =
      rw (e, incomplete)
        (rw (e', suspend)
          (elim (Bool-cases (c == 0 || rc.t == len)) [
            | inl y ↦ rw y (both_done a.2.events)
            | inr y ↦ rw y (both_done a.2.events)
          ]))

  pub leave_loop-Both :
      (len c : ℕ)
      → get_elem? mem rc.t ≡ some c
      → get_elem? mem re.t ≡ some c
      → Both (Paired mem) (finish mem len rc) (leave_loop mem len re)
  unfolding finish leave_loop
  leave_loop-Both len c e e' =
      let (i, t, h) = a in
      let same : (re.cc.depth == 0 && ltb 0 re.elts) ≡ (rc.cc.depth == 0 && ltb 0 rc.elts) =
        ap (λ d. d == 0 && ltb 0 re.elts) (t.0.depth ∙ sym i.0.depth)
        ∙ ap (λ e. rc.cc.depth == 0 && ltb 0 e) h.elts in
      rw same (
        Both-if (rc.cc.depth == 0 && ltb 0 rc.elts)
          (λ y.
            close_all-Both k rc (set_height 0 re) i
              (empty_at k.depth k (ap (λ d. d == 0) (sym i.0.depth) ∙ ground (arith, y)) g.shape)
              h.events)
          λ _. incomplete-Both len c e e')
