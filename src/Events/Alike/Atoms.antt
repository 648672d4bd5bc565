-- ===== src/Events/Alike/Atoms.antt =====
-- The states 4 and 5 of src/parser.c and of src/event_temp.c side by side.
use sfsexp.Prelude.{
  ℕ, Bytes, ◌+◌, ◌≡◌, refl, sym, ap, ◌∙◌, false, ◌&&◌, [], ◌∷◌, Option, ◌==◌, if◌then◌else◌, arith,
  Bool-cases, inl, inr,
}
use mathlib.Core.Path.{subst}
use sfsexp.RoundTrip.Texts.{step_dquoted-plain}
use sfsexp.Sexp.{AtomType, squote, dquote, Event}
use sfsexp.Parser.Base.{start, close_paren, atom, dquoted, dquoted_end, Run}
use sfsexp.Parser.Actions.{is_escape, call_handler}
use sfsexp.Parser.Vars.{set_esc, is_space, is_special, is_atom_char}
use sfsexp.Parser.Atoms.{
  used_inc, atom_type, after_atom, step_atom, end_dquoted, dquoted_char, step_dquoted,
}
use sfsexp.RoundTrip.Conf.{Conf, terminate-InConf, make_atom-InConf}
use sfsexp.Safety.{Good, IsClean}
use sfsexp.Events.{on_atom, tell_text, tell_dquoted, on_dquoted_char, on_dquoted}
use sfsexp.Events.Alike.{
  Heard, AlikeAt, Both, both_next, Both-if, Both-else, Both-left, Both-bind, Both-sure, Surely-and,
  call_handler-events, TameAt, Paired,
}
use sfsexp.Events.Alike.Blocks.{
  put-Both, ToldText, make_atom-ToldText, terminate-InTell, tell_text-InTell, tell_text-ToldText,
  deliver-Both,
}

-- The same text was told in both.
pub told-Heard :
    (aty aty' : AtomType) (s s' : Bytes) (rc re a b : Run)
    → Heard rc re
    → aty' ≡ aty
    → s' ≡ s
    → re.cc.val_used ≡ rc.cc.val_used
    → ToldText aty s rc a
    → ToldText aty' s' re b
    → Heard a b
told-Heard aty aty' s s' rc re a b h ea es eu p q = record {
  qdepth = ground (arith, h, p, q);
  elts = ground (arith, h, p, q);
  handlers = ground (arith, h, p, q);
  events =
      q.events
      ∙ ap
          (λ u.
            (call_handler (λ h. h.characters) (Event.characters s' re.cc.val_used u)
              re.cc.event_handlers re.w).events)
          ea
      ∙ ap
          (λ u.
            (call_handler (λ h. h.characters) (Event.characters u re.cc.val_used aty)
              re.cc.event_handlers re.w).events)
          es
      ∙ ap
          (λ u.
            (call_handler (λ h. h.characters) (Event.characters s u aty) re.cc.event_handlers
              re.w).events)
          eu
      ∙ call_handler-events (λ h. h.characters) (Event.characters s rc.cc.val_used aty)
          rc.cc.event_handlers re.cc.event_handlers rc.w re.w h.handlers h.events
      ∙ sym p.events;
}

after_atom-Both :
    (mem : Bytes) (c : ℕ) (k : Conf) (a b : Run)
    → AlikeAt k a b
    → Paired mem (after_atom c a) (after_atom c b)
unfolding after_atom
after_atom-Both mem c k a b (i, t, h) = elim (Bool-cases (is_space c)) [
  | inl y ↦ rw y (
    record k { state = start; t = k.t + 1; squoted = false },
    ((ground (arith, i.0), i.1), (ground (arith, t.0), t.1), ground (arith, h)),
    refl,
  )
  | inr y ↦ rw y (elim (Bool-cases (c == b')')) [
    | inl z ↦ rw z (
      record k { state = close_paren; squoted = false },
      ((ground (arith, i.0), i.1), (ground (arith, t.0), t.1), ground (arith, h)),
      refl,
    )
    | inr z ↦ rw z (
      record k { state = start; squoted = false },
      ((ground (arith, i.0), i.1), (ground (arith, t.0), t.1), ground (arith, h)),
      refl,
    )
  ])
]

module _ (mem : Bytes) (n c : ℕ) (clean : IsClean c) (k : Conf) (rc re : Run) (a : AlikeAt k rc re)
    (g : Good n k) where
  pub on_atom-Both : k.state ≡ atom → Both (Paired mem) (step_atom c rc) (on_atom c re)
  unfolding step_atom on_atom
  on_atom-Both q =
      let (i, t, h) = a in
      Both-else _ _ (ap (λ e. e && is_special c) (i.0.esc ∙ g.esc))
        (ap (λ e. e && is_special c) (t.0.esc ∙ g.esc))
        (Both-if (is_atom_char c)
          (λ _.
            Both-bind
              (put-Both false c k (set_esc (is_escape c) rc) (set_esc (is_escape c) re) (
                (ground (arith, i.0, clean.plain, g.esc), i.1),
                (ground (arith, t.0, clean.plain, g.esc), t.1),
                ground (arith, h),
              ))
              λ rc' re' (i', t', h'). both_next (
                record k { t = k.t + 1; text = c ∷ k.text },
                ((ground (arith, i'.0), i'.1), (ground (arith, t'.0), t'.1), ground (arith, h')),
                subst (λ u. TameAt mem u (k.t + 1) k.squoted) (sym q) tt,
              ))
          λ _. Both-sure (terminate-InConf k rc i) (terminate-InTell k re t) λ s s' e e'.
            Both-left
              (Surely-and
                (make_atom-InConf (atom_type rc.cc.squoted) false s (rc.cc.val_used + 1) k rc i)
                (make_atom-ToldText (atom_type rc.cc.squoted) false s (used_inc rc)))
              λ p (p₁, told).
                let same : Heard p.0 (tell_text (atom_type re.cc.squoted) s' (used_inc re)) =
                  told-Heard (atom_type rc.cc.squoted) (atom_type re.cc.squoted) s s' (used_inc rc)
                    (used_inc re) p.0 _ (ground (arith, h))
                    (ap atom_type (t.0.squoted ∙ sym i.0.squoted)) (e' ∙ sym e)
                    (omega (arith, t.0.text_used, i.0.text_used)) told
                    (tell_text-ToldText (atom_type re.cc.squoted) s' (used_inc re)) in
                Both-bind
                  (deliver-Both _ _ p.1 (record k { text = [] }) p.0 _ g.shape
                    (
                      p₁.0,
                      tell_text-InTell (atom_type re.cc.squoted) s' k (used_inc re)
                          (ground (arith, t.0), t.1),
                      same,
                    )
                    same.events)
                  λ a b d. both_next (after_atom-Both mem c _ a b d.alike))

  end_dquoted-Both :
      k.state ≡ dquoted → k.squoted ≡ false → Both (Paired mem) (end_dquoted rc) (tell_dquoted re)
  unfolding end_dquoted tell_dquoted
  end_dquoted-Both q sq =
      let (i, t, h) = a in
      let plain_c : rc.cc.squoted ≡ false = i.0.squoted ∙ sq in
      let plain_e : re.cc.squoted ≡ false = t.0.squoted ∙ sq in
      let k₁ : Conf = record k { state = dquoted_end } in
      Both-bind
        (Both-else {R = AlikeAt k₁} _ _ plain_c plain_e
          (both_next ((ground (arith, i.0), i.1), (ground (arith, t.0), t.1), ground (arith, h))))
        λ r₁ r₁' (i₁, t₁, h₁).
          Both-sure (terminate-InConf k₁ r₁ i₁) (terminate-InTell k₁ r₁' t₁) λ s s' e e'.
            Both-left
              (Surely-and
                (make_atom-InConf (if rc.cc.squoted then squote else dquote) rc.cc.squoted s
                  (r₁.cc.val_used + 1) k₁ r₁ i₁)
                (make_atom-ToldText (if rc.cc.squoted then squote else dquote) rc.cc.squoted s
                  (used_inc r₁)))
              λ p (p₁, told).
                let aty_e = if re.cc.squoted then squote else dquote in
                let same : Heard p.0 (tell_text aty_e s' (used_inc r₁')) =
                  told-Heard (if rc.cc.squoted then squote else dquote) aty_e s s' (used_inc r₁)
                    (used_inc r₁') p.0 _ (ground (arith, h₁))
                    (ap (λ b. if b then squote else dquote) (plain_e ∙ sym plain_c)) (e' ∙ sym e)
                    (omega (arith, t₁.0.text_used, i₁.0.text_used)) told
                    (tell_text-ToldText aty_e s' (used_inc r₁')) in
                let k₂ : Conf = record k {
                  state = dquoted_end;
                  text = [];
                  squoted = if rc.cc.squoted then false else k.squoted;
                } in
                let t₂ = tell_text-InTell aty_e s' k₁ (used_inc r₁') (ground (arith, t₁.0), t₁.1) in
                Both-bind
                  (deliver-Both _ _ p.1 k₂ p.0 _ g.shape
                    (p₁.0, (ground (arith, t₂.0, plain_c), t₂.1), same) same.events)
                  λ a b d.
                    let (j, u, o) = d.alike in
                    both_next (
                      record k₂ { t = k.t + 1; levels = d.levels },
                      ((ground (arith, j.0), j.1), (ground (arith, u.0), u.1), ground (arith, o)),
                      ground (arith, plain_c, sq),
                    )

  on_dquoted-plain :
      (ahead : Option ℕ) → re.cc.esc ≡ false → on_dquoted c ahead re ≡ on_dquoted_char c re
  unfolding on_dquoted
  on_dquoted-plain ahead e = rw e refl

  pub on_dquoted-Both :
      (ahead : Option ℕ)
      → k.state ≡ dquoted
      → k.squoted ≡ false
      → Both (Paired mem) (step_dquoted c ahead rc) (on_dquoted c ahead re)
  unfolding dquoted_char on_dquoted_char
  on_dquoted-Both ahead q sq =
      let (i, t, h) = a in
      let chars : Both (Paired mem) (dquoted_char c rc) (on_dquoted_char c re) =
        Both-if (c == b'"') (λ _. end_dquoted-Both q sq)
          λ _. Both-bind (put-Both false c k rc re a) λ rc' re' (i', t', h'). both_next (
            record k { t = k.t + 1; text = c ∷ k.text; esc = false },
            (
              (ground (arith, i'.0, clean.plain), i'.1),
              (ground (arith, t'.0, clean.plain), t'.1),
              ground (arith, h'),
            ),
            subst (λ u. TameAt mem u (k.t + 1) k.squoted) (sym q) sq,
          ) in
      subst (λ o. Both (Paired mem) o (on_dquoted c ahead re))
        (sym (step_dquoted-plain c ahead rc (i.0.esc ∙ g.esc)))
        (subst (Both (Paired mem) (dquoted_char c rc))
          (sym (on_dquoted-plain ahead (t.0.esc ∙ g.esc))) chars)
