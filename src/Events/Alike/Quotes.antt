-- ===== src/Events/Alike/Quotes.antt =====
-- The states 8 to 10 of src/parser.c and of src/event_temp.c side by side.
use sfsexp.Prelude.{
  ℕ, Bytes, ◌+◌, ◌≡◌, refl, sym, ap, ◌∙◌, ◌⊎◌, Bool, true, false, ◌&&◌, [], ◌∷◌, ◌==◌,
  if◌then◌else◌, arith, Bool-cases, inl, inr,
}
use sfsexp.Sexp.{squote}
use sfsexp.Parser.Base.{State, start, quoted_list, quoted_close, quoted_string, Run, next}
use sfsexp.Parser.Actions.{is_escape}
use sfsexp.Parser.Vars.{goto, advance, set_esc}
use sfsexp.Parser.Quoted.{
  quoted_nest, is_quoted_close, step_quoted_close, step_quoted_list, step_quoted_string,
}
use sfsexp.RoundTrip.Conf.{Conf, terminate-InConf, make_atom-InConf}
use sfsexp.Safety.{Good, IsClean, Shape}
use sfsexp.Safety.Quotes.{IsQuoted}
use sfsexp.Events.{tell_text, on_quoted_close, on_quoted_list, on_quoted_string}
use sfsexp.Events.Alike.{
  Heard, AlikeAt, Both, both_next, Both-then, Both-else, Both-left, Both-bind, Both-mono, Both-sure,
  Surely-and, TameAt, Paired,
}
use sfsexp.Events.Alike.Blocks.{
  put-Both, make_atom-ToldText, terminate-InTell, tell_text-InTell, tell_text-ToldText,
  deliver-Both,
}
use sfsexp.Events.Alike.Atoms.{told-Heard}

close-Both :
    (mem : Bytes) (k : Conf) (rc re : Run)
    → AlikeAt k rc re
    → k.squoted ≡ false
    → Shape k.depth k.levels
    → Both (Paired mem) (step_quoted_close rc) (on_quoted_close re)
unfolding step_quoted_close on_quoted_close
close-Both mem k rc re (i, t, h) sq sh = elim (Bool-cases (rc.cc.qdepth == 0)) [
  | inr y ↦ Both-else _ _ y (ap (λ u. u == 0) h.qdepth ∙ y) (
      both_next (
        record k { state = quoted_list },
        ((ground (arith, i.0), i.1), (ground (arith, t.0), t.1), ground (arith, h)),
        sq,
      ))
  | inl y ↦
      let k₁ : Conf = record k { state = start } in
      Both-then _ _ y (ap (λ u. u == 0) h.qdepth ∙ y) (
        Both-sure (terminate-InConf k rc i) (terminate-InTell k re t) λ s s' e e'.
          Both-left
            (Surely-and
              (make_atom-InConf squote false s rc.cc.val_used k₁ (goto start rc)
                (ground (arith, i.0), i.1))
              (make_atom-ToldText squote false s (goto start rc)))
            λ p (p₁, told).
              let same : Heard p.0 (tell_text squote s' (goto start re)) =
                told-Heard squote squote s s' (goto start rc) (goto start re) p.0 _
                  (ground (arith, h)) refl (e' ∙ sym e) (t.0.text_used ∙ sym i.0.text_used) told
                  (tell_text-ToldText squote s' (goto start re)) in
              Both-mono
                (deliver-Both _ _ p.1 (record k₁ { text = [] }) p.0 _ sh
                  (
                    p₁.0,
                    tell_text-InTell squote s' k₁ (goto start re) (ground (arith, t.0), t.1),
                    same,
                  )
                  same.events)
                λ a b d. (record k₁ { text = []; levels = d.levels }, d.alike, sq))
]

nest-Both :
    (c : ℕ) (k : Conf) (rc re : Run)
    → AlikeAt k rc re
    → k.state ≡ quoted_list
    → (q : State) × IsQuoted q
      × AlikeAt (record k { state = q }) (quoted_nest c rc) (quoted_nest c re)
unfolding quoted_nest
nest-Both c k rc re (i, t, h) q = elim (Bool-cases (c == b'(')) [
  | inl y ↦ rw y (
    quoted_list,
    inl refl,
    ((ground (arith, i.0, q), i.1), (ground (arith, t.0, q), t.1), ground (arith, h)),
  )
  | inr y ↦ rw y (elim (Bool-cases (c == b')')) [
    | inl z ↦ rw z (
      quoted_close,
      inr (inl refl),
      ((ground (arith, i.0), i.1), (ground (arith, t.0), t.1), ground (arith, h)),
    )
    | inr z ↦ rw z (elim (Bool-cases (c == b'"')) [
      | inl x ↦ rw x (
        quoted_string,
        inr (inr refl),
        ((ground (arith, i.0), i.1), (ground (arith, t.0), t.1), ground (arith, h)),
      )
      | inr x ↦ rw x (
        quoted_list,
        inl refl,
        ((ground (arith, i.0, q), i.1), (ground (arith, t.0, q), t.1), ground (arith, h)),
      )
    ])
  ])
]

module _ (mem : Bytes) (n c : ℕ) (clean : IsClean c) (k : Conf) (rc re : Run) (a : AlikeAt k rc re)
    (g : Good n k) (sq : k.squoted ≡ false) where
  -- Behind the byte, in whichever state it led to.
  list_rest :
      (q : State) (rc' re' : Run)
      → IsQuoted q
      → AlikeAt (record k { state = q; text = c ∷ k.text }) rc' re'
      → Both
          (Paired mem)
          (if is_quoted_close rc'.cc.state
            then step_quoted_close (advance rc')
            else next (advance rc'))
          (if is_quoted_close re'.cc.state
            then on_quoted_close (advance re')
            else next (advance re'))
  list_rest q rc' re' (inl e) (i, t, h) =
      Both-else _ _ (ap is_quoted_close (i.0.state ∙ e)) (ap is_quoted_close (t.0.state ∙ e)) (
        both_next (
          record k { state = quoted_list; t = k.t + 1; text = c ∷ k.text },
          ((ground (arith, i.0, e), i.1), (ground (arith, t.0, e), t.1), ground (arith, h)),
          sq,
        ))
  list_rest q rc' re' (inr (inl e)) (i, t, h) =
      Both-then _ _ (ap is_quoted_close (i.0.state ∙ e)) (ap is_quoted_close (t.0.state ∙ e)) (
        close-Both mem (record k { state = quoted_close; t = k.t + 1; text = c ∷ k.text })
          (advance rc') (advance re')
          ((ground (arith, i.0, e), i.1), (ground (arith, t.0, e), t.1), ground (arith, h)) sq
          g.shape)
  list_rest q rc' re' (inr (inr e)) (i, t, h) =
      Both-else _ _ (ap is_quoted_close (i.0.state ∙ e)) (ap is_quoted_close (t.0.state ∙ e)) (
        both_next (
          record k { state = quoted_string; t = k.t + 1; text = c ∷ k.text },
          ((ground (arith, i.0, e), i.1), (ground (arith, t.0, e), t.1), ground (arith, h)),
          sq,
        ))

  -- No byte is escaped.
  plainly :
      (q : State) (b b' : Bool)
      → b ≡ false
      → b' ≡ false
      → AlikeAt (record k { state = q }) (quoted_nest c rc) (quoted_nest c re)
      → AlikeAt
          (record k { state = q })
          (set_esc (is_escape c) (if b then rc else quoted_nest c rc))
          (set_esc (is_escape c) (if b' then re else quoted_nest c re))
  plainly q false false e e' (i, t, h) = (
    (ground (arith, i.0, clean.plain, g.esc), i.1),
    (ground (arith, t.0, clean.plain, g.esc), t.1),
    ground (arith, h),
  )
  plainly q true b' e e' al = cc
  plainly q false true e e' al = cc

  pub on_quoted_list-Both :
      k.state ≡ quoted_list → Both (Paired mem) (step_quoted_list c rc) (on_quoted_list c re)
  unfolding step_quoted_list on_quoted_list
  on_quoted_list-Both q =
      let (q', e, al) = nest-Both c k rc re a q in
      Both-bind
        (put-Both false c (record k { state = q' }) _ _
          (plainly q' rc.cc.esc re.cc.esc (a.0.0.esc ∙ g.esc) (a.1.0.esc ∙ g.esc) al))
        λ rc' re' al'. list_rest q' rc' re' e al'

  string_next :
      k.state ≡ quoted_string
      → (b b' : Bool) → b' ≡ b
      → (q : State) × ((q ≡ quoted_list) ⊎ (q ≡ quoted_string))
        × AlikeAt
            (record k { state = q })
            (set_esc (is_escape c) (if b then goto quoted_list rc else rc))
            (set_esc (is_escape c) (if b' then goto quoted_list re else re))
  string_next q true true e =
      let (i, t, h) = a in
      (
        quoted_list,
        inl refl,
        (
          (ground (arith, i.0, clean.plain, g.esc), i.1),
          (ground (arith, t.0, clean.plain, g.esc), t.1),
          ground (arith, h),
        ),
      )
  string_next q false false e =
      let (i, t, h) = a in
      (
        quoted_string,
        inr refl,
        (
          (ground (arith, i.0, clean.plain, g.esc, q), i.1),
          (ground (arith, t.0, clean.plain, g.esc, q), t.1),
          ground (arith, h),
        ),
      )
  string_next q true false e = cc
  string_next q false true e = cc

  tame_quoted :
      (q : State) (t : ℕ) → (q ≡ quoted_list) ⊎ (q ≡ quoted_string) → TameAt mem q t k.squoted
  tame_quoted q t (inl e) = rw e sq
  tame_quoted q t (inr e) = rw e sq

  pub on_quoted_string-Both :
      k.state ≡ quoted_string → Both (Paired mem) (step_quoted_string c rc) (on_quoted_string c re)
  unfolding step_quoted_string on_quoted_string
  on_quoted_string-Both q =
      let same : re.cc.esc ≡ rc.cc.esc = a.1.0.esc ∙ sym a.0.0.esc in
      let (q', e, al) =
        string_next q (c == b'"' && (if rc.cc.esc then false else true))
          (c == b'"' && (if re.cc.esc then false else true))
          (ap (λ b. c == b'"' && (if b then false else true)) same) in
      Both-bind (put-Both false c (record k { state = q' }) _ _ al) λ rc' re' (i, t, h). both_next (
        record k { state = q'; t = k.t + 1; text = c ∷ k.text },
        ((ground (arith, i.0), i.1), (ground (arith, t.0), t.1), ground (arith, h)),
        tame_quoted q' (k.t + 1) e,
      )
