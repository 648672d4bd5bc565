-- ===== src/Events/Alike/Whole.antt =====
-- Whole calls of `cparse_sexp` of src/parser.c: with the handlers of a continuation in the normal mode,
-- and in the mode for events alone, in which src/event_temp.c does the work.
use sfsexp.Prelude.{
  ℕ, Bytes, zero, suc, ◌+◌, ◌<◌, ◌≡◌, ◌≢◌, refl, sym, ap, ◌∙◌, Bool, false, ◌||◌, ◌∷◌, ◌++◌, none,
  some, length, get_elem?, ◌==◌, if◌then◌else◌, arith, Bool-cases, inl, inr,
}
use mathlib.Core.Path.{subst}
use sfsexp.Sexp.{nil}
use sfsexp.Cache.{World}
use sfsexp.FastStack.{int_max}
use sfsexp.Cache.Quiet.{IsReady}
use sfsexp.Parser.Base.{Pcont, parser_events_only, Run, Outcome, falls}
use sfsexp.Parser.Loop.{
  Ended, returned, returned_null, out_of_fuel, is_blob, continue_with, round, loop, rounds, resume,
  resume_at,
}
use sfsexp.Events.Progress.{is_other}
use sfsexp.Parser.Entry.{cparse_sexp, continuation, call_parser, is_events_only}
use sfsexp.Parser.Step.{step_char}
use sfsexp.RoundTrip.Conf.{Conf, InConf}
use sfsexp.RoundTrip.Start.{at_start}
use sfsexp.RoundTrip.Whole.{IsIdle}
use sfsexp.Safety.{Good, Keeps}
use sfsexp.Safety.Parse.{AreClean, byte_at, not_blob, round-Keeps}
use sfsexp.Events.Loop.{on_char, eparse_sexp, tell_from, tell_round, tell_loop}
use sfsexp.Events.Total.{eparse_sexp-ne-out_of_fuel, events_parser}
use sfsexp.Events.Alike.{
  InTell, AlikeAt, Both, both_next, both_done, Both-then, Both-else, TameAt, Paired,
}
use sfsexp.Events.Alike.Rounds.{IsUnticked, unticked, on_char-Both, leave_loop-Both}

-- What holds of the two runs between two rounds.
abbrev Going : Bytes → ℕ → Run → Run → Type 0
Going mem n a b = (k : Conf) × AlikeAt k a b × TameAt mem k.state k.t k.squoted × Good n k

InConf-unique : (k k' : Conf) (r : Run) → InConf k r → InConf k' r → k ≡ k'
InConf-unique k k' r i i' = ground (arith, i.0, i'.0)

going :
    (mem : Bytes) (n : ℕ) (m m' : Outcome Run)
    → Both (Paired mem) m m'
    → Keeps n m
    → Both (Going mem n) m m'
going mem n _ _ (both_next {a} {b} (k, al, tame)) (falls (k', i, g)) =
    both_next (k, al, tame, subst (Good n) (InConf-unique k' k a i al.0) g)
going mem n _ _ (both_done e) s = both_done e

module _ (s rest : Bytes) (len : ℕ) (fits : length s < int_max) (p : AreClean s) (u : IsUnticked s)
    (saved : Bool) where
  round-Both :
      (a b : Run)
      → Going (s ++ 0 ∷ rest) (length s) a b
      → Both
          (Paired (s ++ 0 ∷ rest))
          (round (s ++ 0 ∷ rest) len a)
          (tell_round saved (s ++ 0 ∷ rest) len b)
  unfolding round tell_round
  round-Both a b (k, al, tame, g) =
      let mem = s ++ 0 ∷ rest in
      let (i, t, h) = al in
      let (c, e, kind) = byte_at s rest k.t p g.within in
      let e₁ : get_elem? mem a.t ≡ some c = ap (get_elem? mem) i.0.at ∙ e in
      let e₂ : get_elem? mem b.t ≡ some c = ap (get_elem? mem) t.0.at ∙ e in
      let held : is_blob k.state ≡ false = not_blob s rest len fits p k.state k.text g.holding in
      let same : b.t ≡ a.t = t.0.at ∙ sym i.0.at in
      let q : b.cc.state ≡ a.cc.state = t.0.state ∙ sym i.0.state in
      Both-else _ _ (ap is_blob i.0.state ∙ held) (ap is_blob t.0.state ∙ held) (
        rw e₁ (
          rw e₂ (elim (Bool-cases (c == 0 || a.t == len)) [
            | inl y ↦ Both-then _ _ y (ap (λ t. c == 0 || t == len) same ∙ y) (
                leave_loop-Both mem (length s) (unticked s rest u) fits saved k a b al g len c e₁
                  e₂)
            | inr n ↦ Both-else _ _ n (ap (λ t. c == 0 || t == len) same ∙ n) (elim kind [
              | inl z ↦ absurd (ground (arith, z, n))
              | inr (clean, inside) ↦
                  subst
                    (λ x.
                      Both (Paired mem) (step_char x c (get_elem? mem (a.t + 1)) a)
                        (on_char saved b.cc.state c (get_elem? mem (b.t + 1)) b))
                    (sym i.0.state)
                    (subst
                      (λ x.
                        Both (Paired mem) (step_char k.state c (get_elem? mem (a.t + 1)) a)
                          (on_char saved x c (get_elem? mem (b.t + 1)) b))
                      (sym t.0.state)
                      (subst
                        (λ x.
                          Both (Paired mem) (step_char k.state c (get_elem? mem (a.t + 1)) a)
                            (on_char saved k.state c (get_elem? mem (x + 1)) b))
                        (sym same)
                        (on_char-Both mem (length s) (unticked s rest u) fits saved k a b al g c _
                          k.state clean e inside tame refl)))
            ])
          ])))

  -- Two runs that both return with the same told, or both are out of fuel.
  abbrev Ends : Ended → Ended → Type 0
  Ends (returned pc w) (returned pc' w') = w'.events ≡ w.events
  Ends out_of_fuel out_of_fuel = Unit {0}
  Ends _ _ = ⊥

  continue-Both :
      (f g : Run → Ended) (m m' : Outcome Run)
      → Both (Going (s ++ 0 ∷ rest) (length s)) m m'
      → ((a b : Run) → Going (s ++ 0 ∷ rest) (length s) a b → Ends (f a) (g b))
      → Ends (continue_with f m) (continue_with g m')
  continue-Both f g _ _ (both_next {a} {b} h) k = k a b h
  continue-Both f g _ _ (both_done e) k = e

  loop-Both :
      (n : ℕ) (a b : Run)
      → Going (s ++ 0 ∷ rest) (length s) a b
      → Ends (loop n (s ++ 0 ∷ rest) len a) (tell_loop n saved (s ++ 0 ∷ rest) len b)
  unfolding loop tell_loop
  loop-Both zero a b h = tt
  loop-Both (suc n) a b h =
      let (k, al, tame, g) = h in
      continue-Both (loop n (s ++ 0 ∷ rest) len) (tell_loop n saved (s ++ 0 ∷ rest) len) _ _
        (going (s ++ 0 ∷ rest) (length s) _ _ (round-Both a b h)
          (round-Keeps s rest len fits p a (k, al.0, g)))
        (loop-Both n)

  Ends-returned :
      (o o' : Ended)
      → Ends o o'
      → o' ≢ out_of_fuel
      → (pc : Pcont) × (w : World) × (pc' : Pcont) × (w' : World) × (o ≡ returned pc w)
        × (o' ≡ returned pc' w')
        × (w'.events ≡ w.events)
  Ends-returned (returned pc w) (returned pc' w') e n = (pc, w, pc', w', refl, refl, e)
  Ends-returned out_of_fuel out_of_fuel e n = absurd (n refl)
  Ends-returned out_of_fuel (returned pc w) e n = absurd e
  Ends-returned out_of_fuel (returned_null w) e n = absurd e
  Ends-returned out_of_fuel Ended.aborts e n = absurd e
  Ends-returned out_of_fuel Ended.faults e n = absurd e
  Ends-returned (returned pc w) (returned_null w') e n = absurd e
  Ends-returned (returned pc w) Ended.aborts e n = absurd e
  Ends-returned (returned pc w) Ended.faults e n = absurd e
  Ends-returned (returned pc w) out_of_fuel e n = absurd e
  Ends-returned (returned_null w) o' e n = absurd e
  Ends-returned Ended.aborts o' e n = absurd e
  Ends-returned Ended.faults o' e n = absurd e

-- A call in the normal mode, with the handlers of the continuation, and the same call in the mode for
-- events alone both return, and they tell the handlers the same, in the same order: on every input,
-- well-formed or not, that holds neither a backslash nor a double quote directly behind a single one
-- and ends in a NUL before 2^31 - 1 bytes, from a continuation without a position that stands between two
-- expressions, where no request for memory is refused.
pub cparse_sexp-tells :
    (s rest : Bytes) (len : ℕ) (pc : Pcont) (w : World)
    → IsReady w
    → IsIdle pc
    → pc.last_pos ≡ none
    → AreClean s
    → IsUnticked s
    → length s < int_max
    → (pc₁ : Pcont) × (w₁ : World) × (pc₂ : Pcont) × (w₂ : World) × (cparse_sexp events_parser
          (some (s ++ 0 ∷ rest))
          len
          (some pc)
          w
        ≡ returned pc₁ w₁)
      × (cparse_sexp events_parser
            (some (s ++ 0 ∷ rest))
            len
            (some (record pc { mode = parser_events_only }))
            w
          ≡ returned pc₂ w₂)
      × (w₂.events ≡ w₁.events)
unfolding cparse_sexp continuation call_parser resume resume_at eparse_sexp tell_from
cparse_sexp-tells s rest len pc w q i l p u fits =
    let mem = s ++ 0 ∷ rest in
    let a : Run = record {
      cc = record pc { sbuffer = some mem };
      t = 0;
      elts = 0;
      sx = nil;
      w = w;
    } in
    let b : Run = record {
      cc = record pc { sbuffer = some mem; mode = parser_events_only };
      t = 0;
      elts = 0;
      sx = nil;
      w = w;
    } in
    let good : Good (length s) at_start = record {
      esc = refl;
      shape = refl;
      holding = refl;
      deep = omega arith;
      within = omega arith;
    } in
    let start_c : InConf at_start a = (ground (arith, i), q) in
    let start_e : InTell at_start b = (ground (arith, i), q) in
    let alike : AlikeAt at_start a b = (start_c, start_e, ground arith) in
    let pc' : Pcont = record pc { mode = parser_events_only } in
    let to_loop : eparse_sexp (some mem) len pc' w ≡ tell_loop (rounds mem) pc.squoted mem len b =
      ap (λ x. tell_from x pc.sbuffer mem len pc' w) l in
    let ends =
      loop-Both s rest len fits p u pc.squoted (rounds mem) a b (at_start, alike, refl, good) in
    let (pc₁, w₁, pc₂, w₂, e₁, e₂, e) =
      Ends-returned s rest len fits p u pc.squoted _ _ ends (λ e.
        eparse_sexp-ne-out_of_fuel (some mem) len pc' w (ap is_other i.state) (to_loop ∙ e)) in
    (
      pc₁,
      w₁,
      pc₂,
      w₂,
      ap (λ m. if is_events_only m then events_parser mem len pc w else resume mem len pc w) i.mode
          ∙ ap (λ x. resume_at x pc.sbuffer mem len pc w) l
          ∙ e₁,
      to_loop ∙ e₂,
      e,
    )
