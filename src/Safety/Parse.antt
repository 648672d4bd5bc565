-- ===== src/Safety/Parse.antt =====
-- Calls of `cparse_sexp` of src/parser.c on input without backslashes.
use sfsexp.Prelude.{
  ℕ, Bytes, zero, suc, ◌≤◌, ◌<◌, ◌^◌, ◌≡◌, ◌≢◌, refl, sym, ap, ◌∙◌, true, false, ◌||◌, ◌&&◌, [],
  ◌∷◌, ◌++◌, Option, none, some, length, get_elem?, ltb, ◌==◌, arith, Bool-cases, inl, inr, ◌⊎◌,
}
use mathlib.Core.Path.{subst}
use sfsexp.Cache.{World}
use sfsexp.FastStack.{int_max}
use sfsexp.Cache.Quiet.{IsReady}
use sfsexp.Parser.Base.{
  State, start, open_paren, close_paren, atom, dquoted, dquoted_end, tick, quoted_list,
  quoted_close, quoted_string, comment, hash, hash_b, size_string, blob, other_state, Pcont, Run,
  Outcome, next, falls, returns, aborts, faults, Meets-then, Meets-else,
}
use sfsexp.Parser.Loop.{
  Ended, returned, returned_null, out_of_fuel, continue_with, is_blob, incomplete, finish, round,
  loop, rounds,
}
use sfsexp.Parser.Structure.{close_all}
use sfsexp.Parser.Step.{step_char}
use sfsexp.Parser.Entry.{cparse_sexp}
use sfsexp.Parser.Actions.{unwind}
use sfsexp.Parser.Progress.{loop-ne-out_of_fuel}
use sfsexp.RoundTrip.Conf.{Conf, InConf}
use sfsexp.RoundTrip.Start.{at_start, cparse_sexp-starts}
use sfsexp.Safety.{Holding, Shape, Good, Safe, Keeps, IsClean}
use sfsexp.Safety.Starts.{
  step_start-Keeps, step_comment-Keeps, step_tick-Keeps, after_dquoted-Keeps,
}
use sfsexp.Safety.Texts.{step_atom-Keeps, step_dquoted-Keeps}
use sfsexp.Safety.Quotes.{step_quoted_list-Keeps, step_quoted_string-Keeps}
use sfsexp.Safety.Lists.{step_open-Keeps, step_close-Keeps}

-- Every byte is neither NUL nor a backslash.
abbrev pub AreClean : Bytes → Type 0
AreClean [] = Unit {0}
AreClean (c ∷ s) = IsClean c × AreClean s

-- The byte at an offset up to that of the NUL behind the text.
pub byte_at :
    (s rest : Bytes) (t : ℕ)
    → AreClean s
    → t ≤ length s
    → (c : ℕ) × (get_elem? (s ++ 0 ∷ rest) t ≡ some c)
      × (((c == 0) ≡ true) ⊎ (IsClean c × (t < length s)))
byte_at [] rest zero p l = (0, refl, inl refl)
byte_at [] rest (suc t) p l = absurd (omega (arith, l))
byte_at (c ∷ s) rest zero p l = (c, refl, inr (p.0, omega arith))
byte_at (c ∷ s) rest (suc t) p l =
    let (d, e, h) = byte_at s rest t p.1 (omega (arith, l)) in
    (d, e, elim h [ inl z ↦ inl z | inr (clean, i) ↦ inr (clean, omega (arith, i)) ])

pub unreached : (k : Conf) {n : ℕ} (q : State) → k.state ≡ q → Good n k → Holding q k.text
unreached k q e g = subst (λ q. Holding q k.text) e g.holding

pub step_char-Keeps :
    (n c : ℕ) (ahead : Option ℕ) (k : Conf) (r : Run) (q : State)
    → n < int_max
    → IsClean c
    → InConf k r
    → Good n k
    → k.t < n
    → k.state ≡ q
    → Keeps n (step_char q c ahead r)
unfolding step_char
step_char-Keeps n c ahead k r start fits p i g l e = step_start-Keeps n c p k r i g l e
step_char-Keeps n c ahead k r open_paren fits p i g l e = step_open-Keeps n k r i g fits e
step_char-Keeps n c ahead k r close_paren fits p i g l e = step_close-Keeps n k r i g l e
step_char-Keeps n c ahead k r atom fits p i g l e = step_atom-Keeps n c p k r i g l e
step_char-Keeps n c ahead k r dquoted fits p i g l e = step_dquoted-Keeps n c p k r i g l ahead e
step_char-Keeps n c ahead k r dquoted_end fits p i g l e = after_dquoted-Keeps n c p k r i g l e
step_char-Keeps n c ahead k r tick fits p i g l e = step_tick-Keeps n c p k r i g l e
step_char-Keeps n c ahead k r quoted_list fits p i g l e = step_quoted_list-Keeps n c p k r i g l e
step_char-Keeps n c ahead k r quoted_string fits p i g l e =
    step_quoted_string-Keeps n c p k r i g l e
step_char-Keeps n c ahead k r comment fits p i g l e = step_comment-Keeps n c p k r i g l e
step_char-Keeps n c ahead k r quoted_close fits p i g l e = absurd (unreached k quoted_close e g)
step_char-Keeps n c ahead k r hash fits p i g l e = absurd (unreached k hash e g)
step_char-Keeps n c ahead k r hash_b fits p i g l e = absurd (unreached k hash_b e g)
step_char-Keeps n c ahead k r size_string fits p i g l e = absurd (unreached k size_string e g)
step_char-Keeps n c ahead k r blob fits p i g l e = absurd (unreached k blob e g)
step_char-Keeps n c ahead k r (other_state m) fits p i g l e =
    absurd (unreached k (other_state m) e g)

pub empty_at : (d : ℕ) (k : Conf) → (d == 0) ≡ true → Shape d k.levels → k.levels ≡ []
empty_at zero k e s = s
empty_at (suc d) k e s = absurd (ground (arith, e))

-- With no list open there is nothing on the stack.
close_all-Keeps :
    (n : ℕ) (k : Conf) (r : Run)
    → InConf k r
    → Good n k
    → (r.cc.depth == 0) ≡ true
    → Keeps n (close_all r)
unfolding close_all unwind
close_all-Keeps n k r i g e =
    let empty : r.cc.stack.used ≡ [] =
      i.0.levels ∙ empty_at k.depth k (ap (λ d. d == 0) (sym i.0.depth) ∙ e) g.shape in
    let none_left : unwind r.cc.stack.used r ≡ next r = ap (λ u. unwind u r) empty in
    rw none_left (returns tt)

pub incomplete-Keeps :
    (n : ℕ) (mem : Bytes) (len c : ℕ) (r : Run)
    → get_elem? mem r.t ≡ some c
    → Keeps n (incomplete mem len r)
unfolding incomplete
incomplete-Keeps n mem len c r e =
    rw (e, incomplete)
      (elim (Bool-cases (c == 0 || r.t == len)) [
        | inl h ↦ Meets-then _ h (returns tt)
        | inr h ↦ Meets-else _ h (returns tt)
      ])

module _ (s rest : Bytes) (len : ℕ) (fits : length s < int_max) (p : AreClean s) where
  finish-Keeps :
      (c : ℕ) (r : Run)
      → get_elem? (s ++ 0 ∷ rest) r.t ≡ some c
      → Safe (length s) r
      → Keeps (length s) (finish (s ++ 0 ∷ rest) len r)
  unfolding finish
  finish-Keeps c r e (k, i, g) = elim (Bool-cases (r.cc.depth == 0 && ltb 0 r.elts)) [
    | inl h ↦ Meets-then _ h (close_all-Keeps (length s) k r i g (ground (arith, h)))
    | inr h ↦ Meets-else _ h (incomplete-Keeps (length s) (s ++ 0 ∷ rest) len c r e)
  ]

  pub not_blob : (q : State) (t : Bytes) → Holding q t → is_blob q ≡ false
  not_blob blob t h = absurd h
  not_blob _ t h = refl

  pub round-Keeps : (r : Run) → Safe (length s) r → Keeps (length s) (round (s ++ 0 ∷ rest) len r)
  unfolding round
  round-Keeps r (k, i, g) =
      let (c, e, h) = byte_at s rest k.t p g.within in
      let e' : get_elem? (s ++ 0 ∷ rest) r.t ≡ some c = ap (get_elem? (s ++ 0 ∷ rest)) i.0.at ∙ e in
      let b : is_blob r.cc.state ≡ false =
        ap is_blob i.0.state ∙ not_blob k.state k.text g.holding in
      Meets-else _ b (
        rw e' (elim (Bool-cases (c == 0 || r.t == len)) [
          | inl h' ↦ Meets-then _ h' (finish-Keeps c r e' (k, i, g))
          | inr h' ↦ Meets-else _ h' (elim h [
            | inl z ↦ absurd (ground (arith, z, h'))
            | inr (clean, inside) ↦
                step_char-Keeps (length s) c _ k r r.cc.state fits clean i g inside (sym i.0.state)
          ])
        ]))

  -- An end without a fault and without an abort.
  abbrev IsFine : Ended → Type 0
  IsFine Ended.faults = ⊥
  IsFine Ended.aborts = ⊥
  IsFine (returned_null w) = ⊥
  IsFine _ = Unit {0}

  continue_with-IsFine :
      (f : Run → Ended) (o : Outcome Run)
      → Keeps (length s) o
      → ((r : Run) → Safe (length s) r → IsFine (f r))
      → IsFine (continue_with f o)
  continue_with-IsFine f _ (falls {a} h) k = k a h
  continue_with-IsFine f _ (returns h) k = tt
  continue_with-IsFine f _ (aborts h) k = h
  continue_with-IsFine f _ (faults h) k = h

  loop-IsFine : (f : ℕ) (r : Run) → Safe (length s) r → IsFine (loop f (s ++ 0 ∷ rest) len r)
  unfolding loop
  loop-IsFine zero r h = tt
  loop-IsFine (suc f) r h =
      continue_with-IsFine (loop f (s ++ 0 ∷ rest) len) _ (round-Keeps r h) (loop-IsFine f)

  fine_returns :
      (o : Ended) → IsFine o → o ≢ out_of_fuel → (pc : Pcont) × (w : World) × (o ≡ returned pc w)
  fine_returns (returned pc w) h n = (pc, w, refl)
  fine_returns (returned_null w) h n = absurd h
  fine_returns Ended.aborts h n = absurd h
  fine_returns Ended.faults h n = absurd h
  fine_returns out_of_fuel h n = absurd (n refl)

-- On every input without a backslash that ends in a NUL before 2^31 - 1 bytes, well-formed or not and
-- whatever the length argument is, a call of `cparse_sexp` without a continuation returns a
-- continuation, where no request for memory is refused and the value buffer grows by less than 2^63
-- bytes: no access leaves the input, the value buffer or the stack, and no NULL pointer is followed.
pub cparse_sexp-returns :
    (eparse_sexp : Bytes → ℕ → Pcont → World → Ended) (s rest : Bytes) (len : ℕ) (w : World)
    → IsReady w
    → w.val_grow_size < 2 ^ 63
    → AreClean s
    → length s < int_max
    → (pc : Pcont) × (w' : World) × (cparse_sexp eparse_sexp (some (s ++ 0 ∷ rest)) len none w
        ≡ returned pc w')
cparse_sexp-returns eparse_sexp s rest len w q _ p fits =
    let (r, e, i, b, _) = cparse_sexp-starts eparse_sexp (s ++ 0 ∷ rest) len w q in
    let good : Good (length s) at_start = record {
      esc = refl;
      shape = refl;
      holding = refl;
      deep = omega arith;
      within = omega arith;
    } in
    let (pc, w', e') =
      fine_returns s rest len fits p _
        (loop-IsFine s rest len fits p (rounds (s ++ 0 ∷ rest)) r (at_start, i, good))
        (loop-ne-out_of_fuel (rounds (s ++ 0 ∷ rest)) (s ++ 0 ∷ rest) len r b
          (ground (arith, i.0.at, i.0.state))) in
    (pc, w', e ∙ e')
