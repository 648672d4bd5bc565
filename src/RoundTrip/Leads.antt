-- ===== src/RoundTrip/Leads.antt =====
-- Runs of the main loop of src/parser.c to their return, with no count of the rounds, and the text
-- that lies ahead in the input.
use sfsexp.Prelude.{
  ℕ, zero, suc, ◌+◌, ◌<◌, ◌≡◌, refl, sym, false, ◌||◌, [], ◌∷◌, ◌++◌, Bytes, some, length,
  get_elem?, ◌==◌, arith,
}
use mathlib.Core.Path.{subst}
use sfsexp.Cache.{World}
use sfsexp.Parser.Base.{
  State, Pcont, Run, Outcome, next, done, ◌>>=◌, Meets, falls, returns, aborts, faults,
}
use sfsexp.Parser.Loop.{returned, is_blob, round, loop}
use sfsexp.Parser.Step.{step_char}
use sfsexp.Parser.Progress.Measure.{IsBlobBounded}
use sfsexp.Parser.Progress.{left, Shrinks, round-Shrinks}
use sfsexp.RoundTrip.Conf.{Conf, InConf, Surely}

-- From `r` the loop returns a continuation and a world that satisfy `Q`.
pub data Leads (mem : Bytes) (len : ℕ) (Q : Pcont → World → Type 0) : Run → Type 0 where
  more : {r r' : Run} → round mem len r ≡ next r' → Leads mem len Q r' → Leads mem len Q r
  stop :
      {r : Run} {pc : Pcont} {w : World} → round mem len r ≡ done pc w → Q pc w → Leads mem len Q r

next_meets :
    {A : Type 0} {P : A → Type 0} {Q : Pcont → World → Type 0} {F : Type 0} {a : A}
    → Meets P Q F (next a)
    → P a
next_meets (falls p) = p

-- Code that is known to fall through, and what follows it.
pub Surely-then :
    {A B : Type 0} {P : A → Type 0} {R : B → Type 0} {Q : Pcont → World → Type 0} {F : Type 0}
    {m : Outcome A} {f : A → Outcome B}
    → Surely P m
    → ((a : A) → P a → Meets R Q F (f a))
    → Meets R Q F (m >>= f)
Surely-then (falls {a} p) k = k a p
Surely-then (returns x) k = absurd x
Surely-then (aborts x) k = absurd x
Surely-then (faults x) k = absurd x

pub Surely-last :
    {A : Type 0} {P R : A → Type 0} {Q : Pcont → World → Type 0} {F : Type 0} {m : Outcome A}
    → Surely P m
    → ((a : A) → P a → R a)
    → Meets R Q F m
Surely-last (falls {a} p) k = falls (k a p)
Surely-last (returns x) k = absurd x
Surely-last (aborts x) k = absurd x
Surely-last (faults x) k = absurd x

-- Code behind which the loop leads to `Q`.
abbrev pub Carried : Bytes → ℕ → (Pcont → World → Type 0) → Outcome Run → Type 0
Carried mem len Q o = Meets (Leads mem len Q) Q ⊥ o

module _ {mem : Bytes} {len : ℕ} {Q : Pcont → World → Type 0} where
  proceed_by :
      (r : Run) (o : Outcome Run) → round mem len r ≡ o → Carried mem len Q o → Leads mem len Q r
  proceed_by r _ e (falls l) = more e l
  proceed_by r _ e (returns q) = stop e q
  proceed_by r _ e (aborts x) = absurd x
  proceed_by r _ e (faults x) = absurd x

  pub proceed : (r : Run) → Carried mem len Q (round mem len r) → Leads mem len Q r
  proceed r = proceed_by r (round mem len r) refl

  -- With enough fuel the loop returns what `Leads` says.
  pub loop-Leads :
      (f : ℕ) {r : Run}
      → IsBlobBounded r
      → left mem r < f
      → Leads mem len Q r
      → (pc : Pcont) × (w : World) × (loop f mem len r ≡ returned pc w) × Q pc w
  unfolding loop
  loop-Leads zero b h l = absurd (omega arith)
  loop-Leads (suc f) b h (more {r} {r'} e l) =
      let s = next_meets (subst (Shrinks mem r) e (round-Shrinks mem len r b)) in
      rw e (loop-Leads f s.1 (omega arith) l)
  loop-Leads (suc f) b h (stop {pc} {w} e q) = rw e (pc, w, refl, q)

-- The byte at offset `t`: it is within the length and does not end the input.
pub record At (mem : Bytes) (len t c : ℕ) : Type 0 where
  pub byte : get_elem? mem t ≡ some c
  pub nonzero : (c == 0) ≡ false
  pub inside : t < len

-- `text` lies ahead in the memory at offset `t`.
abbrev pub Reads : Bytes → ℕ → ℕ → Bytes → Type 0
Reads mem len t [] = Unit {0}
Reads mem len t (c ∷ cs) = At mem len t c × Reads mem len (t + 1) cs

pub Reads-append :
    (mem : Bytes) (len t : ℕ) (s s' : Bytes)
    → Reads mem len t (s ++ s')
    → Reads mem len t s × Reads mem len (t + length s) s'
Reads-append mem len t [] s' h = (tt, subst (λ u. Reads mem len u s') (omega arith) h)
Reads-append mem len t (c ∷ cs) s' h =
    let i = Reads-append mem len (t + 1) cs s' h.1 in
    ((h.0, i.0), subst (λ u. Reads mem len u s') (omega arith) i.1)

pub Reads-join :
    (mem : Bytes) (len t : ℕ) (s s' : Bytes)
    → Reads mem len t s
    → Reads mem len (t + length s) s'
    → Reads mem len t (s ++ s')
Reads-join mem len t [] s' h h' = subst (λ u. Reads mem len u s') (omega arith) h'
Reads-join mem len t (c ∷ cs) s' h h' =
    (h.0, Reads-join mem len (t + 1) cs s' h.1 (subst (λ u. Reads mem len u s') (omega arith) h'))

-- There is a byte ahead of a text and one more byte.
pub Reads-first :
    (mem : Bytes) (len t c : ℕ) (s s' : Bytes)
    → Reads mem len t (s ++ c ∷ s')
    → (c₀ : ℕ) × At mem len t c₀
Reads-first mem len t c [] s' h = (_, h.0)
Reads-first mem len t c (c₀ ∷ s) s' h = (c₀, h.0)

-- A round at a byte that does not end the input.
pub round_from :
    {Q : Pcont → World → Type 0} {mem : Bytes} {len c : ℕ} (q : State) (t : ℕ) (r : Run)
    → r.cc.state ≡ q
    → r.t ≡ t
    → is_blob q ≡ false
    → At mem len t c
    → Carried mem len Q (step_char q c (get_elem? mem (t + 1)) r)
    → Leads mem len Q r
unfolding round
round_from {Q} {mem} {len} {c} q t r eq et b a m =
    let stays : is_blob r.cc.state ≡ false = rw eq b in
    let ahead : get_elem? mem r.t ≡ some c = rw et a.byte in
    let within : (c == 0 || r.t == len) ≡ false = ground (arith, et, a.inside, a.nonzero) in
    proceed r (
      rw stays (
        rw ahead (
          rw within (
            subst (λ q. Carried mem len Q (step_char q c (get_elem? mem (r.t + 1)) r)) (sym eq)
              (subst (λ u. Carried mem len Q (step_char q c (get_elem? mem (u + 1)) r)) (sym et)
                m)))))

pub round_on :
    {Q : Pcont → World → Type 0} {mem : Bytes} {len c : ℕ} (k : Conf) (r : Run)
    → InConf k r
    → is_blob k.state ≡ false
    → At mem len k.t c
    → Carried mem len Q (step_char k.state c (get_elem? mem (k.t + 1)) r)
    → Leads mem len Q r
round_on k r i = round_from k.state k.t r i.0.state i.0.at
