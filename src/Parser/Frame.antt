-- ===== src/Parser/Frame.antt =====
-- What the blocks of code that the states share leave alone: the position, the state, and the
-- counters of binary data.
use sfsexp.Prelude.{ℕ, ◌≡◌, refl, Bool, Bytes, arith}
use sfsexp.Sexp.{AtomType, Elt}
use sfsexp.Cache.{World, sexp_t_allocate}
use sfsexp.Parser.Base.{
  ParseData, Run, Outcome, next, done, aborted, fault, Meets, falls, returns, aborts, faults,
  Meets-bind,
}
use sfsexp.Parser.Actions.{
  need, new_val, put_char, overwrite, terminate, make_atom, attach, push_data, pop_data,
}
use sfsexp.Parser.Structure.{close_list}

-- `r'` is at the position and in the state of `r`, with as much binary data read and expected.
pub record Stays (r r' : Run) : Type 0 where
  pub at : r'.t ≡ r.t
  pub in_state : r'.cc.state ≡ r.cc.state
  pub read : r'.cc.binread ≡ r.cc.binread
  pub expected : r'.cc.binexpected ≡ r.cc.binexpected

-- Whatever happens where the code does not fall through.
abbrev pub Partly : {A : Type 0} → (A → Type 0) → Outcome A → Type 0
Partly P o = Meets P (λ _ _. Unit {0}) (Unit {0}) o

pub Partly-intro :
    {A : Type 0} {P : A → Type 0} (o : Outcome A) → ((a : A) → o ≡ next a → P a) → Partly P o
Partly-intro (next a) h = falls (h a refl)
Partly-intro (done pc w) h = returns tt
Partly-intro aborted h = aborts tt
Partly-intro fault h = faults tt

pub push_data-Stays : (d : ParseData) (r : Run) → Stays r (push_data d r)
unfolding push_data
push_data-Stays d r = ground arith

pub put_char-Stays : (b : Bool) (c : ℕ) (r : Run) → Partly (Stays r) (put_char b c r)
unfolding put_char
put_char-Stays b c r = Partly-intro (put_char b c r) (λ r' e. ground arith)

pub overwrite-Stays : (c : ℕ) (r : Run) → Partly (Stays r) (overwrite c r)
unfolding overwrite
overwrite-Stays c r = Partly-intro (overwrite c r) (λ r' e. ground arith)

pub terminate-falls : (r : Run) → Partly (λ (s : Bytes). Unit {0}) (terminate r)
terminate-falls r = Partly-intro (terminate r) (λ s e. tt)

pub need-Stays : (f : World → World × Bool) (r : Run) → Partly (Stays r) (need f r)
unfolding need
need-Stays f r = Partly-intro (need f r) (λ r' e. ground arith)

pub new_val-Stays : (sx : Elt) (r : Run) → Partly (Stays r) (new_val sx r)
unfolding new_val
new_val-Stays sx r = Partly-intro (new_val sx r) (λ r' e. ground arith)

pub make_atom-Stays :
    (a : AtomType) (b : Bool) (s : Bytes) (r : Run)
    → Partly (λ (p : Run × Elt). Stays r p.0) (make_atom a b s r)
unfolding make_atom
make_atom-Stays a b s r =
    Meets-bind (need-Stays sexp_t_allocate r)
      λ r₁ p. Meets-bind (new_val-Stays _ _) λ r₂ q. falls (ground (arith, p, q))

pub attach-Stays : (sx : Elt) (r : Run) → Partly (Stays r) (attach sx r)
unfolding attach
attach-Stays sx r = Partly-intro (attach sx r) (λ r' e. ground arith)

pub pop_data-Stays : (r : Run) → Partly (Stays r) (pop_data r)
unfolding pop_data
pop_data-Stays r = Partly-intro (pop_data r) (λ r' e. ground arith)

pub close_list-Stays : (r : Run) → Partly (Stays r) (close_list r)
unfolding close_list
close_list-Stays r = Partly-intro (close_list r) (λ r' e. ground arith)
