-- ===== src/Parser/Base.antt =====
-- src/sexp.h `pcont_t` and `parsermode_t`, and the variables of the main loop of src/parser.c.
-- The loop works on copies of the continuation's fields and saves them all before it returns, so
-- both are the one record `Pcont` here. The value buffer is the bytes from `val` up to `vcur`, last
-- first, so `vcur` is no field; the binary buffer is the bytes read so far, last first. Positions are
-- offsets into `sbuffer`. Flags that are 0 or 1 are Booleans; `unsigned int` counters wrap.
use sfsexp.Prelude.{
  ℕ, ◌+◌, ◌-◌, ◌%◌, ◌^◌, ◌≡◌, refl, Bool, true, false, if◌then◌else◌, Option, some, Bytes,
}
use sfsexp.Errors.{Errcode}
use sfsexp.FastStack.{FastStack}
use sfsexp.Sexp.{Sexp, Handlers}
use sfsexp.Cache.{World, world_errno}

-- `parsermode_t`
pub data Mode : Type 0 where
  parser_normal parser_inline_binary parser_events_only : Mode

-- The number of the state, 1 to 15; the last is any other.
pub data State : Type 0 where
  start open_paren close_paren atom dquoted dquoted_end tick quoted_list quoted_close : State
  quoted_string comment hash hash_b size_string blob : State
  other_state : ℕ → State

-- A level of the parser's stack: `data->fst` and what follows it up to `data->lst`, or NULL.
abbrev pub ParseData : Type 0
ParseData = Option Sexp

pub record Pcont : Type 0 where
  pub stack : FastStack ParseData
  pub last_sexp : Sexp
  pub val : Option Bytes
  pub val_allocated : ℕ
  pub val_used : ℕ
  pub last_pos : Option ℕ
  pub sbuffer : Option Bytes
  pub depth : ℕ
  pub qdepth : ℕ
  pub state : State
  pub esc : Bool
  pub squoted : Bool
  pub error : Errcode
  pub mode : Mode
  pub binexpected : ℕ
  pub binread : ℕ
  pub bindata : Option Bytes
  pub event_handlers : Option Handlers

-- The loop's variables: the position `t`, the number of elements made, the last element.
pub record Run : Type 0 where
  pub cc : Pcont
  pub t : ℕ
  pub elts : ℕ
  pub sx : Sexp
  pub w : World

-- What a piece of the loop's body does: fall through with new variables, return from the parser,
-- abort by a failed `assert`, or touch memory that is not the parser's.
pub data Outcome (A : Type 0) : Type 0 where
  next : A → Outcome A
  done : Pcont → World → Outcome A
  aborted : Outcome A
  fault : Outcome A

infixl 5 ◌>>=◌
abbrev pub ◌>>=◌ : {A B : Type 0} → Outcome A → (A → Outcome B) → Outcome B
next a >>= f = f a
done cc w >>= f = done cc w
aborted >>= f = aborted
fault >>= f = fault

-- The macro SAVE_CONT_STATE, and the return that follows each use of it in the loop.
abbrev pub save : {A : Type 0} → Errcode → Sexp → Run → Outcome A
save err ls r =
    done (record r.cc { last_pos = some r.t; last_sexp = ls; error = err }) (world_errno err r.w)

abbrev pub uint_mod : ℕ
uint_mod = 2 ^ 32

abbrev pub uint_inc : ℕ → ℕ
uint_inc n = (n + 1) % uint_mod

abbrev pub uint_dec : ℕ → ℕ
uint_dec n = (n + uint_mod - 1) % uint_mod

-- A postcondition of a piece of the loop's body: `P` of what it falls through with, `Q` of what it
-- returns, and `F` where it aborts or faults.
pub data Meets {A : Type 0} (P : A → Type 0) (Q : Pcont → World → Type 0) (F : Type 0)
    : Outcome A → Type 0 where
  falls : {a : A} → P a → Meets P Q F (next a)
  returns : {pc : Pcont} {w : World} → Q pc w → Meets P Q F (done pc w)
  aborts : F → Meets P Q F aborted
  faults : F → Meets P Q F fault

module _ {Q : Pcont → World → Type 0} {F : Type 0} where
  pub Meets-bind :
      {A B : Type 0} {P : A → Type 0} {R : B → Type 0} {m : Outcome A} {f : A → Outcome B}
      → Meets P Q F m
      → ((a : A) → P a → Meets R Q F (f a))
      → Meets R Q F (m >>= f)
  Meets-bind (falls {a} p) k = k a p
  Meets-bind (returns q) k = returns q
  Meets-bind (aborts x) k = aborts x
  Meets-bind (faults x) k = faults x

  pub Meets-mono :
      {A : Type 0} {P R : A → Type 0} {m : Outcome A}
      → Meets P Q F m
      → ((a : A) → P a → R a)
      → Meets R Q F m
  Meets-mono (falls {a} p) k = falls (k a p)
  Meets-mono (returns q) k = returns q
  Meets-mono (aborts x) k = aborts x
  Meets-mono (faults x) k = faults x

  pub Meets-if :
      {A : Type 0} {P : A → Type 0} (b : Bool) {x y : Outcome A}
      → (b ≡ true → Meets P Q F x)
      → (b ≡ false → Meets P Q F y)
      → Meets P Q F (if b then x else y)
  Meets-if true hx hy = hx refl
  Meets-if false hx hy = hy refl

  -- The branch that a known test takes.
  pub Meets-then :
      {A : Type 0} {P : A → Type 0} {b : Bool} {x : Outcome A} (y : Outcome A)
      → b ≡ true
      → Meets P Q F x
      → Meets P Q F (if b then x else y)
  Meets-then y e h = rw e h

  pub Meets-else :
      {A : Type 0} {P : A → Type 0} {b : Bool} (x : Outcome A) {y : Outcome A}
      → b ≡ false
      → Meets P Q F y
      → Meets P Q F (if b then x else y)
  Meets-else x e h = rw e h
