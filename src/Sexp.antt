-- ===== src/Sexp.antt =====
-- src/sexp.h: elements of an s-expression (`sexp_t`), the atom types, and the parser's event
-- handlers. A `sexp_t *` is a value of `Sexp`: NULL, or an element with its `next` pointer. An
-- element is what `ty` says, a value with the fields that values use, or a list with its `list`.
pub mod View
use sfsexp.Prelude.{ℕ, Bool, Option, Bytes}

-- `atom_t`
pub data AtomType : Type 0 where
  basic squote dquote binary : AtomType

-- A `char *` field: NULL, what the memory held before (never assigned), or a string, without its
-- terminating NUL.
pub data CharPtr : Type 0 where
  null stale : CharPtr
  text : Bytes → CharPtr

pub record Value : Type 0 where
  pub aty : AtomType
  pub val : CharPtr
  pub val_allocated : ℕ
  pub val_used : ℕ
  pub bindata : Option Bytes
  pub binlength : ℕ

mutual
  pub data Elt : Type 0 where
    value : Value → Elt
    list : Sexp → Elt

  pub data Sexp : Type 0 where
    nil : Sexp
    node : Elt → Sexp → Sexp

-- The arguments of a call of a handler.
pub data Event : Type 0 where
  start_sexpr end_sexpr : Event
  characters : Bytes → ℕ → AtomType → Event
  binary_data : Option Bytes → ℕ → Event

-- `parser_event_handlers_t`: which of the function pointers are not NULL.
pub record Handlers : Type 0 where
  pub start_sexpr : Bool
  pub end_sexpr : Bool
  pub characters : Bool
  pub binary : Bool

-- `lst->next = sx; lst = sx`: an element behind the last of a chain.
abbrev pub snoc : Sexp → Elt → Sexp
snoc nil e = node e nil
snoc (node d rest) e = node d (snoc rest e)

-- The chain `xs` with `ys` behind it.
infixr 65 ◌+++◌
abbrev pub ◌+++◌ : Sexp → Sexp → Sexp
nil +++ ys = ys
node e xs +++ ys = node e (xs +++ ys)
