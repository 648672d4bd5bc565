-- ===== src/Print.antt =====
-- src/sexp.c, `print_sexp_cstr`: the walk over an expression that turns it into text. The elements
-- still to be printed stand on a stack, one level for each list that is open; the data of a level is
-- a chain, NULL at its end. Following a NULL pointer is `wild`. `depth` is an int, given by its 32
-- bits.
pub mod Call
pub mod Writing
pub mod Walk
pub mod Text
pub mod Whole
pub mod Reread
pub mod Buffer
pub mod Pcont
use sfsexp.Prelude.{
  ℕ, zero, suc, ◌+◌, ◌-◌, ◌%◌, ◌/◌, Bool, true, false, ◌||◌, ◌&&◌, List, [], ◌∷◌, ◌++◌, Option,
  none, some, Bytes, ltb, leb, ◌==◌, if◌then◌else◌, length,
}
use sfsexp.Errors.{err_memory}
use sfsexp.Memory.{Heap}
use sfsexp.FastStack.{
  FastStack, int_mod, int_inc, int_dec, is_low, push, pop, set_top, empty_stack, make_stack,
  destroy_stack,
}
use sfsexp.Sexp.{
  AtomType, basic, squote, dquote, binary, CharPtr, null, stale, text, Value, Elt, value, list,
  Sexp, nil, node,
}
use sfsexp.Cache.{World, world_errno, sexp_t_deallocate}
use sfsexp.CString.{CString, snew, sadd, saddch}
use sfsexp.SexpOps.{is_binary, copy_sexp, first_bytes}

pub record Printing : Type 0 where
  pub out : Option CString
  pub stack : FastStack Sexp
  pub depth : ℕ
  pub heap : Heap

infixl 5 ◌then◌
abbrev pub ◌then◌ : Option Printing → (Printing → Option Printing) → Option Printing
none then f = none
some p then f = f p

-- `_s = saddch(_s, c)`
unfoldable pub put : ℕ → ℕ → Printing → Option Printing
put grow c p = elim (saddch p.out c grow p.heap) [
  | none ↦ none
  | some (h, s) ↦ some (record p { out = s; heap = h })
]

unfoldable pub put_all : ℕ → Bytes → Printing → Option Printing
put_all grow [] p = some p
put_all grow (c ∷ cs) p = put grow c p then put_all grow cs

-- `_s = sadd(_s, a)`
unfoldable pub put_string : ℕ → Bytes → Printing → Option Printing
put_string grow a p = elim (sadd p.out (some a) grow p.heap) [
  | none ↦ none
  | some (h, s) ↦ some (record p { out = s; heap = h })
]

-- Decimal digits before `acc`; an unsigned long of 64 bits has 20 at most.
unfoldable pub digits : ℕ → ℕ → Bytes → Bytes
digits zero n acc = acc
digits (suc f) n acc =
    let rest = digits f (n / 10) ((b'0' + n % 10) ∷ acc) in
    if ltb n 10 then (b'0' + n % 10) ∷ acc else rest

abbrev pub is_dquote : AtomType → Bool
is_dquote dquote = true
is_dquote _ = false

-- The characters of a text, in a text in double quotes with backslashes before some.
unfoldable pub put_text : ℕ → Bool → Bytes → Printing → Option Printing
unfolding put
put_text grow quoted [] p = some p
put_text grow quoted (c ∷ cs) p =
    (if (c == b'"' || c == b'\\') && quoted then put grow b'\\' p else some p)
    then put grow c
    then put_text grow quoted cs

-- What stands before a text.
unfoldable pub put_prefix : ℕ → AtomType → Printing → Option Printing
unfolding put
put_prefix grow dquote p = put grow b'"' p
put_prefix grow squote p = put grow b'\'' p
put_prefix grow _ p = some p

-- An unsigned int counts the bytes, so that the loop has no end where there are 2^32 or more: `none`.
unfoldable pub put_binary : ℕ → Value → Printing → Option Printing
unfolding put put_all put_string digits
put_binary grow v p =
    put_string grow (b'#' ∷ b'b' ∷ b'#' ∷ digits 20 v.binlength (b'#' ∷ [])) p then λ p'.
    elim v.bindata [
      | none ↦ if ltb 0 v.binlength then none else put grow b' ' p'
      | some b ↦
          if ltb (length b) v.binlength || leb int_mod v.binlength
          then none
          else (put_all grow (first_bytes v.binlength b) p' then put grow b' ')
    ]

unfoldable pub put_val : ℕ → Value → Printing → Option Printing
unfolding put_text
put_val grow v p =
    if ltb 0 v.val_used
    then elim v.val [ null ↦ none | stale ↦ none | text s ↦ put_text grow (is_dquote v.aty) s p ]
    else some p

unfoldable pub put_value : ℕ → Value → Printing → Option Printing
unfolding put_prefix put_binary put_val
put_value grow v p =
    put_prefix grow v.aty p
    then (λ p'. if is_binary v.aty then put_binary grow v p' else put_val grow v p')
    then λ p'. if is_dquote v.aty then put grow b'"' p' else some p'

-- `top->data = top->data->next`, and a space where something follows.
abbrev pub advance_on : ℕ → Printing → List Sexp → Option Printing
advance_on grow p [] = none
advance_on grow p (nil ∷ _) = none
advance_on grow p (node e nil ∷ _) = some (record p { stack = set_top nil p.stack })
advance_on grow p (node e (node d rest) ∷ _) =
    put grow b' ' (record p { stack = set_top (node d rest) p.stack })

unfoldable pub advance_top : ℕ → Printing → Option Printing
unfolding put set_top
advance_top grow p = advance_on grow p p.stack.used

-- What a round of the loop leads to.
pub data Turn : Type 0 where
  more over : Printing → Turn
  wild : Turn

abbrev pub turn : Option Printing → Turn
turn none = wild
turn (some p) = more p

-- `pop(stack)`, whose result is not used.
unfoldable pub pop_chain : Printing → Printing
unfolding pop
pop_chain p =
    let (h, s, lvl) = pop (some p.stack) p.heap in
    record p { heap = h; stack = elim s [ none ↦ p.stack | some s' ↦ s' ] }

-- `push(stack, l)`, whose result is not used: where it fails the stack is as it was.
unfoldable pub push_chain : Sexp → Printing → Printing
unfolding push
push_chain l p =
    let (h, s) = push (some p.stack) l p.heap in
    record p { heap = h; stack = elim s [ none ↦ p.stack | some s' ↦ s' ] }

abbrev pub end_chain : ℕ → Printing → Turn
end_chain grow p = if empty_stack p.stack then over p else turn (advance_top grow p)

-- At the end of a chain its level is popped, and a list that was open is closed.
unfoldable pub close_chain : ℕ → Printing → Turn
unfolding put pop_chain advance_top
close_chain grow p =
    if is_low p.depth then end_chain grow (pop_chain p) else elim (put grow b')' (pop_chain p)) [
      | none ↦ wild
      | some p' ↦ end_chain grow (record p' { depth = int_dec p'.depth })
    ]

-- A round, on the levels of the stack.
abbrev pub turn_on : ℕ → Printing → List Sexp → Turn
turn_on grow p [] = over p
turn_on grow p (nil ∷ _) = close_chain grow p
turn_on grow p (node (value v) rest ∷ _) = turn (put_value grow v p then advance_top grow)
turn_on grow p (node (list l) rest ∷ _) =
    turn (put grow b'(' (record p { depth = int_inc p.depth }) then λ p'. some (push_chain l p'))

unfoldable pub print_round : ℕ → Printing → Turn
unfolding put_value push_chain close_chain
print_round grow p = turn_on grow p p.stack.used

-- How the loop ends; `spent` has no counterpart in the program.
pub data Printed : Type 0 where
  printed : Printing → Printed
  strays spent : Printed

abbrev pub after_turn : (Printing → Printed) → Turn → Printed
after_turn k (more p) = k p
after_turn k (over p) = printed p
after_turn k wild = strays

unfoldable pub print_loop : ℕ → ℕ → Printing → Printed
unfolding print_round
print_loop zero grow p = spent
print_loop (suc f) grow p = after_turn (print_loop f grow) (print_round grow p)

-- Rounds that are enough for a chain: one for each value, two for each list.
unfoldable pub walk_rounds : Sexp → ℕ
walk_rounds nil = 0
walk_rounds (node (value v) rest) = walk_rounds rest + 1
walk_rounds (node (list l) rest) = walk_rounds rest + 1 + walk_rounds l + 1
