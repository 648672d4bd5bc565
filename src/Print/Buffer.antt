-- ===== src/Print/Buffer.antt =====
-- src/sexp.c, `print_sexp`: the walk over an expression that turns it into text in a buffer of a fixed
-- size. The buffer is a zipper at `b`: `before` are the bytes before it, last first, and `after` those
-- from it on. Writing outside of the buffer is `outside`, following a NULL pointer `wild`. `depth`
-- is an int, given by its 32 bits.
pub mod Call
pub mod Writing
pub mod Values
pub mod Walk
pub mod Rounds
pub mod Whole
pub mod Reread
use sfsexp.Prelude.{
  ℕ, zero, suc, ◌+◌, ◌-◌, Bool, true, false, ◌||◌, ◌&&◌, List, [], ◌∷◌, ◌++◌, Option, none, some,
  Bytes, ltb, leb, ◌==◌, if◌then◌else◌, length,
}
use mathlib.Core.List.{reverse}
use sfsexp.Memory.{Heap, size_mod}
use sfsexp.FastStack.{FastStack, int_inc, int_dec, is_low, push, pop, set_top, empty_stack}
use sfsexp.Sexp.{AtomType, squote, dquote, null, stale, text, Value, value, list, Sexp, nil, node}
use sfsexp.SexpOps.{is_binary, first_bytes}
use sfsexp.Print.{digits, is_dquote}

pub record Page : Type 0 where
  pub before : Bytes
  pub after : Bytes
  pub left : ℕ
  pub stack : FastStack Sexp
  pub depth : ℕ
  pub heap : Heap

-- What code leads to: it goes on, or it ran out of space.
pub data Ink : Type 0 where
  goes full : Page → Ink
  outside wild : Ink

infixl 5 ◌onto◌
abbrev pub ◌onto◌ : Ink → (Page → Ink) → Ink
goes p onto f = f p
full p onto f = full p
outside onto f = outside
wild onto f = wild

-- `left--` on a size_t
abbrev pub size_dec : ℕ → ℕ
size_dec zero = size_mod - 1
size_dec (suc n) = n

-- `b--; b[0] = 0`, and the end of the call
unfoldable pub out_of_space : Page → Ink
out_of_space p = elim p.before [ [] ↦ outside | _ ∷ s ↦ full (record p { before = 0 ∷ s }) ]

-- `b[0] = c; b++`
unfoldable pub write_byte : ℕ → Page → Ink
write_byte c p = elim p.after [
  | [] ↦ outside
  | _ ∷ s ↦ goes (record p { before = c ∷ p.before; after = s })
]

abbrev pub count_byte : Page → Ink
count_byte p =
    if size_dec p.left == 0
    then out_of_space (record p { left = size_dec p.left })
    else goes (record p { left = size_dec p.left })

unfoldable pub add_char_break_full : ℕ → Page → Ink
unfolding write_byte
add_char_break_full c p = write_byte c p onto count_byte

-- The characters of a text, in a text in double quotes with backslashes before some.
unfoldable pub write_text : Bool → Bytes → Page → Ink
unfolding add_char_break_full
write_text quoted [] p = goes p
write_text quoted (c ∷ cs) p =
    if ltb 0 p.left
    then ((if (c == b'"' || c == b'\\') && quoted then add_char_break_full b'\\' p else goes p)
        onto add_char_break_full c
        onto write_text quoted cs)
    else goes p

unfoldable pub write_prefix : AtomType → Page → Ink
unfolding add_char_break_full
write_prefix dquote p = add_char_break_full b'"' p
write_prefix squote p = add_char_break_full b'\'' p
write_prefix _ p = goes p

-- Bytes written from `b` on, and `b` behind them; `left` is not counted.
unfoldable pub write_all : Bytes → Page → Ink
unfolding write_byte
write_all [] p = goes p
write_all (c ∷ s) p = write_byte c p onto write_all s

-- `snprintf` writes into the buffer, with a NUL behind it, as much as fits into `left` bytes, which is
-- not 0 here, and returns the length of the whole text, `d`.
unfoldable pub write_length : Bytes → Page → Ink
unfolding write_all write_byte
write_length d p =
    let cut = first_bytes (p.left - 1) d in
    if leb p.left (length d)
    then (write_all cut p onto write_byte 0 onto λ p'.
        out_of_space (record p { after = cut ++ 0 ∷ p'.after }))
    else write_all d p onto λ p'. write_byte 0 p' onto λ p''.
        goes (record p' { after = 0 ∷ p''.after; left = p.left - length d })

-- `memcpy` of the data, if there is any
unfoldable pub write_data : Value → Page → Ink
unfolding write_all
write_data v p =
    if ltb 0 v.binlength
    then elim v.bindata [
      | none ↦ wild
      | some b ↦
          if ltb (length b) v.binlength
          then wild
          else (write_all (first_bytes v.binlength b) p onto λ p'.
              goes (record p' { left = p.left - v.binlength }))
    ]
    else goes p

-- Binary data, and every value without a text.
unfoldable pub write_binary : Value → Page → Ink
unfolding write_length write_data add_char_break_full
write_binary v p =
    if ltb 3 p.left
    then (add_char_break_full b'#' p
        onto add_char_break_full b'b'
        onto add_char_break_full b'#'
        onto write_length (digits 20 v.binlength (b'#' ∷ []))
        onto λ p'.
            if ltb p'.left v.binlength
            then out_of_space p'
            else write_data v p' onto add_char_break_full b' ')
    else out_of_space p

unfoldable pub write_val : Value → Page → Ink
unfolding write_text
write_val v p = elim v.val [
  | null ↦ wild
  | stale ↦ wild
  | text s ↦ write_text (is_dquote v.aty) s p
]

abbrev pub check_left : Page → Ink
check_left p = if p.left == 0 then out_of_space p else goes p

abbrev pub is_worded : Value → Bool
is_worded v = (if is_binary v.aty then false else true) && ltb 0 v.val_used

unfoldable pub write_value : Value → Page → Ink
unfolding write_prefix write_binary write_val
write_value v p =
    write_prefix v.aty p
    onto (λ p'. if is_worded v then write_val v p' else write_binary v p')
    onto (λ p'. if is_dquote v.aty && ltb 0 p'.left then add_char_break_full b'"' p' else goes p')
    onto check_left

-- `top->data = top->data->next`, and a space where something follows.
abbrev pub advance_from : Page → List Sexp → Ink
advance_from p [] = wild
advance_from p (nil ∷ _) = wild
advance_from p (node e nil ∷ _) = goes (record p { stack = set_top nil p.stack })
advance_from p (node e (node d rest) ∷ _) =
    add_char_break_full b' ' (record p { stack = set_top (node d rest) p.stack })

unfoldable pub advance_level : Page → Ink
unfolding add_char_break_full set_top
advance_level p = advance_from p p.stack.used

-- `pop(stack)` and `push(stack, l)`; where the push fails the stack is as it was.
unfoldable pub leave_level : Page → Page
unfolding pop
leave_level p =
    let (h, s, lvl) = pop (some p.stack) p.heap in
    record p { heap = h; stack = elim s [ none ↦ p.stack | some s' ↦ s' ] }

unfoldable pub enter_level : Sexp → Page → Page
unfolding push
enter_level l p =
    let (h, s) = push (some p.stack) l p.heap in
    record p { heap = h; stack = elim s [ none ↦ p.stack | some s' ↦ s' ] }

-- What a round of the loop leads to.
pub data Round : Type 0 where
  more over : Ink → Round

abbrev pub end_level : Page → Round
end_level p = if empty_stack p.stack then over (goes p) else more (advance_level p)

abbrev pub after_paren : Ink → Round
after_paren (goes p) = end_level p
after_paren i = over i

-- At the end of a chain its level is popped, and a list that was open is closed.
unfoldable pub close_level : Page → Round
unfolding leave_level advance_level
close_level p =
    if is_low p.depth
    then end_level (leave_level p)
    else after_paren (add_char_break_full b')' (record (leave_level p) { depth = int_dec p.depth }))

abbrev pub round_on : Page → List Sexp → Round
round_on p [] = over (goes p)
round_on p (nil ∷ _) = close_level p
round_on p (node (value v) rest ∷ _) = more (write_value v p onto advance_level)
round_on p (node (list l) rest ∷ _) = more (
    add_char_break_full b'(' (record p { depth = int_inc p.depth }) onto λ p'.
    goes (enter_level l p'))

unfoldable pub buffer_round : Page → Round
unfolding write_value enter_level close_level
buffer_round p = round_on p p.stack.used

-- How the loop ends; `none` where the fuel is spent, which has no counterpart in the program.
abbrev pub after_round : (Page → Option Ink) → Round → Option Ink
after_round k (more (goes p)) = k p
after_round k (more i) = some i
after_round k (over i) = some i

unfoldable pub buffer_loop : ℕ → Page → Option Ink
unfolding buffer_round
buffer_loop zero p = none
buffer_loop (suc f) p = after_round (buffer_loop f) (buffer_round p)
