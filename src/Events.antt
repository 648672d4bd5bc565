-- ===== src/Events.antt =====
-- src/event_temp.c, `eparse_sexp`: the parser for PARSER_EVENTS_ONLY, which calls the handlers and
-- makes no elements. It is a copy of the main loop of `cparse_sexp`, and its variables are those of
-- that loop's model; of the stack it uses the height alone. Where a request for memory is refused an
-- `assert` fails. `c` is the byte at `t`.
pub mod Binary
pub mod Loop
pub mod Progress
pub mod Total
pub mod Alike
use sfsexp.Prelude.{
  ℕ, ◌+◌, ◌-◌, Bool, true, false, ◌&&◌, [], ◌∷◌, Option, none, some, Bytes, ltb, ◌==◌,
  if◌then◌else◌, length,
}
use sfsexp.Errors.{err_ok, err_badform}
use sfsexp.Memory.{sexp_realloc}
use sfsexp.Sexp.{AtomType, squote, dquote, nil, Event}
use sfsexp.FastStack.{is_low, int_inc, int_dec}
use sfsexp.Cache.{on_heap}
use sfsexp.Parser.Base.{
  start, open_paren, close_paren, atom, dquoted, dquoted_end, tick, quoted_list, quoted_string,
  comment, hash, Run, Outcome, next, done, aborted, fault, ◌>>=◌, uint_inc,
}
use sfsexp.Parser.Actions.{emit, is_escape, overwrite, terminate}
use sfsexp.Parser.Vars.{
  goto, advance, set_esc, set_squoted, rewound, is_space, is_special, is_atom_char, is_binary_mode,
}
use sfsexp.Parser.Atoms.{used_inc, atom_type, after_atom}
use sfsexp.Parser.Quoted.{quoted_nest, is_quoted_close}

-- `sexp_val_grow_size` of this file, which `set_parser_buffer_params` does not set.
abbrev pub grow_size : ℕ
grow_size = 64

-- `val_used++`, the test for a full buffer and its growth, after the byte was stored.
unfoldable pub grow_buffer : Bytes → Run → Outcome Run
grow_buffer b r =
    if r.cc.val_used + 1 == r.cc.val_allocated
    then (let (w, granted) =
          on_heap (sexp_realloc (r.cc.val_allocated + grow_size) r.cc.val_allocated) r.w in
        if granted
        then (if r.cc.val_used + 1 == length b
            then next (record r {
              w = w;
              cc = record r.cc {
                val = some b;
                val_used = r.cc.val_used + 1;
                val_allocated = r.cc.val_allocated + grow_size;
              };
            })
            else fault)
        else aborted)
    else next (record r { cc = record r.cc { val = some b; val_used = r.cc.val_used + 1 } })

-- `vcur[0] = c`, a fault outside the buffer, and the rest of the block.
unfoldable pub store_char : ℕ → Run → Outcome Run
unfolding grow_buffer
store_char c r = elim r.cc.val [
  | none ↦ fault
  | some b ↦ if ltb (length b) r.cc.val_allocated then grow_buffer (c ∷ b) r else fault
]

-- `elts++`
abbrev pub counted_elt : Run → Run
counted_elt r = record r { elts = uint_inc r.elts }

-- The handler is told a text, and the buffer is empty again.
unfoldable pub tell_text : AtomType → Bytes → Run → Run
tell_text aty s r =
    let told = emit (λ h. h.characters) (Event.characters s r.cc.val_used aty) (counted_elt r) in
    let r' = rewound told in record r' { cc = record r'.cc { val_used = 0 } }

-- What is saved where an expression is complete.
unfoldable pub leave : Run → Outcome Run
leave r =
    done
      (record r.cc {
        last_pos = some r.t;
        last_sexp = nil;
        error = err_ok;
        state = start;
        esc = false;
      })
      r.w

abbrev pub set_height : ℕ → Run → Run
set_height n r = record r { cc = record r.cc { stack = record r.cc.stack { height = n } } }

-- A text that stands alone is the expression.
unfoldable pub tell_end : Run → Run → Outcome Run
unfolding leave
tell_end result r = if is_low r.cc.stack.height then leave (set_squoted false result) else next r

-- case 1
unfoldable pub on_start : ℕ → Run → Outcome Run
on_start c r =
    if is_space c
    then next (advance r)
    else if c == b';'
    then next (goto comment (advance r))
    else if c == b'('
    then next (emit (λ h. h.start_sexpr) Event.start_sexpr (goto open_paren (advance r)))
    else if c == b')'
    then next (goto close_paren r)
    else if c == b'"'
    then next (goto dquoted (advance (rewound r)))
    else if c == b'\''
    then next (goto tick (advance r))
    else store_char c (set_esc (is_escape c) (rewound r)) >>= λ r'.
        next (advance (goto (if c == b'#' && is_binary_mode r.cc.mode then hash else atom) r'))

-- case 2
unfoldable pub on_open : Run → Outcome Run
on_open r =
    let h = if is_low r.cc.stack.height then int_inc r.cc.stack.height else r.cc.stack.height in
    let r' = counted_elt (set_height (int_inc h) r) in
    next (goto start (record r' { cc = record r'.cc { depth = uint_inc r'.cc.depth } }))

-- case 3: neither return saves `squoted`; the continuation's field is what it was, `saved`.
unfoldable pub on_close : Bool → Run → Outcome Run
unfolding leave
on_close saved r =
    if r.cc.depth == 0
    then done
        (record r.cc {
          last_pos = some r.t;
          last_sexp = nil;
          error = err_badform;
          state = start;
          esc = false;
          squoted = saved;
        })
        r.w
    else let r₁ = advance (record r { cc = record r.cc { depth = r.cc.depth - 1 } }) in
      let r₂ = set_height (int_dec r₁.cc.stack.height) r₁ in
      let r₃ = goto start (emit (λ h. h.end_sexpr) Event.end_sexpr r₂) in
      if r₃.cc.depth == 0 then leave (set_squoted saved (set_height 0 r₃)) else next r₃

-- case 4
unfoldable pub on_atom : ℕ → Run → Outcome Run
on_atom c r =
    if r.cc.esc && is_special c
    then (overwrite c r >>= λ r'. next (set_esc false (advance r')))
    else if is_atom_char c
    then (store_char c (set_esc (is_escape c) r) >>= λ r'. next (advance r'))
    else terminate r >>= λ s.
        let r' = tell_text (atom_type r.cc.squoted) s (used_inc r) in
        tell_end r' r' >>= λ r''. next (after_atom c r'')

-- A quote ends the text. In a text behind a single quote it belongs to the text.
unfoldable pub tell_dquoted : Run → Outcome Run
tell_dquoted r =
    let r₀ = goto dquoted_end r in
    (if r.cc.squoted then store_char b'"' r₀ else next r₀) >>= λ r₁. terminate r₁ >>= λ s.
    let r₂ = tell_text (if r.cc.squoted then squote else dquote) s (used_inc r₁) in
    tell_end (advance r₂) r₂ >>= λ r₃. next (advance r₃)

unfoldable pub on_dquoted_char : ℕ → Run → Outcome Run
on_dquoted_char c r =
    if c == b'"'
    then tell_dquoted r
    else store_char c r >>= λ r'. next (advance (set_esc (is_escape c) r'))

-- case 5; `ahead` is the byte behind the one at `t`.
unfoldable pub on_dquoted : ℕ → Option ℕ → Run → Outcome Run
on_dquoted c ahead r =
    if r.cc.esc && is_special c
    then (overwrite c r >>= λ r'. elim ahead [
      | none ↦ fault
      | some c' ↦ on_dquoted_char c' (set_esc false (advance r'))
    ])
    else on_dquoted_char c r

-- case 7
unfoldable pub on_tick : ℕ → Run → Outcome Run
on_tick c r =
    if c == b'"'
    then (store_char b'"' (advance (rewound (goto dquoted r))) >>= λ r'. next (set_squoted true r'))
    else if c == b'('
    then next (goto quoted_list (rewound r))
    else next (set_squoted true (goto atom (rewound r)))

-- case 9: `val_used` is told without the NUL.
unfoldable pub on_quoted_close : Run → Outcome Run
on_quoted_close r =
    if r.cc.qdepth == 0
    then (terminate r >>= λ s. let r' = tell_text squote s (goto start r) in tell_end r' r')
    else next (goto quoted_list r)

-- case 8, which falls through to case 9 on a closing parenthesis
unfoldable pub on_quoted_list : ℕ → Run → Outcome Run
on_quoted_list c r =
    store_char c (set_esc (is_escape c) (if r.cc.esc then r else quoted_nest c r)) >>= λ r'.
    if is_quoted_close r'.cc.state then on_quoted_close (advance r') else next (advance r')

-- case 10
unfoldable pub on_quoted_string : ℕ → Run → Outcome Run
on_quoted_string c r =
    let r₀ = if c == b'"' && (if r.cc.esc then false else true) then goto quoted_list r else r in
    store_char c (set_esc (is_escape c) r₀) >>= λ r'. next (advance r')

-- case 11
unfoldable pub on_comment : ℕ → Run → Outcome Run
on_comment c r = next (advance (if c == b'\n' then goto start r else r))
