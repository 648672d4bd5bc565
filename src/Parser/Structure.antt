-- ===== src/Parser/Structure.antt =====
-- src/parser.c, the cases 1, 2, 3 and 11 of the main loop of `cparse_sexp`: what stands between
-- atoms, opening and closing a list, a comment. `c` is the byte at `t`.
use sfsexp.Prelude.{ℕ, ◌-◌, true, false, ◌&&◌, none, some, ◌==◌, if◌then◌else◌}
use sfsexp.Errors.{err_memory, err_ok, err_badform, err_bad_stack}
use sfsexp.FastStack.{is_low, top_data, set_top}
use sfsexp.Sexp.{list, nil, node, Event}
use sfsexp.Cache.{sexp_t_allocate, sexp_t_deallocate, pd_allocate}
use sfsexp.Parser.Base.{
  start, open_paren, close_paren, atom, dquoted, tick, comment, hash, Run, Outcome, next, fault,
  ◌>>=◌, save, uint_inc,
}
use sfsexp.Parser.Actions.{
  emit, is_escape, need, made, put_char, attach, push_data, pop_data, unwind, set_last_list,
}
use sfsexp.Parser.Vars.{goto, advance, set_esc, rewound, is_space, is_binary_mode}

-- case 1
unfoldable pub step_start : ℕ → Run → Outcome Run
step_start c r =
    if is_space c
    then next (advance r)
    else if c == b';'
    then next (goto comment (advance r))
    else if c == b'('
    then next (emit (λ h. h.start_sexpr) Event.start_sexpr (goto open_paren (advance r)))
    else if c == b')'
    then next (goto close_paren r)
    else if c == b'"'
    then next (goto dquoted (advance (rewound r)))
    else if c == b'\''
    then next (goto tick (advance r))
    else put_char true c (set_esc (is_escape c) (rewound r)) >>= λ r'.
        next (advance (goto (if c == b'#' && is_binary_mode r.cc.mode then hash else atom) r'))

-- The new list on a stack with no level: the first level is pushed for it.
unfoldable pub root_level : Run → Outcome Run
root_level r =
    let (w, granted) = pd_allocate r.w in
    if granted
    then next (push_data (some (node (list nil) nil)) (record r { w = w }))
    else elim (sexp_t_deallocate (list nil) w) [
      | none ↦ fault
      | some w' ↦ save err_memory nil (record r { w = w' })
    ]

-- An empty level for the contents of the new list.
unfoldable pub open_level : Run → Outcome Run
open_level r = need pd_allocate r >>= λ r'. next (goto start (push_data (some nil) r'))

-- case 2
unfoldable pub step_open : Run → Outcome Run
step_open r =
    need sexp_t_allocate (record r { cc = record r.cc { depth = uint_inc r.cc.depth } }) >>= λ r₁.
    (if is_low r₁.cc.stack.height
      then root_level (made (list nil) r₁)
      else attach (list nil) (made (list nil) r₁))
    >>= open_level

-- `data->lst->list = sx` on the top level after a list's contents were popped.
unfoldable pub close_list : Run → Outcome Run
unfolding top_data set_top
close_list r = elim (top_data r.cc.stack.used) [
  | none ↦ save err_bad_stack nil r
  | some none ↦ fault
  | some (some fst) ↦ elim (set_last_list fst r.sx) [
    | none ↦ fault
    | some fst' ↦ next (record r { cc = record r.cc { stack = set_top (some fst') r.cc.stack } })
  ]
]

-- The expression is complete: the levels left are popped, and the last of them is the result.
unfoldable pub close_all : Run → Outcome Run
unfolding unwind
close_all r = unwind r.cc.stack.used r >>= λ r'. save err_ok r'.sx (goto start (set_esc false r'))

-- case 3
unfoldable pub step_close : Run → Outcome Run
step_close r =
    if r.cc.depth == 0
    then save err_badform nil (goto start (set_esc false r))
    else pop_data (advance (record r { cc = record r.cc { depth = r.cc.depth - 1 } }))
      >>= close_list
      >>= λ r'.
          let told = goto start (emit (λ h. h.end_sexpr) Event.end_sexpr r') in
          if told.cc.depth == 0 then close_all told else next told

-- case 11
unfoldable pub step_comment : ℕ → Run → Outcome Run
step_comment c r = next (advance (if c == b'\n' then goto start r else r))
