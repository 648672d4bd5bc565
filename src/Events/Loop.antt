-- ===== src/Events/Loop.antt =====
-- src/event_temp.c, `eparse_sexp` round its states: the switch, the guard of the loop, what follows
-- the loop, and restoring the state from a continuation. The branch for a NULL continuation, which no
-- call in the library takes, is left out.
use sfsexp.Prelude.{
  ℕ, zero, suc, ◌+◌, Bool, ◌&&◌, ◌||◌, Option, none, some, Bytes, ltb, ◌==◌, if◌then◌else◌,
  get_elem?,
}
use sfsexp.Errors.{err_ok, err_nullstring}
use sfsexp.Sexp.{nil}
use sfsexp.Cache.{World}
use sfsexp.Parser.Base.{
  State, start, open_paren, close_paren, atom, dquoted, dquoted_end, tick, quoted_list,
  quoted_close, quoted_string, comment, hash, hash_b, size_string, blob, other_state, Pcont, Run,
  Outcome, next, done, fault,
}
use sfsexp.Parser.Vars.{goto, rewound}
use sfsexp.Parser.Loop.{Ended, returned, out_of_fuel, faults, is_blob, continue_with, rounds}
use sfsexp.Events.{
  set_height, leave, on_start, on_open, on_close, on_atom, on_dquoted, on_tick, on_quoted_list,
  on_quoted_close, on_quoted_string, on_comment,
}
use sfsexp.Events.Binary.{on_hash, on_hash_b, on_size_string, on_blob}

-- The switch. An unknown state is reported on stderr, and the loop goes on with it.
unfoldable pub on_char : Bool → State → ℕ → Option ℕ → Run → Outcome Run
on_char saved start c ahead r = on_start c r
on_char saved open_paren c ahead r = on_open r
on_char saved close_paren c ahead r = on_close saved r
on_char saved atom c ahead r = on_atom c r
on_char saved dquoted c ahead r = on_dquoted c ahead r
on_char saved dquoted_end c ahead r = next (goto start (rewound r))
on_char saved tick c ahead r = on_tick c r
on_char saved quoted_list c ahead r = on_quoted_list c r
on_char saved quoted_close c ahead r = on_quoted_close r
on_char saved quoted_string c ahead r = on_quoted_string c r
on_char saved comment c ahead r = on_comment c r
on_char saved hash c ahead r = on_hash c r
on_char saved hash_b c ahead r = on_hash_b c r
on_char saved size_string c ahead r = on_size_string c r
on_char saved blob c ahead r = on_blob (some c) r
on_char saved (other_state n) c ahead r = next r

-- An expression that is not complete is no error here. The byte at `t` is read once more.
unfoldable pub suspend : Bytes → ℕ → Run → Outcome Run
suspend mem len r = elim (get_elem? mem r.t) [
  | none ↦ fault
  | some c ↦
      done
        (record r.cc {
          last_pos = if c == 0 || r.t == len then none else some r.t;
          last_sexp = nil;
          error = err_ok;
        })
        r.w
]

-- Behind the loop.
unfoldable pub leave_loop : Bytes → ℕ → Run → Outcome Run
unfolding suspend
leave_loop mem len r =
    if r.cc.depth == 0 && ltb 0 r.elts then leave (set_height 0 r) else suspend mem len r

unfoldable pub tell_round : Bool → Bytes → ℕ → Run → Outcome Run
tell_round saved mem len r =
    if is_blob r.cc.state
    then if r.t == len then leave_loop mem len r else on_blob (get_elem? mem r.t) r
    else elim (get_elem? mem r.t) [
      | none ↦ fault
      | some c ↦
          if c == 0 || r.t == len
          then leave_loop mem len r
          else on_char saved r.cc.state c (get_elem? mem (r.t + 1)) r
    ]

unfoldable pub tell_loop : ℕ → Bool → Bytes → ℕ → Run → Ended
tell_loop zero saved mem len r = out_of_fuel
tell_loop (suc f) saved mem len r =
    continue_with (tell_loop f saved mem len) (tell_round saved mem len r)

-- The loop, from the variables that the continuation holds.
unfoldable pub tell_from : Option ℕ → Option Bytes → Bytes → ℕ → Pcont → World → Ended
tell_from none earlier str len pc w =
    tell_loop (rounds str) pc.squoted str len
      (record { cc = record pc { sbuffer = some str }; t = 0; elts = 0; sx = nil; w = w })
tell_from (some t) none str len pc w = faults
tell_from (some t) (some mem) str len pc w =
    tell_loop (rounds mem) pc.squoted mem len (record { cc = pc; t = t; elts = 0; sx = nil; w = w })

unfoldable pub eparse_sexp : Option Bytes → ℕ → Pcont → World → Ended
unfolding tell_from tell_loop
eparse_sexp none len pc w = returned (record pc { error = err_nullstring }) w
eparse_sexp (some str) len pc w = tell_from pc.last_pos pc.sbuffer str len pc w
