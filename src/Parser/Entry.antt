-- ===== src/Parser/Entry.antt =====
-- src/parser.c, `init_continuation` and `cparse_sexp`. A call that returns NULL is `returned_null`.
-- The parser for PARSER_EVENTS_ONLY, `eparse_sexp` of src/event_temp.c, is an argument.
use sfsexp.Prelude.{ℕ, Bool, true, false, [], Option, none, some, Bytes, if◌then◌else◌}
use sfsexp.Errors.{err_ok, err_memory, err_nullstring}
use sfsexp.Memory.{set_errno, sexp_malloc, sexp_free}
use sfsexp.FastStack.{FastStack, make_stack}
use sfsexp.Sexp.{nil}
use sfsexp.Cache.{World, on_heap, world_errno}
use sfsexp.Parser.Base.{Mode, parser_normal, parser_events_only, start, ParseData, Pcont}
use sfsexp.Parser.Loop.{Ended, returned, returned_null, resume}

-- sizeof on a 64-bit machine
abbrev pub sizeof_pcont : ℕ
sizeof_pcont = 128

-- A continuation whose buffer and stack were just made. `last_sexp` and `error` are not assigned:
-- every call of the parser assigns them before it returns.
abbrev pub new_pcont : FastStack ParseData → Option Bytes → ℕ → Pcont
new_pcont s str size = record {
  stack = s;
  last_sexp = nil;
  val = some [];
  val_allocated = size;
  val_used = 0;
  last_pos = none;
  sbuffer = str;
  depth = 0;
  qdepth = 0;
  state = start;
  esc = false;
  squoted = false;
  error = err_ok;
  mode = parser_normal;
  binexpected = 0;
  binread = 0;
  bindata = none;
  event_handlers = none;
}

-- The stack of a continuation, and the two blocks given back where it cannot be made.
unfoldable pub init_stack : Option Bytes → ℕ → World → World × Option Pcont
init_stack str size w =
    let (h, s) = make_stack w.heap in
    elim s [
      | some s' ↦ (record w { heap = h }, some (new_pcont s' str size))
      | none ↦ (
        record w { heap = sexp_free sizeof_pcont (sexp_free size (set_errno err_memory h)) },
        none,
      )
    ]

unfoldable pub init_continuation : Option Bytes → World → World × Option Pcont
unfolding init_stack
init_continuation str w =
    let (w₁, granted) = on_heap (sexp_malloc sizeof_pcont) w in
    if granted
    then (let (w₂, granted') = on_heap (sexp_malloc w₁.val_start_size) w₁ in
        if granted'
        then init_stack str w₁.val_start_size w₂
        else (record w₂ { heap = sexp_free sizeof_pcont (set_errno err_memory w₂.heap) }, none))
    else (world_errno err_memory w₁, none)

-- The continuation that the call works on: the caller's, or a new one.
unfoldable pub continuation : Option Bytes → Option Pcont → World → World × Option Pcont
unfolding init_continuation
continuation str (some lc) w = (w, some lc)
continuation str none w = init_continuation str w

abbrev pub is_events_only : Mode → Bool
is_events_only parser_events_only = true
is_events_only _ = false

unfoldable pub call_parser :
    (Bytes → ℕ → Pcont → World → Ended) → Option Bytes → ℕ → Option Pcont → World → Ended
unfolding resume
call_parser eparse_sexp str len none w = returned_null w
call_parser eparse_sexp none len (some pc) w =
    returned (record pc { error = err_nullstring; last_sexp = nil }) w
call_parser eparse_sexp (some str) len (some pc) w =
    if is_events_only pc.mode then eparse_sexp str len pc w else resume str len pc w

-- `str` is the memory that the pointer points to, its terminating NUL included if it has one.
unfoldable pub cparse_sexp :
    (Bytes → ℕ → Pcont → World → Ended) → Option Bytes → ℕ → Option Pcont → World → Ended
unfolding continuation call_parser
cparse_sexp eparse_sexp str len lc w =
    let (w', pc) = continuation str lc w in call_parser eparse_sexp str len pc w'
