-- ===== src/RoundTrip/Start.antt =====
-- What a new continuation of src/parser.c starts from, where no request for memory is refused.
use sfsexp.Prelude.{ℕ, Bytes, Option, ◌<◌, ◌≤◌, ◌≡◌, refl, ap, false, [], none, some, arith}
use sfsexp.Memory.{sexp_malloc}
use sfsexp.Memory.Quiet.{sexp_malloc_quiet}
use sfsexp.FastStack.Quiet.{make_stack-IsQuiet}
use sfsexp.FastStack.{empty, make_stack}
use sfsexp.Sexp.{nil}
use sfsexp.Cache.{World, on_heap}
use sfsexp.Cache.Quiet.{IsReady, on_heap_quiet}
use sfsexp.Parser.Base.{start, ParseData, Pcont, Run}
use sfsexp.Parser.Loop.{Ended, loop, rounds, resume}
use sfsexp.Parser.Entry.{
  cparse_sexp, init_continuation, init_stack, new_pcont, continuation, call_parser, sizeof_pcont,
}
use sfsexp.RoundTrip.Conf.{Conf, InConf}

init_stack_quiet :
    (str : Option Bytes) (size : ℕ) (w : World)
    → IsReady w
    → (w' : World) × (init_stack str size w ≡ (w', some (new_pcont empty str size))) × IsReady w'
unfolding init_stack
init_stack_quiet str size w q =
    let m = make_stack-IsQuiet {A = ParseData} w.heap q.quiet in
    (
      record w { heap = (make_stack {A = ParseData} w.heap).0 },
      rw (m.0, init_stack) refl,
      record { quiet = m.1; start_pos = q.start_pos; grow_pos = q.grow_pos },
    )

-- Where no request is refused there is a new continuation.
pub init_continuation_quiet :
    (str : Option Bytes) (w : World)
    → IsReady w
    → (w' : World) × (size : ℕ) × (init_continuation str w ≡ (w', some (new_pcont empty str size)))
      × IsReady w'
      × (0 < size)
unfolding init_continuation
init_continuation_quiet str w q =
    let g = on_heap_quiet w q (sexp_malloc sizeof_pcont) (sexp_malloc_quiet w.heap q.quiet _) in
    let w₁ = (on_heap (sexp_malloc sizeof_pcont) w).0 in
    let g' =
      on_heap_quiet w₁ g.ready (sexp_malloc w₁.val_start_size)
        (sexp_malloc_quiet w₁.heap g.ready.quiet _) in
    let (w₂, e, q₂) =
      init_stack_quiet str w₁.val_start_size (on_heap (sexp_malloc w₁.val_start_size) w₁).0
        g'.ready in
    (w₂, w₁.val_start_size, rw g.granted (rw g'.granted e), q₂, g.ready.start_pos)

-- Where a new continuation starts.
abbrev pub at_start : Conf
at_start = record {
  levels = [];
  state = start;
  t = 0;
  depth = 0;
  text = [];
  esc = false;
  squoted = false;
}

-- A call without a continuation runs the loop from there.
pub cparse_sexp-starts :
    (eparse_sexp : Bytes → ℕ → Pcont → World → Ended) (mem : Bytes) (len : ℕ) (w : World)
    → IsReady w
    → (r : Run) × (cparse_sexp eparse_sexp (some mem) len none w ≡ loop (rounds mem) mem len r)
      × InConf at_start r
      × (r.cc.binread ≤ r.cc.binexpected)
      × (r.cc.sbuffer ≡ some mem)
unfolding cparse_sexp continuation call_parser resume
cparse_sexp-starts eparse_sexp mem len w q =
    let (w', size, e, q', pos) = init_continuation_quiet (some mem) w q in
    (
      record {
        cc = record (new_pcont empty (some mem) size) { sbuffer = some mem };
        t = 0;
        elts = 0;
        sx = nil;
        w = w';
      },
      ap (λ p. call_parser eparse_sexp (some mem) len p.1 p.0) e,
      (ground (arith, pos), q'),
      omega arith,
      refl,
    )
