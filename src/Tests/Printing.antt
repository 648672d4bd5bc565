-- ===== src/Tests/Printing.antt =====
-- The theorems on src/cstring.c and on `print_sexp_cstr` of src/sexp.c at concrete inputs.
use sfsexp.Prelude.{Option, ℕ, Bytes, ◌≡◌, refl, some, none, [], ◌∷◌, ◌++◌, length, arith}
use mathlib.Core.List.{reverse}
use sfsexp.Sexp.{basic, Sexp, list, nil, node}
use sfsexp.Sexp.View.{view, view_all}
use sfsexp.Cache.{World}
use sfsexp.CString.{CString, sadd, saddch}
use sfsexp.CString.Laws.{Appends, sadd-Appends}
use sfsexp.Parser.Base.{Pcont}
use sfsexp.Parser.Loop.{returned}
use sfsexp.Parser.Entry.{cparse_sexp}
use sfsexp.Print.Call.{print_sexp_cstr, result}
use sfsexp.Print.Pcont.{print_pcont}
use sfsexp.Print.Walk.{AreTexts}
use sfsexp.Print.Buffer.Call.{print_sexp}
use sfsexp.Print.Buffer.Reread.{print_sexp-cparse_sexp}
use sfsexp.Print.Buffer.Whole.{FitsOrFills, print_sexp-show}
use sfsexp.Print.Whole.{print_sexp_cstr-show}
use sfsexp.Print.Reread.{print_sexp_cstr-cparse_sexp}
use sfsexp.RoundTrip.Print.{show, IsPrintable}
use sfsexp.RoundTrip.Whole.{Parsed}
use sfsexp.Tests.Values.{fresh_pcont, codes, calm, calm-IsReady, refusing, no_events, atom_of}

abbrev held : CString
held = record { base = codes "ba"; len = 4 }

-- Where the reallocation is refused no string is returned.
sadd-Appends_example :
    Appends held (codes "xyz") (sadd (some held) (some (codes "xyz")) 8 refusing)
    × Appends held (b'c' ∷ []) (saddch (some held) b'c' 8 refusing)
sadd-Appends_example =
    sadd-Appends 8 held (codes "xyz") b'c' refusing (omega arith) (omega arith) (omega arith)
      (omega arith)

-- (y) x
abbrev items : Sexp
items = node (list (node (atom_of basic "y") nil)) (node (atom_of basic "x") nil)

items-AreTexts : AreTexts items
unfolding AreTexts
items-AreTexts = (
  (record { bytes = codes "y"; stored = refl; used = omega arith; plain = refl }, tt),
  (record { bytes = codes "x"; stored = refl; used = omega arith; plain = refl }, tt),
)

print_sexp_cstr-show_example :
    (cs : CString) × (w : World) × (print_sexp_cstr 8192 none (node (list items) nil) 2 calm
      ≡ result (length (show (view (list items)))) (some cs) w)
    × (reverse cs.base ≡ show (view (list items)))
unfolding show view
print_sexp_cstr-show_example =
    print_sexp_cstr-show 8192 2 items nil calm (omega arith) (omega arith) items-AreTexts
      (omega arith) calm-IsReady

print_sexp_cstr-cparse_sexp_example :
    (cs : CString) × (w : World) × (print_sexp_cstr 8192 none (node (list items) nil) 2 calm
      ≡ result (length (reverse cs.base)) (some cs) w)
    × (pc : Pcont) × (v : World) × (cparse_sexp no_events
          (some (reverse cs.base ++ 0 ∷ []))
          (length (reverse cs.base))
          none
          calm
        ≡ returned pc v)
    × Parsed (view_all items) (length (reverse cs.base)) pc v
unfolding IsPrintable view show
print_sexp_cstr-cparse_sexp_example =
    print_sexp_cstr-cparse_sexp no_events 8192 2 items nil calm calm (omega arith) (omega arith)
      items-AreTexts calm-IsReady calm-IsReady
      (((refl, (refl, refl, tt)), tt), ((refl, (refl, refl, tt)), tt)) (omega arith)

-- ((y) x) does not fit into five bytes.
print_sexp-show_example :
    FitsOrFills
      (codes "......")
      5
      (show (view (list items)))
      (print_sexp (codes "......") 5 (node (list items) nil) calm)
unfolding show view
print_sexp-show_example =
    print_sexp-show (codes "......") 5 items nil calm (omega arith) (omega arith) items-AreTexts
      (omega arith) calm-IsReady

print_sexp-cparse_sexp_example :
    (n : ℕ) × (buf : Bytes) × (w : World) × (print_sexp
        (codes "............")
        9
        (node (list items) nil)
        calm
      ≡ sfsexp.Print.Buffer.Call.result n buf w)
    × (pc : Pcont) × (v : World) × (cparse_sexp no_events (some buf) 9 none calm ≡ returned pc v)
    × Parsed (view_all items) n pc v
unfolding IsPrintable view show
print_sexp-cparse_sexp_example =
    print_sexp-cparse_sexp no_events (codes "............") 9 items nil calm calm (omega arith)
      items-AreTexts calm-IsReady calm-IsReady
      (((refl, (refl, refl, tt)), tt), ((refl, (refl, refl, tt)), tt)) (omega arith) (omega arith)

-- A parse with two levels and the text b in its buffer.
abbrev partly : Sexp → Pcont
partly fst = record fresh_pcont {
  stack = record { used = some fst ∷ some (node (list nil) nil) ∷ []; spare = []; height = 2 };
  val = some (codes "b");
  val_used = 1;
}

abbrev pcont_text : Sexp → Option (Option Bytes)
pcont_text fst = elim (print_pcont (some (partly fst)) (some (codes "..........")) 10 calm) [
  | none ↦ none
  | some (buf, w) ↦ some buf
]

-- (a b
partial_run :
    pcont_text (node (atom_of basic "a") nil) ≡ some (some (codes "(a b" ++ 0 ∷ codes "....."))
unfolding print_pcont print_sexp sfsexp.SexpOps.copy_sexp sfsexp.Cache.sexp_t_allocate
    sfsexp.Cache.take_cached sfsexp.FastStack.make_stack sfsexp.Memory.sexp_malloc
    sfsexp.Memory.sexp_calloc sfsexp.Cache.sexp_t_deallocate sfsexp.Print.Pcont.put_space
partial_run = refl

-- (() a b, of which an empty list ends the level.
empty_list_run :
    pcont_text (node (list nil) (node (atom_of basic "a") nil))
    ≡ some (some (codes "((b" ++ 0 ∷ codes "......"))
unfolding print_pcont
empty_list_run = refl
