-- ===== src/Tests/Wrapping.antt =====
-- The theorems on the wrappers of src/parser.c and the constructors of src/sexp.c at concrete inputs.
use sfsexp.Prelude.{◌≡◌, ◌≢◌, refl, none, some, List, [], ◌∷◌, ◌++◌, arith}
use sfsexp.Sexp.{basic, squote, binary, Elt, Sexp, Value, nil, node, list, value, null}
use sfsexp.Sexp.View.{Tree, Forest, tree, bare, branch, view, view_all, atom}
use sfsexp.Cache.{World, sexp_cleanup}
use sfsexp.Parser.Base.{Pcont}
use sfsexp.Parser.Entry.{init_continuation}
use sfsexp.RoundTrip.Print.{show, IsPrintable, nesting}
use sfsexp.Build.{new_sexp_list, new_sexp_binary_atom, new_sexp_atom, destroy_sexp}
use sfsexp.Build.Laws.{Built, new_sexp-Built}
use sfsexp.Build.Storage.{AreAssigned, occupied, elements, sexp_cleanup-destroy_sexp}
use sfsexp.Wrappers.{gives, endless, parse_sexp}
use sfsexp.Wrappers.Total.{parse_sexp-ne-endless}
use sfsexp.Wrappers.Whole.{parse_sexp-show}
use sfsexp.Wrappers.Sequence.{show_lists, calls, Show, iparse_sexp-sequence}
use sfsexp.FileInput.{IoWrap, init_iowrap}
use sfsexp.FileInput.Calls.{Returns, reads}
use sfsexp.FileInput.Sequence.{read_one_sexp-sequence}
use sfsexp.Tests.Values.{read_chunks, codes, calm, calm-IsReady, no_events, atom_of, granting}

-- (a ())
abbrev pair : Forest
pair = tree (Tree.atom basic (codes "a")) (tree (branch bare) bare)

parse_sexp-show_example :
    (e : Elt) × (w : World) × (parse_sexp no_events (some (show (branch pair) ++ 0 ∷ [])) 6 calm
      ≡ gives (node e nil) w)
    × (view e ≡ branch pair)
unfolding show IsPrintable nesting
parse_sexp-show_example =
    parse_sexp-show no_events pair (0 ∷ []) 6 calm calm-IsReady ((refl, (refl, refl, tt)), (tt, tt))
      (omega arith) (omega arith)

parse_sexp-ne-endless_example : parse_sexp no_events (some (codes "a" ++ 0 ∷ [])) 1 calm ≢ endless
parse_sexp-ne-endless_example = parse_sexp-ne-endless no_events (some (codes "a" ++ 0 ∷ [])) 1 calm

iparse_sexp-sequence_example :
    (pc : Pcont) × (w : World) × (init_continuation none calm ≡ (w, some pc))
    × (xs : List Sexp) × (calls no_events (show_lists (pair ∷ bare ∷ []) ++ 0 ∷ []) 8 3 (some pc) w
        ≡ some xs)
    × Show xs (pair ∷ bare ∷ [])
unfolding show IsPrintable nesting
iparse_sexp-sequence_example =
    iparse_sexp-sequence no_events (pair ∷ bare ∷ []) [] 8 calm calm-IsReady
      (((refl, (refl, refl, tt)), (tt, tt)), omega arith, (tt, omega arith, tt)) (omega arith)

-- ("xy" with 256 bytes of memory, a list, and three bytes of binary data)
abbrev blob_of : Value
blob_of = record {
  aty = binary;
  val = null;
  val_allocated = 0;
  val_used = 0;
  bindata = some (1 ∷ 2 ∷ 3 ∷ []);
  binlength = 3;
}

abbrev owned : Sexp
owned = node (list (node (atom_of basic "xy") (node (value blob_of) nil))) nil

-- 10 bytes are held besides the expression's 475.
abbrev holding : World
holding = record calm { heap = record (granting 600) { used_memory = 485 } }

sexp_cleanup-destroy_sexp_example :
    (w : World) × (destroy_sexp owned holding ≡ some w) × ((sexp_cleanup w).heap.used_memory ≡ 10)
unfolding AreAssigned occupied elements
sexp_cleanup-destroy_sexp_example =
    sexp_cleanup-destroy_sexp 600 10 owned holding (omega arith) ((tt, (tt, tt)), tt)
      (record {
        charged = record { limit = refl; charged = refl; grants = λ n. refl };
        room = omega arith;
      })

new_sexp-Built_example :
    Built (branch (view_all nil)) (new_sexp_list nil calm)
    × Built (atom binary (7 ∷ [])) (new_sexp_binary_atom (some (7 ∷ [])) 1 calm)
    × (r : World × Sexp) × (new_sexp_atom (codes "ab") 5 squote calm ≡ some r)
    × Built (atom squote (codes "ab")) r
new_sexp-Built_example =
    new_sexp-Built nil (7 ∷ []) (codes "ab") 5 squote calm (omega arith) (omega arith) refl

read_one_sexp-sequence_example :
    (w : World) × (iow : IoWrap) × (init_iowrap 8192 8216 3 calm ≡ (w, some iow))
    × Returns
        (reads 8192 read_chunks no_events 0 4
          (some iow)
          (show_lists (pair ∷ bare ∷ []) ∷ show_lists (bare ∷ []) ∷ [])
          w)
        (pair ∷ bare ∷ bare ∷ [])
unfolding show IsPrintable nesting
read_one_sexp-sequence_example =
    read_one_sexp-sequence 8192 8216 read_chunks no_events 0 ((pair ∷ bare ∷ []) ∷ (bare ∷ []) ∷ [])
      3 (show_lists (pair ∷ bare ∷ []) ∷ show_lists (bare ∷ []) ∷ []) calm calm-IsReady
      (
        omega arith,
        omega arith,
        (((refl, (refl, refl, tt)), (tt, tt)), omega arith, (tt, omega arith, tt)),
        (omega arith, omega arith, (tt, omega arith, tt), tt),
      )
      (_, refl, (_, refl, (_, refl)))
