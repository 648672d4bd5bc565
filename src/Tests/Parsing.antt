-- ===== src/Tests/Parsing.antt =====
-- Runs of the parser of src/parser.c, and the theorems on it at concrete inputs.
use sfsexp.Prelude.{arith, ◌≡◌, ◌≢◌, refl, none, some, length, ◌++◌, [], ◌∷◌}
use sfsexp.Errors.{err_ok, err_badform}
use sfsexp.Sexp.{basic, dquote, squote, nil, node, list}
use sfsexp.Cache.{World}
use sfsexp.Parser.Base.{Pcont}
use sfsexp.Parser.Loop.{returned, Ended, faults, out_of_fuel, resume}
use sfsexp.Parser.Entry.{cparse_sexp}
use sfsexp.Parser.Total.{cparse_sexp-ne-out_of_fuel}
use sfsexp.Sexp.View.{Tree, Forest, tree, bare, branch}
use sfsexp.RoundTrip.Print.{show, IsPrintable, nesting}
use sfsexp.RoundTrip.Whole.{Parsed, parse-show}
use sfsexp.Tests.Values.{no_events, codes, calm, calm-IsReady, parse_text, atom_of}

cparse_sexp-ne-out_of_fuel_example :
    cparse_sexp no_events (some (codes "(a b)" ++ 0 ∷ [])) 5 none calm ≢ out_of_fuel
cparse_sexp-ne-out_of_fuel_example =
    cparse_sexp-ne-out_of_fuel no_events (some (codes "(a b)" ++ 0 ∷ [])) 5 none calm tt

list_run :
    parse_text "(a (b))"
    ≡ some (
      node (list (node (atom_of basic "a") (node (list (node (atom_of basic "b") nil)) nil))) nil,
      err_ok,
    )
unfolding sfsexp.Parser.Loop.resume sfsexp.Parser.Loop.round sfsexp.Parser.Step.step_char
    sfsexp.Parser.Structure.step_start sfsexp.Parser.Structure.step_open sfsexp.Parser.Actions.need
    sfsexp.Cache.sexp_t_allocate sfsexp.Cache.take_cached sfsexp.Parser.Actions.call_handler
    sfsexp.FastStack.make_stack sfsexp.Memory.sexp_malloc sfsexp.Parser.Structure.root_level
    sfsexp.Cache.pd_allocate sfsexp.Parser.Structure.open_level sfsexp.Parser.Actions.push_data
    sfsexp.FastStack.push sfsexp.Parser.Actions.put_char sfsexp.Parser.Atoms.step_atom
    sfsexp.Cache.fresh sfsexp.Cache.pd_deallocate sfsexp.Cache.put_cached sfsexp.FastStack.pop
    sfsexp.FastStack.pop_level sfsexp.FastStack.push_level sfsexp.FastStack.set_popped
    sfsexp.FastStack.set_top sfsexp.FastStack.top_data sfsexp.Memory.charge sfsexp.Memory.over_limit
    sfsexp.Memory.request sfsexp.Parser.Actions.attach sfsexp.Parser.Actions.grow_val
    sfsexp.Parser.Actions.make_atom sfsexp.Parser.Actions.new_val sfsexp.Parser.Actions.pop_data
    sfsexp.Parser.Actions.set_last_list sfsexp.Parser.Actions.terminate sfsexp.Parser.Actions.unwind
    sfsexp.Parser.Atoms.after_atom sfsexp.Parser.Atoms.deliver sfsexp.Parser.Structure.close_all
    sfsexp.Parser.Structure.close_list sfsexp.Parser.Structure.step_close
list_run = refl

unmatched_run : parse_text ")" ≡ some (nil, err_badform)
unfolding resume sfsexp.Parser.Loop.round sfsexp.Parser.Step.step_char
    sfsexp.Parser.Structure.step_start sfsexp.Parser.Structure.step_close
unmatched_run = refl

-- (a (b "c\"") 'd ())
abbrev sample : Forest
sample = tree (Tree.atom basic (codes "a")) (
    tree (branch (tree (Tree.atom basic (codes "b")) (tree (Tree.atom dquote (codes "c\"")) bare)))
      (tree (Tree.atom squote (codes "d")) (tree (branch bare) bare)))

parse-show_example :
    (pc : Pcont) × (w : World) × (cparse_sexp no_events
        (some (show (branch sample) ++ 0 ∷ []))
        19
        none
        calm
      ≡ returned pc w)
    × Parsed sample (length (show (branch sample))) pc w
unfolding show IsPrintable nesting
parse-show_example =
    parse-show no_events sample (0 ∷ []) 19 calm calm-IsReady
      (
        (refl, (refl, refl, tt)),
        (((refl, (refl, refl, tt)), ((refl, (refl, tt)), tt)), ((refl, refl, tt), (tt, tt))),
      )
      (omega arith) (omega arith)
