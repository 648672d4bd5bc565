-- ===== src/Tests/Faults.antt =====
-- Inputs on which the parser of src/parser.c, the copy of src/sexp_ops.c and `print_sexp` of
-- src/sexp.c go wrong.
use sfsexp.Prelude.{Bytes, List, ◌∷◌, ◌≡◌, refl, some, none, Option, []}
use sfsexp.Errors.{Errcode, err_memory, err_incomplete}
use sfsexp.Sexp.{Value, basic, binary, value, nil, node, Sexp}
use sfsexp.Parser.Loop.{faults, resume}
use sfsexp.SexpOps.{copy_sexp, blank}
use sfsexp.Print.Buffer.Call.{print_sexp, overruns}
use sfsexp.Cache.{World}
use sfsexp.FileInput.{IoWrap, Got, got, crashed, zeros, read_one_sexp}
use sfsexp.Tests.Values.{read_chunks, no_events, codes, atom_of, calm, run_text}

-- A backslash that ends an atom is remembered in the quoted text behind it.
underflow_run : run_text "(a\\ \"\")" ≡ faults
unfolding sfsexp.Parser.Loop.resume sfsexp.Parser.Loop.round sfsexp.Parser.Step.step_char
    sfsexp.Parser.Structure.step_start sfsexp.Parser.Structure.step_open sfsexp.Parser.Actions.need
    sfsexp.Cache.sexp_t_allocate sfsexp.Cache.take_cached sfsexp.Parser.Actions.call_handler
    sfsexp.FastStack.make_stack sfsexp.Memory.sexp_malloc sfsexp.Parser.Structure.root_level
    sfsexp.Cache.pd_allocate sfsexp.Parser.Structure.open_level sfsexp.Parser.Actions.push_data
    sfsexp.FastStack.push sfsexp.Parser.Actions.put_char sfsexp.Parser.Atoms.step_atom
    sfsexp.Cache.fresh sfsexp.Cache.pd_deallocate sfsexp.Cache.put_cached sfsexp.FastStack.pop
    sfsexp.FastStack.pop_level sfsexp.FastStack.push_level sfsexp.FastStack.set_popped
    sfsexp.FastStack.set_top sfsexp.FastStack.top_data sfsexp.Memory.charge sfsexp.Memory.over_limit
    sfsexp.Memory.request sfsexp.Parser.Actions.attach sfsexp.Parser.Actions.grow_val
    sfsexp.Parser.Actions.make_atom sfsexp.Parser.Actions.new_val sfsexp.Parser.Actions.terminate
    sfsexp.Parser.Atoms.after_atom sfsexp.Parser.Atoms.deliver sfsexp.Parser.Atoms.step_dquoted
    sfsexp.Parser.Actions.overwrite
underflow_run = refl

-- The tree of a copy, and the error code.
abbrev copied : Sexp → Option (Sexp × Errcode)
copied s = elim (copy_sexp s calm) [ none ↦ none | some (w, s') ↦ some (s', w.heap.sexp_errno) ]

-- An element with no binary data is not copied, nor is anything behind it.
empty_binary_run :
    copied (node (value (blank binary)) (node (atom_of basic "a") nil)) ≡ some (nil, err_memory)
unfolding copy_sexp sfsexp.Cache.sexp_t_allocate sfsexp.Cache.take_cached
    sfsexp.FastStack.make_stack sfsexp.Memory.sexp_malloc sfsexp.Cache.sexp_t_deallocate
    sfsexp.Cache.put_cached sfsexp.FastStack.push
empty_binary_run = refl

abbrev two_bytes : Value
two_bytes = record (blank binary) { bindata = some (codes "xy"); binlength = 2 }

-- Binary data that fills the buffer to its last byte.
exact_binary_run : print_sexp (codes "#######") 7 (node (value two_bytes) nil) calm ≡ overruns
unfolding print_sexp copy_sexp sfsexp.Cache.sexp_t_allocate sfsexp.Cache.take_cached
    sfsexp.FastStack.make_stack sfsexp.Memory.sexp_malloc sfsexp.Print.digits
exact_binary_run = refl

-- Binary data at the start of a buffer of three bytes.
short_binary_run : print_sexp (codes "###") 3 (node (value two_bytes) nil) calm ≡ overruns
unfolding print_sexp copy_sexp sfsexp.Cache.sexp_t_allocate sfsexp.Cache.take_cached
    sfsexp.FastStack.make_stack sfsexp.Memory.sexp_malloc sfsexp.Print.Buffer.out_of_space
short_binary_run = refl

no_space_run : print_sexp [] 0 nil calm ≡ overruns
unfolding print_sexp
no_space_run = refl

abbrev read_at : Option IoWrap → List Bytes → World → Got (List Bytes)
read_at iow e w = read_one_sexp 8 read_chunks no_events 9 iow e w

-- The expression, the error code, and what is left of the file.
abbrev read_result : Got (List Bytes) → Option (Sexp × Errcode × List Bytes)
read_result (got sx iow e w) = some (sx, w.heap.sexp_errno, e)
read_result _ = none

abbrev read_next : Got (List Bytes) → Got (List Bytes)
read_next (got sx iow e w) = read_at iow e w
read_next _ = crashed

abbrev opened : IoWrap
opened = record { cc = none; fd = 0; buf = zeros 8; cnt = 0 }

-- A list whose text two reads give is not read by the second call either.
split_list_run :
    read_result (read_next (read_at (some opened) (codes "(" ∷ codes ")" ∷ []) calm))
    ≡ some (nil, err_incomplete, codes ")" ∷ [])
unfolding read_one_sexp sfsexp.Parser.Entry.cparse_sexp sfsexp.Memory.sexp_malloc
    sfsexp.FastStack.make_stack sfsexp.Parser.Loop.round sfsexp.Parser.Step.step_char
    sfsexp.Parser.Structure.step_start sfsexp.Parser.Loop.finish sfsexp.Parser.Structure.step_open
    sfsexp.Parser.Actions.need sfsexp.Cache.sexp_t_allocate sfsexp.Cache.take_cached
    sfsexp.Parser.Actions.call_handler sfsexp.Parser.Structure.root_level sfsexp.Cache.pd_allocate
    sfsexp.Parser.Structure.open_level sfsexp.Parser.Actions.push_data sfsexp.FastStack.push
    sfsexp.Cache.fresh sfsexp.FastStack.push_level sfsexp.Memory.charge sfsexp.Memory.over_limit
    sfsexp.Memory.request sfsexp.FileInput.await_sexp sfsexp.FileInput.parse_chunk
    sfsexp.FileInput.read_chunk sfsexp.FileInput.read_first sfsexp.FileInput.parse_first
split_list_run = refl
