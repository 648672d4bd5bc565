-- ===== src/Tests/Values.antt =====
-- Texts, worlds and continuations for the runs.
use Prim.Native.Char.{code}
use Prim.Native.String.{String}
use sfsexp.Prelude.{
  refl, arith, ℕ, List, true, ◌+◌, false, [], ◌∷◌, ◌++◌, none, some, Option, Bytes, length,
}
use sfsexp.Memory.{Heap}
use sfsexp.Errors.{Errcode, err_ok}
use sfsexp.FastStack.{empty}
use sfsexp.Sexp.{AtomType, Sexp, Elt, Value, nil, value, text}
use sfsexp.Cache.{World}
use sfsexp.Cache.Quiet.{IsReady}
use sfsexp.Parser.Base.{parser_normal, Pcont, start}
use sfsexp.Parser.Loop.{faults, Ended, returned, resume}

abbrev pub codes : String → Bytes
codes String.[] = []
codes (String.◌∷◌ c s) = code c ∷ codes s

-- The limited build with nothing in use, and every request granted by the C library.
abbrev pub granting : ℕ → Heap
granting m = record {
  max_memory = some m;
  used_memory = 0;
  refuses = λ _. false;
  requests = 0;
  sexp_errno = err_ok;
}

-- Every request is refused.
abbrev pub refusing : Heap
refusing = record {
  max_memory = none;
  used_memory = 0;
  refuses = λ _. true;
  requests = 0;
  sexp_errno = err_ok;
}

-- The unlimited build, every request granted, and the parser's default sizes.
abbrev pub calm : World
calm = record {
  heap = record {
    max_memory = none;
    used_memory = 0;
    refuses = λ _. false;
    requests = 0;
    sexp_errno = err_ok;
  };
  sexp_t_cache = none;
  pd_cache = none;
  val_start_size = 256;
  val_grow_size = 64;
  events = [];
}

abbrev pub fresh_pcont : Pcont
fresh_pcont = record {
  stack = empty;
  last_sexp = nil;
  val = some [];
  val_allocated = 256;
  val_used = 0;
  last_pos = none;
  sbuffer = none;
  depth = 0;
  qdepth = 0;
  state = start;
  esc = false;
  squoted = false;
  error = err_ok;
  mode = parser_normal;
  binexpected = 0;
  binread = 0;
  bindata = none;
  event_handlers = none;
}

-- The expression returned and the error code.
abbrev pub outcome : Ended → Option (Sexp × Errcode)
outcome (returned cc w) = some (cc.last_sexp, cc.error)
outcome _ = none

abbrev pub run_text : String → Ended
run_text s = resume (codes s ++ 0 ∷ []) (length (codes s)) fresh_pcont calm

abbrev pub parse_text : String → Option (Sexp × Errcode)
parse_text s = outcome (resume (codes s ++ 0 ∷ []) (length (codes s)) fresh_pcont calm)

abbrev pub text_value : AtomType → String → Value
text_value a s = record {
  aty = a;
  val = text (codes s);
  val_allocated = 256;
  val_used = length (codes s) + 1;
  bindata = none;
  binlength = 0;
}

abbrev pub atom_of : AtomType → String → Elt
atom_of a s = value (text_value a s)

pub calm-IsReady : IsReady calm
calm-IsReady = record {
  quiet = record { unlimited = refl; grants = λ n. refl };
  start_pos = omega arith;
  grow_pos = omega arith;
}

-- No parser for events: the mode of the runs is another.
abbrev pub no_events : Bytes → ℕ → Pcont → World → Ended
no_events str len pc w = faults

-- A file of chunks, each of which one read gives.
abbrev pub read_chunks : ℕ → ℕ → List Bytes → List Bytes × Option Bytes
read_chunks fd n [] = ([], some [])
read_chunks fd n (s ∷ e) = (e, some s)
