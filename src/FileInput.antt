-- ===== src/FileInput.antt =====
-- src/io.c: reading expressions from a file descriptor. The system call `read` is a parameter: from a
-- file in state `e` it gives the bytes read, at most as many as asked for, or `none` for -1. So are
-- BUFSIZ of stdio.h and the size of the wrapper. The continuation's `sbuffer` points to the wrapper's
-- buffer, so its bytes are those that the buffer has when the parser is called.
pub mod Stopping
pub mod Calls
pub mod Chunks
pub mod Sequence
use sfsexp.Prelude.{
  Bool, true, false, ℕ, zero, suc, ◌-◌, ◌+◌, List, [], ◌∷◌, ◌++◌, Option, none, some, Bytes, ◌==◌,
  if◌then◌else◌, length,
}
use sfsexp.Errors.{Errcode, err_ok, err_memory, err_io_empty}
use sfsexp.Memory.{size_mod, sexp_calloc, sexp_free}
use sfsexp.Sexp.{Elt, Sexp, nil, node}
use sfsexp.Cache.{World, world_errno, on_heap}
use sfsexp.Parser.Base.{Pcont}
use sfsexp.Parser.Loop.{Ended, returned, returned_null, out_of_fuel, aborts, faults}
use sfsexp.Parser.Entry.{cparse_sexp}
use sfsexp.Wrappers.{destroy_continuation}

-- `sexp_iowrap_t`
pub record IoWrap : Type 0 where
  pub cc : Option Pcont
  pub fd : ℕ
  pub buf : Bytes
  pub cnt : ℕ

-- What a call returns, with the wrapper and the file behind it: an expression or NULL; or it crashed,
-- or it did not end, which has no counterpart in the program.
pub data Got (E : Type 0) : Type 0 where
  got : Sexp → Option IoWrap → E → World → Got E
  crashed endless : Got E

abbrev pub is_ok : Errcode → Bool
is_ok err_ok = true
is_ok _ = false

-- The bytes of the buffer behind the first ones.
abbrev pub behind : ℕ → Bytes → Bytes
behind zero s = s
behind (suc n) [] = []
behind (suc n) (_ ∷ s) = behind n s

abbrev pub zeros : ℕ → Bytes
zeros zero = []
zeros (suc n) = 0 ∷ zeros n

module _ (bufsiz sizeof_iowrap : ℕ) where
  unfoldable pub init_iowrap : ℕ → World → World × Option IoWrap
  init_iowrap fd w =
      let (w', granted) = on_heap (sexp_calloc 1 sizeof_iowrap) w in
      if granted
      then (w', some (record { cc = none; fd = fd; buf = zeros bufsiz; cnt = 0 }))
      else (world_errno err_memory w', none)

  unfoldable pub destroy_iowrap : Option IoWrap → World → Option World
  destroy_iowrap none w = some w
  destroy_iowrap (some iow) w = elim (destroy_continuation iow.cc w) [
    | none ↦ none
    | some w' ↦ some (record w' { heap = sexp_free sizeof_iowrap w'.heap })
  ]

-- The pointer into the buffer that a continuation holds.
abbrev pub on_buffer : Bytes → Option Pcont → Option Pcont
on_buffer buf none = none
on_buffer buf (some pc) = some (record pc { sbuffer = some buf })

-- The expression is taken out of the continuation.
abbrev pub take_last : {E : Type 0} → Pcont → IoWrap → E → World → Got E
take_last pc iow e w =
    got pc.last_sexp (some (record iow { cc = some (record pc { last_sexp = nil }) })) e w

module _ {E : Type 0} (bufsiz : ℕ) (read : ℕ → ℕ → E → E × Option Bytes)
    (eparse_sexp : Bytes → ℕ → Pcont → World → Ended) where
  -- `cnt = read(fd, buf, BUFSIZ)`; -1 as a size_t is the largest.
  abbrev pub stored : IoWrap → E × Option Bytes → E × IoWrap
  stored iow (e, none) = (e, record iow { cnt = size_mod - 1 })
  stored iow (e, some s) = (e, record iow { buf = s ++ behind (length s) iow.buf; cnt = length s })

  unfoldable pub read_chunk : IoWrap → E → E × IoWrap
  read_chunk iow e = stored iow (read iow.fd bufsiz e)

  unfoldable pub parse_chunk : IoWrap → World → Ended
  parse_chunk iow w = cparse_sexp eparse_sexp (some iow.buf) iow.cnt (on_buffer iow.buf iow.cc) w

  -- What follows a call of the parser whose result is used at once.
  abbrev pub after_parse : (Pcont → World → Got E) → Ended → Got E
  after_parse k (returned pc w) = k pc w
  after_parse k out_of_fuel = endless
  after_parse k _ = crashed

  -- A round of the loop while there is no expression, and `again` for what follows another read.
  abbrev pub await_on : Got E → Sexp → Pcont → IoWrap → E → World → Got E
  await_on again (node x xs) pc iow e w = take_last pc iow e w
  await_on again nil pc iow e w =
      if is_ok pc.error
      then again
      else got nil (some (record iow { cc = some pc })) e (world_errno pc.error w)

  abbrev pub read_again : (IoWrap → E → World → Got E) → World → E × IoWrap → Got E
  read_again k w (e, iow) =
      if iow.cnt == 0 then got nil (some iow) e (world_errno err_io_empty w) else k iow e w

  -- The loop; its fuel is the number of reads.
  unfoldable pub await_sexp : ℕ → Pcont → IoWrap → E → World → Got E
  unfolding read_chunk parse_chunk
  await_sexp zero pc iow e w = await_on endless pc.last_sexp pc iow e w
  await_sexp (suc f) pc iow e w =
      let parse_on : IoWrap → E → World → Got E = λ iow' e' w'.
        after_parse (λ pc' w''. await_sexp f pc' (record iow' { cnt = 0 }) e' w'')
          (parse_chunk iow' w') in
      await_on (read_again parse_on w (read_chunk (record iow { cc = some pc }) e)) pc.last_sexp pc
        iow e w

  unfoldable pub parse_first : ℕ → IoWrap → E → World → Got E
  unfolding parse_chunk await_sexp
  parse_first f iow e w = after_parse (λ pc w'. await_sexp f pc iow e w') (parse_chunk iow w)

  -- From `if (iow->cnt == 0)` on.
  unfoldable pub read_first : ℕ → IoWrap → E → World → Got E
  unfolding parse_first read_chunk
  read_first f iow e w =
      if iow.cnt == 0
      then read_again (parse_first f) w (read_chunk iow e)
      else parse_first f iow e w

  -- What follows the parse of what the buffer holds from an earlier call.
  abbrev pub resumed_on : ℕ → Sexp → Pcont → IoWrap → E → World → Got E
  resumed_on f (node x xs) pc iow e w = take_last pc iow e w
  resumed_on f nil pc iow e w = read_first f (record iow { cc = some pc; cnt = 0 }) e w

  abbrev pub resumed : ℕ → IoWrap → E → Ended → Got E
  resumed f iow e (returned pc w) = resumed_on f pc.last_sexp pc iow e w
  resumed f iow e (returned_null w) = got nil (some (record iow { cc = none })) e w
  resumed f iow e out_of_fuel = endless
  resumed f iow e _ = crashed

  abbrev pub has_more : Option Pcont → Bool
  has_more none = false
  has_more (some pc) = elim pc.last_pos [ none ↦ false | some t ↦ true ]

  unfoldable pub read_one_sexp : ℕ → Option IoWrap → E → World → Got E
  unfolding read_first parse_chunk
  read_one_sexp f none e w = got nil none e w
  read_one_sexp f (some iow) e w =
      if has_more iow.cc then resumed f iow e (parse_chunk iow w) else read_first f iow e w
