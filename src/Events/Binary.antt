-- ===== src/Events/Binary.antt =====
-- src/event_temp.c, the cases 12 to 15 of `eparse_sexp`: inlined binary data.
use sfsexp.Prelude.{ℕ, ◌+◌, [], ◌∷◌, Option, none, some, ltb, ◌==◌, if◌then◌else◌}
use sfsexp.Memory.{sexp_malloc, sexp_free}
use sfsexp.Sexp.{Event}
use sfsexp.Cache.{World, on_heap}
use sfsexp.Parser.Base.{
  start, atom, hash_b, size_string, blob, Run, Outcome, next, aborted, fault, ◌>>=◌,
}
use sfsexp.Parser.Actions.{emit, is_escape, terminate}
use sfsexp.Parser.Vars.{goto, advance, set_esc, rewound}
use sfsexp.Parser.Binary.{atoi, blob_data}
use sfsexp.Events.{store_char, counted_elt}

-- case 12
unfoldable pub on_hash : ℕ → Run → Outcome Run
on_hash c r =
    if c == b'b'
    then (store_char c (set_esc (is_escape c) r) >>= λ r'. next (advance (goto hash_b r')))
    else next (goto atom r)

-- case 13
unfoldable pub on_hash_b : ℕ → Run → Outcome Run
on_hash_b c r =
    if c == b'#'
    then (store_char c (set_esc (is_escape c) r) >>= λ r'.
        (let r'' = goto size_string (rewound r') in
          next (advance (record r'' { cc = record r''.cc { val_used = 0 } }))))
    else next (goto atom r)

-- The memory for the data, or a failed assert.
unfoldable pub start_blob : ℕ → Run → Outcome Run
start_blob n r =
    if ltb 0 n
    then (let (w, granted) = on_heap (sexp_malloc n) r.w in
        if granted
        then next (record r {
          w = w;
          cc = record r.cc { state = blob; binexpected = n; binread = 0; bindata = some [] };
        })
        else aborted)
    else aborted

-- case 14
unfoldable pub on_size_string : ℕ → Run → Outcome Run
on_size_string c r =
    if c == b'#'
    then (terminate r >>= λ s. start_blob (atoi s) (advance r))
    else store_char c (set_esc (is_escape c) r) >>= λ r'. next (advance r')

-- `bindata[binread] = t[0]; binread++; t++`, a fault outside of the memory.
unfoldable pub store_blob : Option ℕ → Run → Outcome Run
store_blob none r = fault
store_blob (some c) r = elim r.cc.bindata [
  | none ↦ fault
  | some b ↦
      if ltb r.cc.binread r.cc.binexpected
      then next (
          advance
            (record r { cc = record r.cc { bindata = some (c ∷ b); binread = r.cc.binread + 1 } }))
      else fault
]

-- All bytes are there: the handler is told, and the memory is freed.
unfoldable pub tell_blob : Run → Run
tell_blob r =
    let told =
      emit (λ h. h.binary) (Event.binary_data (blob_data r.cc.bindata) r.cc.binread)
        (counted_elt r) in
    let freed : World = record told.w { heap = sexp_free r.cc.binread told.w.heap } in
    rewound (record told {
      w = freed;
      cc = record told.cc {
        bindata = none;
        binread = 0;
        binexpected = 0;
        state = start;
        val_used = 0;
      };
    })

-- case 15
unfoldable pub on_blob : Option ℕ → Run → Outcome Run
on_blob c r = store_blob c r >>= λ r'.
    if r'.cc.binread == r'.cc.binexpected then next (tell_blob r') else next r'
