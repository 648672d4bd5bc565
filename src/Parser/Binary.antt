-- ===== src/Parser/Binary.antt =====
-- src/parser.c, the cases 12 to 15 of the main loop of `cparse_sexp`: inlined binary data, `#b#`, its
-- size, `#`, and as many bytes. `c` is the byte at `t`, which case 15 reads only where it wants one.
use sfsexp.Prelude.{
  ℕ, ◌+◌, ◌-◌, ◌*◌, ◌%◌, ◌^◌, Bool, true, false, ◌&&◌, ◌||◌, [], ◌∷◌, Option, none, some, Bytes,
  ltb, leb, ◌==◌, if◌then◌else◌,
}
use mathlib.Core.List.{reverse}
use sfsexp.Memory.{sexp_malloc}
use sfsexp.FastStack.{empty_stack}
use sfsexp.Sexp.{binary, CharPtr, Elt, value, Event}
use sfsexp.Cache.{on_heap, sexp_t_allocate, unassigned_val}
use sfsexp.Parser.Base.{start, atom, hash_b, size_string, blob, Run, Outcome, next, fault, ◌>>=◌}
use sfsexp.Parser.Actions.{emit, rewind, is_escape, need, made, put_char, terminate, attach}
use sfsexp.Parser.Vars.{goto, advance, set_esc, rewound}

-- case 12
unfoldable pub step_hash : ℕ → Run → Outcome Run
step_hash c r =
    if c == b'b'
    then (put_char false c (set_esc (is_escape c) r) >>= λ r'. next (advance (goto hash_b r')))
    else next (goto atom r)

-- case 13: the size string overwrites what was read.
unfoldable pub step_hash_b : ℕ → Run → Outcome Run
step_hash_b c r =
    if c == b'#'
    then (put_char false c (set_esc (is_escape c) r) >>= λ r'.
        (let r'' = goto size_string (rewound r') in
          next (advance (record r'' { cc = record r''.cc { val_used = 0 } }))))
    else next (goto atom r)

-- The value of leading decimal digits.
unfoldable pub digits_value : ℕ → Bytes → ℕ
digits_value acc [] = acc
digits_value acc (c ∷ cs) = elim (leb b'0' c && leb c b'9') [
  | true ↦ digits_value (acc * 10 + (c - b'0')) cs
  | false ↦ acc
]

-- `(size_t) atoi(s)`: space, a sign, digits, as an `int` of 32 bits that is extended to 64 bits.
-- Outside the range of an int the C standard leaves the value open.
unfoldable pub int_to_size : Bool → ℕ → ℕ
int_to_size negative n =
    let low = (if negative then 2 ^ 32 - n % 2 ^ 32 else n) % 2 ^ 32 in
    if ltb low (2 ^ 31) then low else low + (2 ^ 64 - 2 ^ 32)

unfoldable pub atoi_signed : Bytes → ℕ
unfolding int_to_size digits_value
atoi_signed [] = 0
atoi_signed (c ∷ cs) =
    if c == b'-'
    then int_to_size true (digits_value 0 cs)
    else if c == b'+'
    then int_to_size false (digits_value 0 cs)
    else int_to_size false (digits_value 0 (c ∷ cs))

-- `isspace`
abbrev pub is_c_space : ℕ → Bool
is_c_space c = c == b' ' || leb 9 c && leb c 13

unfoldable pub atoi : Bytes → ℕ
unfolding atoi_signed
atoi [] = 0
atoi (c ∷ cs) = elim (is_c_space c) [ true ↦ atoi cs | false ↦ atoi_signed (c ∷ cs) ]

-- case 14
unfoldable pub step_size_string : ℕ → Run → Outcome Run
unfolding atoi
step_size_string c r =
    if c == b'#'
    then (terminate r >>= λ s.
        let n = atoi s in
        let r' = advance (record r {
          cc = record r.cc { state = blob; binexpected = n; binread = 0; bindata = none };
        }) in
        if ltb 0 n
        then (need (on_heap (sexp_malloc n)) r' >>= λ r''.
            next (record r'' { cc = record r''.cc { bindata = some [] } }))
        else next r')
    else put_char false c (set_esc (is_escape c) r) >>= λ r'. next (advance r')

-- `bindata[binread] = t[0]; binread++; t++`, where bytes are missing.
unfoldable pub read_blob : Option ℕ → Run → Outcome Run
read_blob c r =
    if ltb r.cc.binread r.cc.binexpected
    then elim c [
      | none ↦ fault
      | some c' ↦ elim r.cc.bindata [
        | none ↦ fault
        | some b ↦ next (
            advance (record r {
              cc = record r.cc { bindata = some (c' ∷ b); binread = r.cc.binread + 1 };
            }))
      ]
    ]
    else next r

-- The data of a binary atom, in the order of the input.
abbrev pub blob_data : Option Bytes → Option Bytes
blob_data none = none
blob_data (some b) = some (reverse b)

-- `sx->val` is not assigned: it is what the allocation left there.
abbrev pub blob_elt : CharPtr → Option Bytes → ℕ → Elt
blob_elt left b n = value (record {
  aty = binary;
  val = left;
  val_allocated = 0;
  val_used = 0;
  bindata = b;
  binlength = n;
})

-- All bytes are there. On an empty stack the element is kept in `sx` only, and the loop goes on.
unfoldable pub make_blob : Run → Outcome Run
make_blob r = need sexp_t_allocate r >>= λ r₁.
    let b = blob_data r₁.cc.bindata in
    let sx = blob_elt (unassigned_val r.w) b r₁.cc.binread in
    let told = emit (λ h. h.binary) (Event.binary_data b r₁.cc.binread) (made sx r₁) in
    let r₂ = record told {
      cc = record told.cc {
        bindata = none;
        binread = 0;
        binexpected = 0;
        state = start;
        val_used = 0;
        val = rewind told.cc.val;
      };
    } in
    if empty_stack r₂.cc.stack then next r₂ else attach sx r₂

-- case 15
unfoldable pub step_blob : Option ℕ → Run → Outcome Run
step_blob c r =
    read_blob c r >>= λ r'. if r'.cc.binread == r'.cc.binexpected then make_blob r' else next r'
