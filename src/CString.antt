-- ===== src/CString.antt =====
-- src/cstring.c: strings that grow. A `CSTRING` is its bytes up to `curlen`, last first, so that
-- `curlen` is their number, and the size `len` of its memory; behind the bytes stands a NUL. Sizes are
-- those of memory that exists and are added without wrap-around. The static `cstring_growsize` is an
-- argument of the functions that read it. A write outside the memory is `none`.
pub mod Laws
use sfsexp.Prelude.{
  ℕ, suc, ◌+◌, ◌%◌, Bool, true, false, List, [], ◌∷◌, ◌++◌, Option, none, some, Bytes, ltb, leb,
  ◌==◌, if◌then◌else◌, length,
}
use mathlib.Core.List.{reverse, reverse_aux}
use sfsexp.Errors.{err_memory}
use sfsexp.Memory.{Heap, size_mod, set_errno, sexp_malloc, sexp_calloc, sexp_realloc, sexp_free}

pub record CString : Type 0 where
  pub base : Bytes
  pub len : ℕ

-- sizeof on a 64-bit machine
abbrev pub sizeof_cstring : ℕ
sizeof_cstring = 24

pub sgrowsize : ℕ → ℕ → ℕ
sgrowsize s cstring_growsize = if ltb s 1 then cstring_growsize else s

unfoldable pub snew : ℕ → Heap → Heap × Option CString
snew s h =
    let (h₁, granted) = sexp_malloc sizeof_cstring h in
    if granted
    then (let (h₂, granted') = sexp_calloc 1 s h₁ in
        if granted'
        then (h₂, some (record { base = []; len = s }))
        else (set_errno err_memory (sexp_free sizeof_cstring h₂), none))
    else (set_errno err_memory h₁, none)

-- The bytes `a` behind the others and a NUL behind them, in memory of `len` bytes.
abbrev pub store : Bytes → Bytes → ℕ → Heap → Option (Heap × Option CString)
store a base len h =
    if ltb (length base + length a) len
    then some (h, some (record { base = reverse_aux a base; len = len }))
    else none

-- Where the bytes and a NUL do not fit, the memory grows by `grow` and their number, a
-- size_t that may wrap. A failed
-- reallocation leaves the old memory to whoever still has a pointer to it.
unfoldable pub append_bytes : Bytes → ℕ → CString → Heap → Option (Heap × Option CString)
append_bytes a grow s h =
    if leb s.len (length s.base + length a)
    then (let (h', granted) = sexp_realloc ((s.len + grow + length a) % size_mod) s.len h in
        if granted
        then store a s.base ((s.len + grow + length a) % size_mod) h'
        else some (set_errno err_memory h', none))
    else store a s.base s.len h

-- NULL for `s` or for `a` is `none`; `a` is without its NUL.
unfoldable pub sadd : Option CString → Option Bytes → ℕ → Heap → Option (Heap × Option CString)
unfolding append_bytes
sadd none a grow h = some (h, none)
sadd (some s) none grow h = some (h, some s)
sadd (some s) (some a) grow h = append_bytes a grow s h

unfoldable pub saddch : Option CString → ℕ → ℕ → Heap → Option (Heap × Option CString)
unfolding append_bytes
saddch none a grow h = some (h, none)
saddch (some s) a grow h = append_bytes (a ∷ []) grow s h

unfoldable pub strim : Option CString → Heap → Heap × Option CString
strim none h = (h, none)
strim (some s) h =
    if s.len == length s.base + 1
    then (h, some s)
    else (let (h', granted) = sexp_realloc (length s.base + 1) s.len h in
        if granted
        then (h', some (record s { len = length s.base + 1 }))
        else (set_errno err_memory h', none))

-- `toCharPtr(s)`, as a string.
abbrev pub to_char_ptr : Option CString → Option Bytes
to_char_ptr none = none
to_char_ptr (some s) = some (reverse s.base)

pub sempty : Option CString → Option CString
sempty none = none
sempty (some s) = some (record s { base = [] })

unfoldable pub sdestroy : Option CString → Heap → Heap
sdestroy none h = h
sdestroy (some s) h = sexp_free sizeof_cstring (sexp_free s.len h)
