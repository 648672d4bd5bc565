-- ===== src/CString/Laws.antt =====
-- Adding to the strings of src/cstring.c.
use sfsexp.Prelude.{
  ℕ, ◌+◌, ◌%◌, ◌≤◌, ◌<◌, ◌≡◌, ap, ◌∙◌, true, [], ◌∷◌, ◌++◌, Option, none, some, Bytes, ltb, leb,
  length, arith, Bool-cases, inl, inr,
}
use mathlib.Core.List.{reverse, reverse_aux, reverse_aux-eq, reverse-append, reverse-reverse}
use sfsexp.Memory.{Heap, size_mod, sexp_realloc}
use sfsexp.CString.{CString, append_bytes, store, sadd, saddch}

-- There is room for the bytes.
abbrev pub HasRoom : CString → Type 0
HasRoom s = length s.base ≤ s.len

pub length-reverse_aux : (a b : Bytes) → length (reverse_aux a b) ≡ length b + length a
length-reverse_aux [] b = omega arith
length-reverse_aux (c ∷ a) b = omega (arith, length-reverse_aux a (c ∷ b))

pub length-reverse : (a : Bytes) → length (reverse a) ≡ length a
length-reverse a = omega (arith, length-reverse_aux a [])

pub reverse-reverse_aux : (a b : Bytes) → reverse (reverse_aux a b) ≡ reverse b ++ a
reverse-reverse_aux a b =
    ap reverse (reverse_aux-eq a b)
    ∙ reverse-append (reverse a) b
    ∙ ap (λ u. reverse b ++ u) (reverse-reverse a)

-- A string with the text `a` behind that of `s`, room kept, and nothing written outside.
pub record Appended (s : CString) (a : Bytes) (s' : CString) : Type 0 where
  pub text : reverse s'.base ≡ reverse s.base ++ a
  pub room : HasRoom s'

-- What a call of `sadd` or `saddch` may end with.
abbrev pub Appends : CString → Bytes → Option (Heap × Option CString) → Type 0
Appends s a none = ⊥
Appends s a (some (h, none)) = Unit {0}
Appends s a (some (h, some s')) = Appended s a s'

store-Appends :
    (s : CString) (a : Bytes) (len : ℕ) (h : Heap)
    → length s.base + length a < len
    → Appends s a (store a s.base len h)
store-Appends s a len h l =
    let fits : ltb (length s.base + length a) len ≡ true = ground (arith, l) in
    rw fits (record {
      text = reverse-reverse_aux a s.base;
      room = omega (arith, l, length-reverse_aux a s.base);
    })

append_bytes-Appends :
    (grow : ℕ) (s : CString) (a : Bytes) (h : Heap)
    → 0 < grow
    → s.len + grow + length a < size_mod
    → HasRoom s
    → Appends s a (append_bytes a grow s h)
unfolding append_bytes
append_bytes-Appends grow s a h g b r = elim (Bool-cases (leb s.len (length s.base + length a))) [
  | inl full ↦
      rw full (elim (Bool-cases (sexp_realloc ((s.len + grow + length a) % size_mod) s.len h).1) [
        | inl granted ↦ rw granted (store-Appends s a _ _ (omega (arith, g, b, r)))
        | inr refused ↦ rw refused tt
      ])
  | inr fits ↦ rw fits (store-Appends s a s.len h (ground (arith, fits)))
]

-- `sadd` and `saddch` write inside the string's memory only, whatever the allocator answers, and
-- where they return a string it has the text added behind its own, for memory, growth and text of a
-- size together that a size_t holds.
pub sadd-Appends :
    (grow : ℕ) (s : CString) (a : Bytes) (c : ℕ) (h : Heap)
    → 0 < grow
    → s.len + grow + length a < size_mod
    → s.len + grow + 1 < size_mod
    → HasRoom s
    → Appends s a (sadd (some s) (some a) grow h) × Appends s (c ∷ []) (saddch (some s) c grow h)
unfolding sadd saddch
sadd-Appends grow s a c h g b b' r =
    (append_bytes-Appends grow s a h g b r, append_bytes-Appends grow s (c ∷ []) h g b' r)
