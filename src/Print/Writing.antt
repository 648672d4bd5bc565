-- ===== src/Print/Writing.antt =====
-- What the walk of src/sexp.c writes, where no request for memory is refused.
use sfsexp.Prelude.{
  ℕ, suc, ◌+◌, ◌%◌, ◌^◌, ◌≤◌, ◌<◌, ◌≡◌, refl, sym, ap, ◌∙◌, Bool, true, false, ◌&&◌, List, [], ◌∷◌,
  ◌++◌, append-nil, append_assoc, Option, some, Bytes, ltb, leb, if◌then◌else◌, length,
  length-append, arith, Bool-cases, inl, inr,
}
use mathlib.Core.List.{reverse}
use mathlib.Core.Path.{subst}
use sfsexp.FastStack.{int_limit}
use sfsexp.Memory.{Heap, size_mod, sexp_realloc}
use sfsexp.Memory.Quiet.{IsQuiet, sexp_realloc_quiet}
use sfsexp.Sexp.{AtomType, basic, squote, dquote, binary, text, Value, Sexp}
use sfsexp.CString.{CString, append_bytes, saddch}
use sfsexp.CString.Laws.{HasRoom, length-reverse, reverse-reverse_aux}
use sfsexp.SexpOps.{is_binary}
use sfsexp.Print.{
  Printing, put, put_text, put_prefix, put_binary, put_val, put_value, is_dquote, ◌then◌,
}
use sfsexp.RoundTrip.Print.{is_quoted, escape, show_atom}

-- The levels on the stack, the depth, and the text written.
pub record Writes (used : List Sexp) (d : ℕ) (t : Bytes) (p : Printing) : Type 0 where
  pub levels : p.stack.used ≡ used
  pub counted : p.stack.height ≡ length used
  pub shallow : length used < int_limit
  pub depth : p.depth ≡ d
  pub string : CString
  pub out : p.out ≡ some string
  pub written : reverse string.base ≡ t
  pub room : HasRoom string
  pub quiet : IsQuiet p.heap

-- The code goes on, with `P`.
pub data Goes (P : Printing → Type 0) : Option Printing → Type 0 where
  goes : {p : Printing} → P p → Goes P (some p)

pub Goes-then :
    {P Q : Printing → Type 0} {o : Option Printing} {f : Printing → Option Printing}
    → Goes P o
    → ((p : Printing) → P p → Goes Q (f p))
    → Goes Q (o then f)
Goes-then (goes {p} h) k = k p h

-- The growth of strings for which the size that `saddch` asks for does not wrap.
abbrev pub grow_limit : ℕ
grow_limit = 2 ^ 63

-- A character is appended.
saddch-IsQuiet :
    (grow c : ℕ) (s : CString) (h : Heap)
    → 0 < grow
    → grow < grow_limit
    → length s.base < int_limit
    → HasRoom s
    → IsQuiet h
    → (h' : Heap) × (n : ℕ) × (saddch (some s) c grow h
        ≡ some (h', some (record { base = c ∷ s.base; len = n })))
      × (length s.base < n)
      × IsQuiet h'
unfolding saddch append_bytes
saddch-IsQuiet grow c s h g g' b r q = elim (Bool-cases (leb s.len (length s.base + 1))) [
  | inl full ↦
      let size = (s.len + grow + 1) % size_mod in
      let m = sexp_realloc_quiet h q size s.len in
      let low : s.len ≤ length s.base + 1 = ground (arith, full) in
      let larger : length s.base + 1 < size = omega (arith, g, g', b, r, low) in
      let fits : ltb (length s.base + 1) size ≡ true = ground (arith, larger) in
      (
        (sexp_realloc size s.len h).0,
        size,
        rw full (rw m.0 (rw fits refl)),
        omega (arith, larger),
        m.1,
      )
  | inr room ↦
      let fits : ltb (length s.base + 1) s.len ≡ true = ground (arith, room) in
      (h, s.len, rw room (rw fits refl), ground (arith, room), q)
]

and_false : (b : Bool) → (b && false) ≡ false
and_false true = refl
and_false false = refl

pub retext :
    {used : List Sexp} {d : ℕ} {t t' : Bytes} {o : Option Printing}
    → t ≡ t'
    → Goes (Writes used d t) o
    → Goes (Writes used d t') o
retext {used} {d} {o} e = subst (λ u. Goes (Writes used d u) o) e

module _ (grow : ℕ) (g : 0 < grow) (g' : grow < grow_limit) where
  pub put-Writes :
      (c : ℕ) (used : List Sexp) (d : ℕ) (t : Bytes) (p : Printing)
      → length t < int_limit
      → Writes used d t p
      → Goes (Writes used d (t ++ c ∷ [])) (put grow c p)
  unfolding put
  put-Writes c used d t p b w =
      let short : length w.string.base < int_limit =
        omega (arith, b, length-reverse w.string.base, ap (λ u. length u) w.written) in
      let (h', n, e, l, q) = saddch-IsQuiet grow c w.string p.heap g g' short w.room w.quiet in
      let e' = ap (λ o. saddch o c grow p.heap) w.out ∙ e in
      rw (e', put)
        (goes (record {
          levels = w.levels;
          counted = w.counted;
          shallow = w.shallow;
          depth = w.depth;
          string = record { base = c ∷ w.string.base; len = n };
          out = refl;
          written = reverse-reverse_aux (c ∷ []) w.string.base ∙ ap (λ u. u ++ c ∷ []) w.written;
          room = omega (arith, l);
          quiet = q;
        }))

  pub put_text-Writes :
      (quoted : Bool) (s : Bytes) (used : List Sexp) (d : ℕ) (t : Bytes) (p : Printing)
      → length t + length (if quoted then escape s else s) ≤ int_limit
      → Writes used d t p
      → Goes (Writes used d (t ++ (if quoted then escape s else s))) (put_text grow quoted s p)
  unfolding put_text
  put_text-Writes true [] used d t p b w =
      goes (subst (λ u. Writes used d u p) (sym (append-nil t)) w)
  put_text-Writes false [] used d t p b w =
      goes (subst (λ u. Writes used d u p) (sym (append-nil t)) w)
  put_text-Writes false (c ∷ s) used d t p b w = rw (and_false (is_quoted c)) (
      retext (append_assoc t (c ∷ []) s) (
        Goes-then (put-Writes c used d t p (omega (arith, b)) w) λ p' w'.
          put_text-Writes false s used d _ p' (omega (arith, b, length-append t (c ∷ []))) w'))
  put_text-Writes true (c ∷ s) used d t p b w = elim (Bool-cases (is_quoted c)) [
    | inl q ↦
        let b' : length t + suc (suc (length (escape s))) ≤ int_limit = ground (arith, b, q) in
        rw q (
          retext
            (append_assoc (t ++ b'\\' ∷ []) (c ∷ []) (escape s)
              ∙ append_assoc t (b'\\' ∷ []) (c ∷ escape s))
            (Goes-then
              (Goes-then (put-Writes b'\\' used d t p (omega (arith, b')) w) λ p₁ w₁.
                put-Writes c used d _ p₁ (omega (arith, b', length-append t (b'\\' ∷ []))) w₁)
              λ p₂ w₂.
                put_text-Writes true s used d _ p₂
                  (omega (
                    arith,
                    b',
                    length-append (t ++ b'\\' ∷ []) (c ∷ []),
                    length-append t (b'\\' ∷ []),
                  ))
                  w₂))
    | inr n ↦
        let b' : length t + suc (length (escape s)) ≤ int_limit = ground (arith, b, n) in
        rw n (
          retext (append_assoc t (c ∷ []) (escape s)) (
            Goes-then (put-Writes c used d t p (omega (arith, b')) w) λ p' w'.
              put_text-Writes true s used d _ p' (omega (arith, b', length-append t (c ∷ []))) w'))
  ]

  put_val-Writes :
      (q : Bool) (v : Value) (s : Bytes) (used : List Sexp) (d : ℕ) (t : Bytes) (p : Printing)
      → is_dquote v.aty ≡ q
      → v.val ≡ text s
      → 0 < v.val_used
      → length t + length (if q then escape s else s) ≤ int_limit
      → Writes used d t p
      → Goes (Writes used d (t ++ (if q then escape s else s))) (put_val grow v p)
  unfolding put_val
  put_val-Writes q v s used d t p e ev u b w =
      let pos : ltb 0 v.val_used ≡ true = ground (arith, u) in
      rw pos (rw ev (rw e (put_text-Writes q s used d t p b w)))

  -- `put_value` with the type as an argument.
  abbrev put_as : AtomType → Value → Printing → Option Printing
  put_as a v p =
      put_prefix grow a p
      then (λ p'. if is_binary a then put_binary grow v p' else put_val grow v p')
      then λ p'. if is_dquote a then put grow b'"' p' else some p'

  put_as-Writes :
      (a : AtomType) (v : Value) (s : Bytes) (used : List Sexp) (d : ℕ) (t : Bytes) (p : Printing)
      → v.aty ≡ a
      → is_binary a ≡ false
      → v.val ≡ text s
      → 0 < v.val_used
      → length t + length (show_atom a s) ≤ int_limit
      → Writes used d t p
      → Goes (Writes used d (t ++ show_atom a s)) (put_as a v p)
  unfolding put_prefix
  put_as-Writes basic v s used d t p e b ev u l w =
      Goes-then (put_val-Writes false v s used d t p (ap is_dquote e) ev u l w) λ p' w'. goes w'
  put_as-Writes squote v s used d t p e b ev u l w = retext (append_assoc t (b'\'' ∷ []) s) (
      Goes-then
        (Goes-then (put-Writes b'\'' used d t p (omega (arith, l)) w) λ p₁ w₁.
          put_val-Writes false v s used d _ p₁ (ap is_dquote e) ev u
            (omega (arith, l, length-append t (b'\'' ∷ []))) w₁)
        λ p' w'. goes w')
  put_as-Writes dquote v s used d t p e b ev u l w =
      let l' : length t + suc (length (escape s) + 1) ≤ int_limit =
        omega (arith, l, length-append (escape s) (b'"' ∷ [])) in
      retext
        (append_assoc (t ++ b'"' ∷ []) (escape s) (b'"' ∷ [])
          ∙ append_assoc t (b'"' ∷ []) (escape s ++ b'"' ∷ []))
        (Goes-then
          (Goes-then (put-Writes b'"' used d t p (omega (arith, l')) w) λ p₁ w₁.
            put_val-Writes true v s used d _ p₁ (ap is_dquote e) ev u
              (omega (arith, l', length-append t (b'"' ∷ []))) w₁)
          λ p₂ w₂.
            put-Writes b'"' used d _ p₂
              (omega
                (arith, l', length-append (t ++ b'"' ∷ []) (escape s), length-append t (b'"' ∷ [])))
              w₂)
  put_as-Writes binary v s used d t p e b ev u l w = cc

  -- A text that is not binary, as the reference printer shows it.
  pub put_value-Writes :
      (v : Value) (s : Bytes) (used : List Sexp) (d : ℕ) (t : Bytes) (p : Printing)
      → is_binary v.aty ≡ false
      → v.val ≡ text s
      → 0 < v.val_used
      → length t + length (show_atom v.aty s) ≤ int_limit
      → Writes used d t p
      → Goes (Writes used d (t ++ show_atom v.aty s)) (put_value grow v p)
  unfolding put_value
  put_value-Writes v s used d t p b ev u l w = put_as-Writes v.aty v s used d t p refl b ev u l w
