-- ===== src/Print/Buffer/Values.antt =====
-- A value that the walk of src/sexp.c writes into the buffer.
use sfsexp.Prelude.{
  ℕ, ◌<◌, ◌≡◌, refl, sym, ap, ◌∙◌, Bool, true, false, ◌&&◌, List, [], ◌∷◌, ◌++◌, append-nil,
  append_assoc, Bytes, ltb, ◌==◌, if◌then◌else◌, arith, Bool-cases, inl, inr,
}
use sfsexp.Sexp.{AtomType, basic, squote, dquote, binary, text, Value, Sexp}
use sfsexp.SexpOps.{is_binary}
use sfsexp.RoundTrip.Print.{is_quoted, escape, show_atom}
use sfsexp.Print.{is_dquote}
use sfsexp.Print.Buffer.{
  Page, Ink, goes, ◌onto◌, add_char_break_full, write_text, write_prefix, write_val, write_binary,
  write_value, check_left, is_worded,
}
use sfsexp.Print.Buffer.Writing.{Inked, Inks, inks, Inks-onto, Inks-same, retext, add_char-Inks}

module _ (buf : Bytes) (size : ℕ) where
  and_false : (b : Bool) → (b && false) ≡ false
  and_false true = refl
  and_false false = refl

  write_text-Inks :
      (quoted : Bool) (s : Bytes) (used : List Sexp) (d : ℕ) (t : Bytes) (p : Page)
      → Inked buf size used d t p
      → Inks buf size used d (t ++ (if quoted then escape s else s)) (write_text quoted s p)
  unfolding write_text
  write_text-Inks true [] used d t p w = retext buf size (sym (append-nil t)) (inks w)
  write_text-Inks false [] used d t p w = retext buf size (sym (append-nil t)) (inks w)
  write_text-Inks false (c ∷ s) used d t p w =
      let some_left : ltb 0 p.left ≡ true = ground (arith, w.some_left) in
      rw some_left (
        rw (and_false (is_quoted c)) (
          retext buf size (append_assoc t (c ∷ []) s) (
            Inks-onto buf size (t ++ c ∷ []) s (add_char-Inks buf size c used d t p w)
              λ p' w'. write_text-Inks false s used d _ p' w')))
  write_text-Inks true (c ∷ s) used d t p w =
      let some_left : ltb 0 p.left ≡ true = ground (arith, w.some_left) in
      rw some_left (elim (Bool-cases (is_quoted c)) [
        | inl q ↦ rw q (
            retext buf size
              (append_assoc (t ++ b'\\' ∷ []) (c ∷ []) (escape s)
                ∙ append_assoc t (b'\\' ∷ []) (c ∷ escape s))
              (Inks-onto buf size ((t ++ b'\\' ∷ []) ++ c ∷ []) (escape s)
                (Inks-onto buf size (t ++ b'\\' ∷ []) (c ∷ [])
                  (add_char-Inks buf size b'\\' used d t p w)
                  λ p₁ w₁. add_char-Inks buf size c used d _ p₁ w₁)
                λ p₂ w₂. write_text-Inks true s used d _ p₂ w₂))
        | inr n ↦ rw n (
            retext buf size (append_assoc t (c ∷ []) (escape s)) (
              Inks-onto buf size (t ++ c ∷ []) (escape s) (add_char-Inks buf size c used d t p w)
                λ p' w'. write_text-Inks true s used d _ p' w'))
      ])

  write_val-Inks :
      (q : Bool) (v : Value) (s : Bytes) (used : List Sexp) (d : ℕ) (t : Bytes) (p : Page)
      → is_dquote v.aty ≡ q
      → v.val ≡ text s
      → Inked buf size used d t p
      → Inks buf size used d (t ++ (if q then escape s else s)) (write_val v p)
  unfolding write_val
  write_val-Inks q v s used d t p e ev w = rw ev (rw e (write_text-Inks q s used d t p w))

  check_left-Inks :
      (used : List Sexp) (d : ℕ) (t : Bytes) (p : Page)
      → Inked buf size used d t p
      → Inks buf size used d t (check_left p)
  check_left-Inks used d t p w =
      let some_left : (p.left == 0) ≡ false = ground (arith, w.some_left) in rw some_left (inks w)

  -- `write_value` with the type as an argument.
  abbrev write_as : AtomType → Value → Page → Ink
  write_as a v p =
      write_prefix a p
      onto (λ p'. if is_worded v then write_val v p' else write_binary v p')
      onto (λ p'. if is_dquote a && ltb 0 p'.left then add_char_break_full b'"' p' else goes p')
      onto check_left

  write_as-Inks :
      (a : AtomType) (v : Value) (s : Bytes) (used : List Sexp) (d : ℕ) (t : Bytes) (p : Page)
      → v.aty ≡ a
      → is_binary a ≡ false
      → is_worded v ≡ true
      → v.val ≡ text s
      → Inked buf size used d t p
      → Inks buf size used d (t ++ show_atom a s) (write_as a v p)
  unfolding write_prefix
  write_as-Inks basic v s used d t p e b u ev w = rw u (
      Inks-same buf size
        (Inks-same buf size (write_val-Inks false v s used d t p (ap is_dquote e) ev w)
          λ p₁ w₁. inks w₁)
        λ p₂ w₂. check_left-Inks used d _ p₂ w₂)
  write_as-Inks squote v s used d t p e b u ev w = rw u (
      retext buf size (append_assoc t (b'\'' ∷ []) s) (
        Inks-same buf size
          (Inks-same buf size
            (Inks-onto buf size (t ++ b'\'' ∷ []) s (add_char-Inks buf size b'\'' used d t p w)
              λ p₁ w₁. write_val-Inks false v s used d _ p₁ (ap is_dquote e) ev w₁)
            λ p₂ w₂. inks w₂)
          λ p₃ w₃. check_left-Inks used d _ p₃ w₃))
  write_as-Inks dquote v s used d t p e b u ev w = rw u (
      retext buf size
        (append_assoc (t ++ b'"' ∷ []) (escape s) (b'"' ∷ [])
          ∙ append_assoc t (b'"' ∷ []) (escape s ++ b'"' ∷ []))
        (Inks-same buf size
          (Inks-onto buf size ((t ++ b'"' ∷ []) ++ escape s) (b'"' ∷ [])
            (Inks-onto buf size (t ++ b'"' ∷ []) (escape s)
              (add_char-Inks buf size b'"' used d t p w)
              λ p₁ w₁. write_val-Inks true v s used d _ p₁ (ap is_dquote e) ev w₁)
            λ p₂ w₂.
              let some_left : ltb 0 p₂.left ≡ true = ground (arith, w₂.some_left) in
              rw some_left (add_char-Inks buf size b'"' used d _ p₂ w₂))
          λ p₃ w₃. check_left-Inks used d _ p₃ w₃))
  write_as-Inks binary v s used d t p e b u ev w = cc

  -- A text that is not binary, as the reference printer shows it.
  pub write_value-Inks :
      (v : Value) (s : Bytes) (used : List Sexp) (d : ℕ) (t : Bytes) (p : Page)
      → is_binary v.aty ≡ false
      → v.val ≡ text s
      → 0 < v.val_used
      → Inked buf size used d t p
      → Inks buf size used d (t ++ show_atom v.aty s) (write_value v p)
  unfolding write_value
  write_value-Inks v s used d t p b ev u w =
      let worded : is_worded v ≡ true = ground (arith, b, u) in
      write_as-Inks v.aty v s used d t p refl b worded ev w
