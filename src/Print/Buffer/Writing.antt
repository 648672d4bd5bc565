-- ===== src/Print/Buffer/Writing.antt =====
-- What the walk of src/sexp.c writes into the buffer, where no request for memory is refused.
use sfsexp.Prelude.{
  ℕ, zero, suc, ◌+◌, ◌≤◌, ◌<◌, ◌≡◌, refl, sym, ap, ◌∙◌, List, [], ◌∷◌, ◌++◌, append_assoc, Bytes,
  ◌==◌, length, length-append, arith, Bool-cases, inl, inr,
}
use mathlib.Core.List.{reverse}
use mathlib.Core.Path.{subst}
use sfsexp.FastStack.{int_limit}
use sfsexp.Memory.Quiet.{IsQuiet}
use sfsexp.Sexp.{Sexp}
use sfsexp.CString.Laws.{reverse-reverse_aux}
use sfsexp.Print.Buffer.{
  Page, Ink, goes, full, ◌onto◌, size_dec, out_of_space, write_byte, add_char_break_full,
}
use sfsexp.Print.Buffer.Call.{memory}

-- `buf'` is `buf` with `u` and a NUL in the place of its first bytes.
pub record Replaced (buf u buf' : Bytes) : Type 0 where
  pub old : Bytes
  pub last : ℕ
  pub rest : Bytes
  pub was : buf ≡ old ++ last ∷ rest
  pub same_length : length old ≡ length u
  pub is : buf' ≡ u ++ 0 ∷ rest

module _ (buf : Bytes) (size : ℕ) where
  -- The levels on the stack, the depth, and the text written over `old`, with space left.
  pub record Inked (used : List Sexp) (d : ℕ) (t : Bytes) (p : Page) : Type 0 where
    pub levels : p.stack.used ≡ used
    pub counted : p.stack.height ≡ length used
    pub shallow : length used < int_limit
    pub depth : p.depth ≡ d
    pub written : reverse p.before ≡ t
    pub old : Bytes
    pub was : buf ≡ old ++ p.after
    pub same_length : length old ≡ length t
    pub space : p.left + length t ≡ size
    pub some_left : 0 < p.left
    pub room : p.left ≤ length p.after
    pub quiet : IsQuiet p.heap

  -- The space ran out before the whole of `t` was written: as much as fits stands in the buffer.
  pub record Cut (t : Bytes) (p : Page) : Type 0 where
    pub fitting : Bytes
    pub missing : Bytes
    pub parts : t ≡ fitting ++ missing
    pub fits : length fitting + 1 ≡ size
    pub misses : 0 < length missing
    pub replaced : Replaced buf fitting (memory p)

  pub data Inks (used : List Sexp) (d : ℕ) (t : Bytes) : Ink → Type 0 where
    inks : {p : Page} → Inked used d t p → Inks used d t (goes p)
    cuts : {p : Page} → Cut t p → Inks used d t (full p)

  pub Cut-append : (t s : Bytes) (p : Page) → Cut t p → Cut (t ++ s) p
  Cut-append t s p c = record {
    fitting = c.fitting;
    missing = c.missing ++ s;
    parts = ap (λ u. u ++ s) c.parts ∙ append_assoc c.fitting c.missing s;
    fits = c.fits;
    misses = omega (arith, length-append c.missing s, c.misses);
    replaced = c.replaced;
  }

  pub Inks-onto :
      {used used' : List Sexp} {d d' : ℕ} (t s : Bytes) {i : Ink} {f : Page → Ink}
      → Inks used d t i
      → ((p : Page) → Inked used d t p → Inks used' d' (t ++ s) (f p))
      → Inks used' d' (t ++ s) (i onto f)
  Inks-onto t s (inks {p} h) k = k p h
  Inks-onto t s (cuts {p} c) k = cuts (Cut-append t s p c)

  pub Inks-same :
      {used used' : List Sexp} {d d' : ℕ} {t : Bytes} {i : Ink} {f : Page → Ink}
      → Inks used d t i
      → ((p : Page) → Inked used d t p → Inks used' d' t (f p))
      → Inks used' d' t (i onto f)
  Inks-same (inks {p} h) k = k p h
  Inks-same (cuts c) k = cuts c

  pub retext :
      {used : List Sexp} {d : ℕ} {t t' : Bytes} {i : Ink}
      → t ≡ t'
      → Inks used d t i
      → Inks used d t' i
  retext {used} {d} {i = i} e = subst (λ u. Inks used d u i) e

  reverse-cons : (c : ℕ) (s t : Bytes) → reverse s ≡ t → reverse (c ∷ s) ≡ t ++ c ∷ []
  reverse-cons c s t e = reverse-reverse_aux (c ∷ []) s ∙ ap (λ u. u ++ c ∷ []) e

  add_at :
      (c : ℕ) (used : List Sexp) (d : ℕ) (t : Bytes) (p : Page) (l x : ℕ) (rest : Bytes)
      → Inked used d t p
      → p.left ≡ suc l
      → p.after ≡ x ∷ rest
      → Inks used d (t ++ c ∷ []) (add_char_break_full c p)
  unfolding add_char_break_full write_byte out_of_space
  add_at c used d t p l x rest w e ea =
      let dec : size_dec p.left ≡ l = ap size_dec e in
      rw (ea, write_byte)
        (rw dec (elim (Bool-cases (l == 0)) [
          | inl z ↦ rw z (
              cuts (record {
                fitting = t;
                missing = c ∷ [];
                parts = refl;
                fits = ground (arith, z, w.space, e);
                misses = omega arith;
                replaced = record {
                  old = w.old;
                  last = x;
                  rest = rest;
                  was = w.was ∙ ap (λ a. w.old ++ a) ea;
                  same_length = w.same_length;
                  is =
                      ap (λ u. u ++ rest) (reverse-cons 0 p.before t w.written)
                      ∙ append_assoc t (0 ∷ []) rest;
                };
              }))
          | inr n ↦ rw n (
              inks (record {
                levels = w.levels;
                counted = w.counted;
                shallow = w.shallow;
                depth = w.depth;
                written = reverse-cons c p.before t w.written;
                old = w.old ++ x ∷ [];
                was = w.was ∙ ap (λ a. w.old ++ a) ea ∙ sym (append_assoc w.old (x ∷ []) rest);
                same_length =
                    omega (
                      arith,
                      length-append w.old (x ∷ []),
                      length-append t (c ∷ []),
                      w.same_length,
                    );
                space = omega (arith, length-append t (c ∷ []), w.space, e);
                some_left = ground (arith, n);
                room = omega (arith, w.room, e, ap (λ a. length a) ea);
                quiet = w.quiet;
              }))
        ]))

  add_some :
      (c : ℕ) (used : List Sexp) (d : ℕ) (t : Bytes) (p : Page) (l : ℕ) (a : Bytes)
      → p.left ≡ l
      → p.after ≡ a
      → Inked used d t p
      → Inks used d (t ++ c ∷ []) (add_char_break_full c p)
  add_some c used d t p zero a e ea w = absurd (omega (arith, w.some_left, e))
  add_some c used d t p (suc l) [] e ea w = absurd (omega (arith, w.room, e, ap (λ a. length a) ea))
  add_some c used d t p (suc l) (x ∷ rest) e ea w = add_at c used d t p l x rest w e ea

  pub add_char-Inks :
      (c : ℕ) (used : List Sexp) (d : ℕ) (t : Bytes) (p : Page)
      → Inked used d t p
      → Inks used d (t ++ c ∷ []) (add_char_break_full c p)
  add_char-Inks c used d t p w = add_some c used d t p p.left p.after refl refl w
