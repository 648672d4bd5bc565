-- ===== src/RoundTrip/Texts.antt =====
-- The bytes of an atom, states 4 and 5 of src/parser.c: they end up in the value buffer.
use sfsexp.Prelude.{
  ℕ, ◌+◌, ◌≡◌, refl, sym, Bool, true, false, ◌&&◌, [], ◌∷◌, ◌++◌, Option, none, some, ap, Bytes,
  length, ◌==◌, if◌then◌else◌, Bool-cases, inl, inr, arith,
}
use mathlib.Core.List.{reverse_aux}
use mathlib.Core.Path.{subst}
use sfsexp.Cache.{World}
use sfsexp.Parser.Base.{atom, dquoted, Pcont, Run, ◌>>=◌, fault, falls}
use sfsexp.Parser.Actions.{is_escape, overwrite}
use sfsexp.Parser.Vars.{advance, set_esc, is_special, is_atom_char}
use sfsexp.Parser.Atoms.{step_atom, dquoted_char, step_dquoted}
use sfsexp.Parser.Step.{step_char}
use sfsexp.RoundTrip.Conf.{Conf, InConf, Surely, Surely-intro, put_char-InConf}
use sfsexp.RoundTrip.Leads.{Leads, At, Reads, Carried, Surely-then, round_on}
use sfsexp.RoundTrip.Print.{is_quoted, escape, IsAtomText}

-- Behind a text: so many bytes on, with the text in the buffer.
abbrev pub read_on : ℕ → Bytes → Conf → Conf
read_on n s k = record k { t = k.t + n; text = reverse_aux s k.text }

module _ (mem : Bytes) (len : ℕ) (Q : Pcont → World → Type 0) where
  -- A character of an unquoted atom.
  atom_char :
      (c : ℕ) (k : Conf) (r : Run)
      → InConf k r
      → k.state ≡ atom
      → k.esc ≡ false
      → is_atom_char c ≡ true
      → is_escape c ≡ false
      → At mem len k.t c
      → ((r' : Run) → InConf (record k { t = k.t + 1; text = c ∷ k.text }) r' → Leads mem len Q r')
      → Leads mem len Q r
  unfolding step_char step_atom
  atom_char c k r i q e legal plain a on = round_on k r i (rw q refl) a (
      rw q (
        let unescaped : r.cc.esc ≡ false = ground (arith, i.0.esc) in
        rw unescaped (
          rw legal (
            Surely-then
              (put_char-InConf false c k (set_esc (is_escape c) r) (ground (arith, i.0), i.1))
              λ r' i'. falls (on (advance r') (ground (arith, i'.0), i'.1))))))

  pub atom_text :
      (s : Bytes) (k : Conf) (r : Run)
      → InConf k r
      → k.state ≡ atom
      → k.esc ≡ false
      → IsAtomText s
      → Reads mem len k.t s
      → ((r' : Run) → InConf (read_on (length s) s k) r' → Leads mem len Q r')
      → Leads mem len Q r
  atom_text [] k r i q e legal a on = on r (ground (arith, i.0), i.1)
  atom_text (c ∷ s) k r i q e legal a on =
      atom_char c k r i q e legal.0 legal.1 a.0 λ r' i'.
        atom_text s _ r' i' q e legal.2 a.1 λ r'' i''. on r'' (ground (arith, i''.0), i''.1)

-- The byte that the inside of a text in double quotes begins with, its closing quote included.
abbrev pub first_byte : Bytes → ℕ
first_byte [] = b'"'
first_byte (c ∷ s) = if is_quoted c then b'\\' else c

-- What lies ahead where the first character is escaped, and where it is not.
escape-cons :
    (mem : Bytes) (len t c : ℕ) (s : Bytes) (b : Bool)
    → is_quoted c ≡ b
    → Reads mem len t (escape (c ∷ s) ++ b'"' ∷ [])
    → Reads mem len t ((if b then b'\\' ∷ c ∷ escape s else c ∷ escape s) ++ b'"' ∷ [])
escape-cons mem len t c s b e =
    subst (λ b'. Reads mem len t ((if b' then b'\\' ∷ c ∷ escape s else c ∷ escape s) ++ b'"' ∷ []))
      e

pub step_dquoted-plain :
    (c : ℕ) (ahead : Option ℕ) (r : Run)
    → r.cc.esc ≡ false
    → step_dquoted c ahead r ≡ dquoted_char c r
unfolding step_dquoted
step_dquoted-plain c ahead r e =
    ap
      (λ b.
        if b && is_special c
        then (overwrite c r >>= λ r'. elim ahead [
          | none ↦ fault
          | some c' ↦ dquoted_char c' (set_esc false (advance r'))
        ])
        else dquoted_char c r)
      e

pub first_byte-At :
    (mem : Bytes) (len t : ℕ) (s : Bytes)
    → Reads mem len t (escape s ++ b'"' ∷ [])
    → At mem len t (first_byte s)
first_byte-At mem len t [] a = a.0
first_byte-At mem len t (c ∷ s) a = elim (Bool-cases (is_quoted c)) [
  | inl q ↦ rw q (escape-cons mem len t c s true q a).0
  | inr n ↦ rw n (escape-cons mem len t c s false n a).0
]

module _ (mem : Bytes) (len : ℕ) (Q : Pcont → World → Type 0) where
  overwrite-InConf :
      (c d : ℕ) (s : Bytes) (k : Conf) (r : Run)
      → k.text ≡ d ∷ s
      → InConf k r
      → Surely (InConf (record k { text = c ∷ s })) (overwrite c r)
  unfolding overwrite
  overwrite-InConf c d s k r e i =
      Surely-intro (record r { cc = record r.cc { val = some (c ∷ s) } }) (ground (arith, i.0))
        (ground (arith, i.0), i.1)

  -- A character that needs no backslash.
  plain_char :
      (c : ℕ) (k : Conf) (r : Run)
      → InConf k r
      → is_quoted c ≡ false
      → ((r' : Run)
          → InConf (record k { t = k.t + 1; text = c ∷ k.text; esc = false }) r'
          → Leads mem len Q r')
      → Carried mem len Q (dquoted_char c r)
  unfolding dquoted_char
  plain_char c k r i n on =
      let other : (c == b'"') ≡ false = ground arith in
      let unescaped : is_escape c ≡ false = ground arith in
      rw other (
        Surely-then (put_char-InConf false c k r i)
          λ r' i'. falls (on (advance (set_esc (is_escape c) r')) (ground (arith, i'.0), i'.1)))

  -- A backslash and the character it escapes, with what follows in the same round.
  escaped_char :
      (c c' : ℕ) (k : Conf) (r : Run)
      → InConf k r
      → k.state ≡ dquoted
      → is_quoted c ≡ true
      → At mem len (k.t + 1) c
      → At mem len (k.t + 1 + 1) c'
      → ((r' : Run)
          → InConf (record k { t = k.t + 1 + 1; text = c ∷ k.text; esc = false }) r'
          → Carried mem len Q (dquoted_char c' r'))
      → Carried mem len Q (dquoted_char b'\\' r)
  unfolding step_char step_dquoted dquoted_char
  escaped_char c c' k r i q n a a' on = Surely-then (put_char-InConf false b'\\' k r i) λ r₁ i₁.
      falls (
        round_on (record k { t = k.t + 1; text = b'\\' ∷ k.text; esc = true })
          (advance (set_esc true r₁)) (ground (arith, i₁.0), i₁.1) (rw q refl) a
          (rw q (
            let special : is_special c ≡ true = ground arith in
            rw special (
              Surely-then
                (overwrite-InConf c b'\\' k.text
                  (record k { t = k.t + 1; text = b'\\' ∷ k.text; esc = true })
                  (advance (set_esc true r₁)) refl (ground (arith, i₁.0), i₁.1))
                λ r₂ i₂.
                  rw a'.byte (on (set_esc false (advance r₂)) (ground (arith, i₂.0), i₂.1))))))

  -- The inside of a text in double quotes, from the byte at `t` on.
  pub dquoted_text :
      (s : Bytes) (k : Conf) (r : Run)
      → InConf k r
      → k.state ≡ dquoted
      → k.esc ≡ false
      → Reads mem len k.t (escape s ++ b'"' ∷ [])
      → ((r' : Run)
          → InConf (read_on (length (escape s)) s k) r'
          → Carried mem len Q (dquoted_char b'"' r'))
      → Carried mem len Q (dquoted_char (first_byte s) r)
  unfolding step_char
  dquoted_text [] k r i q e a on = on r (ground (arith, i.0), i.1)
  dquoted_text (c ∷ s) k r i q e a on = elim (Bool-cases (is_quoted c)) [
    | inl n ↦
        let a' = escape-cons mem len k.t c s true n a in
        rw n (
          escaped_char c (first_byte s) k r i q n a'.1.0 (first_byte-At mem len _ s a'.1.1) λ r' i'.
            dquoted_text s _ r' i' q refl a'.1.1 λ r'' i''. on r'' (ground (arith, i''.0), i''.1))
    | inr n ↦
        let a' = escape-cons mem len k.t c s false n a in
        rw n (
          plain_char c k r i n λ r' i'.
            round_on _ r' i' (rw q refl) (first_byte-At mem len _ s a'.1) (
              rw q (
                subst (Carried mem len Q) (sym (step_dquoted-plain (first_byte s) _ r' i'.0.esc)) (
                  dquoted_text s _ r' i' q refl a'.1
                    λ r'' i''. on r'' (ground (arith, i''.0), i''.1)))))
  ]
