-- ===== src/Print/Pcont.antt =====
-- src/parser.c, `print_pcont`: the state of a parse as text, level by level from the bottom of the
-- stack, into a buffer of a fixed size. The buffer is a zipper at `cur`; `none` is a write outside of
-- it, a NULL pointer followed, or a byte read that was not written. `loc` is an int, given by its 32
-- bits, and converted to a size_t where it is compared with one or subtracted from one.
use sfsexp.Prelude.{
  ℕ, zero, suc, ◌+◌, ◌-◌, ◌%◌, List, [], ◌∷◌, ◌++◌, Option, none, some, Bytes, ltb, ◌==◌,
  if◌then◌else◌,
}
use mathlib.Core.List.{reverse}
use sfsexp.Sexp.{list, Sexp, nil, node}
use sfsexp.Memory.{size_mod}
use sfsexp.Cache.{World}
use sfsexp.FastStack.{int_limit, int_mod, int_inc}
use sfsexp.SexpOps.{first_bytes}
use sfsexp.Parser.Base.{ParseData, Pcont}
use sfsexp.Print.Buffer.Call.{BufferResult, result, print_sexp, size_sub}

pub record Cursor : Type 0 where
  pub before : Bytes
  pub after : Bytes
  pub loc : ℕ
  pub w : World

-- An int converted to a size_t
abbrev pub size_of : ℕ → ℕ
size_of n = if ltb n int_limit then n else n + (size_mod - int_mod)

abbrev pub behind_bytes : ℕ → Bytes → Bytes
behind_bytes zero s = s
behind_bytes (suc n) [] = []
behind_bytes (suc n) (_ ∷ s) = behind_bytes n s

-- `cur[0] = '('; cur++; loc++`
unfoldable pub put_paren : Cursor → Option Cursor
put_paren k = elim k.after [
  | [] ↦ none
  | _ ∷ s ↦ some (record k { before = b'(' ∷ k.before; after = s; loc = int_inc k.loc })
]

-- `cur[n] = ' '`, and `cur` behind it, where `print_sexp` left `m` in the buffer.
unfoldable pub put_space : ℕ → Bytes → Cursor → Option Cursor
put_space n m k = elim (behind_bytes n m) [
  | [] ↦ none
  | _ ∷ s ↦ some (record k {
    before = b' ' ∷ (reverse (first_bytes n m) ++ k.before);
    after = s;
    loc = (k.loc + (n + 1)) % int_mod;
  })
]

-- The same where `print_sexp` returned -(n + 1): `cur[-(n + 1)]` is written, which is before `cur`, and
-- `cur` goes back by `n`.
unfoldable pub put_space_back : ℕ → Bytes → Cursor → Option Cursor
put_space_back n m k = elim (behind_bytes n k.before) [
  | [] ↦ none
  | _ ∷ s ↦ some (record k {
    before = b' ' ∷ s;
    after = reverse (first_bytes n k.before) ++ m;
    loc = (k.loc + (int_mod - n)) % int_mod;
  })
]

abbrev pub after_print : Cursor → BufferResult → Option Cursor
after_print k (result n m w) =
    if ltb n int_limit
    then put_space n m (record k { w = w })
    else put_space_back (int_mod - 1 - n) m (record k { w = w })
after_print k _ = none

module _ (buflen : ℕ) where
  unfoldable pub print_element : Sexp → Cursor → Option Cursor
  print_element sx k = after_print k (print_sexp k.after (size_sub buflen (size_of k.loc)) sx k.w)

  -- The expressions of a level. A list without contents is one that is still open.
  unfoldable pub print_level : Sexp → Cursor → Option Cursor
  unfolding print_element put_paren
  print_level nil k = some k
  print_level (node (list nil) rest) k = put_paren k
  print_level (node e rest) k = elim (print_element (node e rest) k) [
    | none ↦ none
    | some k' ↦ print_level rest k'
  ]

  -- The levels from the bottom up, while there is space.
  unfoldable pub print_levels : List ParseData → Cursor → Option Cursor
  unfolding print_level
  print_levels [] k = some k
  print_levels (none ∷ _) k = some k
  print_levels (some fst ∷ above) k =
      if ltb (size_of k.loc) (size_sub buflen 1)
      then elim (print_level fst k) [ none ↦ none | some k' ↦ print_levels above k' ]
      else some k

  -- `strncpy`: `n` bytes of a text, NULs behind its end.
  unfoldable pub strncpy : ℕ → Bytes → Option Bytes
  strncpy zero s = some []
  strncpy (suc n) [] = none
  strncpy (suc n) (c ∷ s) = elim (strncpy n (if c == 0 then c ∷ s else s)) [
    | none ↦ none
    | some t ↦ some (c ∷ t)
  ]

  -- The bytes, and a NUL behind them, from `cur` on.
  unfoldable pub put_end : Bytes → Cursor → Option Cursor
  put_end [] k = elim k.after [ [] ↦ none | _ ∷ s ↦ some (record k { after = 0 ∷ s }) ]
  put_end (c ∷ t) k = elim k.after [
    | [] ↦ none
    | _ ∷ s ↦ put_end t (record k { before = c ∷ k.before; after = s })
  ]

  unfoldable pub put_partial : ℕ → Pcont → Cursor → Option Cursor
  unfolding strncpy put_end
  put_partial zero pc k = put_end [] k
  put_partial (suc n) pc k = elim pc.val [
    | none ↦ none
    | some s ↦ elim (strncpy (suc n) (reverse s)) [ none ↦ none | some t ↦ put_end t k ]
  ]

  -- The text that is no expression yet, or as much of it as there is space for.
  unfoldable pub print_partial : Pcont → Cursor → Option Cursor
  unfolding put_partial
  print_partial pc k =
      let left = size_sub buflen (size_of k.loc) in
      if ltb pc.val_used (size_sub left 1)
      then put_partial pc.val_used pc k
      else put_partial (if ltb 2 left then size_sub left 2 else 0) pc k

-- The buffer and the world behind the call. Levels that were popped stay above the top.
unfoldable pub print_pcont : Option Pcont → Option Bytes → ℕ → World → Option (Option Bytes × World)
unfolding print_levels print_partial
print_pcont pc none buflen w = some (none, w)
print_pcont none (some buf) buflen w = some (some buf, w)
print_pcont (some pc) (some buf) buflen w =
    elim (print_levels buflen (reverse pc.stack.used ++ pc.stack.spare)
      (record { before = []; after = buf; loc = 0; w = w })) [
        | none ↦ none
        | some k ↦ elim (print_partial buflen pc k) [
          | none ↦ none
          | some k' ↦ some (some (reverse k'.before ++ k'.after), k'.w)
        ]
      ]
