-- ===== src/SexpOps/Search.antt =====
-- The two searches of src/sexp_ops.c, against a plain description of what occurs in an expression.
use sfsexp.Prelude.{
  ◌≡◌, ◌≢◌, refl, ap, ◌∙◌, Bool, true, false, ◌||◌, Option, none, some, Bytes, arith, Bool-cases,
  inl, inr,
}
use sfsexp.Sexp.{Value, CharPtr, null, stale, text, value, list, Sexp, nil, node}
use sfsexp.SexpOps.{
  strcmp_eq, matches, or_else, found_here, find_sexp, scan_values, scan_lists, bfs_find_sexp,
}

abbrev pub has_name : Bytes → CharPtr → Bool
has_name name (text s) = strcmp_eq s name
has_name name _ = false

-- An atom of that name is somewhere in the expression.
unfoldable pub occurs : Bytes → Sexp → Bool
occurs name nil = false
occurs name (node (value v) rest) = has_name name v.val || occurs name rest
occurs name (node (list l) rest) = occurs name l || occurs name rest

-- No pointer of a value is left unassigned.
unfoldable pub AreAssigned : Sexp → Type 0
AreAssigned nil = Unit {0}
AreAssigned (node (value v) rest) = (v.val ≢ stale) × AreAssigned rest
AreAssigned (node (list l) rest) = AreAssigned l × AreAssigned rest

-- Whether a search that reads no unassigned pointer finds anything.
abbrev pub is_found : Option (Option Sexp) → Option Bool
is_found none = none
is_found (some none) = some false
is_found (some (some t)) = some true

is_found-or_else :
    (x y : Option (Option Sexp)) (a b : Bool)
    → is_found x ≡ some a
    → is_found y ≡ some b
    → is_found (or_else x y) ≡ some (a || b)
is_found-or_else none y a b h h' = ground (arith, h, h')
is_found-or_else (some none) y a b h h' = ground (arith, h, h')
is_found-or_else (some (some t)) y a b h h' = ground (arith, h, h')

is_found-found_here :
    (name : Bytes) (p : CharPtr) (s : Sexp)
    → p ≢ stale
    → is_found (found_here (matches name p) s) ≡ some (has_name name p)
unfolding matches
is_found-found_here name null s a = refl
is_found-found_here name stale s a = absurd (a refl)
is_found-found_here name (text t) s a = elim (Bool-cases (strcmp_eq t name)) [
  | inl e ↦ rw e refl
  | inr e ↦ rw e refl
]

find_sexp-occurs :
    (name : Bytes) (s : Sexp) → AreAssigned s → is_found (find_sexp name s) ≡ some (occurs name s)
unfolding find_sexp occurs AreAssigned
find_sexp-occurs name nil a = refl
find_sexp-occurs name (node (value v) rest) a =
    is_found-or_else _ _ _ _ (is_found-found_here name v.val _ a.0) (find_sexp-occurs name rest a.1)
find_sexp-occurs name (node (list l) rest) a =
    is_found-or_else _ _ _ _ (find_sexp-occurs name l a.0) (find_sexp-occurs name rest a.1)

-- An atom of that name is in the chain itself, and in a list of the chain.
abbrev on_top : Bytes → Sexp → Bool
on_top name nil = false
on_top name (node (value v) rest) = has_name name v.val || on_top name rest
on_top name (node (list l) rest) = on_top name rest

unfoldable deeper : Bytes → Sexp → Bool
unfolding occurs
deeper name nil = false
deeper name (node (value v) rest) = deeper name rest
deeper name (node (list l) rest) = occurs name l || deeper name rest

or-left : (a b c e : Bool) → (b || c) ≡ e → (a || b || c) ≡ (a || e)
or-left true b c e h = refl
or-left false b c e h = h

or-middle : (a b c e : Bool) → (b || c) ≡ e → (b || (a || c)) ≡ (a || e)
or-middle true true c e h = refl
or-middle true false c e h = refl
or-middle false b c e h = h

occurs-split : (name : Bytes) (s : Sexp) → (on_top name s || deeper name s) ≡ occurs name s
unfolding occurs deeper
occurs-split name nil = refl
occurs-split name (node (value v) rest) =
    or-left (has_name name v.val) (on_top name rest) (deeper name rest) _ (occurs-split name rest)
occurs-split name (node (list l) rest) =
    or-middle (occurs name l) (on_top name rest) (deeper name rest) _ (occurs-split name rest)

scan_values-on_top :
    (name : Bytes) (s : Sexp) → AreAssigned s → is_found (scan_values name s) ≡ some (on_top name s)
unfolding scan_values AreAssigned
scan_values-on_top name nil a = refl
scan_values-on_top name (node (value v) rest) a =
    is_found-or_else _ _ _ _ (is_found-found_here name v.val _ a.0)
      (scan_values-on_top name rest a.1)
scan_values-on_top name (node (list l) rest) a = scan_values-on_top name rest a.1

scan_lists-deeper :
    (name : Bytes) (s : Sexp) → AreAssigned s → is_found (scan_lists name s) ≡ some (deeper name s)
unfolding scan_lists deeper AreAssigned
scan_lists-deeper name nil a = refl
scan_lists-deeper name (node (value v) rest) a = scan_lists-deeper name rest a.1
scan_lists-deeper name (node (list l) rest) a =
    is_found-or_else _ _ _ _
      (is_found-or_else _ _ _ _ (scan_values-on_top name l a.0) (scan_lists-deeper name l a.0)
        ∙ ap some (occurs-split name l))
      (scan_lists-deeper name rest a.1)

-- In an expression whose pointers are all assigned, `find_sexp` and `bfs_find_sexp` both find
-- something where an atom of that name occurs anywhere, and nothing elsewhere.
pub find_sexp-bfs_find_sexp :
    (name : Bytes) (s : Sexp)
    → AreAssigned s
    → (is_found (find_sexp name s) ≡ some (occurs name s))
      × (is_found (bfs_find_sexp name s) ≡ some (occurs name s))
unfolding bfs_find_sexp
find_sexp-bfs_find_sexp name s a = (
  find_sexp-occurs name s a,
  is_found-or_else _ _ _ _ (scan_values-on_top name s a) (scan_lists-deeper name s a)
      ∙ ap some (occurs-split name s),
)

-- The element that an expression begins with is an atom of that name.
abbrev pub IsNamed : Bytes → Sexp → Type 0
IsNamed name nil = ⊥
IsNamed name (node (list l) rest) = ⊥
IsNamed name (node (value v) rest) = has_name name v.val ≡ true

-- What a search finds, if it finds anything, is named so.
abbrev pub IsNamedFind : Bytes → Option (Option Sexp) → Type 0
IsNamedFind name none = Unit {0}
IsNamedFind name (some none) = Unit {0}
IsNamedFind name (some (some t)) = IsNamed name t

or_else-IsNamedFind :
    (name : Bytes) (x y : Option (Option Sexp))
    → IsNamedFind name x
    → IsNamedFind name y
    → IsNamedFind name (or_else x y)
or_else-IsNamedFind name none y h h' = tt
or_else-IsNamedFind name (some none) y h h' = h'
or_else-IsNamedFind name (some (some t)) y h h' = h

found_here-IsNamedFind :
    (name : Bytes) (v : Value) (rest : Sexp) (p : CharPtr)
    → v.val ≡ p
    → IsNamedFind name (found_here (matches name p) (node (value v) rest))
unfolding matches
found_here-IsNamedFind name v rest null e = tt
found_here-IsNamedFind name v rest stale e = tt
found_here-IsNamedFind name v rest (text t) e = elim (Bool-cases (strcmp_eq t name)) [
  | inl h ↦ rw h (ap (has_name name) e ∙ h)
  | inr h ↦ rw h tt
]

find_sexp-IsNamedFind : (name : Bytes) (s : Sexp) → IsNamedFind name (find_sexp name s)
unfolding find_sexp
find_sexp-IsNamedFind name nil = tt
find_sexp-IsNamedFind name (node (value v) rest) =
    or_else-IsNamedFind name _ _ (found_here-IsNamedFind name v rest v.val refl)
      (find_sexp-IsNamedFind name rest)
find_sexp-IsNamedFind name (node (list l) rest) =
    or_else-IsNamedFind name _ _ (find_sexp-IsNamedFind name l) (find_sexp-IsNamedFind name rest)

scan_values-IsNamedFind : (name : Bytes) (s : Sexp) → IsNamedFind name (scan_values name s)
unfolding scan_values
scan_values-IsNamedFind name nil = tt
scan_values-IsNamedFind name (node (value v) rest) =
    or_else-IsNamedFind name _ _ (found_here-IsNamedFind name v rest v.val refl)
      (scan_values-IsNamedFind name rest)
scan_values-IsNamedFind name (node (list l) rest) = scan_values-IsNamedFind name rest

scan_lists-IsNamedFind : (name : Bytes) (s : Sexp) → IsNamedFind name (scan_lists name s)
unfolding scan_lists
scan_lists-IsNamedFind name nil = tt
scan_lists-IsNamedFind name (node (value v) rest) = scan_lists-IsNamedFind name rest
scan_lists-IsNamedFind name (node (list l) rest) =
    or_else-IsNamedFind name _ _
      (or_else-IsNamedFind name _ _ (scan_values-IsNamedFind name l)
        (scan_lists-IsNamedFind name l))
      (scan_lists-IsNamedFind name rest)

-- Whatever `find_sexp` and `bfs_find_sexp` return begins with an atom of the name asked for.
pub find_sexp-IsNamed :
    (name : Bytes) (s : Sexp)
    → IsNamedFind name (find_sexp name s) × IsNamedFind name (bfs_find_sexp name s)
unfolding bfs_find_sexp
find_sexp-IsNamed name s = (
  find_sexp-IsNamedFind name s,
  or_else-IsNamedFind name _ _ (scan_values-IsNamedFind name s) (scan_lists-IsNamedFind name s),
)
