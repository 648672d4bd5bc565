-- ===== src/Sexp/View.antt =====
-- The abstract view of the elements of src/sexp.h: a tree of atoms and lists, without the sizes of
-- buffers.
use sfsexp.Prelude.{◌≡◌, refl, ap, Option, none, some, [], Bytes}
use sfsexp.Sexp.{
  AtomType, binary, CharPtr, null, stale, text, Value, Elt, value, list, Sexp, nil, node, snoc,
}

mutual
  pub data Tree : Type 0 where
    atom : AtomType → Bytes → Tree
    branch : Forest → Tree

  pub data Forest : Type 0 where
    bare : Forest
    tree : Tree → Forest → Forest

-- The bytes of a value: its binary data, or its text.
abbrev pub text_bytes : CharPtr → Bytes
text_bytes null = []
text_bytes stale = []
text_bytes (text s) = s

abbrev pub option_bytes : Option Bytes → Bytes
option_bytes none = []
option_bytes (some b) = b

abbrev pub value_bytes : AtomType → Value → Bytes
value_bytes binary v = option_bytes v.bindata
value_bytes _ v = text_bytes v.val

unfoldable mutual
  pub view : Elt → Tree
  view (value v) = atom v.aty (value_bytes v.aty v)
  view (list l) = branch (view_all l)

  pub view_all : Sexp → Forest
  view_all nil = bare
  view_all (node e rest) = tree (view e) (view_all rest)

-- A tree behind the last of a forest.
abbrev pub plant : Forest → Tree → Forest
plant bare t = tree t bare
plant (tree u rest) t = tree u (plant rest t)

-- Appending an element to a chain appends its tree.
pub view-snoc : (xs : Sexp) (e : Elt) → view_all (snoc xs e) ≡ plant (view_all xs) (view e)
unfolding view
view-snoc nil e = refl
view-snoc (node d rest) e = ap (tree (view d)) (view-snoc rest e)
