-- ===== src/SexpOps/Copy.antt =====
-- `copy_sexp` of src/sexp_ops.c and the trees of the expression and its copy.
use sfsexp.Prelude.{
  ◌<◌, ◌≤◌, ◌≡◌, refl, sym, ap, ◌∙◌, Bool, true, false, [], ◌∷◌, Option, some, Bytes, ltb, length,
  arith,
}
use sfsexp.Memory.{sexp_malloc, sexp_calloc}
use sfsexp.Memory.Quiet.{sexp_malloc_quiet, sexp_calloc_quiet}
use sfsexp.Sexp.{
  AtomType, basic, squote, dquote, binary, text, Value, Elt, value, list, Sexp, nil, node,
}
use sfsexp.Sexp.View.{atom, branch, tree, option_bytes, text_bytes, value_bytes, view, view_all}
use sfsexp.Cache.{World, on_heap, sexp_t_allocate}
use sfsexp.Cache.Quiet.{IsReady, sexp_t_allocate_quiet, on_heap_quiet}
use sfsexp.SexpOps.{first_bytes, blank, is_binary, copy_binary, copy_text, copy_value, copy_sexp}

-- Binary data of the length said.
pub record HasData (v : Value) : Type 0 where
  pub blob : Bytes
  pub stored : v.bindata ≡ some blob
  pub counted : length blob ≡ v.binlength

-- A text whose bytes and terminating NUL are among the bytes used, within the buffer.
pub record HasText (v : Value) : Type 0 where
  pub bytes : Bytes
  pub stored : v.val ≡ text bytes
  pub ended : length bytes < v.val_used
  pub within : v.val_used ≤ v.val_allocated

abbrev pub IsWholeValue : Bool → Value → Type 0
IsWholeValue true v = HasData v
IsWholeValue false v = HasText v

-- Every value has its data.
unfoldable pub IsWhole : Sexp → Type 0
IsWhole nil = Unit {0}
IsWhole (node (value v) rest) = IsWholeValue (is_binary v.aty) v × IsWhole rest
IsWhole (node (list l) rest) = IsWhole l × IsWhole rest

first_bytes-all : (s : Bytes) → first_bytes (length s) s ≡ s
first_bytes-all [] = refl
first_bytes-all (c ∷ s) = ap (λ u. c ∷ u) (first_bytes-all s)

-- A copy of a value was made, and it shows the same atom.
abbrev CopiedValue : Value → Option (World × Option Elt) → Type 0
CopiedValue v o =
    (w : World) × (e : Elt) × (o ≡ some (w, some e)) × (view e ≡ view (value v)) × IsReady w

binary_bytes :
    (aty : AtomType) (v : Value) → is_binary aty ≡ true → value_bytes aty v ≡ option_bytes v.bindata
binary_bytes binary v b = refl
binary_bytes basic v b = cc
binary_bytes squote v b = cc
binary_bytes dquote v b = cc

pub text_of :
    (aty : AtomType) (v : Value) → is_binary aty ≡ false → value_bytes aty v ≡ text_bytes v.val
text_of binary v b = cc
text_of basic v b = refl
text_of squote v b = refl
text_of dquote v b = refl

copy_binary-view :
    (v : Value) (w : World)
    → is_binary v.aty ≡ true
    → HasData v
    → IsReady w
    → CopiedValue v (copy_binary v w)
unfolding copy_binary view
copy_binary-view v w b d q =
    let g = on_heap_quiet w q (sexp_malloc v.binlength) (sexp_malloc_quiet w.heap q.quiet _) in
    let enough : ltb (length d.blob) v.binlength ≡ false = ground (arith, d.counted) in
    let all : first_bytes v.binlength d.blob ≡ d.blob =
      ap (λ n. first_bytes n d.blob) (sym d.counted) ∙ first_bytes-all d.blob in
    let new = record (blank v.aty) {
      bindata = some (first_bytes v.binlength d.blob);
      binlength = v.binlength;
    } in
    (
      (on_heap (sexp_malloc v.binlength) w).0,
      value new,
      rw d.stored (rw g.granted (rw enough refl)),
      ap (atom v.aty) (
          binary_bytes v.aty new b ∙ all ∙ sym (binary_bytes v.aty v b ∙ ap option_bytes d.stored)),
      g.ready,
    )

copy_text-view :
    (v : Value) (w : World)
    → is_binary v.aty ≡ false
    → HasText v
    → IsReady w
    → CopiedValue v (copy_text v w)
unfolding copy_text view
copy_text-view v w b d q =
    let g =
      on_heap_quiet w q (sexp_calloc 1 v.val_allocated) (sexp_calloc_quiet w.heap q.quiet _ _) in
    let fits : ltb v.val_allocated v.val_used ≡ false = ground (arith, d.within) in
    let whole : ltb (length d.bytes) v.val_used ≡ true = ground (arith, d.ended) in
    let new = record (blank v.aty) {
      val_used = v.val_used;
      val_allocated = v.val_allocated;
      val = text d.bytes;
    } in
    (
      (on_heap (sexp_calloc 1 v.val_allocated) w).0,
      value new,
      rw d.stored (rw g.granted (rw fits (rw whole refl))),
      ap (atom v.aty) (text_of v.aty new b ∙ sym (text_of v.aty v b ∙ ap text_bytes d.stored)),
      g.ready,
    )

copy_value-view :
    (v : Value) (w : World) (b : Bool)
    → is_binary v.aty ≡ b
    → IsWholeValue b v
    → IsReady w
    → CopiedValue v (copy_value v w)
unfolding copy_value
copy_value-view v w true b d q = rw b (copy_binary-view v w b d q)
copy_value-view v w false b d q = rw b (copy_text-view v w b d q)

-- Where no request for memory is refused, the copy of an expression whose values all have their data
-- shows the same tree.
pub copy_sexp-view :
    (s : Sexp) (w : World)
    → IsWhole s
    → IsReady w
    → (w' : World) × (s' : Sexp) × (copy_sexp s w ≡ some (w', s'))
      × (view_all s' ≡ view_all s)
      × IsReady w'
unfolding copy_sexp view IsWhole
copy_sexp-view nil w h q = (w, nil, refl, refl, q)
copy_sexp-view (node (value v) rest) w h q =
    let g = sexp_t_allocate_quiet w q in
    let (w₁, e, c, same, q₁) =
      copy_value-view v (sexp_t_allocate w).0 (is_binary v.aty) refl h.0 g.ready in
    let (w₂, rest', c', same', q₂) = copy_sexp-view rest w₁ h.1 q₁ in
    (
      w₂,
      node e rest',
      rw g.granted (rw c (rw c' refl)),
      ap (λ u. tree u (view_all rest')) same ∙ ap (tree (view (value v))) same',
      q₂,
    )
copy_sexp-view (node (list l) rest) w h q =
    let g = sexp_t_allocate_quiet w q in
    let (w₁, l', c, same, q₁) = copy_sexp-view l (sexp_t_allocate w).0 h.0 g.ready in
    let (w₂, rest', c', same', q₂) = copy_sexp-view rest w₁ h.1 q₁ in
    (
      w₂,
      node (list l') rest',
      rw g.granted (rw c (rw c' refl)),
      ap (λ u. tree (branch u) (view_all rest')) same ∙ ap (tree (branch (view_all l))) same',
      q₂,
    )
