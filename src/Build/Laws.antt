-- ===== src/Build/Laws.antt =====
-- What the constructors of src/sexp.c return, whatever requests for memory are refused.
use sfsexp.Prelude.{ℕ, ◌+◌, ◌≤◌, ◌<◌, ◌≡◌, refl, Bool, true, false, some, Bytes, length, ◌%◌, arith}
use sfsexp.Errors.{err_memory}
use sfsexp.Memory.{size_mod}
use sfsexp.Sexp.{AtomType, basic, squote, dquote, binary, text, Elt, list, Sexp, nil, node}
use sfsexp.Sexp.View.{Tree, atom, branch, view, view_all}
use sfsexp.SexpOps.{is_binary}
use sfsexp.Cache.{World, on_heap, world_errno, sexp_t_allocate, put_cached, sizeof_sexp}
use sfsexp.Build.{
  element, binary_elt, new_sexp_list, new_sexp_binary_atom, text_elt, fill_text, with_text,
  new_sexp_atom,
}

-- One element that shows `t`, or NULL with the error code for memory.
pub data Built (t : Tree) : World × Sexp → Type 0 where
  made : {e : Elt} (w : World) → view e ≡ t → Built t (w, node e nil)
  refused : (w : World) → w.heap.sexp_errno ≡ err_memory → Built t (w, nil)

element-Built : (e : Elt) (t : Tree) (a : World × Bool) → view e ≡ t → Built t (element e a)
element-Built e t (w, true) v = made w v
element-Built e t (w, false) v = refused _ refl

new_sexp_list-Built : (l : Sexp) (w : World) → Built (branch (view_all l)) (new_sexp_list l w)
unfolding new_sexp_list view
new_sexp_list-Built l w = element-Built (list l) _ (sexp_t_allocate w) refl

new_sexp_binary_atom-Built :
    (b : Bytes) (w : World) → Built (atom binary b) (new_sexp_binary_atom (some b) (length b) w)
unfolding new_sexp_binary_atom view
new_sexp_binary_atom-Built b w =
    element-Built (binary_elt (some b) (length b)) _ (sexp_t_allocate w) refl

text-view :
    (aty : AtomType) (s : Bytes) (n : ℕ)
    → is_binary aty ≡ false
    → view (text_elt aty (text s) n) ≡ atom aty s
unfolding view
text-view basic s n e = refl
text-view squote s n e = refl
text-view dquote s n e = refl
text-view binary s n e = cc

fill_text-Built :
    (buf : Bytes) (aty : AtomType) (size : ℕ) (a : World × Bool)
    → is_binary aty ≡ false
    → length buf < size
    → (r : World × Sexp) × (fill_text buf aty size a ≡ some r) × Built (atom aty buf) r
unfolding fill_text sfsexp.Cache.sexp_t_deallocate sfsexp.Cache.free_text
fill_text-Built buf aty size (w, true) e l =
    ((w, node (text_elt aty (text buf) size) nil), ground arith, made w (text-view aty buf size e))
fill_text-Built buf aty size (w, false) e l = (_, refl, refused _ refl)

with_text-Built :
    (buf : Bytes) (aty : AtomType) (size : ℕ) (a : World × Bool)
    → is_binary aty ≡ false
    → length buf < size
    → (r : World × Sexp) × (with_text buf aty size a ≡ some r) × Built (atom aty buf) r
with_text-Built buf aty size (w, true) e l = fill_text-Built buf aty size _ e l
with_text-Built buf aty size (w, false) e l = (_, refl, refused _ refl)

-- Whichever requests for memory are refused, each constructor returns one element that shows what it
-- was given, or NULL with the error code for memory: `new_sexp_list` a chain, `new_sexp_binary_atom`
-- data with its length, and `new_sexp_atom` a text that is not longer than the length given, which
-- with a NUL fits a size_t, so that the copy stays inside of its memory. The last is for the types
-- other than binary.
pub new_sexp-Built :
    (l : Sexp) (b buf : Bytes) (bs : ℕ) (aty : AtomType) (w : World)
    → length buf ≤ bs
    → bs + 1 < size_mod
    → is_binary aty ≡ false
    → Built (branch (view_all l)) (new_sexp_list l w)
      × Built (atom binary b) (new_sexp_binary_atom (some b) (length b) w)
      × (r : World × Sexp) × (new_sexp_atom buf bs aty w ≡ some r)
      × Built (atom aty buf) r
unfolding new_sexp_atom
new_sexp-Built l b buf bs aty w fits f e =
    let (r, made_text, built) =
      with_text-Built buf aty ((bs + 1) % size_mod) (sexp_t_allocate w) e
        (omega (arith, fits, f)) in
    (new_sexp_list-Built l w, new_sexp_binary_atom-Built b w, r, rw e made_text, built)
