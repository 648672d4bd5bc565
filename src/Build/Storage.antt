-- ===== src/Build/Storage.antt =====
-- The storage of expressions of src/sexp.c: what an expression occupies is given back by
-- `destroy_sexp` and `sexp_cleanup`.
use sfsexp.Prelude.{
  ℕ, ◌+◌, ◌*◌, ◌≤◌, ◌<◌, ◌≡◌, refl, ap, ◌∙◌, Option, none, some, if◌then◌else◌, Bool-cases,
  Option-cases, inl, inr, arith,
}
use sfsexp.Memory.{Heap, size_mod, sexp_free}
use sfsexp.FastStack.{sizeof_stack_lvl}
use sfsexp.Sexp.{CharPtr, null, stale, text, Value, Elt, value, list, Sexp, nil, node}
use sfsexp.SexpOps.{is_binary}
use sfsexp.Cache.{
  World, sizeof_sexp, sizeof_parse_data, put_cached, sexp_t_deallocate, sexp_cleanup, free_text,
}
use sfsexp.Cache.Storage.{cached, unmade, Charged, put_cached-PutBack, sexp_cleanup-used}
use sfsexp.Build.{on_some, with_heap, free_value, cleared, destroy_sexp}

-- The bytes that `val` points to.
abbrev pub text_size : CharPtr → ℕ → ℕ
text_size (text s) n = n
text_size _ n = 0

-- The bytes that a value holds besides its element.
abbrev pub value_size : Value → ℕ
value_size v = elim v.bindata [
  | none ↦ text_size v.val v.val_allocated
  | some b ↦ if is_binary v.aty then v.binlength else text_size v.val v.val_allocated
]

unfoldable pub occupied : Sexp → ℕ
occupied nil = 0
occupied (node (list l) rest) = occupied l + occupied rest + sizeof_sexp
occupied (node (value v) rest) = value_size v + occupied rest + sizeof_sexp

unfoldable pub elements : Sexp → ℕ
elements nil = 0
elements (node (list l) rest) = elements l + elements rest + 1
elements (node (value v) rest) = elements rest + 1

-- A pointer that was assigned.
abbrev pub IsAssigned : CharPtr → Type 0
IsAssigned stale = ⊥
IsAssigned _ = Unit {0}

-- Every `val` was assigned.
unfoldable pub AreAssigned : Sexp → Type 0
AreAssigned nil = Unit {0}
AreAssigned (node (list l) rest) = AreAssigned l × AreAssigned rest
AreAssigned (node (value v) rest) = IsAssigned v.val × AreAssigned rest

-- The bytes charged are the caches' and `live` more, with room for so many levels of the caches.
pub record Keeps (m live levels : ℕ) (w : World) : Type 0 where
  pub charged :
      Charged m
        (live + cached sizeof_sexp w.sexp_t_cache + cached sizeof_parse_data w.pd_cache)
        w.heap
  pub room :
      live
        + cached sizeof_sexp w.sexp_t_cache
        + cached sizeof_parse_data w.pd_cache
        + unmade w.sexp_t_cache
        + sizeof_stack_lvl * levels
      ≤ m

free_text-Charged :
    (m rest : ℕ) (p : CharPtr) (size : ℕ) (h : Heap)
    → IsAssigned p
    → Charged m (rest + text_size p size) h
    → (h' : Heap) × (free_text p size h ≡ some h') × Charged m rest h'
unfolding free_text sexp_free
free_text-Charged m rest null size h i c = (h, refl, ground (arith, c))
free_text-Charged m rest stale size h i c = absurd i
free_text-Charged m rest (text s) size h i c = (sexp_free size h, refl, ground (arith, c))

free_value-Charged :
    (m rest : ℕ) (v : Value) (h : Heap)
    → IsAssigned v.val
    → Charged m (rest + value_size v) h
    → (h' : Heap) × (free_value v h ≡ some h') × Charged m rest h'
unfolding free_value sexp_free
free_value-Charged m rest v h i c = elim (Option-cases v.bindata) [
  | inl e ↦
      let c' = free_text-Charged m rest v.val v.val_allocated h i (ground (arith, e, c)) in
      (c'.0, ground (arith, e, c'.1), c'.2)
  | inr (b, e) ↦ elim (Bool-cases (is_binary v.aty)) [
    | inl y ↦ (sexp_free v.binlength h, ground (arith, e, y), ground (arith, e, y, c))
    | inr n ↦
        let c' = free_text-Charged m rest v.val v.val_allocated h i (ground (arith, e, n, c)) in
        (c'.0, ground (arith, e, n, c'.1), c'.2)
  ]
]

deallocate_cleared :
    (e : Elt) (w : World)
    → sexp_t_deallocate (cleared e) w
      ≡ some (record w {
        heap = (put_cached sizeof_sexp w.sexp_t_cache w.heap).0;
        sexp_t_cache = (put_cached sizeof_sexp w.sexp_t_cache w.heap).1;
      })
unfolding sexp_t_deallocate free_text
deallocate_cleared (value v) w = refl
deallocate_cleared (list l) w = refl

-- An element that holds nothing more goes back to the cache.
deallocate-Keeps :
    (m live levels : ℕ) (e : Elt) (w : World)
    → m < size_mod
    → Keeps m (live + sizeof_sexp) (levels + 1) w
    → (w' : World) × (sexp_t_deallocate (cleared e) w ≡ some w') × Keeps m live levels w'
unfolding sexp_t_deallocate free_text
deallocate-Keeps m live levels e w f k =
    let p =
      put_cached-PutBack m (live + cached sizeof_parse_data w.pd_cache) sizeof_sexp w.sexp_t_cache
        w.heap f (omega (arith, k.room)) (ground (arith, k.charged)) in
    let r = put_cached sizeof_sexp w.sexp_t_cache w.heap in
    let w' : World = record w { heap = r.0; sexp_t_cache = r.1 } in
    (
      w',
      deallocate_cleared e w,
      record { charged = ground (arith, p.used); room = ground (arith, p.grown, p.still, k.room) },
    )

destroy_steps :
    {o : Option World} (f g : World → Option World) {w₁ w₂ : World}
    → o ≡ some w₁
    → f w₁ ≡ some w₂
    → on_some (on_some o f) g ≡ g w₂
destroy_steps f g e₁ e₂ = ap (λ o. on_some (on_some o f) g) e₁ ∙ ap (λ o. on_some o g) e₂

Keeps-eq :
    {m live live' levels levels' : ℕ} {w : World}
    → Keeps m live levels w
    → live ≡ live'
    → levels ≡ levels'
    → Keeps m live' levels' w
Keeps-eq k e e' = record {
  charged = ground (arith, k.charged, e);
  room = omega (arith, k.room, e, e');
}

-- Destroying an expression leaves what the program holds besides.
destroy_sexp-Keeps :
    (m live levels : ℕ) (s : Sexp) (w : World)
    → m < size_mod
    → AreAssigned s
    → Keeps m (live + occupied s) (levels + elements s) w
    → (w' : World) × (destroy_sexp s w ≡ some w') × Keeps m live levels w'
unfolding destroy_sexp AreAssigned occupied elements
destroy_sexp-Keeps m live levels nil w f a k =
    (w, refl, record { charged = ground (arith, k.charged); room = omega (arith, k.room) })
destroy_sexp-Keeps m live levels (node (list l) rest) w f a k =
    let (w₁, e₁, k₁) =
      destroy_sexp-Keeps m (live + sizeof_sexp + occupied rest) (levels + 1 + elements rest) l w f
        a.0 (Keeps-eq k (omega arith) (omega arith)) in
    let (w₂, e₂, k₂) = destroy_sexp-Keeps m (live + sizeof_sexp) (levels + 1) rest w₁ f a.1 k₁ in
    let (w₃, e₃, k₃) = deallocate-Keeps m live levels (list l) w₂ f k₂ in
    (w₃, destroy_steps (destroy_sexp rest) (sexp_t_deallocate (list nil)) e₁ e₂ ∙ e₃, k₃)
destroy_sexp-Keeps m live levels (node (value v) rest) w f a k =
    let (h, e₁, c₁) =
      free_value-Charged m
        (live
          + sizeof_sexp
          + occupied rest
          + cached sizeof_sexp w.sexp_t_cache
          + cached sizeof_parse_data w.pd_cache)
        v w.heap a.0 (ground (arith, k.charged)) in
    let w₁ : World = record w { heap = h } in
    let (w₂, e₂, k₂) =
      destroy_sexp-Keeps m (live + sizeof_sexp) (levels + 1) rest w₁ f a.1
        (record { charged = ground (arith, c₁); room = omega (arith, k.room) }) in
    let (w₃, e₃, k₃) = deallocate-Keeps m live levels (value v) w₂ f k₂ in
    (
      w₃,
      destroy_steps (destroy_sexp rest) (sexp_t_deallocate (cleared (value v)))
            (ap (with_heap w) e₁) e₂
          ∙ e₃,
      k₃,
    )

-- In the limited build, with room for one more level of the cache for each element, an expression
-- whose `val` pointers were all assigned is destroyed, and after the clean-up of the caches exactly
-- what the program held besides the expression and the caches is still charged.
pub sexp_cleanup-destroy_sexp :
    (m live : ℕ) (s : Sexp) (w : World)
    → m < size_mod
    → AreAssigned s
    → Keeps m (live + occupied s) (elements s) w
    → (w' : World) × (destroy_sexp s w ≡ some w') × ((sexp_cleanup w').heap.used_memory ≡ live)
sexp_cleanup-destroy_sexp m live s w f a k =
    let (w', e, k') = destroy_sexp-Keeps m live 0 s w f a (Keeps-eq k refl (omega arith)) in
    (
      w',
      e,
      sexp_cleanup-used m live w' k'.charged.limit k'.charged.charged
          (omega (arith, k'.room, k'.charged.charged)),
    )
