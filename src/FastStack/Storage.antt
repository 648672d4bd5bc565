-- ===== src/FastStack/Storage.antt =====
-- The storage of a stack of src/faststack.c: what it occupies in the limited build of the
-- allocator, and what becomes of it.
use sfsexp.Prelude.{ℕ, ◌+◌, ◌*◌, ◌≤◌, ◌<◌, ◌≡◌, refl, some, none, List, [], ◌∷◌, length, arith}
use sfsexp.Memory.{Heap, size_mod, sexp_malloc, sexp_free}
use sfsexp.FastStack.{
  FastStack, sizeof_stack_lvl, sizeof_faststack, free_levels, make_stack, destroy_stack, push, pop,
}

-- The bytes that a stack's wrapper and levels, in use or spare, occupy.
abbrev pub storage {ℓ} : {A : Type ℓ} → FastStack A → ℕ
storage s = sizeof_faststack + sizeof_stack_lvl * (length s.used + length s.spare)

-- The limited build, with `base` bytes charged besides those of the stack.
pub record Holds {ℓ} {A : Type ℓ} (m base : ℕ) (s : FastStack A) (h : Heap) : Type 0 where
  pub limit : h.max_memory ≡ some m
  pub charged : h.used_memory ≡ base + storage s
  pub within : h.used_memory ≤ m

-- What a client does with a stack between making and destroying it; a push that fails leaves the
-- stack as it was.
pub data StackOp {ℓ} (A : Type ℓ) : Type ℓ where
  push_data : A → StackOp A
  pop_top : StackOp A

module _ {ℓ} {A : Type ℓ} where
  pub run_op : StackOp A → FastStack A × Heap → FastStack A × Heap
  run_op (push_data x) (s, h) =
      let (h', r) = push (some s) x h in elim r [ none ↦ (s, h') | some t ↦ (t, h') ]
  run_op pop_top (s, h) =
      let (h', r, lvl) = pop (some s) h in elim r [ none ↦ (s, h') | some t ↦ (t, h') ]

  pub run_ops : List (StackOp A) → FastStack A × Heap → FastStack A × Heap
  run_ops [] p = p
  run_ops (o ∷ os) p = run_ops os (run_op o p)

module _ {ℓ} {A : Type ℓ} (m base : ℕ) (fits : m + sizeof_stack_lvl < size_mod) where
  push_level-Holds :
      (x : A) (s : FastStack A) (h : Heap)
      → Holds m base s h
      → Holds m base (run_op (push_data x) (s, h)).0 (run_op (push_data x) (s, h)).1
  unfolding run_op push sexp_malloc
  push_level-Holds x s h v = ground arith

  pop_top-Holds :
      (s : FastStack A) (h : Heap)
      → Holds m base s h
      → Holds m base (run_op pop_top (s, h)).0 (run_op pop_top (s, h)).1
  unfolding run_op pop
  pop_top-Holds s h v = ground arith

  run_ops-Holds :
      (os : List (StackOp A)) (s : FastStack A) (h : Heap)
      → Holds m base s h
      → Holds m base (run_ops os (s, h)).0 (run_ops os (s, h)).1
  unfolding run_ops
  run_ops-Holds [] s h v = v
  run_ops-Holds (push_data x ∷ os) s h v = run_ops-Holds os _ _ (push_level-Holds x s h v)
  run_ops-Holds (pop_top ∷ os) s h v = run_ops-Holds os _ _ (pop_top-Holds s h v)

free_levels-used {ℓ} :
    {A : Type ℓ} (xs : List A) (h : Heap) (m rest : ℕ)
    → h.max_memory ≡ some m
    → h.used_memory ≡ rest + sizeof_stack_lvl * length xs
    → ((free_levels xs h).max_memory ≡ some m) × ((free_levels xs h).used_memory ≡ rest)
unfolding free_levels sexp_free
free_levels-used [] h m rest l c = (l, omega arith)
free_levels-used (x ∷ xs) h m rest l c =
    free_levels-used xs (sexp_free sizeof_stack_lvl h) m rest (ground (arith, l))
      (ground (arith, l))

pub destroy_stack-used {ℓ} :
    {A : Type ℓ} (m base : ℕ) (s : FastStack A) (h : Heap)
    → Holds m base s h
    → (destroy_stack (some s) h).used_memory ≡ base
unfolding destroy_stack sexp_free
destroy_stack-used m base s h v =
    let spares =
      free_levels-used s.spare h m (base + sizeof_faststack + sizeof_stack_lvl * length s.used)
        v.limit (omega arith) in
    let levels =
      free_levels-used s.used (free_levels s.spare h) m (base + sizeof_faststack) spares.0
        spares.1 in
    ground (arith, levels)

free_levels-limit {ℓ} :
    {A : Type ℓ} (xs : List A) (h : Heap) → (free_levels xs h).max_memory ≡ h.max_memory
unfolding free_levels sexp_free
free_levels-limit [] h = refl
free_levels-limit (x ∷ xs) h = ground (arith, free_levels-limit xs (sexp_free sizeof_stack_lvl h))

pub destroy_stack-limit {ℓ} :
    {A : Type ℓ} (s : FastStack A) (h : Heap) → (destroy_stack (some s) h).max_memory ≡ h.max_memory
unfolding destroy_stack sexp_free
destroy_stack-limit s h =
    ground (arith, free_levels-limit s.used (free_levels s.spare h), free_levels-limit s.spare h)

make_stack-Holds {ℓ} :
    {A : Type ℓ} (m : ℕ) (h : Heap) (s : FastStack A)
    → m + sizeof_faststack < size_mod
    → h.max_memory ≡ some m
    → h.used_memory ≤ m
    → (make_stack h).1 ≡ some s
    → Holds m h.used_memory s (make_stack {A = A} h).0
unfolding make_stack sexp_malloc
make_stack-Holds m h s fits l v e = ground arith

-- Make a stack, push and pop at will, some pushes failing, and destroy it: the counter of bytes is
-- back where it was. `m` is the limit, any value for which one more level does not wrap a size_t.
pub destroy-make_stack {ℓ} :
    {A : Type ℓ} (m : ℕ) (h : Heap) (s : FastStack A) (os : List (StackOp A))
    → m + sizeof_stack_lvl < size_mod
    → h.max_memory ≡ some m
    → h.used_memory ≤ m
    → (make_stack h).1 ≡ some s
    → (destroy_stack
        (some (run_ops os (s, (make_stack {A = A} h).0)).0)
        (run_ops os (s, (make_stack {A = A} h).0)).1).used_memory
      ≡ h.used_memory
destroy-make_stack {A} m h s os fits l v e =
    destroy_stack-used m h.used_memory (run_ops os (s, (make_stack {A = A} h).0)).0 _
      (run_ops-Holds m h.used_memory fits os s _ (make_stack-Holds m h s fits l v e))
