-- ===== src/FastStack.antt =====
-- src/faststack.c and src/faststack.h: the stack with recycled levels. The doubly linked chain of
-- levels is a zipper at `top`: `used` holds the data of the levels from top down to bottom, `spare`
-- those of the levels above top, lowest first, which stay allocated and keep their old data.
-- `bottom` is NULL exactly where both are empty, `top` where `used` is. A pointer to a stack that
-- may be NULL is an Option.
pub mod Laws
pub mod Quiet
pub mod Storage
use sfsexp.Prelude.{
  ℕ, zero, suc, ◌+◌, ◌-◌, ◌%◌, ◌^◌, ◌||◌, leb, Bool, true, false, List, [], ◌∷◌, Option, none, some,
  ltb, length, if◌then◌else◌,
}
use sfsexp.Errors.{err_memory, err_bad_stack}
use sfsexp.Memory.{Heap, set_errno, sexp_malloc, sexp_free}

pub record FastStack {ℓ} (A : Type ℓ) : Type ℓ where
  pub used : List A
  pub spare : List A
  pub height : ℕ

-- `height` is an int, which is given by its 32 bits: from `int_limit` on it is negative. Counting past
-- the largest int is taken to give the smallest.
abbrev pub int_limit : ℕ
int_limit = 2 ^ 31

-- The largest int
abbrev pub int_max : ℕ
int_max = 2 ^ 31 - 1

abbrev pub int_mod : ℕ
int_mod = 2 ^ 32

-- `++` and `--` on an int
abbrev pub int_inc : ℕ → ℕ
int_inc n = (n + 1) % int_mod

abbrev pub int_dec : ℕ → ℕ
int_dec n = (n + (int_mod - 1)) % int_mod

-- `height < 1`
abbrev pub is_low : ℕ → Bool
is_low n = ltb n 1 || leb int_limit n

-- sizeof on a 64-bit machine
abbrev pub sizeof_stack_lvl : ℕ
sizeof_stack_lvl = 24

abbrev pub sizeof_faststack : ℕ
sizeof_faststack = 24

-- `sexp_free` of each level of a chain.
free_levels {ℓ} : {A : Type ℓ} → List A → Heap → Heap
free_levels [] h = h
free_levels (x ∷ xs) h = free_levels xs (sexp_free sizeof_stack_lvl h)

module _ {ℓ} {A : Type ℓ} where
  abbrev pub empty : FastStack A
  empty = record { used = []; spare = []; height = 0 }

  unfoldable pub make_stack : Heap → Heap × Option (FastStack A)
  make_stack h =
      let (h', granted) = sexp_malloc sizeof_faststack h in
      if granted then (h', some empty) else (set_errno err_memory h', none)

  -- Two loops, up to the highest level and down again, and the stack's wrapper. With the bottom
  -- level NULL only the wrapper is freed.
  unfoldable pub destroy_stack : Option (FastStack A) → Heap → Heap
  unfolding free_levels
  destroy_stack none h = h
  destroy_stack (some s) h = sexp_free sizeof_faststack (free_levels s.used (free_levels s.spare h))

  -- A level is taken from above top, or from bottom where top is NULL, and else allocated.
  unfoldable pub push_level : A → FastStack A → List A → Heap → Heap × Option (FastStack A)
  push_level x s (_ ∷ above) h =
      (h, some (record { used = x ∷ s.used; spare = above; height = int_inc s.height }))
  push_level x s [] h =
      let (h', granted) = sexp_malloc sizeof_stack_lvl h in
      if granted
      then (h', some (record { used = x ∷ s.used; spare = []; height = int_inc s.height }))
      else (set_errno err_memory h', none)

  -- NULL is returned for a NULL stack, and where the allocation fails; the stack that a failed
  -- call was given is unchanged.
  unfoldable pub push : Option (FastStack A) → A → Heap → Heap × Option (FastStack A)
  unfolding push_level
  push none x h = (set_errno err_bad_stack h, none)
  push (some s) x h = push_level x s s.spare h

  -- The stack after the call and the data of the level returned; the level lies above top now.
  unfoldable pub pop_level : FastStack A → List A → FastStack A × Option A
  pop_level s [] = (s, none)
  pop_level s (x ∷ below) =
      if is_low s.height
      then (s, none)
      else (record { used = below; spare = x ∷ s.spare; height = int_dec s.height }, some x)

  unfoldable pub pop : Option (FastStack A) → Heap → Heap × Option (FastStack A) × Option A
  unfolding pop_level
  pop none h = (set_errno err_bad_stack h, none, none)
  pop (some s) h = let (s', lvl) = pop_level s s.used in (h, some s', lvl)

  -- `top_data(s)`, NULL pointer dereference where the stack is empty.
  unfoldable pub top_data : List A → Option A
  top_data [] = none
  top_data (x ∷ _) = some x

  -- `s->top->data = x`
  unfoldable pub set_top : A → FastStack A → FastStack A
  set_top x s = elim s.used [ [] ↦ s | _ ∷ below ↦ record s { used = x ∷ below } ]

  -- `lvl->data = x` on the level that was popped last.
  unfoldable pub set_popped : A → FastStack A → FastStack A
  set_popped x s = elim s.spare [ [] ↦ s | _ ∷ above ↦ record s { spare = x ∷ above } ]

  -- `s->top == NULL`
  abbrev pub empty_stack : FastStack A → Bool
  empty_stack s = elim s.used [ [] ↦ true | _ ∷ _ ↦ false ]
