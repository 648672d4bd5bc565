-- ===== src/FastStack/Laws.antt =====
-- src/faststack.c as a stack: push and pop against a list, whatever levels are recycled.
use sfsexp.Prelude.{◌<◌, ◌≡◌, false, [], ◌∷◌, none, some, length, arith}
use sfsexp.Memory.{Heap, sexp_malloc}
use sfsexp.FastStack.{int_max, FastStack, push, pop}

-- `height` counts the levels from bottom to top.
abbrev pub IsCounted {ℓ} : {A : Type ℓ} → FastStack A → Type 0
IsCounted s = s.height ≡ length s.used

module _ {ℓ} {A : Type ℓ} where
  pub push-IsCounted :
      (s : FastStack A) (x : A) (h : Heap) {t : FastStack A}
      → length s.used < int_max
      → IsCounted s
      → (push (some s) x h).1 ≡ some t
      → IsCounted t
  unfolding push
  push-IsCounted s x h room c e = ground arith

  -- Popping what was pushed gives the data and the stack's contents and height back, where the height
  -- is not negative and below the largest int.
  pub pop-push :
      (s : FastStack A) (x : A) (h k : Heap) {t : FastStack A}
      → s.height < int_max
      → (push (some s) x h).1 ≡ some t
      → pop (some t) k
        ≡ (k, some (record { used = s.used; spare = x ∷ t.spare; height = s.height }), some x)
  unfolding push pop
  pop-push s x h k {t} room e = ground arith

  -- A push fails only where the allocator refuses a new level, and not while there is a spare one.
  pub push_fails :
      (s : FastStack A) (x : A) (h : Heap)
      → (push (some s) x h).1 ≡ none
      → (s.spare ≡ []) × ((sexp_malloc 24 h).1 ≡ false)
  unfolding push
  push_fails s x h e = ground arith
