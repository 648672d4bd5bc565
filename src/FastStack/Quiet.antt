-- ===== src/FastStack/Quiet.antt =====
-- The stack operations where every request for memory is granted.
use sfsexp.Prelude.{◌≡◌, refl, List, [], ◌∷◌, some}
use sfsexp.Memory.{Heap}
use sfsexp.Memory.Quiet.{IsQuiet, sexp_malloc_quiet}
use sfsexp.FastStack.{
  FastStack, empty, sizeof_stack_lvl, sizeof_faststack, make_stack, push, int_inc, push_level,
}

module _ {ℓ} {A : Type ℓ} where
  pub make_stack-IsQuiet :
      (h : Heap)
      → IsQuiet h
      → ((make_stack {A = A} h).1 ≡ some empty) × IsQuiet (make_stack {A = A} h).0
  unfolding make_stack
  make_stack-IsQuiet h q = let m = sexp_malloc_quiet h q sizeof_faststack in rw m.0 (refl, m.1)

  -- The levels above top after a push.
  abbrev spare_after : List A → List A
  spare_after [] = []
  spare_after (_ ∷ above) = above

  abbrev pub pushed : A → FastStack A → FastStack A
  pushed x s = record { used = x ∷ s.used; spare = spare_after s.spare; height = int_inc s.height }

  push_level-IsQuiet :
      (x : A) (s : FastStack A) (spares : List A) (h : Heap)
      → IsQuiet h
      → ((push_level x s spares h).1
          ≡ some
              (record { used = x ∷ s.used; spare = spare_after spares; height = int_inc s.height }))
        × IsQuiet (push_level x s spares h).0
  unfolding push_level
  push_level-IsQuiet x s [] h q =
      let m = sexp_malloc_quiet h q sizeof_stack_lvl in rw m.0 (refl, m.1)
  push_level-IsQuiet x s (_ ∷ above) h q = (refl, q)

  pub push-IsQuiet :
      (x : A) (s : FastStack A) (h : Heap)
      → IsQuiet h
      → ((push (some s) x h).1 ≡ some (pushed x s)) × IsQuiet (push (some s) x h).0
  unfolding push
  push-IsQuiet x s h q = push_level-IsQuiet x s s.spare h q
