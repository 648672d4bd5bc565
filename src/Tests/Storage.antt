-- ===== src/Tests/Storage.antt =====
-- The theorems on src/faststack.c and src/sexp_memory.c at concrete inputs.
use sfsexp.Prelude.{ℕ, false, ◌≡◌, refl, some, List, [], ◌∷◌, arith}
use sfsexp.Memory.{sexp_malloc, sexp_free}
use sfsexp.Memory.Accounting.{Call, IsWithin, run_calls, run_calls-IsWithin, free-malloc}
use sfsexp.FastStack.{FastStack, empty, make_stack, destroy_stack, push, pop}
use sfsexp.FastStack.Laws.{pop-push, push_fails}
use sfsexp.FastStack.Storage.{StackOp, run_ops, destroy-make_stack}
use sfsexp.Tests.Values.{granting, refusing}

-- A block, a limit below what is in use, another block and a block too large.
abbrev calls : List Call
calls = Call.malloc 40 ∷ Call.set_max 20 ∷ Call.malloc 30 ∷ Call.malloc 5000 ∷ Call.free 40 ∷ []

run_calls-IsWithin_example : IsWithin (run_calls calls (granting 100))
run_calls-IsWithin_example = run_calls-IsWithin calls (granting 100) (omega arith)

free-malloc_example : (sexp_free 40 (sexp_malloc 40 (granting 100)).0).used_memory ≡ 0
unfolding sexp_malloc
free-malloc_example = free-malloc 100 40 (granting 100) refl (omega arith) refl

abbrev two_levels : FastStack ℕ
two_levels = record { used = 4 ∷ 5 ∷ []; spare = 9 ∷ []; height = 2 }

abbrev pushed_on : FastStack ℕ
pushed_on = record { used = 6 ∷ 4 ∷ 5 ∷ []; spare = []; height = 3 }

pop-push_example :
    pop (some pushed_on) (granting 100)
    ≡ (granting 100, some (record { used = 4 ∷ 5 ∷ []; spare = 6 ∷ []; height = 2 }), some 6)
unfolding push
pop-push_example =
    pop-push two_levels 6 (granting 100) (granting 100) {t = pushed_on} (omega arith) refl

push_fails_example : (◌≡◌ {A = List ℕ} [] []) × ((sexp_malloc 24 refusing).1 ≡ false)
unfolding push sexp_malloc
push_fails_example = push_fails empty 6 refusing refl

abbrev pushes : List (StackOp ℕ)
pushes = StackOp.push_data 1 ∷ StackOp.push_data 2 ∷ StackOp.pop_top ∷ StackOp.push_data 3 ∷ []

destroy-make_stack_example :
    (destroy_stack
      (some (run_ops pushes (empty, (make_stack {A = ℕ} (granting 100)).0)).0)
      (run_ops pushes (empty, (make_stack {A = ℕ} (granting 100)).0)).1).used_memory
    ≡ 0
unfolding make_stack sexp_malloc
destroy-make_stack_example =
    destroy-make_stack 100 (granting 100) empty pushes (omega arith) refl (omega arith) refl
