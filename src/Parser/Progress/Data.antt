-- ===== src/Parser/Progress/Data.antt =====
-- The cases 2, 3 and 12 to 15 of the main loop of src/parser.c get on.
use sfsexp.Prelude.{ℕ, ◌<◌, ◌≡◌, ◌⊎◌, false, Option, some, arith, ◌==◌, ltb}
use sfsexp.FastStack.{is_low, empty_stack}
use sfsexp.Memory.{sexp_malloc}
use sfsexp.Cache.{on_heap, sexp_t_allocate, pd_allocate}
use sfsexp.Sexp.{Event, list, nil, node}
use sfsexp.Parser.Base.{
  start, open_paren, close_paren, hash, hash_b, size_string, blob, Run, ◌>>=◌, falls, returns,
  Meets-bind, Meets-if,
}
use sfsexp.Parser.Actions.{emit, made, pop_data, unwind}
use sfsexp.Parser.Frame.{
  Stays, Partly, need-Stays, put_char-Stays, terminate-falls, Partly-intro, attach-Stays,
  push_data-Stays, pop_data-Stays, close_list-Stays,
}
use sfsexp.Parser.Vars.{goto}
use sfsexp.Parser.Structure.{step_open, close_list, step_close, root_level, open_level, close_all}
use sfsexp.Parser.Binary.{
  step_hash, step_hash_b, step_size_string, atoi, read_blob, make_blob, step_blob,
}
use sfsexp.Parser.Progress.Measure.{IsBlobBounded, StaysLow, Advances, Partly-mono}

pub step_hash-Moves : (c : ℕ) (r : Run) → Advances r hash (step_hash c r)
unfolding step_hash
step_hash-Moves c r b =
    Meets-if (c == b'b') (λ _. Meets-bind (put_char-Stays false c _) λ r' s. falls (ground arith))
      λ _. falls (ground arith)

pub step_hash_b-Moves : (c : ℕ) (r : Run) → Advances r hash_b (step_hash_b c r)
unfolding step_hash_b
step_hash_b-Moves c r b =
    Meets-if (c == b'#') (λ _. Meets-bind (put_char-Stays false c _) λ r' s. falls (ground arith))
      λ _. falls (ground arith)

pub step_size_string-Moves : (c : ℕ) (r : Run) → Advances r size_string (step_size_string c r)
unfolding step_size_string
step_size_string-Moves c r b =
    Meets-if (c == b'#')
      (λ _. Meets-bind (terminate-falls r) λ s _.
        Meets-if (ltb 0 (atoi s))
          (λ _.
            Meets-bind (need-Stays (on_heap (sexp_malloc (atoi s))) _) λ r' n. falls (ground arith))
          λ _. falls (ground arith))
      λ _. Meets-bind (put_char-Stays false c _) λ r' s. falls (ground arith)

-- The byte wanted is read, or none is wanted.
abbrev pub ReadsBlob : Run → Run → Type 0
ReadsBlob r r' =
    (r'.cc.state ≡ r.cc.state)
    × (((r.t < r'.t) × IsBlobBounded r') ⊎ ((r'.t ≡ r.t) × (r'.cc.binread ≡ r'.cc.binexpected)))

pub read_blob-Moves :
    (c : Option ℕ) (r : Run) → IsBlobBounded r → Partly (ReadsBlob r) (read_blob c r)
unfolding read_blob
read_blob-Moves c r b = Partly-intro (read_blob c r) λ r' e. ground arith

pub make_blob-Moves : (r : Run) → Partly (StaysLow r.t) (make_blob r)
unfolding make_blob
make_blob-Moves r = Meets-bind (need-Stays sexp_t_allocate r) λ r₁ p.
    Meets-if (empty_stack r₁.cc.stack) (λ _. falls (ground arith))
      λ _. Partly-mono (attach-Stays _ _) λ r₂ q. ground arith

pub step_blob-Moves : (c : Option ℕ) (r : Run) → r.cc.state ≡ blob → Advances r blob (step_blob c r)
unfolding step_blob
step_blob-Moves c r e b = Meets-bind (read_blob-Moves c r b) λ r₁ m.
    Meets-if (r₁.cc.binread == r₁.cc.binexpected)
      (λ _. Partly-mono (make_blob-Moves r₁) λ r₂ n. ground arith) (λ h. falls (ground arith))

pub root_level-Stays : (r : Run) → Partly (Stays r) (root_level r)
unfolding root_level
root_level-Stays r = Partly-intro (root_level r) λ r' e.
    ground
      (arith, push_data-Stays (some (node (list nil) nil)) (record r { w = (pd_allocate r.w).0 }))

pub open_level-Moves : (r : Run) → IsBlobBounded r → Partly (StaysLow r.t) (open_level r)
unfolding open_level
open_level-Moves r b =
    Meets-bind (need-Stays pd_allocate r)
      λ r' p. falls (ground (arith, push_data-Stays (some nil) r'))

pub step_open-Moves : (r : Run) → Advances r open_paren (step_open r)
unfolding step_open
step_open-Moves r b = Meets-bind (need-Stays sexp_t_allocate _) λ r₁ p.
    Meets-bind
      (Meets-if (is_low r₁.cc.stack.height) (λ _. root_level-Stays (made (list nil) r₁))
        (λ _. attach-Stays (list nil) (made (list nil) r₁)))
      λ r₂ q. Partly-mono (open_level-Moves r₂ (ground arith)) λ r₃ o. ground arith

pub close_all-returns : (r : Run) → Partly (λ (r' : Run). ⊥) (close_all r)
unfolding close_all
close_all-returns r =
    Meets-bind (Partly-intro (unwind r.cc.stack.used r) (λ _ e. tt)) λ r' _. returns tt

-- The list is closed, one byte further on.
pub close_list-Moves :
    (r : Run)
    → Partly
        (λ (r' : Run).
          (r'.t ≡ r.t) × (r'.cc.binread ≡ r.cc.binread) × (r'.cc.binexpected ≡ r.cc.binexpected))
        (pop_data r >>= close_list)
close_list-Moves r =
    Meets-bind (pop_data-Stays r) λ r₁ p. Partly-mono (close_list-Stays r₁) λ r₂ l. ground arith

pub step_close-Moves : (r : Run) → Advances r close_paren (step_close r)
unfolding step_close
step_close-Moves r b =
    Meets-if (r.cc.depth == 0) (λ _. returns tt)
      λ _. Meets-bind (close_list-Moves _) λ r₂ moved.
        let told = goto start (emit (λ h. h.end_sexpr) Event.end_sexpr r₂) in
        Meets-if (told.cc.depth == 0) (λ _. Partly-mono (close_all-returns told) λ _ x. absurd x)
          λ _. falls (ground arith)
