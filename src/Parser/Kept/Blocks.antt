-- ===== src/Parser/Kept/Blocks.antt =====
-- The buffer and the mode of a continuation under the blocks of code of src/parser.c that the states
-- share.
use sfsexp.Prelude.{◌≤◌, ◌≡◌, refl, Bool, Bytes, List, [], ◌∷◌, Option, some, ℕ, arith}
use sfsexp.FastStack.{empty_stack}
use sfsexp.Sexp.{AtomType, Elt, list, nil, node}
use sfsexp.Cache.{World, sexp_t_allocate, pd_allocate}
use sfsexp.Parser.Base.{
  Mode, ParseData, Pcont, Run, Outcome, next, done, aborted, fault, Meets, falls, returns, aborts,
  faults, Meets-bind, Meets-if,
}
use sfsexp.Parser.Actions.{
  put_char, overwrite, terminate, need, new_val, make_atom, attach, push_data, pop_data, unwind,
}
use sfsexp.Parser.Structure.{root_level, open_level, close_list, close_all}
use sfsexp.Parser.Atoms.{deliver}

pub record Kept (b : Option Bytes) (m : Mode) (pc : Pcont) : Type 0 where
  pub buffer : pc.sbuffer ≡ b
  pub mode : pc.mode ≡ m
  pub read : pc.binread ≤ pc.binexpected

abbrev pub KeepsRun : Option Bytes → Mode → Outcome Run → Type 0
KeepsRun b m o = Meets (λ (r : Run). Kept b m r.cc) (λ pc _. Kept b m pc) (Unit {0}) o

module _ {b : Option Bytes} {m : Mode} where
  pub Keeps-intro :
      {A : Type 0} {P : A → Type 0} (o : Outcome A)
      → ((a : A) → o ≡ next a → P a)
      → ((pc : Pcont) (w : World) → o ≡ done pc w → Kept b m pc)
      → Meets P (λ pc _. Kept b m pc) (Unit {0}) o
  Keeps-intro (next a) f g = falls (f a refl)
  Keeps-intro (done pc w) f g = returns (g pc w refl)
  Keeps-intro aborted f g = aborts tt
  Keeps-intro fault f g = faults tt

  pub put_char-Kept : (f : Bool) (c : ℕ) (r : Run) → Kept b m r.cc → KeepsRun b m (put_char f c r)
  unfolding put_char
  put_char-Kept f c r k =
      Keeps-intro (put_char f c r) (λ r' e. ground (arith, k)) (λ pc w e. ground (arith, k))

  pub overwrite-Kept : (c : ℕ) (r : Run) → Kept b m r.cc → KeepsRun b m (overwrite c r)
  unfolding overwrite
  overwrite-Kept c r k =
      Keeps-intro (overwrite c r) (λ r' e. ground (arith, k)) (λ pc w e. ground (arith, k))

  pub need-Kept : (f : World → World × Bool) (r : Run) → Kept b m r.cc → KeepsRun b m (need f r)
  unfolding need
  need-Kept f r k = Keeps-intro (need f r) (λ r' e. ground (arith, k)) (λ pc w e. ground (arith, k))

  pub new_val-Kept : (sx : Elt) (r : Run) → Kept b m r.cc → KeepsRun b m (new_val sx r)
  unfolding new_val
  new_val-Kept sx r k =
      Keeps-intro (new_val sx r) (λ r' e. ground (arith, k)) (λ pc w e. ground (arith, k))

  pub attach-Kept : (sx : Elt) (r : Run) → Kept b m r.cc → KeepsRun b m (attach sx r)
  unfolding attach
  attach-Kept sx r k =
      Keeps-intro (attach sx r) (λ r' e. ground (arith, k)) (λ pc w e. ground (arith, k))

  pub push_data-Kept : (d : ParseData) (r : Run) → Kept b m r.cc → Kept b m (push_data d r).cc
  unfolding push_data
  push_data-Kept d r k = record { buffer = k.buffer; mode = k.mode; read = k.read }

  pub pop_data-Kept : (r : Run) → Kept b m r.cc → KeepsRun b m (pop_data r)
  unfolding pop_data
  pop_data-Kept r k =
      Keeps-intro (pop_data r) (λ r' e. ground (arith, k)) (λ pc w e. ground (arith, k))

  pub close_list-Kept : (r : Run) → Kept b m r.cc → KeepsRun b m (close_list r)
  unfolding close_list
  close_list-Kept r k =
      Keeps-intro (close_list r) (λ r' e. ground (arith, k)) (λ pc w e. ground (arith, k))

  pub terminate-Kept :
      (r : Run) → Meets (λ (s : Bytes). Unit {0}) (λ pc _. Kept b m pc) (Unit {0}) (terminate r)
  unfolding terminate
  terminate-Kept r = Keeps-intro (terminate r) (λ s e. tt) (λ pc w e. ground arith)

  pub make_atom-Kept :
      (aty : AtomType) (clears : Bool) (s : Bytes) (r : Run)
      → Kept b m r.cc
      → Meets
          (λ (p : Run × Elt). Kept b m p.0.cc)
          (λ pc _. Kept b m pc)
          (Unit {0})
          (make_atom aty clears s r)
  unfolding make_atom
  make_atom-Kept aty clears s r k =
      Meets-bind (need-Kept sexp_t_allocate r k)
        λ r₁ k₁. Meets-bind (new_val-Kept _ _ (ground (arith, k₁))) λ r₂ k₂. falls k₂

  pub unwind-Kept :
      (levels : List ParseData) (r : Run) → Kept b m r.cc → KeepsRun b m (unwind levels r)
  unfolding unwind
  unwind-Kept [] r k = falls k
  unwind-Kept (_ ∷ below) r k = Meets-bind (pop_data-Kept r k) λ r' k'. unwind-Kept below r' k'

  pub close_all-Kept : (r : Run) → Kept b m r.cc → KeepsRun b m (close_all r)
  unfolding close_all
  close_all-Kept r k =
      Meets-bind (unwind-Kept r.cc.stack.used r k) λ r' k'. returns (ground (arith, k'))

  pub root_level-Kept : (r : Run) → Kept b m r.cc → KeepsRun b m (root_level r)
  unfolding root_level
  root_level-Kept r k =
      Keeps-intro (root_level r)
        (λ r' e. ground (
          arith,
          k,
          push_data-Kept (some (node (list nil) nil)) (record r { w = (pd_allocate r.w).0 }) k,
        ))
        (λ pc w e. ground (arith, k))

  pub open_level-Kept : (r : Run) → Kept b m r.cc → KeepsRun b m (open_level r)
  unfolding open_level
  open_level-Kept r k =
      Meets-bind (need-Kept pd_allocate r k)
        λ r' k'. falls (ground (arith, push_data-Kept (some nil) r' k'))

  pub deliver-Kept :
      (result : Run) (sx : Elt) (r : Run)
      → Kept b m result.cc
      → Kept b m r.cc
      → KeepsRun b m (deliver result sx r)
  unfolding deliver
  deliver-Kept result sx r k k' =
      Meets-if (empty_stack r.cc.stack) (λ _. returns (ground (arith, k))) λ _. attach-Kept sx r k'
