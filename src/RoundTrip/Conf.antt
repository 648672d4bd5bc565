-- ===== src/RoundTrip/Conf.antt =====
-- The variables of the main loop of src/parser.c between and inside atoms, where no request for
-- memory is refused, and what the blocks of code that the states share do to them.
use sfsexp.Prelude.{
  ℕ, suc, ◌+◌, sym, ◌<◌, ◌≡◌, refl, Bool, true, false, List, [], ◌∷◌, Option, none, some, Bytes,
  length, ltb, ◌==◌, if◌then◌else◌, Bool-cases, inl, inr, arith,
}
use mathlib.Core.List.{reverse}
use mathlib.Core.Path.{subst}
use sfsexp.Memory.{sexp_malloc, sexp_realloc}
use sfsexp.Memory.Quiet.{sexp_malloc_quiet, sexp_realloc_quiet}
use sfsexp.FastStack.{FastStack, int_limit, int_dec}
use sfsexp.FastStack.Quiet.{push-IsQuiet}
use sfsexp.Sexp.{AtomType, Elt, Sexp, snoc, Event, Handlers}
use sfsexp.Cache.{World, sexp_t_allocate, pd_deallocate}
use sfsexp.Cache.Quiet.{IsReady, Ready, sexp_t_allocate_quiet, on_heap_quiet, pd_deallocate_quiet}
use sfsexp.Parser.Base.{
  parser_normal, State, ParseData, Run, Outcome, next, Meets, falls, Meets-bind,
}
use sfsexp.Parser.Actions.{
  call_handler, grow_val, put_char, terminate, need, new_val, atom_elt, make_atom, attach,
  push_data, pop_data,
}

-- The parser's levels, its state, position and depth, the bytes in the value buffer, last first, and
-- the two flags.
pub record Conf : Type 0 where
  pub levels : List ParseData
  pub state : State
  pub t : ℕ
  pub depth : ℕ
  pub text : Bytes
  pub esc : Bool
  pub squoted : Bool

-- The run's variables are those of `k`. The buffer has room for one more byte, its count is right,
-- and inlined binary data is off.
pub record Fits (k : Conf) (r : Run) : Type 0 where
  pub levels : r.cc.stack.used ≡ k.levels
  pub counted : r.cc.stack.height ≡ length k.levels
  pub shallow : length k.levels < int_limit
  pub state : r.cc.state ≡ k.state
  pub at : r.t ≡ k.t
  pub depth : r.cc.depth ≡ k.depth
  pub text : r.cc.val ≡ some k.text
  pub text_used : r.cc.val_used ≡ length k.text
  pub room : length k.text < r.cc.val_allocated
  pub esc : r.cc.esc ≡ k.esc
  pub squoted : r.cc.squoted ≡ k.squoted
  pub mode : r.cc.mode ≡ parser_normal

-- Besides, requests for memory are granted.
abbrev pub InConf : Conf → Run → Type 0
InConf k r = Fits k r × IsReady r.w

-- The code falls through, with `P`.
abbrev pub Surely : {A : Type 0} → (A → Type 0) → Outcome A → Type 0
Surely P o = Meets P (λ _ _. ⊥) ⊥ o

grow_val-InConf :
    (forgets : Bool) (c : ℕ) (k : Conf) (r : Run)
    → InConf k r
    → Surely (InConf (record k { text = c ∷ k.text })) (grow_val forgets (c ∷ k.text) r)
unfolding grow_val
grow_val-InConf forgets c k r (i, q) = elim (Bool-cases (r.cc.val_used + 1 == r.cc.val_allocated)) [
  | inl full ↦
      let g =
        on_heap_quiet r.w q
          (sexp_realloc (r.cc.val_allocated + r.w.val_grow_size) r.cc.val_allocated)
          (sexp_realloc_quiet r.w.heap q.quiet _ _) in
      let counted : (r.cc.val_used + 1 == suc (length k.text)) ≡ true = ground arith in
      rw full (rw g.granted (rw counted (falls (ground (arith, q.grow_pos), g.ready))))
  | inr fits ↦ rw fits (falls (ground arith, q))
]

pub put_char-InConf :
    (forgets : Bool) (c : ℕ) (k : Conf) (r : Run)
    → InConf k r
    → Surely (InConf (record k { text = c ∷ k.text })) (put_char forgets c r)
unfolding put_char
put_char-InConf forgets c k r i =
    let room : ltb (length k.text) r.cc.val_allocated ≡ true = ground arith in
    rw (i.0.text, put_char) (rw room (grow_val-InConf forgets c k r i))

-- Code that is known to fall through.
pub Surely-intro :
    {A : Type 0} {P : A → Type 0} {o : Outcome A} (a : A) → o ≡ next a → P a → Surely P o
Surely-intro {P} a e p = subst (Surely P) (sym e) (falls p)

pub terminate-InConf :
    (k : Conf) (r : Run) → InConf k r → Surely (λ s. s ≡ reverse k.text) (terminate r)
unfolding terminate
terminate-InConf k r i = Surely-intro (reverse k.text) (ground (arith, i.0)) refl

pub attach-InConf :
    (sx : Elt) (top : Sexp) (below : List ParseData) (k : Conf) (r : Run)
    → k.levels ≡ some top ∷ below
    → InConf k r
    → Surely (InConf (record k { levels = some (snoc top sx) ∷ below })) (attach sx r)
unfolding attach
attach-InConf sx top below k r l i =
    let stack = record r.cc.stack { used = some (snoc top sx) ∷ below } in
    Surely-intro (record r { cc = record r.cc { stack = stack } }) (ground (arith, i.0))
      (ground (arith, i.0), i.1)

pub call_handler-IsReady :
    (h : Handlers → Bool) (e : Event) (hs : Option Handlers) (w : World)
    → IsReady w
    → IsReady (call_handler h e hs w)
unfolding call_handler
call_handler-IsReady h e none w q = q
call_handler-IsReady h e (some hs) w q = elim (Bool-cases (h hs)) [
  | inl told ↦ rw told (record { quiet = q.quiet; start_pos = q.start_pos; grow_pos = q.grow_pos })
  | inr untold ↦ rw untold q
]

pub need-Ready :
    (f : World → World × Bool) (r : Run)
    → Ready r.w (f r.w)
    → Surely (λ r'. (r' ≡ record r { w = (f r.w).0 }) × IsReady r'.w) (need f r)
unfolding need
need-Ready f r g = Surely-intro (record r { w = (f r.w).0 }) (rw g.granted) (refl, g.ready)

-- `r` but for its count of bytes used.
abbrev pub counted_as : ℕ → Run → Run
counted_as n r = record r { cc = record r.cc { val_used = n } }

pub new_val-InConf :
    (sx : Elt) (k : Conf) (r : Run)
    → InConf k (counted_as (length k.text) r)
    → Surely (InConf (record k { text = [] })) (new_val sx r)
unfolding new_val
new_val-InConf sx k r i =
    let g =
      on_heap_quiet r.w i.1 (sexp_malloc r.w.val_start_size)
        (sexp_malloc_quiet r.w.heap i.1.quiet _) in
    rw g.granted (falls (ground (arith, i.0, i.1.start_pos), g.ready))

pub push_data-InConf :
    (d : ParseData) (k : Conf) (r : Run)
    → length k.levels + 1 < int_limit
    → InConf k r
    → InConf (record k { levels = d ∷ k.levels }) (push_data d r)
unfolding push_data
push_data-InConf d k r room i =
    let p = push-IsQuiet d r.cc.stack r.w.heap i.1.quiet in
    rw p.0 (
      ground (arith, i.0),
      record { quiet = p.1; start_pos = i.1.start_pos; grow_pos = i.1.grow_pos },
    )

pub pop_data-InConf :
    (top : Sexp) (below : List ParseData) (k : Conf) (r : Run)
    → k.levels ≡ some top ∷ below
    → InConf k r
    → Surely (λ r'. InConf (record k { levels = below }) r' × (r'.sx ≡ top)) (pop_data r)
unfolding pop_data
pop_data-InConf top below k r l i =
    let stack : FastStack ParseData = record {
      used = below;
      spare = none ∷ r.cc.stack.spare;
      height = int_dec r.cc.stack.height;
    } in
    let d = pd_deallocate_quiet r.w i.1 in
    Surely-intro (record r { w = pd_deallocate r.w; cc = record r.cc { stack = stack }; sx = top })
      (ground (arith, i.0)) ((ground (arith, i.0), d.0), refl)

-- The element made is an atom of the type and text asked for, and the buffer is empty again. The
-- count of bytes used, `n`, is the caller's.
pub make_atom-InConf :
    (aty : AtomType) (clears : Bool) (s : Bytes) (n : ℕ) (k : Conf) (r : Run)
    → InConf k r
    → Surely
        (λ (p : Run × Elt).
          InConf (record k { text = []; squoted = if clears then false else k.squoted }) p.0
          × (allocated : ℕ) × (p.1 ≡ atom_elt aty s allocated n))
        (make_atom aty clears s (counted_as n r))
unfolding make_atom
make_atom-InConf aty clears s n k r i =
    Meets-bind (need-Ready sexp_t_allocate _ (sexp_t_allocate_quiet r.w i.1)) λ r₁ a.
      Meets-bind
        (new_val-InConf _ (record k { squoted = if clears then false else k.squoted }) _
          (ground (arith, a.0, i.0), call_handler-IsReady _ _ _ _ a.1))
        λ r₂ b. falls (b, r₁.cc.val_allocated, ground (arith, a.0))
