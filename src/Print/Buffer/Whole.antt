-- ===== src/Print/Buffer/Whole.antt =====
-- `print_sexp` of src/sexp.c on a list.
use sfsexp.Prelude.{
  ℕ, suc, ◌+◌, ◌≤◌, ◌<◌, ◌≡◌, refl, sym, ap, ◌∙◌, ◌⊎◌, inl, inr, true, false, [], ◌∷◌, ◌++◌, Option,
  some, Bytes, ltb, ◌==◌, if◌then◌else◌, length, length-append, arith,
}
use mathlib.Core.Path.{subst}
use sfsexp.Errors.{err_buffer_full}
use sfsexp.Memory.{set_errno}
use sfsexp.FastStack.{int_limit, is_low, empty, empty_stack, make_stack}
use sfsexp.FastStack.Quiet.{make_stack-IsQuiet}
use sfsexp.Sexp.{list, Sexp, nil, node}
use sfsexp.Sexp.View.{view, view_all}
use sfsexp.Cache.{World, sexp_t_deallocate}
use sfsexp.Cache.Quiet.{IsReady}
use sfsexp.Print.{walk_rounds}
use sfsexp.Print.Walk.{AreTexts}
use sfsexp.Print.Whole.{copy-alone, show-alone}
use sfsexp.Print.Call.{as_int, minus_one}
use sfsexp.RoundTrip.Print.{show, show_all}
use sfsexp.Print.Buffer.{
  Page, Ink, goes, ◌onto◌, leave_level, close_level, end_level, advance_level, more, over, round_on,
  buffer_round, after_round, buffer_loop,
}
use sfsexp.Print.Buffer.Call.{
  memory, BufferResult, result, close_open, clean_up, size_sub, terminated, conclude_ink,
  after_walk, buffer_on, buffer_head, buffer_copy, print_sexp,
}
use sfsexp.Print.Buffer.Writing.{Replaced, Inked}
use sfsexp.Print.Buffer.Rounds.{walk-Reaches}
use sfsexp.Print.Buffer.Walk.{Reaches, reaches, halts, push-Inked, pop-Inked}

module _ (buf : Bytes) (size : ℕ) where
  -- The text and a NUL stand in the buffer, and the result is the text's length.
  abbrev pub Fits : Bytes → BufferResult → Type 0
  Fits t r =
      (length t < size)
      × ((buf' : Bytes) × (w' : World) × (r ≡ result (length t) buf' w') × Replaced buf t buf')

  -- As much of the text as fits and a NUL stand in the buffer, and the result is -1.
  abbrev pub Fills : Bytes → BufferResult → Type 0
  Fills t r =
      (size ≤ length t)
      × ((fitting : Bytes) × (missing : Bytes) × (t ≡ fitting ++ missing)
          × (length fitting + 1 ≡ size)
          × ((buf' : Bytes) × (w' : World) × (r ≡ result minus_one buf' w')
              × Replaced buf fitting buf'))

  abbrev pub FitsOrFills : Bytes → BufferResult → Type 0
  FitsOrFills t r = Fits t r ⊎ Fills t r

  close_level-flat : (p : Page) → is_low p.depth ≡ true → close_level p ≡ end_level (leave_level p)
  unfolding close_level
  close_level-flat p l = rw l refl

  -- The last round, at the end of the outermost chain.
  last_round :
      (n : ℕ) (t : Bytes) (p : Page)
      → Inked buf size (nil ∷ []) 0 t p
      → buffer_loop (suc n) p ≡ some (goes (leave_level p))
  unfolding buffer_loop buffer_round
  last_round n t p w =
      let closed : is_low p.depth ≡ true = ground (arith, w.depth) in
      let bare : empty_stack (leave_level p).stack ≡ true =
        ap (λ u. empty_stack (record (leave_level p).stack { used = u }))
          (pop-Inked buf size nil [] 0 t p w).levels in
      ap (after_round (buffer_loop n)) (
        ap (round_on p) w.levels
        ∙ close_level-flat p closed
        ∙ ap (λ b. if b then over (goes (leave_level p)) else more (advance_level (leave_level p)))
            bare)

  clean_up-list :
      (l : Sexp) (w : World) (retval : ℕ) (p : Page)
      → (w' : World) × (clean_up (list l) w retval p ≡ result retval (memory p) w')
  unfolding clean_up sexp_t_deallocate
  clean_up-list l w retval p = (_, refl)

  terminated-Fits :
      (l : Sexp) (w : World) (t : Bytes) (p : Page) (a : Bytes)
      → p.after ≡ a
      → length t < int_limit
      → Inked buf size [] 0 t p
      → Fits t (terminated size (list l) w p)
  terminated-Fits l w t p [] e b h =
      absurd (omega (arith, h.room, h.some_left, ap (λ a. length a) e))
  terminated-Fits l w t p (x ∷ s) e b h =
      let some_left : (p.left == 0) ≡ false = ground (arith, h.some_left) in
      let within : as_int (size_sub size p.left) ≡ length t = ground (arith, h.space, b) in
      let (w', c) = clean_up-list l w (length t) (record p { after = 0 ∷ s }) in
      (
        omega (arith, h.space, h.some_left),
        (
          memory (record p { after = 0 ∷ s }),
          w',
          rw some_left (rw e (rw within c)),
          record {
            old = h.old;
            last = x;
            rest = s;
            was = h.was ∙ ap (λ a. h.old ++ a) e;
            same_length = h.same_length;
            is = ap (λ u. u ++ 0 ∷ s) h.written;
          },
        ),
      )

  walked-FitsOrFills :
      (n : ℕ) (l : Sexp) (w : World) (t : Bytes) (o : Option Ink)
      → length t < int_limit
      → Reaches buf size (suc n) (nil ∷ []) 0 t o
      → FitsOrFills t (after_walk size (list l) w o)
  unfolding close_open
  walked-FitsOrFills n l w t _ b (reaches {p} h) =
      let q = leave_level p in
      let h' = pop-Inked buf size nil [] 0 t p h in
      let closed : (goes q onto λ p'. close_open p'.depth p') ≡ goes q =
        ap (λ d. close_open d q) h'.depth in
      inl (
        subst (λ o. Fits t (after_walk size (list l) w o)) (sym (last_round n t p h))
          (subst (λ i. Fits t (conclude_ink size (list l) w i)) (sym closed)
            (terminated-Fits l w t q q.after refl b h')))
  walked-FitsOrFills n l w t _ b (halts {p} c) =
      let (w', e) =
        clean_up-list l w minus_one (record p { heap = set_errno err_buffer_full p.heap }) in
      inr (
        ground (
          arith,
          ap (λ u. length u) c.parts,
          length-append c.fitting c.missing,
          c.fits,
          c.misses,
        ),
        (c.fitting, c.missing, c.parts, c.fits, (memory p, w', e, c.replaced)),
      )

  buffer_head-FitsOrFills :
      (l : Sexp) (w : World)
      → 0 < size
      → size ≤ length buf
      → AreTexts l
      → length (show_all (view_all (node (list l) nil))) < int_limit
      → IsReady w
      → FitsOrFills
          (show_all (view_all (node (list l) nil)))
          (buffer_head (walk_rounds (node (list l) nil) + suc size) buf size (list l) w)
  unfolding buffer_head buffer_on AreTexts
  buffer_head-FitsOrFills l w pos room a b q =
      let m = make_stack-IsQuiet {A = Sexp} w.heap q.quiet in
      let p₀ : Page = record {
        before = [];
        after = buf;
        left = size;
        stack = empty;
        depth = 0;
        heap = (make_stack {A = Sexp} w.heap).0;
      } in
      let w₀ : Inked buf size [] 0 [] p₀ = record {
        levels = refl;
        counted = refl;
        shallow = omega arith;
        depth = refl;
        written = refl;
        old = [];
        was = refl;
        same_length = refl;
        space = omega arith;
        some_left = pos;
        room = room;
        quiet = m.1;
      } in
      subst
        (λ o. FitsOrFills (show_all (view_all (node (list l) nil))) (
          buffer_on (walk_rounds (node (list l) nil) + suc size) buf size (list l) w
            ((make_stack {A = Sexp} w.heap).0, o)))
        (sym m.0)
        (walked-FitsOrFills size l w _ _ b (
          walk-Reaches buf size (node (list l) nil) [] 0 [] _ (suc size) (a, tt) (omega arith)
            (omega arith) (omega (arith, b))
            (push-Inked buf size (node (list l) nil) [] 0 [] p₀ (omega arith) w₀)))

-- Where no request for memory is refused, `print_sexp` of a list into a buffer of `size` bytes or more
-- either ends with the text of the reference printer and a NUL in the buffer, and returns the text's
-- length, or, where the text has `size` bytes or more, with its first `size - 1` bytes and a NUL, and
-- returns -1. No byte behind the NUL is changed. It holds for every size but 0 and every list whose
-- values are texts and not binary and whose text has fewer than 2^31 bytes.
pub print_sexp-show :
    (buf : Bytes) (size : ℕ) (l rest : Sexp) (w : World)
    → 0 < size
    → size ≤ length buf
    → AreTexts l
    → length (show (view (list l))) < int_limit
    → IsReady w
    → FitsOrFills buf size (show (view (list l))) (print_sexp buf size (node (list l) rest) w)
unfolding print_sexp buffer_copy
print_sexp-show buf size l rest w pos room a b q =
    let positive : ltb size 1 ≡ false = ground (arith, pos) in
    let (w', e, r) = copy-alone w q in
    rw positive (
      subst (λ x. FitsOrFills buf size (show (view (list l))) (buffer_copy buf size (list l) x))
        (sym e)
        (subst
          (λ t.
            FitsOrFills buf size t
              (buffer_head (walk_rounds (node (list l) nil) + suc size) buf size (list l) w'))
          (show-alone (list l))
          (buffer_head-FitsOrFills buf size l w' pos room a
            (omega (arith, b, ap (λ u. length u) (show-alone (list l)))) r)))
