-- ===== src/Print/Whole.antt =====
-- `print_sexp_cstr` of src/sexp.c on a list, and the parser of src/parser.c on what it printed.
use sfsexp.Prelude.{
  ℕ, ◌+◌, ◌≤◌, ◌<◌, ◌≡◌, refl, ap, ◌∙◌, true, [], ◌∷◌, ◌++◌, append-nil, Option, none, some, Bytes,
  if◌then◌else◌, length, arith,
}
use mathlib.Core.List.{reverse}
use sfsexp.Memory.{Heap, sexp_malloc, sexp_calloc}
use sfsexp.Memory.Quiet.{sexp_malloc_quiet, sexp_calloc_quiet, IsQuiet}
use sfsexp.FastStack.{int_limit, is_low, empty, empty_stack, make_stack, destroy_stack}
use sfsexp.FastStack.Quiet.{make_stack-IsQuiet}
use sfsexp.Sexp.{Elt, list, Sexp, nil, node}
use sfsexp.Sexp.View.{view, view_all}
use sfsexp.Cache.{World, sexp_t_allocate, sexp_t_deallocate}
use sfsexp.Cache.Quiet.{IsReady, sexp_t_allocate_quiet}
use sfsexp.CString.Laws.{length-reverse}
use sfsexp.CString.{CString, snew, sizeof_cstring}
use sfsexp.SexpOps.{copy_sexp}
use sfsexp.Print.{
  Printing, over, turn, turn_on, end_chain, pop_chain, advance_top, close_chain, print_round,
  print_loop, printed, after_turn, walk_rounds,
}
use sfsexp.Print.Call.{
  after_loop, close_rest, conclude, result, as_int, retval, print_head, print_on, print_copy,
  print_into, concluded, target, print_sexp_cstr,
}
use sfsexp.Print.Writing.{Writes, grow_limit}
use sfsexp.Print.Walk.{AreTexts, pop-Writes, push-Writes}
use sfsexp.Print.Text.{walk-Writes}
use sfsexp.RoundTrip.Print.{show, show_all}

pub show-alone : (e : Elt) → show_all (view_all (node e nil)) ≡ show (view e)
unfolding show view
show-alone e = append-nil (show (view e))

close_chain-flat :
    (grow : ℕ) (p : Printing)
    → is_low p.depth ≡ true
    → close_chain grow p ≡ end_chain grow (pop_chain p)
unfolding close_chain
close_chain-flat grow p l = rw l refl

-- The last round, at the end of the outermost chain.
last_round :
    (grow : ℕ) (t : Bytes) (p : Printing)
    → 0 < grow
    → grow < grow_limit
    → Writes (nil ∷ []) 0 t p
    → print_loop 1 grow p ≡ printed (pop_chain p)
unfolding print_loop print_round
last_round grow t p g g' w =
    let closed : is_low p.depth ≡ true = ground (arith, w.depth) in
    let popped = pop-Writes grow g g' nil [] 0 t p w in
    let bare : empty_stack (pop_chain p).stack ≡ true =
      ap (λ u. empty_stack (record (pop_chain p).stack { used = u })) popped.levels in
    ap (after_turn (print_loop 0 grow)) (
      ap (turn_on grow p) w.levels
      ∙ close_chain-flat grow p closed
      ∙ ap (λ b. if b then over (pop_chain p) else turn (advance_top grow (pop_chain p))) bare)

pub deallocate-list :
    (l : Sexp) (w : World) → (w' : World) × (sexp_t_deallocate (list l) w ≡ some w')
unfolding sexp_t_deallocate
deallocate-list l w = (_, refl)

-- With the list's text in the string the call ends.
conclude-list :
    (grow : ℕ) (l : Sexp) (w : World) (t : Bytes) (p : Printing)
    → Writes [] 0 t p
    → (cs : CString) × (w' : World) × (after_loop grow (list l) w (printed p)
        ≡ result (as_int (length cs.base)) (some cs) w')
      × (reverse cs.base ≡ t)
unfolding close_rest conclude
conclude-list grow l w t p h =
    let (w', e) = deallocate-list l (record w { heap = destroy_stack (some p.stack) p.heap }) in
    (
      h.string,
      w',
      ap (λ d. conclude (list l) w (close_rest grow d p)) h.depth
          ∙ ap (concluded p.out) e
          ∙ ap (λ o. result (retval o) o w') h.out,
      h.written,
    )

print_head-list :
    (grow : ℕ) (l : Sexp) (w : World) (s : Option CString) (cs : CString)
    → 0 < grow
    → grow < grow_limit
    → length (reverse cs.base) + length (show_all (view_all (node (list l) nil))) < int_limit
    → AreTexts l
    → IsReady w
    → length cs.base ≤ cs.len
    → (cs' : CString) × (w' : World) × (print_head
          (walk_rounds (node (list l) nil) + 1)
          grow
          s
          (list l)
          w
          (some cs)
        ≡ result (as_int (length cs'.base)) (some cs') w')
      × (reverse cs'.base ≡ reverse cs.base ++ show_all (view_all (node (list l) nil)))
unfolding print_head print_on AreTexts
print_head-list grow l w s cs g g' b a q room =
    let m = make_stack-IsQuiet {A = Sexp} w.heap q.quiet in
    let p₀ : Printing = record {
      out = some cs;
      stack = empty;
      depth = 0;
      heap = (make_stack {A = Sexp} w.heap).0;
    } in
    let w₀ : Writes [] 0 (reverse cs.base) p₀ = record {
      levels = refl;
      counted = refl;
      shallow = omega arith;
      depth = refl;
      string = cs;
      out = refl;
      written = refl;
      room = room;
      quiet = m.1;
    } in
    let (p₁, e₁, w₁) =
      walk-Writes grow g g' (node (list l) nil) [] 0 _ _ 1 (a, tt) (omega arith) (omega arith) b
        (push-Writes grow g g' (node (list l) nil) [] 0 _ p₀ (omega arith) w₀) in
    let (cs', w', e, t) =
      conclude-list grow l w _ (pop_chain p₁) (pop-Writes grow g g' nil [] 0 _ p₁ w₁) in
    (
      cs',
      w',
      ap
            (λ o.
              print_on (walk_rounds (node (list l) nil) + 1) grow s (list l) w (some cs)
                ((make_stack {A = Sexp} w.heap).0, o))
            m.0
          ∙ ap (after_loop grow (list l) w) (e₁ ∙ last_round grow _ p₁ g g' w₁)
          ∙ e,
      t,
    )

snew-IsQuiet :
    (ss : ℕ) (h : Heap)
    → IsQuiet h
    → (h' : Heap) × (snew ss h ≡ (h', some (record { base = []; len = ss }))) × IsQuiet h'
unfolding snew
snew-IsQuiet ss h q =
    let m = sexp_malloc_quiet h q sizeof_cstring in
    let m' = sexp_calloc_quiet (sexp_malloc sizeof_cstring h).0 m.1 1 ss in
    ((sexp_calloc 1 ss (sexp_malloc sizeof_cstring h).0).0, rw m.0 (rw m'.0 refl), m'.1)

pub copy-alone :
    (w : World)
    → IsReady w
    → (w' : World) × (copy_sexp (node (list nil) nil) w ≡ some (w', node (list nil) nil))
      × IsReady w'
unfolding copy_sexp
copy-alone w q =
    let g = sexp_t_allocate_quiet w q in ((sexp_t_allocate w).0, rw g.granted refl, g.ready)

-- Where no request for memory is refused, `print_sexp_cstr` of a list into a new string, of any
-- initial size, ends with the text of the reference printer, and the result is the text's length: for
-- every list whose values are texts and not binary and whose text has fewer than 2^31 bytes, and where
-- strings grow by less than 2^63. What follows the list is not printed.
pub print_sexp_cstr-show :
    (grow ss : ℕ) (l rest : Sexp) (w : World)
    → 0 < grow
    → grow < grow_limit
    → AreTexts l
    → length (show (view (list l))) < int_limit
    → IsReady w
    → (cs : CString) × (w' : World) × (print_sexp_cstr grow none (node (list l) rest) ss w
        ≡ result (length (show (view (list l)))) (some cs) w')
      × (reverse cs.base ≡ show (view (list l)))
unfolding print_sexp_cstr print_copy target
print_sexp_cstr-show grow ss l rest w g g' a b q =
    let same = show-alone (list l) in
    let (h₁, e₁, q₁) = snew-IsQuiet ss w.heap q.quiet in
    let w₁ : World = record w { heap = h₁ } in
    let r₁ : IsReady w₁ = record { quiet = q₁; start_pos = q.start_pos; grow_pos = q.grow_pos } in
    let (w₂, e₂, r₂) = copy-alone w₁ r₁ in
    let (cs, w₃, e₃, t) =
      print_head-list grow l w₂ none (record { base = []; len = ss }) g g'
        (omega (arith, b, ap (λ u. length u) same)) a r₂ (omega arith) in
    let written : reverse cs.base ≡ show (view (list l)) = t ∙ same in
    let returned : as_int (length cs.base) ≡ length (show (view (list l))) =
      omega (arith, b, ap (λ u. length u) written, length-reverse cs.base) in
    let begun : target none ss w ≡ (w₁, some (record { base = []; len = ss })) =
      ap (λ x. (record w { heap = x.0 }, x.1)) e₁ in
    (
      cs,
      w₃,
      ap (print_into grow none (list l)) begun
          ∙ ap (print_copy grow none (list l) (some (record { base = []; len = ss }))) e₂
          ∙ e₃
          ∙ ap (λ n. result n (some cs) w₃) returned,
      written,
    )
