-- ===== src/Wrappers/Whole.antt =====
-- `parse_sexp` of src/parser.c on a printed list.
use sfsexp.Prelude.{
  ℕ, Bytes, ◌<◌, ◌≤◌, ◌≡◌, refl, ap, ◌∙◌, false, ◌&&◌, [], ◌++◌, some, length, ltb, arith,
}
use sfsexp.Sexp.{Elt, nil, node}
use sfsexp.Sexp.View.{Forest, branch, view}
use sfsexp.FastStack.{int_max}
use sfsexp.Cache.{World}
use sfsexp.Cache.Quiet.{IsReady}
use sfsexp.Parser.Base.{Pcont}
use sfsexp.Parser.Loop.{Ended}
use sfsexp.RoundTrip.Print.{show, IsPrintable, nesting}
use sfsexp.RoundTrip.Whole.{parse-show}
use sfsexp.Wrappers.{
  destroy_levels, destroy_continuation, free_pcont, gives, answer, is_incomplete, used_up,
  on_return, take_sexp, end_atom, parse_sexp,
}

destroy_idle :
    (pc : Pcont) (w : World)
    → pc.stack.used ≡ []
    → destroy_continuation (some pc) w ≡ some (free_pcont pc w)
unfolding destroy_continuation destroy_levels
destroy_idle pc w e = rw e refl

end_atom_complete :
    (eparse_sexp : Bytes → ℕ → Pcont → World → Ended) (pc : Pcont) (t : ℕ) (w : World)
    → pc.last_pos ≡ some t
    → end_atom eparse_sexp pc w ≡ take_sexp pc w
unfolding end_atom
end_atom_complete eparse_sexp pc t w e =
    let complete : (is_incomplete w.heap.sexp_errno && used_up pc.last_pos) ≡ false =
      ground (arith, ap used_up e) in
    rw complete refl

show-pos : (f : Forest) → 0 < length (show (branch f))
unfolding show
show-pos f = omega arith

-- Where no request for memory is refused, `parse_sexp` on the printed text of a list, whatever bytes
-- follow it, returns one element that shows that list: for every list of printable atoms and lists
-- nested less than 2^31 - 1 deep.
pub parse_sexp-show :
    (eparse_sexp : Bytes → ℕ → Pcont → World → Ended) (f : Forest) (rest : Bytes) (len : ℕ)
    (w : World)
    → IsReady w
    → IsPrintable (branch f)
    → nesting (branch f) < int_max
    → length (show (branch f)) ≤ len
    → (e : Elt) × (w' : World) × (parse_sexp eparse_sexp (some (show (branch f) ++ rest)) len w
        ≡ gives (node e nil) w')
      × (view e ≡ branch f)
unfolding parse_sexp take_sexp
parse_sexp-show eparse_sexp f rest len w q p fits l =
    let (pc, w', ran, (e, last, v, ok, at, ready, idle)) =
      parse-show eparse_sexp f rest len w q p fits l in
    let some_text : ltb len 1 ≡ false = ground (arith, l, show-pos f) in
    (
      e,
      free_pcont pc w',
      rw some_text (
          ap (λ o. on_return o (end_atom eparse_sexp)) ran
          ∙ end_atom_complete eparse_sexp pc _ w' at
          ∙ ap (answer pc.last_sexp) (destroy_idle pc w' idle.levels)
          ∙ ap (λ s. gives s (free_pcont pc w')) last),
      v,
    )
