-- ===== src/Wrappers/Total.antt =====
-- `parse_sexp` and `iparse_sexp` of src/parser.c come to an end.
use sfsexp.Prelude.{ℕ, ◌≢◌, refl, ◌&&◌, Option, none, some, Bytes, Bool-cases, inl, inr, ltb}
use sfsexp.Sexp.{Sexp}
use sfsexp.Cache.{World}
use sfsexp.Parser.Base.{Pcont}
use sfsexp.Parser.Loop.{Ended, returned, returned_null, out_of_fuel}
use sfsexp.Parser.Entry.{cparse_sexp}
use sfsexp.Parser.Total.{IsOrdered, cparse_sexp-ne-out_of_fuel}
use sfsexp.Parser.Kept.Call.{EndsOrdered, cparse_sexp-EndsOrdered}
use sfsexp.Wrappers.{
  Answer, endless, on_return, answer, is_incomplete, used_up, dummy, take_sexp, end_atom,
  destroy_continuation, parse_sexp,
}

answer-ne-endless : (sx : Sexp) (w : Option World) → answer sx w ≢ endless
answer-ne-endless sx none = λ e. cc
answer-ne-endless sx (some w) = λ e. cc

take_sexp-ne-endless : (pc : Pcont) (w : World) → take_sexp pc w ≢ endless
unfolding take_sexp
take_sexp-ne-endless pc w = answer-ne-endless pc.last_sexp (destroy_continuation (some pc) w)

on_return-ne-endless :
    (o : Ended) (k : Pcont → World → Answer)
    → o ≢ out_of_fuel
    → EndsOrdered o
    → ((pc : Pcont) (w : World) → IsOrdered (some pc) → k pc w ≢ endless)
    → on_return o k ≢ endless
on_return-ne-endless (returned pc w) k n h f = f pc w h
on_return-ne-endless (returned_null w) k n h f = λ e. cc
on_return-ne-endless Ended.aborts k n h f = λ e. cc
on_return-ne-endless Ended.faults k n h f = λ e. cc
on_return-ne-endless out_of_fuel k n h f = absurd (n refl)

module _ (eparse_sexp : Bytes → ℕ → Pcont → World → Ended) where
  end_atom-ne-endless :
      (pc : Pcont) (w : World) → IsOrdered (some pc) → end_atom eparse_sexp pc w ≢ endless
  unfolding end_atom
  end_atom-ne-endless pc w o =
      elim (Bool-cases (is_incomplete w.heap.sexp_errno && used_up pc.last_pos)) [
        | inl y ↦ rw y (
            on_return-ne-endless (cparse_sexp eparse_sexp (some dummy) 2 (some pc) w) take_sexp
              (cparse_sexp-ne-out_of_fuel eparse_sexp (some dummy) 2 (some pc) w o)
              (cparse_sexp-EndsOrdered eparse_sexp (some dummy) 2 (some pc) w o)
              λ pc' w' _. take_sexp-ne-endless pc' w')
        | inr n ↦ rw n (take_sexp-ne-endless pc w)
      ]

  -- `parse_sexp` comes to an end on every input, whatever requests for memory are refused.
  pub parse_sexp-ne-endless :
      (s : Option Bytes) (len : ℕ) (w : World) → parse_sexp eparse_sexp s len w ≢ endless
  unfolding parse_sexp
  parse_sexp-ne-endless none len w = λ e. cc
  parse_sexp-ne-endless (some s) len w = elim (Bool-cases (ltb len 1)) [
    | inl y ↦ rw y (λ e. cc)
    | inr n ↦ rw n (
        on_return-ne-endless (cparse_sexp eparse_sexp (some s) len none w) (end_atom eparse_sexp)
          (cparse_sexp-ne-out_of_fuel eparse_sexp (some s) len none w tt)
          (cparse_sexp-EndsOrdered eparse_sexp (some s) len none w tt) end_atom-ne-endless)
  ]
