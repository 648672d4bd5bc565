-- ===== src/Parser/Kept/Call.antt =====
-- The continuation that a call of the parser of src/parser.c returns.
use sfsexp.Prelude.{
  ◌≤◌, ◌≡◌, refl, ap, ◌∙◌, ◌&&◌, ◌||◌, Bytes, Option, false, none, some, ℕ, zero, suc, arith, ◌==◌,
  ltb, get_elem?, Option-cases, inl, inr,
}
use sfsexp.Cache.{World}
use sfsexp.Parser.Base.{Mode, Pcont, Run, Outcome, falls, returns, aborts, faults, Meets-if}
use sfsexp.Parser.Entry.{is_events_only, call_parser, cparse_sexp}
use sfsexp.Parser.Total.{IsOrdered, continuation-IsOrdered}
use sfsexp.Parser.Loop.{
  Ended, returned, returned_null, out_of_fuel, rounds, resume_at, resume, continue_with, is_blob,
  incomplete, finish, round, loop,
}
use sfsexp.Parser.Kept.Blocks.{Kept, KeepsRun, Keeps-intro, close_all-Kept}
use sfsexp.Parser.Kept.Steps.{step_blob-Kept, step_char-Kept}

-- What a run returns is kept.
abbrev pub EndsKept : Option Bytes → Mode → Ended → Type 0
EndsKept b m (returned pc w) = Kept b m pc
EndsKept b m _ = Unit {0}

continue_with-Kept :
    {b : Option Bytes} {m : Mode} (f : Run → Ended) {o : Outcome Run}
    → KeepsRun b m o
    → ((r : Run) → Kept b m r.cc → EndsKept b m (f r))
    → EndsKept b m (continue_with f o)
continue_with-Kept f (falls {a} k) h = h a k
continue_with-Kept f (returns k) h = k
continue_with-Kept f (aborts _) h = tt
continue_with-Kept f (faults _) h = tt

module _ {b : Option Bytes} {m : Mode} (mem : Bytes) (len : ℕ) where
  incomplete-Kept : (r : Run) → Kept b m r.cc → KeepsRun b m (incomplete mem len r)
  unfolding incomplete
  incomplete-Kept r k =
      Keeps-intro (incomplete mem len r) (λ r' e. ground (arith, k)) (λ pc w e. ground (arith, k))

  finish-Kept : (r : Run) → Kept b m r.cc → KeepsRun b m (finish mem len r)
  unfolding finish
  finish-Kept r k =
      Meets-if (r.cc.depth == 0 && ltb 0 r.elts) (λ _. close_all-Kept r k) λ _. incomplete-Kept r k

  round-Kept : (r : Run) → Kept b m r.cc → KeepsRun b m (round mem len r)
  unfolding round
  round-Kept r k =
      Meets-if (is_blob r.cc.state)
        (λ _. Meets-if (r.t == len) (λ _. finish-Kept r k) (λ _. step_blob-Kept _ r k))
        (λ _. elim (Option-cases (get_elem? mem r.t)) [
          | inl e ↦ rw e (faults tt)
          | inr (c, e) ↦ rw e (
              Meets-if (c == 0 || r.t == len) (λ _. finish-Kept r k)
                (λ _. step_char-Kept r.cc.state c _ r k))
        ])

  pub loop-Kept : (f : ℕ) (r : Run) → Kept b m r.cc → EndsKept b m (loop f mem len r)
  unfolding loop
  loop-Kept zero r k = tt
  loop-Kept (suc f) r k = continue_with-Kept (loop f mem len) (round-Kept r k) (loop-Kept f)

-- The mode builds expressions, and no more binary data is read than expected.
abbrev pub EndsOrdered : Ended → Type 0
EndsOrdered (returned pc w) = IsOrdered (some pc)
EndsOrdered _ = Unit {0}

ordered_end :
    (b : Option Bytes) (m : Mode) (o : Ended)
    → is_events_only m ≡ false
    → EndsKept b m o
    → EndsOrdered o
ordered_end b m (returned pc w) e k = (k.read, ap is_events_only k.mode ∙ e)
ordered_end b m (returned_null w) e k = tt
ordered_end b m Ended.aborts e k = tt
ordered_end b m Ended.faults e k = tt
ordered_end b m out_of_fuel e k = tt

resume_at-EndsKept :
    (pos : Option ℕ) (earlier : Option Bytes) (str : Bytes) (len : ℕ) (pc : Pcont) (w : World)
    → pc.sbuffer ≡ earlier
    → pc.binread ≤ pc.binexpected
    → (b : Option Bytes) × EndsKept b pc.mode (resume_at pos earlier str len pc w)
unfolding resume_at
resume_at-EndsKept none earlier str len pc w e h =
    (some str, loop-Kept str len (rounds str) _ (record { buffer = refl; mode = refl; read = h }))
resume_at-EndsKept (some t) none str len pc w e h = (none, tt)
resume_at-EndsKept (some t) (some mem) str len pc w e h =
    (some mem, loop-Kept mem len (rounds mem) _ (record { buffer = e; mode = refl; read = h }))

call_parser-EndsOrdered :
    (eparse_sexp : Bytes → ℕ → Pcont → World → Ended) (str : Option Bytes) (len : ℕ)
    (lc : Option Pcont) (w : World)
    → IsOrdered lc
    → EndsOrdered (call_parser eparse_sexp str len lc w)
unfolding call_parser resume
call_parser-EndsOrdered eparse_sexp str len none w o = tt
call_parser-EndsOrdered eparse_sexp none len (some pc) w o = o
call_parser-EndsOrdered eparse_sexp (some str) len (some pc) w o =
    let (b, k) = resume_at-EndsKept pc.last_pos pc.sbuffer str len pc w refl o.0 in
    rw o.1 (ordered_end b pc.mode _ o.1 k)

pub cparse_sexp-EndsOrdered :
    (eparse_sexp : Bytes → ℕ → Pcont → World → Ended) (str : Option Bytes) (len : ℕ)
    (lc : Option Pcont) (w : World)
    → IsOrdered lc
    → EndsOrdered (cparse_sexp eparse_sexp str len lc w)
unfolding cparse_sexp
cparse_sexp-EndsOrdered eparse_sexp str len lc w o =
    call_parser-EndsOrdered eparse_sexp str len _ _ (continuation-IsOrdered str lc w o)
