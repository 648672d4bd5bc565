-- ===== src/Rejects.antt =====
-- A closing parenthesis that no list was opened for, at `cparse_sexp` of src/parser.c.
use sfsexp.Prelude.{
  ℕ, ◌+◌, ◌<◌, ◌≤◌, ◌≡◌, refl, ap, ◌∙◌, true, [], ◌∷◌, ◌++◌, none, some, Bytes, length,
  length-append, ◌==◌, arith,
}
use mathlib.Core.Path.{subst}
use sfsexp.Errors.{err_badform}
use sfsexp.Sexp.{nil}
use sfsexp.Cache.{World}
use sfsexp.Cache.Quiet.{IsReady}
use sfsexp.Parser.Base.{start, close_paren, Pcont, Run, returns, falls}
use sfsexp.Parser.Vars.{is_space, advance, goto}
use sfsexp.Parser.Loop.{Ended, returned, rounds, resume, resume_at}
use sfsexp.Parser.Structure.{step_start, step_close}
use sfsexp.Parser.Step.{step_char}
use sfsexp.Parser.Entry.{cparse_sexp}
use sfsexp.RoundTrip.Print.{IsNulFree}
use sfsexp.RoundTrip.NulFree.{text-Reads}
use sfsexp.RoundTrip.Start.{cparse_sexp-starts}
use sfsexp.RoundTrip.Leads.{Leads, At, Reads, round_from, loop-Leads}

-- The continuation stands at a closing parenthesis at offset `t` of its buffer, with no list open.
pub record IsStuck (mem : Bytes) (len t : ℕ) (pc : Pcont) : Type 0 where
  pub buffer : pc.sbuffer ≡ some mem
  pub position : pc.last_pos ≡ some t
  pub state : pc.state ≡ start
  pub depth : pc.depth ≡ 0
  pub bounded : pc.binread ≤ pc.binexpected
  pub ahead : At mem len t b')'

abbrev pub AreSpaces : Bytes → Type 0
AreSpaces [] = Unit {0}
AreSpaces (c ∷ s) = (is_space c ≡ true) × AreSpaces s

-- What a call reports there.
abbrev pub Unmatched : Bytes → ℕ → ℕ → Pcont → World → Type 0
Unmatched mem len t pc w = (pc.error ≡ err_badform) × (pc.last_sexp ≡ nil) × IsStuck mem len t pc

-- From there the loop returns at once.
stuck-Leads :
    (mem : Bytes) (len t : ℕ) (r : Run)
    → r.cc.state ≡ start
    → r.t ≡ t
    → r.cc.depth ≡ 0
    → r.cc.sbuffer ≡ some mem
    → r.cc.binread ≤ r.cc.binexpected
    → At mem len t b')'
    → Leads mem len (Unmatched mem len t) r
unfolding step_char step_start step_close
stuck-Leads mem len t r q e d u b a =
    let closed : (r.cc.depth == 0) ≡ true = ground (arith, d) in
    round_from start t r q e refl a (
      falls (
        round_from close_paren t (goto close_paren r) refl e refl a (
          rw closed (
            returns (
              refl,
              refl,
              record {
                buffer = u;
                position = ap some e;
                state = refl;
                depth = d;
                bounded = b;
                ahead = a;
              },
            )))))

resume_at-Unmatched :
    (mem str : Bytes) (len t : ℕ) (pc : Pcont) (w : World)
    → IsStuck mem len t pc
    → (pc' : Pcont) × (w' : World) × (resume_at (some t) (some mem) str len pc w ≡ returned pc' w')
      × Unmatched mem len t pc' w'
unfolding resume_at
resume_at-Unmatched mem str len t pc w s =
    loop-Leads {mem = mem} {len = len} (rounds mem) s.bounded (ground (arith, s.state))
      (stuck-Leads mem len t _ s.state refl s.depth s.buffer s.bounded s.ahead)

-- At an unmatched closing parenthesis a call returns SEXP_ERR_BADFORM and no expression, and leaves
-- the continuation where it was, so that every further call with it returns the same.
pub resume-Unmatched :
    (mem str : Bytes) (len t : ℕ) (pc : Pcont) (w : World)
    → IsStuck mem len t pc
    → (pc' : Pcont) × (w' : World) × (resume str len pc w ≡ returned pc' w')
      × Unmatched mem len t pc' w'
unfolding resume
resume-Unmatched mem str len t pc w s =
    let (pc', w', e, u) = resume_at-Unmatched mem str len t pc w s in
    (
      pc',
      w',
      ap (λ p. resume_at p pc.sbuffer str len pc w) s.position
          ∙ ap (λ b. resume_at (some t) b str len pc w) s.buffer
          ∙ e,
      u,
    )

-- From a space on, behind spaces.
spaces-Leads :
    (mem : Bytes) (len t : ℕ) (s : Bytes) (r : Run)
    → r.cc.state ≡ start
    → r.t ≡ t
    → r.cc.depth ≡ 0
    → r.cc.sbuffer ≡ some mem
    → r.cc.binread ≤ r.cc.binexpected
    → AreSpaces s
    → Reads mem len t (s ++ b')' ∷ [])
    → Leads mem len (Unmatched mem len (t + length s)) r
unfolding step_char step_start
spaces-Leads mem len t [] r q e d u b p a =
    stuck-Leads mem len (t + 0) r q (e ∙ omega arith) d u b
      (subst (λ x. At mem len x b')') (omega arith) a.0)
spaces-Leads mem len t (c ∷ s) r q e d u b p a = round_from start t r q e refl a.0 (
    rw p.0 (
      falls (
        subst (λ x. Leads mem len (Unmatched mem len x) (advance r)) (omega arith)
          (spaces-Leads mem len (t + 1) s (advance r) q (ap (λ x. x + 1) e) d u b p.1 a.1))))

AreSpaces-IsNulFree : (s : Bytes) → AreSpaces s → IsNulFree (s ++ b')' ∷ [])
AreSpaces-IsNulFree [] p = (refl, tt)
AreSpaces-IsNulFree (c ∷ s) p = (ground (arith, p.0), AreSpaces-IsNulFree s p.1)

-- A closing parenthesis with nothing but spaces before it is reported as SEXP_ERR_BADFORM by a call
-- without a continuation, whose allocations are granted, and the continuation returned is stuck at it.
pub cparse_sexp-Unmatched :
    (eparse_sexp : Bytes → ℕ → Pcont → World → Ended) (s rest : Bytes) (len : ℕ) (w : World)
    → IsReady w
    → AreSpaces s
    → length s < len
    → (pc : Pcont) × (w' : World) × (cparse_sexp eparse_sexp
          (some (s ++ b')' ∷ [] ++ rest))
          len
          none
          w
        ≡ returned pc w')
      × Unmatched (s ++ b')' ∷ [] ++ rest) len (length s) pc w'
cparse_sexp-Unmatched eparse_sexp s rest len w q p l =
    let mem = s ++ b')' ∷ [] ++ rest in
    let (r, e, i, b, u) = cparse_sexp-starts eparse_sexp mem len w q in
    let ahead =
      text-Reads [] (s ++ b')' ∷ []) rest len (AreSpaces-IsNulFree s p)
        (omega (arith, l, length-append s (b')' ∷ []))) in
    let run =
      loop-Leads {mem = mem} {len = len} (rounds mem) b (ground (arith, i.0.at, i.0.state))
        (spaces-Leads mem len 0 s r i.0.state i.0.at i.0.depth u b p ahead) in
    (run.0, run.1, e ∙ run.2, subst (λ t. Unmatched mem len t run.0 run.1) (omega arith) run.3)
