-- ===== src/Wrappers/Sequence.antt =====
-- `iparse_sexp` of src/parser.c, called over and over on a text that holds several expressions, as its
-- comment describes.
use sfsexp.Prelude.{
  ℕ, Bytes, zero, suc, ◌+◌, ◌*◌, ◌<◌, ◌≤◌, ◌≡◌, refl, ap, sym, ◌∙◌, inl, inr, List, [], ◌∷◌, ◌++◌,
  append_assoc, Option, none, some, length, length-append, get_elem?, arith,
}
use mathlib.Core.Path.{subst}
use sfsexp.Errors.{err_incomplete}
use sfsexp.Sexp.{Elt, Sexp, nil, node}
use sfsexp.Sexp.View.{Forest, branch, view}
use sfsexp.Cache.{World}
use sfsexp.Cache.Quiet.{IsReady}
use sfsexp.Parser.Base.{done, Pcont}
use sfsexp.Parser.Loop.{Ended, returned, rounds, loop, round, finish, incomplete, continue_with}
use sfsexp.Parser.Entry.{cparse_sexp, init_continuation, new_pcont}
use sfsexp.FastStack.{int_max, empty}
use sfsexp.RoundTrip.Print.{show, IsPrintable, nesting}
use sfsexp.RoundTrip.NulFree.{get_elem?-append, show-IsNulFree, text-Reads}
use sfsexp.RoundTrip.Start.{init_continuation_quiet}
use sfsexp.RoundTrip.Whole.{IsIdle}
use sfsexp.RoundTrip.Leads.{Reads}
use sfsexp.RoundTrip.Resumed.{Located, restored, cparse_sexp-Located, cparse_sexp-next}
use sfsexp.Wrappers.{Answer, gives, crashes, endless, taken_from, iparse_sexp}

-- The lists one behind the other.
abbrev pub show_lists : List Forest → Bytes
show_lists [] = []
show_lists (f ∷ fs) = show (branch f) ++ show_lists fs

abbrev pub PrintableLists : List Forest → Type 0
PrintableLists [] = Unit {0}
PrintableLists (f ∷ fs) =
    IsPrintable (branch f) × (nesting (branch f) < int_max) × PrintableLists fs

-- So many calls, and what they return; `none` where one does not return.
module _ (eparse_sexp : Bytes → ℕ → Pcont → World → Ended) (s : Bytes) (len : ℕ) where
  abbrev after_call :
      (Option Pcont → World → Option (List Sexp)) → Option Pcont × Answer → Option (List Sexp)
  after_call k (lc, gives sx w) = elim (k lc w) [ none ↦ none | some xs ↦ some (sx ∷ xs) ]
  after_call k (lc, crashes) = none
  after_call k (lc, endless) = none

  pub calls : ℕ → Option Pcont → World → Option (List Sexp)
  calls zero lc w = some []
  calls (suc n) lc w = after_call (calls n) (iparse_sexp eparse_sexp (some s) len lc w)

-- Each list is returned as one element that shows it, and NULL behind the last.
abbrev pub Show : List Sexp → List Forest → Type 0
Show xs [] = xs ≡ nil ∷ []
Show xs (f ∷ fs) =
    (e : Elt) × (ys : List Sexp) × (xs ≡ node e nil ∷ ys) × (view e ≡ branch f) × Show ys fs

round-end :
    (mem : Bytes) (len t : ℕ) (pc : Pcont) (w : World)
    → IsIdle pc
    → get_elem? mem t ≡ some 0
    → (pc' : Pcont) × (w' : World) × (round mem len (restored mem t pc w) ≡ done pc' w')
      × (pc'.last_sexp ≡ nil)
unfolding round finish incomplete
round-end mem len t pc w i e = (
  record pc { sbuffer = some mem; last_pos = none; last_sexp = nil; error = err_incomplete },
  record w { heap = record w.heap { sexp_errno = err_incomplete } },
  ground (arith, i.state, i.depth, e),
  refl,
)

loop-end :
    (mem : Bytes) (len t f : ℕ) (pc : Pcont) (w : World)
    → IsIdle pc
    → get_elem? mem t ≡ some 0
    → (pc' : Pcont) × (w' : World) × (loop (suc f) mem len (restored mem t pc w) ≡ returned pc' w')
      × (pc'.last_sexp ≡ nil)
unfolding loop
loop-end mem len t f pc w i e =
    let (pc', w', r, z) = round-end mem len t pc w i e in
    (pc', w', ap (continue_with (loop f mem len)) r, z)

call-end :
    (eparse_sexp : Bytes → ℕ → Pcont → World → Ended) (mem : Bytes) (len t : ℕ) (pc : Pcont)
    (w : World)
    → IsIdle pc
    → Located mem t pc
    → get_elem? mem t ≡ some 0
    → (pc' : Pcont) × (w' : World) × (cparse_sexp eparse_sexp (some mem) len (some pc) w
        ≡ returned pc' w')
      × (pc'.last_sexp ≡ nil)
call-end eparse_sexp mem len t pc w i l e =
    let (pc', w', e', z) = loop-end mem len t (4 * length mem + 3) pc w i e in
    let fuel : rounds mem ≡ suc (4 * length mem + 3) = omega arith in
    (
      pc',
      w',
      cparse_sexp-Located eparse_sexp mem len t pc w i.mode l
          ∙ ap (λ f. loop f mem len (restored mem t pc w)) fuel
          ∙ e',
      z,
    )

calls-step :
    (eparse_sexp : Bytes → ℕ → Pcont → World → Ended) (mem : Bytes) (len n : ℕ) (pc pc' : Pcont)
    (w w' : World)
    → cparse_sexp eparse_sexp (some mem) len (some pc) w ≡ returned pc' w'
    → calls eparse_sexp mem len (suc n) (some pc) w
      ≡ after_call eparse_sexp mem len
          (calls eparse_sexp mem len n)
          (some (record pc' { last_sexp = nil }), gives pc'.last_sexp w')
unfolding calls iparse_sexp
calls-step eparse_sexp mem len n pc pc' w w' e =
    ap (λ o. after_call eparse_sexp mem len (calls eparse_sexp mem len n) (taken_from pc o)) e

-- The expression is taken from the continuation.
pub taken : (pc : Pcont) → IsIdle pc → IsIdle (record pc { last_sexp = nil })
taken pc i = record {
  levels = i.levels;
  counted = i.counted;
  state = i.state;
  depth = i.depth;
  text = i.text;
  text_used = i.text_used;
  room = i.room;
  esc = i.esc;
  squoted = i.squoted;
  mode = i.mode;
}

module _ (eparse_sexp : Bytes → ℕ → Pcont → World → Ended) (mem rest : Bytes) (len : ℕ) where
  -- The calls on what lies ahead of a continuation between two expressions.
  calls-ahead :
      (fs : List Forest) (before : Bytes) (pc : Pcont) (w : World)
      → before ++ (show_lists fs ++ 0 ∷ rest) ≡ mem
      → IsReady w
      → IsIdle pc
      → pc.binread ≤ pc.binexpected
      → Located mem (length before) pc
      → PrintableLists fs
      → length before + length (show_lists fs) ≤ len
      → (xs : List Sexp) × (calls eparse_sexp mem len (suc (length fs)) (some pc) w ≡ some xs)
        × Show xs fs
  unfolding calls
  calls-ahead [] before pc w m q i b l p fits =
      let (pc', w', e, z) =
        call-end eparse_sexp mem len (length before) pc w i l
          (ap (λ u. get_elem? u (length before)) (sym m) ∙ get_elem?-append before 0 rest) in
      (pc'.last_sexp ∷ [], calls-step eparse_sexp mem len 0 pc pc' w w' e, ap (λ x. x ∷ []) z)
  calls-ahead (f ∷ fs) before pc w m q i b l p fits =
      let s = show (branch f) in
      let text : before ++ (s ++ (show_lists fs ++ 0 ∷ rest)) ≡ mem =
        ap (λ u. before ++ u) (sym (append_assoc s (show_lists fs) (0 ∷ rest))) ∙ m in
      let ahead : Reads mem len (length before) s =
        subst (λ u. Reads u len (length before) s) text
          (text-Reads before s (show_lists fs ++ 0 ∷ rest) len (show-IsNulFree (branch f) p.0)
            (omega (arith, fits, length-append s (show_lists fs)))) in
      let (pc', w', e, (d, last, v, ok, at, ready, idle), kept) =
        cparse_sexp-next eparse_sexp f mem len (length before) pc w q i b l p.0 p.1 ahead in
      let (xs, es, h) =
        calls-ahead fs (before ++ s) (record pc' { last_sexp = nil }) w'
          (append_assoc before s (show_lists fs ++ 0 ∷ rest) ∙ text) ready (taken pc' idle)
          kept.read (inr (at ∙ ap some (sym (length-append before s)), kept.buffer)) p.2
          (omega (arith, fits, length-append s (show_lists fs), length-append before s)) in
      (
        pc'.last_sexp ∷ xs,
        calls-step eparse_sexp mem len (suc (length fs)) pc pc' w w' e
            ∙ ap (λ o. after_call eparse_sexp mem len (λ lc v. o) (none, gives pc'.last_sexp w'))
                es,
        (d, xs, ap (λ x. x ∷ xs) last, v, h),
      )

-- Where no request for memory is refused, `iparse_sexp`, called over and over with a new continuation
-- on a text that holds printable lists one behind the other and then a NUL, returns the lists in
-- order, each as one element that shows it, and then NULL: for lists nested less than 2^31 - 1 deep.
pub iparse_sexp-sequence :
    (eparse_sexp : Bytes → ℕ → Pcont → World → Ended) (fs : List Forest) (rest : Bytes) (len : ℕ)
    (w : World)
    → IsReady w
    → PrintableLists fs
    → length (show_lists fs) ≤ len
    → (pc : Pcont) × (w' : World) × (init_continuation none w ≡ (w', some pc))
      × (xs : List Sexp) × (calls eparse_sexp
            (show_lists fs ++ 0 ∷ rest)
            len
            (suc (length fs))
            (some pc)
            w'
          ≡ some xs)
      × Show xs fs
iparse_sexp-sequence eparse_sexp fs rest len w q p fits =
    let (w', size, e, q', pos) = init_continuation_quiet none w q in
    let pc = new_pcont empty none size in
    let idle : IsIdle pc = record {
      levels = refl;
      counted = refl;
      state = refl;
      depth = refl;
      text = refl;
      text_used = refl;
      room = pos;
      esc = refl;
      squoted = refl;
      mode = refl;
    } in
    let (xs, ran, h) =
      calls-ahead eparse_sexp (show_lists fs ++ 0 ∷ rest) rest len fs [] pc w' refl q' idle
        (omega arith) (inl (refl, refl)) p (omega (arith, fits)) in
    (pc, w', e, xs, ran, h)
