-- ===== src/Print/Reread.antt =====
-- The parser of src/parser.c on what `print_sexp_cstr` of src/sexp.c printed.
use sfsexp.Prelude.{
  ℕ, ◌<◌, ◌≡◌, refl, sym, ap, ◌∙◌, Bytes, [], ◌∷◌, ◌++◌, none, some, length, arith,
}
use mathlib.Core.List.{reverse}
use mathlib.Core.Path.{subst}
use sfsexp.Sexp.{Sexp, list, node}
use sfsexp.Sexp.View.{branch, view, view_all, Forest}
use sfsexp.FastStack.{int_max, int_limit}
use sfsexp.Cache.{World}
use sfsexp.Cache.Quiet.{IsReady}
use sfsexp.CString.{CString}
use sfsexp.Parser.Base.{Pcont}
use sfsexp.Parser.Loop.{Ended, returned}
use sfsexp.Parser.Entry.{cparse_sexp}
use sfsexp.Print.Call.{result, print_sexp_cstr}
use sfsexp.Print.Walk.{AreTexts}
use sfsexp.Print.Writing.{grow_limit}
use sfsexp.Print.Whole.{print_sexp_cstr-show}
use sfsexp.RoundTrip.Print.{show, IsPrintable, nesting}
use sfsexp.RoundTrip.Nesting.{nesting-branch}
use sfsexp.RoundTrip.Whole.{Parsed, parse-show}

-- A text equal to a printed list is parsed to that list.
parse_text :
    (eparse_sexp : Bytes → ℕ → Pcont → World → Ended) (f : Forest) (t : Bytes) (v : World)
    → t ≡ show (branch f)
    → IsReady v
    → IsPrintable (branch f)
    → nesting (branch f) < int_max
    → (pc : Pcont) × (v' : World) × (cparse_sexp eparse_sexp (some (t ++ 0 ∷ [])) (length t) none v
        ≡ returned pc v')
      × Parsed f (length t) pc v'
parse_text eparse_sexp f t v e q p n =
    subst
      (λ t.
        (pc : Pcont) × (v' : World) × (cparse_sexp eparse_sexp (some (t ++ 0 ∷ [])) (length t) none
            v
          ≡ returned pc v')
        × Parsed f (length t) pc v')
      (sym e) (parse-show eparse_sexp f (0 ∷ []) (length (show (branch f))) v q p n (omega arith))

pub view-list : (l : Sexp) → view (list l) ≡ branch (view_all l)
unfolding view
view-list l = refl

-- What `print_sexp_cstr` prints of a list, `cparse_sexp` reads as a list that shows the same tree: for
-- every list of texts whose tree is printable and whose text has fewer than 2^31 bytes, where strings
-- grow by less than 2^63 and no request for memory is refused. What is returned is the number of bytes.
pub print_sexp_cstr-cparse_sexp :
    (eparse_sexp : Bytes → ℕ → Pcont → World → Ended) (grow ss : ℕ) (l rest : Sexp) (w v : World)
    → 0 < grow
    → grow < grow_limit
    → AreTexts l
    → IsReady w
    → IsReady v
    → IsPrintable (branch (view_all l))
    → length (show (branch (view_all l))) < int_limit
    → (cs : CString) × (w' : World) × (print_sexp_cstr grow none (node (list l) rest) ss w
        ≡ result (length (reverse cs.base)) (some cs) w')
      × (pc : Pcont) × (v' : World) × (cparse_sexp eparse_sexp
            (some (reverse cs.base ++ 0 ∷ []))
            (length (reverse cs.base))
            none
            v
          ≡ returned pc v')
      × Parsed (view_all l) (length (reverse cs.base)) pc v'
print_sexp_cstr-cparse_sexp eparse_sexp grow ss l rest w v g g' a q q' p n =
    let (cs, w', e, t) =
      print_sexp_cstr-show grow ss l rest w g g' a
        (omega (arith, n, ap (λ u. length (show u)) (view-list l))) q in
    let (pc, v', e', read) =
      parse_text eparse_sexp (view_all l) (reverse cs.base) v (t ∙ ap show (view-list l)) q' p
        (omega (arith, n, nesting-branch (view_all l))) in
    (cs, w', e ∙ ap (λ u. result (length u) (some cs) w') (sym t), pc, v', e', read)
