-- ===== src/Print/Buffer/Reread.antt =====
-- The parser of src/parser.c on the buffer that `print_sexp` of src/sexp.c filled.
use sfsexp.Prelude.{
  ℕ, ◌≤◌, ◌<◌, ◌≡◌, sym, ap, ◌∙◌, inl, inr, Bytes, ◌∷◌, ◌++◌, none, some, length, arith,
}
use mathlib.Core.Path.{subst}
use sfsexp.Sexp.{Sexp, list, node}
use sfsexp.Sexp.View.{branch, view, view_all}
use sfsexp.FastStack.{int_limit}
use sfsexp.Cache.{World}
use sfsexp.Cache.Quiet.{IsReady}
use sfsexp.Parser.Base.{Pcont}
use sfsexp.Parser.Loop.{Ended, returned}
use sfsexp.Parser.Entry.{cparse_sexp}
use sfsexp.Print.Walk.{AreTexts}
use sfsexp.Print.Reread.{view-list}
use sfsexp.Print.Buffer.Call.{result, print_sexp}
use sfsexp.Print.Buffer.Whole.{print_sexp-show}
use sfsexp.RoundTrip.Print.{show, IsPrintable}
use sfsexp.RoundTrip.Nesting.{nesting-branch}
use sfsexp.RoundTrip.Whole.{Parsed, parse-show}

-- What `print_sexp` prints of a list into a buffer that its text and a NUL fit into, `cparse_sexp`
-- reads from the whole buffer as a list that shows the same tree, and it stops behind as many bytes as
-- `print_sexp` returned: for every list of texts whose tree is printable and whose text has fewer than
-- 2^31 bytes, where no request for memory is refused.
pub print_sexp-cparse_sexp :
    (eparse_sexp : Bytes → ℕ → Pcont → World → Ended) (buf : Bytes) (size : ℕ) (l rest : Sexp)
    (w v : World)
    → size ≤ length buf
    → AreTexts l
    → IsReady w
    → IsReady v
    → IsPrintable (branch (view_all l))
    → length (show (branch (view_all l))) < int_limit
    → length (show (branch (view_all l))) < size
    → (n : ℕ) × (buf' : Bytes) × (w' : World) × (print_sexp buf size (node (list l) rest) w
        ≡ result n buf' w')
      × (pc : Pcont) × (v' : World) × (cparse_sexp eparse_sexp (some buf') size none v
          ≡ returned pc v')
      × Parsed (view_all l) n pc v'
print_sexp-cparse_sexp eparse_sexp buf size l rest w v room a q q' p n short =
    let text = show (view (list l)) in
    let same : text ≡ show (branch (view_all l)) = ap show (view-list l) in
    elim (print_sexp-show buf size l rest w (omega (arith, short)) room a
      (omega (arith, n, ap (λ u. length u) same)) q) [
        | inl (_, (buf', w', e, replaced)) ↦
            let (pc, v', e', parsed) =
              parse-show eparse_sexp (view_all l) (0 ∷ replaced.rest) size v q' p
                (omega (arith, n, nesting-branch (view_all l))) (omega (arith, short)) in
            let is : show (branch (view_all l)) ++ 0 ∷ replaced.rest ≡ buf' =
              sym (replaced.is ∙ ap (λ u. u ++ 0 ∷ replaced.rest) same) in
            (
              length text,
              buf',
              w',
              e,
              pc,
              v',
              ap (λ m. cparse_sexp eparse_sexp (some m) size none v) (sym is) ∙ e',
              subst (λ u. Parsed (view_all l) (length u) pc v') (sym same) parsed,
            )
        | inr (long, _) ↦ absurd (omega (arith, long, short, ap (λ u. length u) same))
      ]
