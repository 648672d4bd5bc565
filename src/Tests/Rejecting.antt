-- ===== src/Tests/Rejecting.antt =====
-- The theorems on the parser of src/parser.c for input that is not well-formed, at concrete inputs.
use sfsexp.Prelude.{◌≡◌, refl, some, none, ◌++◌, [], ◌∷◌, Bytes, arith}
use sfsexp.Cache.{World}
use sfsexp.Parser.Base.{Pcont}
use sfsexp.Parser.Loop.{returned, resume}
use sfsexp.Parser.Entry.{cparse_sexp}
use sfsexp.Rejects.{Unmatched, resume-Unmatched, cparse_sexp-Unmatched}
use sfsexp.Safety.Parse.{cparse_sexp-returns}
use sfsexp.Tests.Values.{codes, calm, calm-IsReady, fresh_pcont, no_events}

cparse_sexp-Unmatched_example :
    (pc : Pcont) × (w : World) × (cparse_sexp no_events
        (some (codes "  " ++ b')' ∷ [] ++ codes "x"))
        4
        none
        calm
      ≡ returned pc w)
    × Unmatched (codes "  " ++ b')' ∷ [] ++ codes "x") 4 2 pc w
cparse_sexp-Unmatched_example =
    cparse_sexp-Unmatched no_events (codes "  ") (codes "x") 4 calm calm-IsReady (refl, (refl, tt))
      (omega arith)

abbrev stuck : Pcont
stuck = record fresh_pcont { sbuffer = some (codes "a)"); last_pos = some 1 }

resume-Unmatched_example :
    (pc : Pcont) × (w : World) × (resume (codes "a)") 2 stuck calm ≡ returned pc w)
    × Unmatched (codes "a)") 2 1 pc w
resume-Unmatched_example = resume-Unmatched (codes "a)") (codes "a)") 2 1 stuck calm (record {
  buffer = refl;
  position = refl;
  state = refl;
  depth = refl;
  bounded = omega arith;
  ahead = record { byte = refl; nonzero = refl; inside = omega arith };
})

abbrev unclosed : Bytes
unclosed = codes "'(a\")"

cparse_sexp-returns_example :
    (pc : Pcont) × (w : World) × (cparse_sexp no_events
        (some (unclosed ++ 0 ∷ codes "junk"))
        9
        none
        calm
      ≡ returned pc w)
cparse_sexp-returns_example =
    cparse_sexp-returns no_events unclosed (codes "junk") 9 calm calm-IsReady (omega arith)
      (
        record { nonzero = refl; plain = refl },
        (
          record { nonzero = refl; plain = refl },
          (
            record { nonzero = refl; plain = refl },
            (
              record { nonzero = refl; plain = refl },
              (record { nonzero = refl; plain = refl }, tt),
            ),
          ),
        ),
      )
      (omega arith)
