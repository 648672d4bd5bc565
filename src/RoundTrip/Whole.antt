-- ===== src/RoundTrip/Whole.antt =====
-- The whole of a printed list through `cparse_sexp` of src/parser.c.
use sfsexp.Prelude.{
  ℕ, Bytes, ◌+◌, ◌<◌, ◌≤◌, ◌≡◌, refl, ap, ◌∙◌, false, [], ◌∷◌, ◌++◌, none, some, length,
  length-append, arith,
}
use mathlib.Core.Path.{subst}
use sfsexp.Errors.{err_ok}
use sfsexp.Sexp.{list, Elt, nil, node}
use sfsexp.Sexp.View.{Forest, branch, view}
use sfsexp.FastStack.{int_max}
use sfsexp.Cache.{World}
use sfsexp.Cache.Quiet.{IsReady}
use sfsexp.Parser.Base.{start, parser_normal, Pcont, Run}
use sfsexp.Parser.Loop.{Ended, returned, rounds}
use sfsexp.Parser.Entry.{cparse_sexp}
use sfsexp.RoundTrip.Conf.{Conf, InConf}
use sfsexp.RoundTrip.Leads.{Leads, Reads, Reads-append, Reads-first, loop-Leads}
use sfsexp.RoundTrip.Print.{show, show_all, IsPrintable, ArePrintable, nesting, nesting_all}
use sfsexp.RoundTrip.Elements.{behind, Between}
use sfsexp.RoundTrip.Lists.{inside, opening, open_list, place-root}
use sfsexp.RoundTrip.Closing.{close_outer}
use sfsexp.RoundTrip.NulFree.{show-IsNulFree, text-Reads}
use sfsexp.RoundTrip.Start.{at_start, cparse_sexp-starts}
use sfsexp.RoundTrip.Trees.{join, view-list, view_all-nil, read_forest}

-- A continuation between two expressions, with nothing on its stack and nothing in its buffer.
pub record IsIdle (pc : Pcont) : Type 0 where
  pub levels : pc.stack.used ≡ []
  pub counted : pc.stack.height ≡ 0
  pub state : pc.state ≡ start
  pub depth : pc.depth ≡ 0
  pub text : pc.val ≡ some []
  pub text_used : pc.val_used ≡ 0
  pub room : 0 < pc.val_allocated
  pub esc : pc.esc ≡ false
  pub squoted : pc.squoted ≡ false
  pub mode : pc.mode ≡ parser_normal

-- What a call returns that has parsed `f` up to offset `t`: the one list, no error, the position, and
-- a continuation that is ready for the next expression.
abbrev pub Parsed : Forest → ℕ → Pcont → World → Type 0
Parsed f t pc w =
    (e : Elt) × (pc.last_sexp ≡ node e nil)
    × (view e ≡ branch f)
    × (pc.error ≡ err_ok)
    × (pc.last_pos ≡ some t)
    × IsReady w
    × IsIdle pc

module _ (mem : Bytes) (len : ℕ) where
  -- From the opening parenthesis of a list on an empty stack.
  pub read_list :
      (f : Forest) (k : Conf) (r : Run)
      → InConf k r
      → Between k
      → k.levels ≡ []
      → k.depth ≡ 0
      → nesting_all f + 1 < int_max
      → ArePrintable f
      → Reads mem len k.t (b'(' ∷ show_all f ++ b')' ∷ [])
      → Leads mem len (Parsed f (k.t + 1 + length (show_all f) + 1)) r
  read_list f k r i n l e fits p a =
      let Q = Parsed f (k.t + 1 + length (show_all f) + 1) in
      let (c, first) = Reads-first mem len (k.t + 1) b')' (show_all f) [] a.1 in
      let end = Reads-append mem len (k.t + 1) (show_all f) (b')' ∷ []) a.1 in
      let levels = some (node (list nil) nil) ∷ [] in
      open_list mem len Q c levels k r i n (omega (arith, e)) (omega arith)
        (λ r' i'. place-root (opening k) r' l i') a.0 first
        λ r₁ i₁.
          read_forest mem len Q f nil levels (inside (k.t + 1) (k.depth + 1) levels) r₁
            (
              i₁,
              record { state = refl; text = refl; esc = refl; squoted = refl },
              refl,
              omega arith,
              omega (arith, e),
            )
            (omega (arith, e, fits)) p a.1
            λ xs r₂ v i₂.
              close_outer mem len Q xs
                (behind false (k.t + 1 + length (show_all f)) (some xs ∷ levels) (k.depth + 1)) r₂
                i₂ refl refl (omega (arith, e)) end.1.0
                λ r₃ i₃ s. (
                  list xs,
                  s,
                  view-list xs f (v ∙ ap (λ g. join g f) view_all-nil),
                  refl,
                  ap some i₃.0.at,
                  record {
                    quiet = record { unlimited = i₃.1.quiet.unlimited; grants = i₃.1.quiet.grants };
                    start_pos = i₃.1.start_pos;
                    grow_pos = i₃.1.grow_pos;
                  },
                  record {
                    levels = i₃.0.levels;
                    counted = i₃.0.counted;
                    state = i₃.0.state;
                    depth = i₃.0.depth;
                    text = i₃.0.text;
                    text_used = i₃.0.text_used;
                    room = i₃.0.room;
                    esc = i₃.0.esc;
                    squoted = i₃.0.squoted;
                    mode = i₃.0.mode;
                  },
                )

-- Printing a list and parsing the text gives the list back.
pub parse-show :
    (eparse_sexp : Bytes → ℕ → Pcont → World → Ended) (f : Forest) (rest : Bytes) (len : ℕ)
    (w : World)
    → IsReady w
    → IsPrintable (branch f)
    → nesting (branch f) < int_max
    → length (show (branch f)) ≤ len
    → (pc : Pcont) × (w' : World) × (cparse_sexp eparse_sexp
          (some (show (branch f) ++ rest))
          len
          none
          w
        ≡ returned pc w')
      × Parsed f (length (show (branch f))) pc w'
unfolding show IsPrintable nesting
parse-show eparse_sexp f rest len w q p fits l =
    let mem = show (branch f) ++ rest in
    let (r, e, i, b, _) = cparse_sexp-starts eparse_sexp mem len w q in
    let ahead =
      text-Reads [] (show (branch f)) rest len (show-IsNulFree (branch f) p) (omega (arith, l)) in
    let run =
      loop-Leads {mem = mem} {len = len} (rounds mem) b (ground (arith, i.0.at, i.0.state)) (
        read_list mem len f at_start r i
          (record { state = refl; text = refl; esc = refl; squoted = refl }) refl refl
          (omega (arith, fits)) p ahead) in
    (
      run.0,
      run.1,
      e ∙ run.2,
      subst (λ t. Parsed f t run.0 run.1) (omega (arith, length-append (show_all f) (b')' ∷ [])))
          run.3,
    )
