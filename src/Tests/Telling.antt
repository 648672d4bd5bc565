-- ===== src/Tests/Telling.antt =====
-- Runs of `eparse_sexp` of src/event_temp.c, and the theorems on it at concrete inputs.
use Prim.Native.String.{String}
use sfsexp.Prelude.{
  ℕ, false, ◌==◌, Option, List, length, ◌≡◌, ◌≢◌, refl, none, some, true, [], ◌∷◌, ◌++◌, arith,
}
use sfsexp.Cache.{World}
use sfsexp.RoundTrip.Whole.{IsIdle}
use sfsexp.Events.Alike.Whole.{cparse_sexp-tells}
use sfsexp.Safety.{IsClean}
use sfsexp.Sexp.{Handlers, Event, start_sexpr, end_sexpr, characters, squote}
use sfsexp.Parser.Base.{Pcont, parser_events_only}
use sfsexp.Parser.Actions.{is_escape}
use sfsexp.Parser.Loop.{Ended, returned, out_of_fuel}
use sfsexp.Parser.Entry.{cparse_sexp}
use sfsexp.Events.Loop.{eparse_sexp}
use sfsexp.Events.Total.{events_parser, cparse_sexp-ends}
use sfsexp.Tests.Values.{codes, calm, calm-IsReady, fresh_pcont}

abbrev all_handlers : Handlers
all_handlers = record { start_sexpr = true; end_sexpr = true; characters = true; binary = true }

abbrev telling : Pcont
telling = record fresh_pcont { mode = parser_events_only; event_handlers = some all_handlers }

cparse_sexp-ends_example :
    cparse_sexp events_parser (some (codes "(a b)" ++ 0 ∷ [])) 5 (some telling) calm ≢ out_of_fuel
cparse_sexp-ends_example =
    cparse_sexp-ends (some (codes "(a b)" ++ 0 ∷ [])) 5 (some telling) calm (omega arith, refl)

-- The events, last first.
abbrev told : Ended → Option (List Event)
told (returned pc w) = some w.events
told _ = none

abbrev tell_text_run : String → Option (List Event)
tell_text_run s = told (eparse_sexp (some (codes s ++ 0 ∷ [])) (length (codes s)) telling calm)

-- After a text like '"x" in a list, `squoted` stays set, and the next atom is told as quoted.
stays_quoted_run :
    tell_text_run "('\"x\" b)"
    ≡ some (
        end_sexpr
        ∷ characters (codes "b") 2 squote
        ∷ characters (codes "\"x\"") 4 squote
        ∷ start_sexpr
        ∷ [])
unfolding eparse_sexp sfsexp.Events.Loop.tell_round sfsexp.Events.Loop.on_char
    sfsexp.Events.on_start sfsexp.Events.on_open sfsexp.Events.on_close sfsexp.Events.on_atom
    sfsexp.Events.on_tick sfsexp.Events.on_dquoted sfsexp.Events.on_dquoted_char
    sfsexp.Events.tell_dquoted sfsexp.Events.store_char sfsexp.Events.tell_text
    sfsexp.Events.tell_end sfsexp.Events.leave sfsexp.Parser.Actions.terminate
    sfsexp.Parser.Actions.call_handler sfsexp.Parser.Atoms.after_atom
stays_quoted_run = refl

-- A continuation in the normal mode, with every handler.
abbrev listening : Pcont
listening = record fresh_pcont { event_handlers = some all_handlers }

abbrev clean : {c : ℕ} → (c == 0) ≡ false → is_escape c ≡ false → IsClean c
clean p q = record { nonzero = p; plain = q }

listening-IsIdle : IsIdle listening
listening-IsIdle = record {
  levels = refl;
  counted = refl;
  state = refl;
  depth = refl;
  text = refl;
  text_used = refl;
  room = omega arith;
  esc = refl;
  squoted = refl;
  mode = refl;
}

cparse_sexp-tells_example :
    (pc₁ : Pcont) × (w₁ : World) × (pc₂ : Pcont) × (w₂ : World) × (cparse_sexp events_parser
        (some (codes "('b)" ++ 0 ∷ []))
        4
        (some listening)
        calm
      ≡ returned pc₁ w₁)
    × (cparse_sexp events_parser (some (codes "('b)" ++ 0 ∷ [])) 4 (some telling) calm
        ≡ returned pc₂ w₂)
    × (w₂.events ≡ w₁.events)
cparse_sexp-tells_example =
    cparse_sexp-tells (codes "('b)") [] 4 listening calm calm-IsReady listening-IsIdle refl
      (clean refl refl, (clean refl refl, (clean refl refl, (clean refl refl, tt))))
      (refl, (refl, (refl, tt))) (omega arith)
