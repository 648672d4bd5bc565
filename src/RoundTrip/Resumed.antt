-- ===== src/RoundTrip/Resumed.antt =====
-- A printed list through `cparse_sexp` of src/parser.c from a continuation between two expressions:
-- a new one, or one that an earlier call on the same buffer returned.
use sfsexp.Prelude.{
  ℕ, Bytes, ◌+◌, ◌<◌, ◌≤◌, ◌≡◌, refl, ap, ◌∙◌, ◌⊎◌, inl, inr, false, [], ◌∷◌, Option, none, some,
  length, length-append, arith,
}
use mathlib.Core.Path.{subst}
use sfsexp.Sexp.{nil}
use sfsexp.Sexp.View.{Forest, branch}
use sfsexp.FastStack.{int_max}
use sfsexp.Cache.{World}
use sfsexp.Cache.Quiet.{IsReady}
use sfsexp.Parser.Base.{start, parser_normal, Pcont, Run}
use sfsexp.Parser.Loop.{Ended, returned, rounds, loop, resume_at, resume}
use sfsexp.Parser.Entry.{cparse_sexp, call_parser, continuation, is_events_only}
use sfsexp.Parser.Kept.Blocks.{Kept}
use sfsexp.Parser.Kept.Call.{EndsKept, loop-Kept}
use sfsexp.RoundTrip.Conf.{Conf, InConf}
use sfsexp.RoundTrip.Leads.{Reads, loop-Leads}
use sfsexp.RoundTrip.Print.{show, show_all, IsPrintable, nesting}
use sfsexp.RoundTrip.Whole.{IsIdle, Parsed, read_list}

-- The continuation's next byte is the one at offset `t` of the buffer.
abbrev pub Located : Bytes → ℕ → Pcont → Type 0
Located mem t pc =
    ((pc.last_pos ≡ none) × (t ≡ 0)) ⊎ ((pc.last_pos ≡ some t) × (pc.sbuffer ≡ some mem))

-- The loop's variables as a continuation gives them.
abbrev pub restored : Bytes → ℕ → Pcont → World → Run
restored mem t pc w = record {
  cc = record pc { sbuffer = some mem };
  t = t;
  elts = 0;
  sx = nil;
  w = w;
}

resume_at-Located :
    (pos : Option ℕ) (earlier : Option Bytes) (mem : Bytes) (len t : ℕ) (pc : Pcont) (w : World)
    → pc.sbuffer ≡ earlier
    → ((pos ≡ none) × (t ≡ 0)) ⊎ ((pos ≡ some t) × (earlier ≡ some mem))
    → resume_at pos earlier mem len pc w ≡ loop (rounds mem) mem len (restored mem t pc w)
unfolding resume_at
resume_at-Located pos earlier mem len t pc w e (inl (p, z)) = rw p (rw z refl)
resume_at-Located pos earlier mem len t pc w e (inr (p, b)) = rw p (
    rw b (
      ap
        (λ s.
          loop (rounds mem) mem len
            (record { cc = record pc { sbuffer = s }; t = t; elts = 0; sx = nil; w = w }))
        (e ∙ b)))

pub cparse_sexp-Located :
    (eparse_sexp : Bytes → ℕ → Pcont → World → Ended) (mem : Bytes) (len t : ℕ) (pc : Pcont)
    (w : World)
    → pc.mode ≡ parser_normal
    → Located mem t pc
    → cparse_sexp eparse_sexp (some mem) len (some pc) w
      ≡ loop (rounds mem) mem len (restored mem t pc w)
unfolding cparse_sexp continuation call_parser resume
cparse_sexp-Located eparse_sexp mem len t pc w m l =
    rw (ap is_events_only m) (resume_at-Located pc.last_pos pc.sbuffer mem len t pc w refl l)

-- The call on a printed list that lies ahead returns the list. The continuation lies behind it then,
-- in the same buffer.
pub cparse_sexp-next :
    (eparse_sexp : Bytes → ℕ → Pcont → World → Ended) (f : Forest) (mem : Bytes) (len t : ℕ)
    (pc : Pcont) (w : World)
    → IsReady w
    → IsIdle pc
    → pc.binread ≤ pc.binexpected
    → Located mem t pc
    → IsPrintable (branch f)
    → nesting (branch f) < int_max
    → Reads mem len t (show (branch f))
    → (pc' : Pcont) × (w' : World) × (cparse_sexp eparse_sexp (some mem) len (some pc) w
        ≡ returned pc' w')
      × Parsed f (t + length (show (branch f))) pc' w'
      × Kept (some mem) parser_normal pc'
unfolding show IsPrintable nesting
cparse_sexp-next eparse_sexp f mem len t pc w q i b l p fits a =
    let k : Conf = record {
      levels = [];
      state = start;
      t = t;
      depth = 0;
      text = [];
      esc = false;
      squoted = false;
    } in
    let r = restored mem t pc w in
    let c : InConf k r = (
      record {
        levels = i.levels;
        counted = i.counted;
        shallow = omega arith;
        state = i.state;
        at = refl;
        depth = i.depth;
        text = i.text;
        text_used = i.text_used;
        room = i.room;
        esc = i.esc;
        squoted = i.squoted;
        mode = i.mode;
      },
      q,
    ) in
    let (pc', w', e, h) =
      loop-Leads {mem = mem} {len = len} (rounds mem) {r = r} b (ground (arith, i.state)) (
        read_list mem len f k r c (record { state = refl; text = refl; esc = refl; squoted = refl })
          refl refl (omega (arith, fits)) p a) in
    let kept =
      loop-Kept mem len (rounds mem) r (record { buffer = refl; mode = i.mode; read = b }) in
    (
      pc',
      w',
      cparse_sexp-Located eparse_sexp mem len t pc w i.mode l ∙ e,
      subst (λ u. Parsed f u pc' w') (omega (arith, length-append (show_all f) (b')' ∷ []))) h,
      subst (EndsKept (some mem) parser_normal) e kept,
    )
