-- ===== src/Events/Alike.antt =====
-- `cparse_sexp` of src/parser.c and `eparse_sexp` of src/event_temp.c side by side: runs of the two
-- loops that have told their handlers the same, where no request for memory is refused.
pub mod Blocks
pub mod Texts
pub mod Atoms
pub mod Quotes
pub mod Lists
pub mod Closing
pub mod Rounds
pub mod Whole
use sfsexp.Prelude.{
  ℕ, suc, get_elem?, ◌+◌, ◌<◌, ◌≡◌, refl, Bool, true, false, Option, some, Bytes, length,
  if◌then◌else◌, arith,
}
use sfsexp.Sexp.{Event, Handlers}
use sfsexp.Cache.{World}
use sfsexp.Cache.Quiet.{IsReady}
use sfsexp.Parser.Base.{
  State, atom, tick, Pcont, Run, Outcome, next, done, aborted, fault, ◌>>=◌, Meets, falls, returns,
  aborts, faults,
}
use sfsexp.Parser.Actions.{call_handler}
use sfsexp.Parser.Vars.{is_binary_mode}
use sfsexp.Parser.Frame.{Partly}
use sfsexp.RoundTrip.Conf.{Conf, InConf, Surely}

-- The variables of the loop of `eparse_sexp` are those of `k`; of the levels only the number counts.
pub record Tells (k : Conf) (r : Run) : Type 0 where
  pub counted : r.cc.stack.height ≡ length k.levels
  pub state : r.cc.state ≡ k.state
  pub at : r.t ≡ k.t
  pub depth : r.cc.depth ≡ k.depth
  pub text : r.cc.val ≡ some k.text
  pub text_used : r.cc.val_used ≡ length k.text
  pub room : length k.text < r.cc.val_allocated
  pub esc : r.cc.esc ≡ k.esc
  pub squoted : r.cc.squoted ≡ k.squoted
  pub mode : is_binary_mode r.cc.mode ≡ false

abbrev pub InTell : Conf → Run → Type 0
InTell k r = Tells k r × IsReady r.w

-- What a handler may notice, and what decides what it is told later.
pub record Heard (r r' : Run) : Type 0 where
  pub qdepth : r'.cc.qdepth ≡ r.cc.qdepth
  pub elts : r'.elts ≡ r.elts
  pub handlers : r'.cc.event_handlers ≡ r.cc.event_handlers
  pub events : r'.w.events ≡ r.w.events

-- Two runs in the same configuration whose handlers were told the same.
abbrev pub AlikeAt : Conf → Run → Run → Type 0
AlikeAt k rc re = InConf k rc × InTell k re × Heard rc re

-- Code of the two parsers that falls through with related results, or returns with the same told.
pub data Both {A B : Type 0} (R : A → B → Type 0) : Outcome A → Outcome B → Type 0 where
  both_next : {a : A} {b : B} → R a b → Both R (next a) (next b)
  both_done :
      {pc pe : Pcont} {wc we : World} → we.events ≡ wc.events → Both R (done pc wc) (done pe we)

module _ {A B : Type 0} {R : A → B → Type 0} where
  pub Both-if :
      (b : Bool) {x y : Outcome A} {x' y' : Outcome B}
      → (b ≡ true → Both R x x')
      → (b ≡ false → Both R y y')
      → Both R (if b then x else y) (if b then x' else y')
  Both-if true h h' = h refl
  Both-if false h h' = h' refl

  pub Both-sure :
      {C D : Type 0} {P : C → Type 0} {Q : D → Type 0} {m : Outcome C} {m' : Outcome D}
      {f : C → Outcome A} {g : D → Outcome B}
      → Surely P m
      → Surely Q m'
      → ((c : C) (d : D) → P c → Q d → Both R (f c) (g d))
      → Both R (m >>= f) (m' >>= g)
  Both-sure (falls {a} p) (falls {a = a'} q) k = k a a' p q
  Both-sure (returns x) s k = absurd x
  Both-sure (aborts x) s k = absurd x
  Both-sure (faults x) s k = absurd x
  Both-sure (falls p) (returns x) k = absurd x
  Both-sure (falls p) (aborts x) k = absurd x
  Both-sure (falls p) (faults x) k = absurd x

  pub Both-mono :
      {S : A → B → Type 0} {m : Outcome A} {m' : Outcome B}
      → Both S m m'
      → ((a : A) (b : B) → S a b → R a b)
      → Both R m m'
  Both-mono (both_next {a} {b} s) k = both_next (k a b s)
  Both-mono (both_done e) k = both_done e

  pub Both-else :
      {b b' : Bool} (x : Outcome A) (x' : Outcome B) {y : Outcome A} {y' : Outcome B}
      → b ≡ false
      → b' ≡ false
      → Both R y y'
      → Both R (if b then x else y) (if b' then x' else y')
  Both-else x x' e e' h = rw e (rw e' h)

  pub Both-then :
      {b b' : Bool} {x : Outcome A} {x' : Outcome B} (y : Outcome A) (y' : Outcome B)
      → b ≡ true
      → b' ≡ true
      → Both R x x'
      → Both R (if b then x else y) (if b' then x' else y')
  Both-then y y' e e' h = rw e (rw e' h)

  -- Code of the parser that makes elements alone.
  pub Both-left :
      {C : Type 0} {P : C → Type 0} {m : Outcome C} {f : C → Outcome A} {o : Outcome B}
      → Surely P m
      → ((c : C) → P c → Both R (f c) o)
      → Both R (m >>= f) o
  Both-left (falls {a} p) k = k a p
  Both-left (returns x) k = absurd x
  Both-left (aborts x) k = absurd x
  Both-left (faults x) k = absurd x

  pub Both-end :
      {m : Outcome A} {P : A → Type 0} (b : B)
      → Surely P m
      → ((a : A) → P a → R a b)
      → Both R m (next b)
  Both-end b (falls {a} p) k = both_next (k a p)
  Both-end b (returns x) k = absurd x
  Both-end b (aborts x) k = absurd x
  Both-end b (faults x) k = absurd x

  pub Both-last :
      {m : Outcome A} {m' : Outcome B} {P : A → Type 0} {Q : B → Type 0}
      → Surely P m
      → Surely Q m'
      → ((a : A) (b : B) → P a → Q b → R a b)
      → Both R m m'
  Both-last (falls {a} p) (falls {a = b} q) k = both_next (k a b p q)
  Both-last (returns x) s k = absurd x
  Both-last (aborts x) s k = absurd x
  Both-last (faults x) s k = absurd x
  Both-last (falls p) (returns x) k = absurd x
  Both-last (falls p) (aborts x) k = absurd x
  Both-last (falls p) (faults x) k = absurd x

  pub Both-bind :
      {C D : Type 0} {S : C → D → Type 0} {m : Outcome C} {m' : Outcome D} {f : C → Outcome A}
      {g : D → Outcome B}
      → Both S m m'
      → ((c : C) (d : D) → S c d → Both R (f c) (g d))
      → Both R (m >>= f) (m' >>= g)
  Both-bind (both_next {a} {b} s) k = k a b s
  Both-bind (both_done e) k = both_done e

pub Surely-and :
    {A : Type 0} {P Q : A → Type 0} {o : Outcome A}
    → Surely P o
    → Partly Q o
    → Surely (λ a. P a × Q a) o
Surely-and (falls p) (falls q) = falls (p, q)
Surely-and (returns x) s = absurd x
Surely-and (aborts x) s = absurd x
Surely-and (faults x) s = absurd x

-- The handlers are told the same of the same.
pub call_handler-events :
    (h : Handlers → Bool) (e : Event) (hs hs' : Option Handlers) (w w' : World)
    → hs' ≡ hs
    → w'.events ≡ w.events
    → (call_handler h e hs' w').events ≡ (call_handler h e hs w).events
unfolding call_handler
call_handler-events h e hs hs' w w' p q = ground (arith, p, q)

-- A single quote stands before offset `t`.
abbrev pub BehindTick : Bytes → ℕ → Type 0
BehindTick mem t = (u : ℕ) × (t ≡ suc u) × (get_elem? mem u ≡ some b'\'')

-- `squoted` is set inside of an unquoted atom at most.
abbrev pub TameAt : Bytes → State → ℕ → Bool → Type 0
TameAt mem atom t squoted = Unit {0}
TameAt mem tick t squoted = (squoted ≡ false) × BehindTick mem t
TameAt mem _ t squoted = squoted ≡ false

-- What holds of the two runs between two rounds.
abbrev pub Paired : Bytes → Run → Run → Type 0
Paired mem a b = (k : Conf) × AlikeAt k a b × TameAt mem k.state k.t k.squoted
