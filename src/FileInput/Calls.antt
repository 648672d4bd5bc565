-- ===== src/FileInput/Calls.antt =====
-- Calls of `read_one_sexp` of src/io.c on what its buffer holds.
use sfsexp.Prelude.{
  ℕ, zero, suc, ◌+◌, ◌≤◌, ◌<◌, ◌≡◌, refl, sym, ap, ◌∙◌, inr, true, false, List, [], ◌∷◌, ◌++◌,
  append_assoc, Option, none, some, Bytes, if◌then◌else◌, length, length-append, arith,
}
use mathlib.Core.Path.{subst}
use sfsexp.Errors.{err_io_empty}
use sfsexp.Sexp.{Sexp, nil}
use sfsexp.Sexp.View.{Forest, branch}
use sfsexp.Cache.{World}
use sfsexp.Cache.Quiet.{IsReady}
use sfsexp.Parser.Base.{Pcont}
use sfsexp.Parser.Loop.{Ended}
use sfsexp.RoundTrip.Print.{show}
use sfsexp.RoundTrip.NulFree.{show-IsNulFree, text-Reads}
use sfsexp.RoundTrip.Whole.{IsIdle, Parsed}
use sfsexp.RoundTrip.Leads.{Reads}
use sfsexp.RoundTrip.Resumed.{cparse_sexp-next}
use sfsexp.Wrappers.Sequence.{show_lists, PrintableLists, Show, taken}
use sfsexp.FileInput.{
  IoWrap, Got, got, crashed, endless, parse_chunk, read_first, resumed_on, resumed, read_one_sexp,
}
use sfsexp.FileInput.Stopping.{buffer-IsIdle}

-- The lists of the chunks.
abbrev pub all_lists : List (List Forest) → List Forest
all_lists [] = []
all_lists (fs ∷ fss) = fs ++ all_lists fss

-- The file gives the texts of the chunks, one at a time, and nothing behind them.
abbrev pub Serves :
    {E : Type 0} → ℕ → (ℕ → ℕ → E → E × Option Bytes) → ℕ → E → List (List Forest) → Type 0
Serves {E} bufsiz read fd e [] = (e' : E) × (read fd bufsiz e ≡ (e', some []))
Serves {E} bufsiz read fd e (fs ∷ fss) =
    (e' : E) × (read fd bufsiz e ≡ (e', some (show_lists fs))) × Serves bufsiz read fd e' fss

-- Each chunk holds a list or more, and leaves a byte of the buffer free.
abbrev pub AreChunks : ℕ → List (List Forest) → Type 0
AreChunks bufsiz [] = Unit {0}
AreChunks bufsiz (fs ∷ fss) =
    (0 < length fs) × (length (show_lists fs) < bufsiz) × PrintableLists fs × AreChunks bufsiz fss

-- What the calls return: the lists, NULL behind them, and the error code for the end of the file.
abbrev pub Returns : Option (List Sexp × World) → List Forest → Type 0
Returns o fs =
    (xs : List Sexp) × (w : World) × (o ≡ some (xs, w))
    × Show xs fs
    × (w.heap.sexp_errno ≡ err_io_empty)

-- So many calls, and what they return, with the error code behind them; `none` where one does not
-- return.
module _ {E : Type 0} (bufsiz : ℕ) (read : ℕ → ℕ → E → E × Option Bytes)
    (eparse_sexp : Bytes → ℕ → Pcont → World → Ended) (fuel : ℕ) where
  abbrev pub after_call :
      (Option IoWrap → E → World → Option (List Sexp × World)) → Got E → Option (List Sexp × World)
  after_call k (got sx iow e w) = elim (k iow e w) [
    | none ↦ none
    | some (xs, w') ↦ some (sx ∷ xs, w')
  ]
  after_call k crashed = none
  after_call k endless = none

  unfoldable pub reads : ℕ → Option IoWrap → E → World → Option (List Sexp × World)
  reads zero iow e w = some ([], w)
  reads (suc n) iow e w = after_call (reads n) (read_one_sexp bufsiz read eparse_sexp fuel iow e w)

  pub reads-got :
      (n : ℕ) (iow iow' : Option IoWrap) (e e' : E) (w w' : World) (sx : Sexp)
      → read_one_sexp bufsiz read eparse_sexp fuel iow e w ≡ got sx iow' e' w'
      → reads (suc n) iow e w ≡ after_call (reads n) (got sx iow' e' w')
  unfolding reads read_one_sexp
  reads-got n iow iow' e e' w w' sx r = ap (after_call (reads n)) r

  -- The text of the lists lies ahead in the buffer, from offset `length before` on.
  pub record InBuffer (before rest mem : Bytes) (len : ℕ) (fs : List Forest) : Type 0 where
    pub parts : before ++ (show_lists fs ++ rest) ≡ mem
    pub end : length before + length (show_lists fs) ≡ len
    pub room : 0 < length rest
    pub size : length mem ≡ bufsiz
    pub printable : PrintableLists fs

  -- The rest of a buffer is still to be parsed.
  abbrev pub Ahead : List (List Forest) → List Forest → Type 0
  Ahead fss fs =
      (before rest mem : Bytes) (len fd : ℕ) (pc : Pcont) (e : E) (w : World)
      → IsReady w
      → IsIdle pc
      → pc.binread ≤ pc.binexpected
      → pc.last_pos ≡ some (length before)
      → InBuffer before rest mem len fs
      → AreChunks bufsiz fss
      → Serves bufsiz read fd e fss
      → Returns
          (reads (suc (length (fs ++ all_lists fss)))
            (some (record { cc = some pc; fd = fd; buf = mem; cnt = len })) e w)
          (fs ++ all_lists fss)

  pub first_ahead :
      (f : Forest) (fs : List Forest) (before rest mem : Bytes) (len : ℕ)
      → InBuffer before rest mem len (f ∷ fs)
      → Reads mem len (length before) (show (branch f))
        × InBuffer (before ++ show (branch f)) rest mem len fs
  first_ahead f fs before rest mem len b =
      let s = show (branch f) in
      let text : before ++ (s ++ (show_lists fs ++ rest)) ≡ mem =
        ap (λ u. before ++ u) (sym (append_assoc s (show_lists fs) rest)) ∙ b.parts in
      (
        subst (λ u. Reads u len (length before) s) text
            (text-Reads before s (show_lists fs ++ rest) len
              (show-IsNulFree (branch f) b.printable.0)
              (omega (arith, b.end, length-append s (show_lists fs)))),
        record {
          parts = append_assoc before s (show_lists fs ++ rest) ∙ text;
          end = omega (arith, b.end, length-append s (show_lists fs), length-append before s);
          room = b.room;
          size = b.size;
          printable = b.printable.2;
        },
      )

  -- A call that returned the first list of those that lie ahead, and what the further calls return.
  pub after-Ahead :
      (fss : List (List Forest)) (f : Forest) (fs : List Forest) (before rest mem : Bytes)
      (len fd : ℕ) (pc' : Pcont) (iow : Option IoWrap) (e e' : E) (w w' : World)
      → Ahead fss fs
      → InBuffer (before ++ show (branch f)) rest mem len fs
      → Parsed f (length before + length (show (branch f))) pc' w'
      → pc'.binread ≤ pc'.binexpected
      → AreChunks bufsiz fss
      → Serves bufsiz read fd e' fss
      → read_one_sexp bufsiz read eparse_sexp fuel iow e w
        ≡ got pc'.last_sexp
            (some (record {
              cc = some (record pc' { last_sexp = nil });
              fd = fd;
              buf = mem;
              cnt = len;
            }))
            e'
            w'
      → Returns (reads (suc (suc (length (fs ++ all_lists fss)))) iow e w) (f ∷ fs ++ all_lists fss)
  after-Ahead fss f fs before rest mem len fd pc' iow e e' w w' ih b (d, last, v, ok, at, q, i) r cs
        sv g =
      let s = show (branch f) in
      let (xs, w'', es, h, ended) =
        ih (before ++ s) rest mem len fd (record pc' { last_sexp = nil }) e' w' q (taken pc' i) r
          (at ∙ ap some (sym (length-append before s))) b cs sv in
      (
        pc'.last_sexp ∷ xs,
        w'',
        reads-got (suc (length (fs ++ all_lists fss))) iow _ e e' w w' pc'.last_sexp g
            ∙ ap (λ o. after_call (λ _ _ _. o) (got pc'.last_sexp none e' w')) es,
        (d, xs, ap (λ x. x ∷ xs) last, v, h),
        ended,
      )

  pub step-Ahead :
      (fss : List (List Forest)) (f : Forest) (fs : List Forest) → Ahead fss fs → Ahead fss (f ∷ fs)
  unfolding read_one_sexp parse_chunk
  step-Ahead fss f fs ih before rest mem len fd pc e w q i b l n cs sv =
      let (ahead, n') = first_ahead f fs before rest mem len n in
      let pc₀ : Pcont = record pc { sbuffer = some mem } in
      let iow : IoWrap = record { cc = some pc; fd = fd; buf = mem; cnt = len } in
      let i₀ : IsIdle pc₀ = buffer-IsIdle mem pc i in
      let (pc', w', ran, parsed, kept) =
        cparse_sexp-next eparse_sexp f mem len (length before) pc₀ w q i₀ b (inr (l, refl))
          n.printable.0 n.printable.1 ahead in
      after-Ahead fss f fs before rest mem len fd pc' (some iow) e e w w' ih n' parsed kept.read cs
        sv
        (ap
            (λ o.
              if elim o [ none ↦ false | some t ↦ true ]
              then resumed bufsiz read eparse_sexp fuel iow e
                  (parse_chunk bufsiz read eparse_sexp iow w)
              else read_first bufsiz read eparse_sexp fuel iow e w)
            l
          ∙ ap (resumed bufsiz read eparse_sexp fuel iow e) ran
          ∙ ap (λ x. resumed_on bufsiz read eparse_sexp fuel x pc' iow e w') parsed.1)
