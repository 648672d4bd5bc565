-- ===== src/FileInput/Chunks.antt =====
-- Calls of `read_one_sexp` of src/io.c that read.
use sfsexp.Prelude.{
  ℕ, zero, suc, ◌+◌, ◌≤◌, ◌≡◌, refl, ap, ◌∙◌, inl, false, List, [], ◌∷◌, ◌++◌, Option, none, some,
  Bytes, ◌==◌, if◌then◌else◌, length, length-append, arith,
}
use sfsexp.Errors.{err_io_empty}
use sfsexp.Sexp.{Elt, Sexp, nil, node}
use sfsexp.Sexp.View.{Forest}
use sfsexp.Cache.{World, world_errno}
use sfsexp.Cache.Quiet.{IsReady}
use sfsexp.Parser.Base.{Pcont}
use sfsexp.Parser.Loop.{Ended, returned}
use sfsexp.Parser.Entry.{cparse_sexp}
use sfsexp.RoundTrip.Whole.{IsIdle}
use sfsexp.RoundTrip.Resumed.{cparse_sexp-next}
use sfsexp.Wrappers.Sequence.{show_lists}
use sfsexp.FileInput.{
  IoWrap, Got, got, endless, behind, take_last, read_chunk, parse_chunk, await_on, await_sexp,
  stored, after_parse, parse_first, read_first, read_again, read_one_sexp,
}
use sfsexp.FileInput.Stopping.{length-behind, shown}
use sfsexp.FileInput.Calls.{
  all_lists, AreChunks, Serves, Returns, reads, InBuffer, Ahead, first_ahead, after-Ahead,
}

module _ {E : Type 0} (bufsiz : ℕ) (read : ℕ → ℕ → E → E × Option Bytes)
    (eparse_sexp : Bytes → ℕ → Pcont → World → Ended) (fuel : ℕ) where
  -- The parse of a chunk starts between two expressions.
  pub record Starts (iow : IoWrap) (w : World) : Type 0 where
    pub pc : Pcont
    pub ready_w : World
    pub same :
        parse_chunk bufsiz read eparse_sexp iow w
        ≡ cparse_sexp eparse_sexp (some iow.buf) iow.cnt (some pc) ready_w
    pub ready : IsReady ready_w
    pub idle : IsIdle pc
    pub binread : pc.binread ≤ pc.binexpected
    pub unplaced : pc.last_pos ≡ none

  await_on-node :
      (again : Got E) (d : Elt) (x : Sexp) (pc : Pcont) (iow : IoWrap) (e : E) (w : World)
      → x ≡ node d nil
      → await_on bufsiz read eparse_sexp again x pc iow e w ≡ take_last pc iow e w
  await_on-node again d x pc iow e w h =
      ap (λ x. await_on bufsiz read eparse_sexp again x pc iow e w) h

  await_sexp-node :
      (f : ℕ) (d : Elt) (pc : Pcont) (iow : IoWrap) (e : E) (w : World)
      → pc.last_sexp ≡ node d nil
      → await_sexp bufsiz read eparse_sexp f pc iow e w ≡ take_last pc iow e w
  unfolding await_sexp
  await_sexp-node zero d pc iow e w h = await_on-node endless d pc.last_sexp pc iow e w h
  await_sexp-node (suc f) d pc iow e w h = await_on-node _ d pc.last_sexp pc iow e w h

  -- A chunk is read, and the parser returns an expression from it.
  read_first-got :
      (text : Bytes) (iow : IoWrap) (e e' : E) (w w' : World) (d : Elt) (pc' : Pcont)
      → iow.cnt ≡ 0
      → read iow.fd bufsiz e ≡ (e', some text)
      → (length text == 0) ≡ false
      → parse_chunk bufsiz read eparse_sexp
          (record iow { buf = text ++ behind (length text) iow.buf; cnt = length text })
          w
        ≡ returned pc' w'
      → pc'.last_sexp ≡ node d nil
      → read_first bufsiz read eparse_sexp fuel iow e w
        ≡ got pc'.last_sexp
            (some (record {
              cc = some (record pc' { last_sexp = nil });
              fd = iow.fd;
              buf = text ++ behind (length text) iow.buf;
              cnt = length text;
            }))
            e'
            w'
  unfolding read_first parse_first read_chunk
  read_first-got text iow e e' w w' d pc' z served pos ran last =
      let iow' : IoWrap = record iow {
        buf = text ++ behind (length text) iow.buf;
        cnt = length text;
      } in
      let first = parse_first bufsiz read eparse_sexp fuel in
      ap
        (λ n.
          if n == 0
          then read_again bufsiz read eparse_sexp first w (read_chunk bufsiz read eparse_sexp iow e)
          else first iow e w)
        z
      ∙ ap (λ x. read_again bufsiz read eparse_sexp first w (stored bufsiz read eparse_sexp iow x))
          served
      ∙ ap (λ b. if b then got nil (some iow') e' (world_errno err_io_empty w) else first iow' e' w)
          pos
      ∙ ap
          (after_parse bufsiz read eparse_sexp
            (λ pc v. await_sexp bufsiz read eparse_sexp fuel pc iow' e' v))
          ran
      ∙ await_sexp-node fuel d pc' iow' e' w' last

  -- A new chunk is read, and its first list returned.
  pub chunk-Returns :
      (fss : List (List Forest)) (f : Forest) (fs : List Forest) (iow : Option IoWrap)
      (iow₁ : IoWrap) (e : E) (w w₁ : World)
      → Ahead bufsiz read eparse_sexp fuel fss fs
      → read_one_sexp bufsiz read eparse_sexp fuel iow e w
        ≡ read_first bufsiz read eparse_sexp fuel iow₁ e w₁
      → iow₁.cnt ≡ 0
      → length iow₁.buf ≡ bufsiz
      → ((mem : Bytes) (len : ℕ) → Starts (record iow₁ { buf = mem; cnt = len }) w₁)
      → AreChunks bufsiz ((f ∷ fs) ∷ fss)
      → Serves bufsiz read iow₁.fd e ((f ∷ fs) ∷ fss)
      → Returns
          (reads bufsiz read eparse_sexp fuel (suc (suc (length (fs ++ all_lists fss)))) iow e w)
          (f ∷ fs ++ all_lists fss)
  chunk-Returns fss f fs iow iow₁ e w w₁ ih g z sz st (some_list, short, p, cs) (e', served, sv) =
      let text = show_lists (f ∷ fs) in
      let rest = behind (length text) iow₁.buf in
      let mem = text ++ rest in
      let len = length text in
      let s = st mem len in
      let within : length rest + len ≡ length iow₁.buf =
        length-behind len iow₁.buf (omega (arith, short, sz)) in
      let n : InBuffer bufsiz read eparse_sexp fuel [] rest mem len (f ∷ fs) = record {
        parts = refl;
        end = omega arith;
        room = omega (arith, within, short, sz);
        size = omega (arith, length-append text rest, within, sz);
        printable = p;
      } in
      let (ahead, n') = first_ahead bufsiz read eparse_sexp fuel f fs [] rest mem len n in
      let (pc', w', ran, parsed, kept) =
        cparse_sexp-next eparse_sexp f mem len 0 s.pc s.ready_w s.ready s.idle s.binread
          (inl (s.unplaced, refl)) p.0 p.1 ahead in
      after-Ahead bufsiz read eparse_sexp fuel fss f fs [] rest mem len iow₁.fd pc' iow e e' w w' ih
        n' parsed kept.read cs sv
        (g
          ∙ read_first-got text iow₁ e e' w₁ w' parsed.0 pc' z served (shown f (show_lists fs))
              (s.same ∙ ran) parsed.1)
