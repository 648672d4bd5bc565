-- ===== src/FileInput/Sequence.antt =====
-- `read_one_sexp` of src/io.c, called over and over on a file.
use sfsexp.Prelude.{
  ℕ, zero, suc, ◌≤◌, ◌≡◌, refl, sym, ap, ◌∙◌, inr, true, false, List, [], ◌∷◌, Option, none, some,
  Bytes, ◌==◌, if◌then◌else◌, length, get_elem?, arith,
}
use mathlib.Core.Path.{subst}
use sfsexp.Errors.{err_io_empty}
use sfsexp.FastStack.{empty}
use sfsexp.Sexp.{nil}
use sfsexp.Sexp.View.{Forest}
use sfsexp.Memory.{sexp_calloc}
use sfsexp.Memory.Quiet.{sexp_calloc_quiet}
use sfsexp.Cache.{World, world_errno, on_heap}
use sfsexp.Cache.Quiet.{IsReady, on_heap_quiet}
use sfsexp.Parser.Base.{Pcont}
use sfsexp.Parser.Loop.{Ended}
use sfsexp.Parser.Entry.{cparse_sexp, continuation, call_parser, new_pcont}
use sfsexp.RoundTrip.Start.{init_continuation_quiet}
use sfsexp.RoundTrip.Whole.{IsIdle}
use sfsexp.FileInput.{
  IoWrap, got, zeros, init_iowrap, read_chunk, parse_chunk, stored, parse_first, read_first,
  read_again, resumed, read_one_sexp,
}
use sfsexp.FileInput.Stopping.{
  stopped, stopped_world, cparse_sexp-stop, stop-IsIdle, buffer-IsIdle, byte_there,
}
use sfsexp.FileInput.Calls.{
  all_lists, AreChunks, Serves, Returns, after_call, reads, InBuffer, Ahead, step-Ahead,
}
use sfsexp.FileInput.Chunks.{Starts, chunk-Returns}

module _ {E : Type 0} (bufsiz : ℕ) (read : ℕ → ℕ → E → E × Option Bytes)
    (eparse_sexp : Bytes → ℕ → Pcont → World → Ended) (fuel : ℕ) where
  -- Behind the last list of a chunk another is asked for.
  emptied : Bytes → ℕ → Pcont → IoWrap
  emptied mem fd pc = record { cc = some (stopped mem pc); fd = fd; buf = mem; cnt = 0 }

  read_one_sexp-emptied :
      (before rest mem : Bytes) (len fd : ℕ) (pc : Pcont) (e : E) (w : World)
      → IsIdle pc
      → pc.last_pos ≡ some (length before)
      → InBuffer bufsiz read eparse_sexp fuel before rest mem len []
      → read_one_sexp bufsiz read eparse_sexp fuel
          (some (record { cc = some pc; fd = fd; buf = mem; cnt = len }))
          e
          w
        ≡ read_first bufsiz read eparse_sexp fuel (emptied mem fd pc) e (stopped_world w)
  unfolding read_one_sexp parse_chunk emptied
  read_one_sexp-emptied before rest mem len fd pc e w i l n =
      let iow : IoWrap = record { cc = some pc; fd = fd; buf = mem; cnt = len } in
      let (c, there) = byte_there before rest n.room in
      let at : length before ≡ len = omega (arith, n.end) in
      let byte : get_elem? mem len ≡ some c =
        subst (λ t. get_elem? mem t ≡ some c) at
          (ap (λ m. get_elem? m (length before)) (sym n.parts) ∙ there) in
      ap
        (λ o.
          if elim o [ none ↦ false | some t ↦ true ]
          then resumed bufsiz read eparse_sexp fuel iow e
              (parse_chunk bufsiz read eparse_sexp iow w)
          else read_first bufsiz read eparse_sexp fuel iow e w)
        l
      ∙ ap (resumed bufsiz read eparse_sexp fuel iow e) (
          cparse_sexp-stop eparse_sexp mem len c (record pc { sbuffer = some mem }) w
            (buffer-IsIdle mem pc i) (inr (l ∙ ap some at, refl)) byte)

  emptied-Starts :
      (mem : Bytes) (fd : ℕ) (pc : Pcont) (w : World)
      → IsReady w
      → IsIdle pc
      → pc.binread ≤ pc.binexpected
      → (mem' : Bytes) (len' : ℕ)
      → Starts bufsiz read eparse_sexp fuel
          (record (emptied mem fd pc) { buf = mem'; cnt = len' })
          (stopped_world w)
  unfolding parse_chunk emptied
  emptied-Starts mem fd pc w q i b mem' len' = record {
    pc = record (stopped mem pc) { sbuffer = some mem' };
    ready_w = stopped_world w;
    same = refl;
    ready = record {
      quiet = record { unlimited = q.quiet.unlimited; grants = q.quiet.grants };
      start_pos = q.start_pos;
      grow_pos = q.grow_pos;
    };
    idle = buffer-IsIdle mem' (stopped mem pc) (stop-IsIdle mem pc i);
    binread = b;
    unplaced = refl;
  }

  -- Nothing is left in the file.
  read_first-end :
      (iow : IoWrap) (e e' : E) (w : World)
      → iow.cnt ≡ 0
      → read iow.fd bufsiz e ≡ (e', some [])
      → read_first bufsiz read eparse_sexp fuel iow e w
        ≡ got nil (some (record iow { cnt = 0 })) e' (world_errno err_io_empty w)
  unfolding read_first read_chunk
  read_first-end iow e e' w z served =
      let first = parse_first bufsiz read eparse_sexp fuel in
      ap
        (λ n.
          if n == 0
          then read_again bufsiz read eparse_sexp first w (read_chunk bufsiz read eparse_sexp iow e)
          else first iow e w)
        z
      ∙ ap (λ x. read_again bufsiz read eparse_sexp first w (stored bufsiz read eparse_sexp iow x))
          served

  all-Ahead :
      (fss : List (List Forest)) (fs : List Forest) → Ahead bufsiz read eparse_sexp fuel fss fs
  unfolding reads read_one_sexp emptied
  all-Ahead fss (f ∷ fs) = step-Ahead bufsiz read eparse_sexp fuel fss f fs (all-Ahead fss fs)
  all-Ahead [] [] = λ before rest mem len fd pc e w q i b l n cs (e', served). (
    nil ∷ [],
    world_errno err_io_empty (stopped_world w),
    ap (after_call bufsiz read eparse_sexp fuel (reads bufsiz read eparse_sexp fuel 0)) (
        read_one_sexp-emptied before rest mem len fd pc e w i l n
        ∙ read_first-end (emptied mem fd pc) e e' (stopped_world w) refl served),
    refl,
    refl,
  )
  all-Ahead ([] ∷ fss) [] =
      λ before rest mem len fd pc e w q i b l n cs sv. absurd (omega (arith, cs.0))
  all-Ahead ((f ∷ fs) ∷ fss) [] = λ before rest mem len fd pc e w q i b l n cs sv.
      chunk-Returns bufsiz read eparse_sexp fuel fss f fs
        (some (record { cc = some pc; fd = fd; buf = mem; cnt = len })) (emptied mem fd pc) e w
        (stopped_world w) (all-Ahead fss fs)
        (read_one_sexp-emptied before rest mem len fd pc e w i l n) refl n.size
        (emptied-Starts mem fd pc w q i b) cs sv

  -- A wrapper that has not read anything.
  new_iowrap : ℕ → IoWrap
  new_iowrap fd = record { cc = none; fd = fd; buf = zeros bufsiz; cnt = 0 }

  new-Starts :
      (fd : ℕ) (w : World)
      → IsReady w
      → (mem : Bytes) (len : ℕ)
      → Starts bufsiz read eparse_sexp fuel (record (new_iowrap fd) { buf = mem; cnt = len }) w
  unfolding parse_chunk cparse_sexp continuation call_parser new_iowrap
  new-Starts fd w q mem len =
      let (w', size, e, q', pos) = init_continuation_quiet (some mem) w q in
      record {
        pc = new_pcont empty (some mem) size;
        ready_w = w';
        same = ap (λ p. call_parser eparse_sexp (some mem) len p.1 p.0) e;
        ready = q';
        idle = record {
          levels = refl;
          counted = refl;
          state = refl;
          depth = refl;
          text = refl;
          text_used = refl;
          room = pos;
          esc = refl;
          squoted = refl;
          mode = refl;
        };
        binread = omega arith;
        unplaced = refl;
      }

  length-zeros : (n : ℕ) → length (zeros n) ≡ n
  length-zeros zero = refl
  length-zeros (suc n) = omega (arith, length-zeros n)

  new-Returns :
      (fss : List (List Forest)) (fd : ℕ) (e : E) (w : World)
      → IsReady w
      → AreChunks bufsiz fss
      → Serves bufsiz read fd e fss
      → Returns
          (reads bufsiz read eparse_sexp fuel
            (suc (length (all_lists fss)))
            (some (new_iowrap fd))
            e
            w)
          (all_lists fss)
  unfolding reads read_one_sexp new_iowrap
  new-Returns [] fd e w q cs (e', served) = (
    nil ∷ [],
    world_errno err_io_empty w,
    ap (after_call bufsiz read eparse_sexp fuel (reads bufsiz read eparse_sexp fuel 0))
        (read_first-end (new_iowrap fd) e e' w refl served),
    refl,
    refl,
  )
  new-Returns ([] ∷ fss) fd e w q cs sv = absurd (omega (arith, cs.0))
  new-Returns ((f ∷ fs) ∷ fss) fd e w q cs sv =
      chunk-Returns bufsiz read eparse_sexp fuel fss f fs (some (new_iowrap fd)) (new_iowrap fd) e w
        w (all-Ahead fss fs) refl refl (length-zeros bufsiz) (new-Starts fd w q) cs sv

-- Where no request for memory is refused, `read_one_sexp`, called over and over with a new wrapper on a
-- file whose reads give one or more whole printable lists each, in fewer than BUFSIZ bytes, and then
-- nothing, returns the lists in order, each as one element that shows it, and then NULL with the error
-- code for the end of the file: for lists nested less than 2^31 - 1 deep. The loop of a
-- call needs no fuel.
pub read_one_sexp-sequence :
    {E : Type 0} (bufsiz sizeof_iowrap : ℕ) (read : ℕ → ℕ → E → E × Option Bytes)
    (eparse_sexp : Bytes → ℕ → Pcont → World → Ended) (fuel : ℕ) (fss : List (List Forest)) (fd : ℕ)
    (e : E) (w : World)
    → IsReady w
    → AreChunks bufsiz fss
    → Serves bufsiz read fd e fss
    → (w' : World) × (iow : IoWrap) × (init_iowrap bufsiz sizeof_iowrap fd w ≡ (w', some iow))
      × Returns
          (reads bufsiz read eparse_sexp fuel (suc (length (all_lists fss))) (some iow) e w')
          (all_lists fss)
unfolding init_iowrap new_iowrap
read_one_sexp-sequence bufsiz sizeof_iowrap read eparse_sexp fuel fss fd e w q cs sv =
    let g =
      on_heap_quiet w q (sexp_calloc 1 sizeof_iowrap)
        (sexp_calloc_quiet w.heap q.quiet 1 sizeof_iowrap) in
    (
      (on_heap (sexp_calloc 1 sizeof_iowrap) w).0,
      new_iowrap bufsiz read eparse_sexp fuel fd,
      rw g.granted refl,
      new-Returns bufsiz read eparse_sexp fuel fss fd e _ g.ready cs sv,
    )
