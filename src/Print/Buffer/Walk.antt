-- ===== src/Print/Buffer/Walk.antt =====
-- The rounds of the walk of src/sexp.c over an expression that is printed into a buffer.
use sfsexp.Prelude.{
  ℕ, ◌+◌, ◌<◌, ◌≡◌, length, sym, ap, List, ◌∷◌, ◌++◌, append-nil, Option, some, Bytes, arith,
}
use mathlib.Core.Path.{subst}
use sfsexp.FastStack.{int_limit, set_top}
use sfsexp.FastStack.Quiet.{push-IsQuiet}
use sfsexp.Sexp.{Elt, Sexp, nil, node}
use sfsexp.Print.Walk.{gap}
use sfsexp.Print.Buffer.{
  Page, Ink, full, advance_from, advance_level, leave_level, enter_level, buffer_loop,
}
use sfsexp.Print.Buffer.Writing.{Inked, Cut, Inks, inks, Cut-append, retext, add_char-Inks}

module _ (buf : Bytes) (size : ℕ) where
  -- The loop comes to a round with `m` rounds to go, or ends without space.
  pub data Reaches (m : ℕ) (used : List Sexp) (d : ℕ) (t : Bytes) : Option Ink → Type 0 where
    reaches : {p : Page} → Inked buf size used d t p → Reaches m used d t (buffer_loop m p)
    halts : {p : Page} → Cut buf size t p → Reaches m used d t (some (full p))

  pub Reaches-then :
      {m m' : ℕ} {used used' : List Sexp} {d d' : ℕ} (t s : Bytes) {o : Option Ink}
      → Reaches m used d t o
      → ((p : Page) → Inked buf size used d t p → Reaches m' used' d' (t ++ s) (buffer_loop m p))
      → Reaches m' used' d' (t ++ s) o
  Reaches-then t s (reaches {p} w) k = k p w
  Reaches-then t s (halts {p} c) k = halts (Cut-append buf size t s p c)

  pub rereach :
      {m : ℕ} {used : List Sexp} {d : ℕ} {t t' : Bytes} {o : Option Ink}
      → t ≡ t'
      → Reaches m used d t o
      → Reaches m used d t' o
  rereach {m} {used} {d} {o = o} e = subst (λ u. Reaches m used d u o) e

  set_top-Inked :
      (e : Elt) (rest : Sexp) (below : List Sexp) (d : ℕ) (t : Bytes) (p : Page)
      → Inked buf size (node e rest ∷ below) d t p
      → Inked buf size (rest ∷ below) d t (record p { stack = set_top rest p.stack })
  unfolding set_top
  set_top-Inked e rest below d t p w = record {
    levels = ground (arith, w.levels, w.counted);
    counted = ground (arith, w.levels, w.counted);
    shallow = omega (arith, w.shallow);
    depth = w.depth;
    written = w.written;
    old = w.old;
    was = w.was;
    same_length = w.same_length;
    space = w.space;
    some_left = w.some_left;
    room = w.room;
    quiet = w.quiet;
  }

  pub advance-Inks :
      (e : Elt) (rest : Sexp) (below : List Sexp) (d : ℕ) (t : Bytes) (p : Page)
      → Inked buf size (node e rest ∷ below) d t p
      → Inks buf size (rest ∷ below) d (t ++ gap rest) (advance_level p)
  unfolding advance_level
  advance-Inks e nil below d t p w =
      rw (ap (advance_from p) w.levels)
        (retext buf size (sym (append-nil t)) (inks (set_top-Inked e nil below d t p w)))
  advance-Inks e (node f rest) below d t p w =
      rw (ap (advance_from p) w.levels)
        (add_char-Inks buf size b' ' _ d t _ (set_top-Inked e (node f rest) below d t p w))

  pub push-Inked :
      (l : Sexp) (used : List Sexp) (d : ℕ) (t : Bytes) (p : Page)
      → length used + 1 < int_limit
      → Inked buf size used d t p
      → Inked buf size (l ∷ used) d t (enter_level l p)
  unfolding enter_level
  push-Inked l used d t p b w =
      let q = push-IsQuiet l p.stack p.heap w.quiet in
      rw q.0 (record {
        levels = ap (λ u. l ∷ u) w.levels;
        counted = omega (arith, w.counted, b);
        shallow = omega (arith, b);
        depth = w.depth;
        written = w.written;
        old = w.old;
        was = w.was;
        same_length = w.same_length;
        space = w.space;
        some_left = w.some_left;
        room = w.room;
        quiet = q.1;
      })

  pub pop-Inked :
      (l : Sexp) (used : List Sexp) (d : ℕ) (t : Bytes) (p : Page)
      → Inked buf size (l ∷ used) d t p
      → Inked buf size used d t (leave_level p)
  unfolding leave_level
  pop-Inked l used d t p w = record {
    levels = ground (arith, w.levels, w.counted, w.shallow);
    counted = ground (arith, w.levels, w.counted, w.shallow);
    shallow = omega (arith, w.shallow);
    depth = w.depth;
    written = w.written;
    old = w.old;
    was = w.was;
    same_length = w.same_length;
    space = w.space;
    some_left = w.some_left;
    room = w.room;
    quiet = w.quiet;
  }

  -- The depth alone changes.
  pub at_depth :
      (n d : ℕ) (used : List Sexp) (d' : ℕ) (t : Bytes) (p : Page)
      → n ≡ d
      → Inked buf size used d' t p
      → Inked buf size used d t (record p { depth = n })
  at_depth n d used d' t p e w = record {
    levels = w.levels;
    counted = w.counted;
    shallow = w.shallow;
    depth = e;
    written = w.written;
    old = w.old;
    was = w.was;
    same_length = w.same_length;
    space = w.space;
    some_left = w.some_left;
    room = w.room;
    quiet = w.quiet;
  }
