-- ===== src/FileInput/Stopping.antt =====
-- The parser of src/parser.c at the end of what `read_one_sexp` of src/io.c has read.
use sfsexp.Prelude.{
  ℕ, zero, suc, ◌+◌, ◌*◌, ◌≤◌, ◌<◌, ◌≡◌, refl, ap, ◌∙◌, true, false, ◌||◌, [], ◌∷◌, ◌++◌, none,
  some, Bytes, ◌==◌, length, get_elem?, arith,
}
use sfsexp.Errors.{err_incomplete}
use sfsexp.Sexp.{nil}
use sfsexp.Sexp.View.{Forest, branch}
use sfsexp.Cache.{World}
use sfsexp.Parser.Base.{Pcont, done}
use sfsexp.Parser.Loop.{Ended, returned, rounds, loop, round, finish, incomplete, continue_with}
use sfsexp.Parser.Entry.{cparse_sexp}
use sfsexp.RoundTrip.Print.{show}
use sfsexp.RoundTrip.Whole.{IsIdle}
use sfsexp.RoundTrip.Resumed.{Located, restored, cparse_sexp-Located}
use sfsexp.FileInput.{behind}

-- At the end of what was read, between two expressions, a call stops.
round-stop :
    (mem : Bytes) (len c : ℕ) (pc : Pcont) (w : World)
    → IsIdle pc
    → get_elem? mem len ≡ some c
    → round mem len (restored mem len pc w)
      ≡ done
          (record pc {
            sbuffer = some mem;
            last_pos = none;
            last_sexp = nil;
            error = err_incomplete;
          })
          (record w { heap = record w.heap { sexp_errno = err_incomplete } })
unfolding round finish incomplete
round-stop mem len c pc w i e =
    let same : (len == len) ≡ true = ground arith in
    let over : (c == 0 || len == len) ≡ true = ground (arith, same) in
    ground (arith, i.state, i.depth, e, over)

-- The continuation and the world that such a call returns.
abbrev pub stopped : Bytes → Pcont → Pcont
stopped mem pc = record pc {
  sbuffer = some mem;
  last_pos = none;
  last_sexp = nil;
  error = err_incomplete;
}

abbrev pub stopped_world : World → World
stopped_world w = record w { heap = record w.heap { sexp_errno = err_incomplete } }

loop-stop :
    (mem : Bytes) (len c f : ℕ) (pc : Pcont) (w : World)
    → IsIdle pc
    → get_elem? mem len ≡ some c
    → loop (suc f) mem len (restored mem len pc w) ≡ returned (stopped mem pc) (stopped_world w)
unfolding loop
loop-stop mem len c f pc w i e = ap (continue_with (loop f mem len)) (round-stop mem len c pc w i e)

pub stop-IsIdle : (mem : Bytes) (pc : Pcont) → IsIdle pc → IsIdle (stopped mem pc)
stop-IsIdle mem pc i = record {
  levels = i.levels;
  counted = i.counted;
  state = i.state;
  depth = i.depth;
  text = i.text;
  text_used = i.text_used;
  room = i.room;
  esc = i.esc;
  squoted = i.squoted;
  mode = i.mode;
}

pub buffer-IsIdle :
    (mem : Bytes) (pc : Pcont) → IsIdle pc → IsIdle (record pc { sbuffer = some mem })
buffer-IsIdle mem pc i = record {
  levels = i.levels;
  counted = i.counted;
  state = i.state;
  depth = i.depth;
  text = i.text;
  text_used = i.text_used;
  room = i.room;
  esc = i.esc;
  squoted = i.squoted;
  mode = i.mode;
}

pub byte_there : (s t : Bytes) → 0 < length t → (c : ℕ) × (get_elem? (s ++ t) (length s) ≡ some c)
byte_there [] [] l = absurd (omega (arith, l))
byte_there [] (c ∷ t) l = (c, refl)
byte_there (x ∷ s) t l = byte_there s t l

pub cparse_sexp-stop :
    (eparse_sexp : Bytes → ℕ → Pcont → World → Ended) (mem : Bytes) (len c : ℕ) (pc : Pcont)
    (w : World)
    → IsIdle pc
    → Located mem len pc
    → get_elem? mem len ≡ some c
    → cparse_sexp eparse_sexp (some mem) len (some pc) w
      ≡ returned (stopped mem pc) (stopped_world w)
cparse_sexp-stop eparse_sexp mem len c pc w i l e =
    let fuel : rounds mem ≡ suc (4 * length mem + 3) = omega arith in
    cparse_sexp-Located eparse_sexp mem len len pc w i.mode l
    ∙ ap (λ f. loop f mem len (restored mem len pc w)) fuel
    ∙ loop-stop mem len c (4 * length mem + 3) pc w i e

-- The bytes behind what was read stay in the buffer.
pub length-behind : (n : ℕ) (s : Bytes) → n ≤ length s → length (behind n s) + n ≡ length s
length-behind zero s l = omega arith
length-behind (suc n) [] l = absurd (omega (arith, l))
length-behind (suc n) (x ∷ s) l = omega (arith, length-behind n s (omega (arith, l)))

pub shown : (f : Forest) (t : Bytes) → (length (show (branch f) ++ t) == 0) ≡ false
unfolding show
shown f t = ground arith
