-- ===== src/Parser/Progress.antt =====
-- The rounds of the main loop of src/parser.c, measured by the bytes that are left and the rank of
-- the state.
pub mod Measure
mod Text
mod Data
use sfsexp.Prelude.{
  ℕ, zero, suc, ◌+◌, ◌-◌, ◌*◌, ◌≤◌, ◌<◌, ◌≡◌, ◌≢◌, refl, ◌⊎◌, inl, inr, true, false, [], ◌∷◌,
  Option, none, some, Bytes, length, get_elem?, arith, Option-cases, ◌==◌, ◌&&◌, ◌||◌, ltb,
}
use sfsexp.FastStack.{empty_stack}
use sfsexp.Memory.{sexp_malloc}
use sfsexp.Cache.{on_heap, sexp_t_allocate, pd_allocate}
use sfsexp.Sexp.{Event, list, nil, node, Elt, squote}
use sfsexp.Parser.Base.{
  State, start, open_paren, close_paren, atom, dquoted, dquoted_end, tick, quoted_list,
  quoted_close, quoted_string, comment, hash, hash_b, size_string, blob, other_state, Run, Outcome,
  ◌>>=◌, falls, returns, aborts, faults, Meets-bind, Meets-if,
}
use sfsexp.Parser.Actions.{emit, made, pop_data, unwind}
use sfsexp.Parser.Frame.{
  Stays, Partly, need-Stays, put_char-Stays, overwrite-Stays, terminate-falls, Partly-intro,
  make_atom-Stays, attach-Stays, push_data-Stays, pop_data-Stays, close_list-Stays,
}
use sfsexp.Parser.Quoted.{is_quoted_close, step_quoted_close, step_quoted_list, step_quoted_string}
use sfsexp.Parser.Vars.{is_space, is_special, is_atom_char, goto, advance}
use sfsexp.Parser.Atoms.{
  used_inc, atom_type, deliver, step_atom, end_dquoted, dquoted_char, step_dquoted, step_tick,
}
use sfsexp.Parser.Structure.{
  step_start, step_open, close_list, step_close, step_comment, root_level, open_level, close_all,
}
use sfsexp.Parser.Binary.{
  step_hash, step_hash_b, step_size_string, atoi, read_blob, make_blob, step_blob,
}
use sfsexp.Parser.Step.{step_char}
use sfsexp.Parser.Loop.{is_blob, Ended, continue_with, out_of_fuel, finish, incomplete, round, loop}
use Measure.{rank, IsBlobBounded, StaysLow, Advances, Partly-mono}
use Text.{
  step_start-Moves, deliver-Stays, step_atom-Moves, step_dquoted-Moves, step_tick-Moves,
  step_quoted_close-Stays, step_quoted_list-Moves, step_quoted_string-Moves,
}
use Data.{
  step_hash-Moves, step_hash_b-Moves, step_size_string-Moves, read_blob-Moves, make_blob-Moves,
  step_blob-Moves, root_level-Stays, open_level-Moves, step_open-Moves, close_all-returns,
  close_list-Moves, step_close-Moves,
}

step_char-Moves :
    (q : State) (c : ℕ) (ahead : Option ℕ) (r : Run)
    → r.cc.state ≡ q
    → Advances r q (step_char q c ahead r)
unfolding step_char step_comment
step_char-Moves start c ahead r e b = step_start-Moves c r b
step_char-Moves open_paren c ahead r e b = step_open-Moves r b
step_char-Moves close_paren c ahead r e b = step_close-Moves r b
step_char-Moves atom c ahead r e b = step_atom-Moves c r b
step_char-Moves dquoted c ahead r e b = step_dquoted-Moves c ahead r b
step_char-Moves dquoted_end c ahead r e b = falls (ground arith)
step_char-Moves tick c ahead r e b = step_tick-Moves c r b
step_char-Moves quoted_list c ahead r e b = step_quoted_list-Moves c r b
step_char-Moves quoted_close c ahead r e b =
    Partly-mono (step_quoted_close-Stays r b) λ r' q. ground arith
step_char-Moves quoted_string c ahead r e b = step_quoted_string-Moves c r b
step_char-Moves comment c ahead r e b = falls (ground arith)
step_char-Moves hash c ahead r e b = step_hash-Moves c r b
step_char-Moves hash_b c ahead r e b = step_hash_b-Moves c r b
step_char-Moves size_string c ahead r e b = step_size_string-Moves c r b
step_char-Moves blob c ahead r e b = step_blob-Moves (some c) r e b
step_char-Moves (other_state n) c ahead r e b = returns tt

-- What is left to do: four rounds for each byte, and the state's rank.
abbrev pub left : Bytes → Run → ℕ
left mem r = 4 * (length mem - r.t) + rank r.cc.state

abbrev pub Shrinks : Bytes → Run → Outcome Run → Type 0
Shrinks mem r o = Partly (λ (r' : Run). (left mem r' < left mem r) × IsBlobBounded r') o

finish-returns : (mem : Bytes) (len : ℕ) (r : Run) → Partly (λ (r' : Run). ⊥) (finish mem len r)
unfolding finish incomplete
finish-returns mem len r =
    Meets-if (r.cc.depth == 0 && ltb 0 r.elts) (λ _. close_all-returns r)
      λ _. Partly-intro _ λ r' e. ground arith

pub get_elem?-lt : (mem : Bytes) (i : ℕ) {c : ℕ} → get_elem? mem i ≡ some c → i < length mem
get_elem?-lt [] i e = ground arith
get_elem?-lt (x ∷ xs) zero e = omega arith
get_elem?-lt (x ∷ xs) (suc i) e = omega (arith, get_elem?-lt xs i e)

pub rank-le : (q : State) → rank q ≤ 3
rank-le start = omega arith
rank-le _ = omega arith

-- Without a byte to read, state 15 can only complete the element.
step_blob-none : (r : Run) → IsBlobBounded r → Partly (StaysLow r.t) (step_blob none r)
unfolding step_blob read_blob
step_blob-none r b =
    Meets-bind
      (Meets-if {P = λ (r' : Run). (r'.t ≡ r.t) × (r'.cc.binread ≡ r'.cc.binexpected)}
        (ltb r.cc.binread r.cc.binexpected) (λ _. faults tt) (λ n. falls (ground arith)))
      λ r' e.
        Meets-if (r'.cc.binread == r'.cc.binexpected)
          (λ _. Partly-mono (make_blob-Moves r') λ r'' m. ground arith) (λ n. absurd (ground arith))

step_blob-Shrinks :
    (mem : Bytes) (r : Run)
    → r.cc.state ≡ blob
    → IsBlobBounded r
    → Shrinks mem r (step_blob (get_elem? mem r.t) r)
step_blob-Shrinks mem r h b = elim (Option-cases (get_elem? mem r.t)) [
  | inl e ↦ rw e (Partly-mono (step_blob-none r b) λ r' m. ground arith)
  | inr (c, e) ↦ rw e (
      Partly-mono (step_blob-Moves (some c) r h b)
        λ r' m. ground (arith, get_elem?-lt mem r.t e, rank-le r'.cc.state))
]

pub is_blob→eq : (q : State) → is_blob q ≡ true → q ≡ blob
is_blob→eq q h = ground arith

-- A round that falls through has less left to do.
pub round-Shrinks :
    (mem : Bytes) (len : ℕ) (r : Run) → IsBlobBounded r → Shrinks mem r (round mem len r)
unfolding round
round-Shrinks mem len r b =
    Meets-if (is_blob r.cc.state)
      (λ h.
        Meets-if (r.t == len) (λ _. Partly-mono (finish-returns mem len r) λ _ x. absurd x)
          (λ _. step_blob-Shrinks mem r (is_blob→eq r.cc.state h) b))
      (λ h. elim (Option-cases (get_elem? mem r.t)) [
        | inl e ↦ rw e (faults tt)
        | inr (c, e) ↦ rw e (
            Meets-if (c == 0 || r.t == len)
              (λ _. Partly-mono (finish-returns mem len r) λ _ x. absurd x)
              (λ _.
                Partly-mono (step_char-Moves r.cc.state c _ r refl b)
                  λ r' m. ground (arith, get_elem?-lt mem r.t e, rank-le r'.cc.state)))
      ])

pub continue_with-ne-out_of_fuel :
    {P : Run → Type 0} (k : Run → Ended) {o : Outcome Run}
    → Partly P o
    → ((r : Run) → P r → k r ≢ out_of_fuel)
    → continue_with k o ≢ out_of_fuel
continue_with-ne-out_of_fuel k (falls {a} p) h = h a p
continue_with-ne-out_of_fuel k (returns _) h = λ e. cc
continue_with-ne-out_of_fuel k (aborts _) h = λ e. cc
continue_with-ne-out_of_fuel k (faults _) h = λ e. cc

-- The loop has enough fuel if that is above what is left to do.
pub loop-ne-out_of_fuel :
    (f : ℕ) (mem : Bytes) (len : ℕ) (r : Run)
    → IsBlobBounded r
    → left mem r < f
    → loop f mem len r ≢ out_of_fuel
unfolding loop
loop-ne-out_of_fuel zero mem len r b h = absurd (omega arith)
loop-ne-out_of_fuel (suc f) mem len r b h =
    continue_with-ne-out_of_fuel (loop f mem len) (round-Shrinks mem len r b)
      λ r' s. loop-ne-out_of_fuel f mem len r' s.1 (omega arith)
