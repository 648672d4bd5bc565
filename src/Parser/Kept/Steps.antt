-- ===== src/Parser/Kept/Steps.antt =====
-- The buffer and the mode of a continuation under the states of the parser of src/parser.c.
use sfsexp.Prelude.{true, false, ◌&&◌, Bytes, Option, none, some, ℕ, arith, ◌==◌, ltb}
use sfsexp.FastStack.{is_low, empty_stack}
use sfsexp.Memory.{sexp_malloc}
use sfsexp.Sexp.{Event, squote, list, nil}
use sfsexp.Cache.{on_heap, sexp_t_allocate}
use sfsexp.Parser.Base.{
  State, start, open_paren, close_paren, atom, dquoted, dquoted_end, tick, quoted_list,
  quoted_close, quoted_string, comment, hash, hash_b, size_string, blob, other_state, Mode, Run,
  falls, returns, faults, Meets-bind, Meets-if,
}
use sfsexp.Parser.Actions.{emit}
use sfsexp.Parser.Vars.{goto, advance, is_space, is_special, is_atom_char}
use sfsexp.Parser.Structure.{step_start, step_open, step_close, step_comment}
use sfsexp.Parser.Atoms.{
  used_inc, atom_type, step_atom, end_dquoted, dquoted_char, step_dquoted, step_tick,
}
use sfsexp.Parser.Quoted.{is_quoted_close, step_quoted_close, step_quoted_list, step_quoted_string}
use sfsexp.Parser.Binary.{
  step_hash, step_hash_b, step_size_string, atoi, read_blob, make_blob, step_blob,
}
use sfsexp.Parser.Step.{step_char}
use sfsexp.Parser.Kept.Blocks.{
  Kept, KeepsRun, Keeps-intro, put_char-Kept, overwrite-Kept, need-Kept, attach-Kept, pop_data-Kept,
  close_list-Kept, terminate-Kept, make_atom-Kept, close_all-Kept, root_level-Kept, open_level-Kept,
  deliver-Kept,
}

module _ {b : Option Bytes} {m : Mode} where
  step_start-Kept : (c : ℕ) (r : Run) → Kept b m r.cc → KeepsRun b m (step_start c r)
  unfolding step_start
  step_start-Kept c r k =
      Meets-if (is_space c) (λ _. falls (ground (arith, k)))
        λ _.
          Meets-if (c == b';') (λ _. falls (ground (arith, k)))
            λ _.
              Meets-if (c == b'(') (λ _. falls (ground (arith, k)))
                λ _.
                  Meets-if (c == b')') (λ _. falls (ground (arith, k)))
                    λ _.
                      Meets-if (c == b'"') (λ _. falls (ground (arith, k)))
                        λ _.
                          Meets-if (c == b'\'') (λ _. falls (ground (arith, k)))
                            λ _.
                              Meets-bind (put_char-Kept true c _ (ground (arith, k)))
                                λ r' k'. falls (ground (arith, k'))

  step_open-Kept : (r : Run) → Kept b m r.cc → KeepsRun b m (step_open r)
  unfolding step_open
  step_open-Kept r k = Meets-bind (need-Kept sexp_t_allocate _ (ground (arith, k))) λ r₁ k₁.
      Meets-bind
        (Meets-if (is_low r₁.cc.stack.height) (λ _. root_level-Kept _ (ground (arith, k₁)))
          (λ _. attach-Kept (list nil) _ (ground (arith, k₁))))
        λ r₂ k₂. open_level-Kept r₂ k₂

  step_close-Kept : (r : Run) → Kept b m r.cc → KeepsRun b m (step_close r)
  unfolding step_close
  step_close-Kept r k =
      Meets-if (r.cc.depth == 0) (λ _. returns (ground (arith, k)))
        λ _.
          Meets-bind
            (Meets-bind (pop_data-Kept _ (ground (arith, k))) λ r₁ k₁. close_list-Kept r₁ k₁)
            λ r₂ k₂.
              let told = goto start (emit (λ h. h.end_sexpr) Event.end_sexpr r₂) in
              Meets-if (told.cc.depth == 0) (λ _. close_all-Kept told (ground (arith, k₂)))
                λ _. falls (ground (arith, k₂))

  step_atom-Kept : (c : ℕ) (r : Run) → Kept b m r.cc → KeepsRun b m (step_atom c r)
  unfolding step_atom sfsexp.Parser.Atoms.after_atom
  step_atom-Kept c r k =
      Meets-if (r.cc.esc && is_special c)
        (λ _. Meets-bind (overwrite-Kept c r k) λ r' k'. falls (ground (arith, k')))
        λ _.
          Meets-if (is_atom_char c)
            (λ _.
              Meets-bind (put_char-Kept false c _ (ground (arith, k)))
                λ r' k'. falls (ground (arith, k')))
            λ _. Meets-bind (terminate-Kept r) λ s _.
              Meets-bind (make_atom-Kept _ false s (used_inc r) (ground (arith, k))) λ (r₁, sx) k₁.
                Meets-bind (deliver-Kept _ sx r₁ (ground (arith, k₁)) k₁)
                  λ r₂ k₂. falls (ground (arith, k₂))

  end_dquoted-Kept : (r : Run) → Kept b m r.cc → KeepsRun b m (end_dquoted r)
  unfolding end_dquoted
  end_dquoted-Kept r k =
      Meets-bind
        (Meets-if r.cc.squoted
          (λ _. put_char-Kept false b'"' (goto dquoted_end r) (ground (arith, k)))
          (λ _. falls (ground (arith, k))))
        λ r₁ k₁. Meets-bind (terminate-Kept r₁) λ s _.
          Meets-bind (make_atom-Kept _ _ s (used_inc r₁) (ground (arith, k₁))) λ (r₂, sx) k₂.
            Meets-bind (deliver-Kept _ sx r₂ (ground (arith, k₂)) k₂)
              λ r₃ k₃. falls (ground (arith, k₃))

  dquoted_char-Kept : (c : ℕ) (r : Run) → Kept b m r.cc → KeepsRun b m (dquoted_char c r)
  unfolding dquoted_char
  dquoted_char-Kept c r k =
      Meets-if (c == b'"') (λ _. end_dquoted-Kept r k)
        λ _. Meets-bind (put_char-Kept false c r k) λ r' k'. falls (ground (arith, k'))

  step_dquoted-Kept :
      (c : ℕ) (ahead : Option ℕ) (r : Run) → Kept b m r.cc → KeepsRun b m (step_dquoted c ahead r)
  unfolding step_dquoted
  step_dquoted-Kept c none r k =
      Meets-if (r.cc.esc && is_special c)
        (λ _. Meets-bind (overwrite-Kept c r k) λ r' k'. faults tt) λ _. dquoted_char-Kept c r k
  step_dquoted-Kept c (some c') r k =
      Meets-if (r.cc.esc && is_special c)
        (λ _.
          Meets-bind (overwrite-Kept c r k) λ r' k'. dquoted_char-Kept c' _ (ground (arith, k')))
        λ _. dquoted_char-Kept c r k

  step_tick-Kept : (c : ℕ) (r : Run) → Kept b m r.cc → KeepsRun b m (step_tick c r)
  unfolding step_tick
  step_tick-Kept c r k =
      Meets-if (c == b'"')
        (λ _.
          Meets-bind (put_char-Kept false b'"' _ (ground (arith, k)))
            λ r' k'. falls (ground (arith, k')))
        λ _. Meets-if (c == b'(') (λ _. falls (ground (arith, k))) λ _. falls (ground (arith, k))

  step_quoted_close-Kept : (r : Run) → Kept b m r.cc → KeepsRun b m (step_quoted_close r)
  unfolding step_quoted_close
  step_quoted_close-Kept r k =
      Meets-if (r.cc.qdepth == 0)
        (λ _. Meets-bind (terminate-Kept r) λ s _.
          Meets-bind (make_atom-Kept squote false s (goto start r) (ground (arith, k)))
            λ (r₁, sx) k₁. deliver-Kept _ sx r₁ (ground (arith, k₁)) k₁)
        λ _. falls (ground (arith, k))

  step_quoted_list-Kept : (c : ℕ) (r : Run) → Kept b m r.cc → KeepsRun b m (step_quoted_list c r)
  unfolding step_quoted_list sfsexp.Parser.Quoted.quoted_nest
  step_quoted_list-Kept c r k = Meets-bind (put_char-Kept false c _ (ground (arith, k))) λ r' k'.
      Meets-if (is_quoted_close r'.cc.state)
        (λ _. step_quoted_close-Kept (advance r') (ground (arith, k')))
        (λ _. falls (ground (arith, k')))

  step_quoted_string-Kept :
      (c : ℕ) (r : Run) → Kept b m r.cc → KeepsRun b m (step_quoted_string c r)
  unfolding step_quoted_string
  step_quoted_string-Kept c r k =
      Meets-bind (put_char-Kept false c _ (ground (arith, k))) λ r' k'. falls (ground (arith, k'))

  step_hash-Kept : (c : ℕ) (r : Run) → Kept b m r.cc → KeepsRun b m (step_hash c r)
  unfolding step_hash
  step_hash-Kept c r k =
      Meets-if (c == b'b')
        (λ _.
          Meets-bind (put_char-Kept false c _ (ground (arith, k)))
            λ r' k'. falls (ground (arith, k')))
        λ _. falls (ground (arith, k))

  step_hash_b-Kept : (c : ℕ) (r : Run) → Kept b m r.cc → KeepsRun b m (step_hash_b c r)
  unfolding step_hash_b
  step_hash_b-Kept c r k =
      Meets-if (c == b'#')
        (λ _.
          Meets-bind (put_char-Kept false c _ (ground (arith, k)))
            λ r' k'. falls (ground (arith, k')))
        λ _. falls (ground (arith, k))

  step_size_string-Kept : (c : ℕ) (r : Run) → Kept b m r.cc → KeepsRun b m (step_size_string c r)
  unfolding step_size_string
  step_size_string-Kept c r k =
      Meets-if (c == b'#')
        (λ _. Meets-bind (terminate-Kept r) λ s _.
          Meets-if (ltb 0 (atoi s))
            (λ _.
              Meets-bind (need-Kept (on_heap (sexp_malloc (atoi s))) _ (ground (arith, k)))
                λ r' k'. falls (ground (arith, k')))
            λ _. falls (ground (arith, k)))
        λ _.
          Meets-bind (put_char-Kept false c _ (ground (arith, k)))
            λ r' k'. falls (ground (arith, k'))

  read_blob-Kept : (c : Option ℕ) (r : Run) → Kept b m r.cc → KeepsRun b m (read_blob c r)
  unfolding read_blob
  read_blob-Kept c r k =
      Keeps-intro (read_blob c r) (λ r' e. ground (arith, k)) (λ pc w e. ground (arith, k))

  make_blob-Kept : (r : Run) → Kept b m r.cc → KeepsRun b m (make_blob r)
  unfolding make_blob
  make_blob-Kept r k = Meets-bind (need-Kept sexp_t_allocate r k) λ r₁ k₁.
      Meets-if (empty_stack r₁.cc.stack) (λ _. falls (ground (arith, k₁)))
        λ _. attach-Kept _ _ (ground (arith, k₁))

  pub step_blob-Kept : (c : Option ℕ) (r : Run) → Kept b m r.cc → KeepsRun b m (step_blob c r)
  unfolding step_blob
  step_blob-Kept c r k = Meets-bind (read_blob-Kept c r k) λ r' k'.
      Meets-if (r'.cc.binread == r'.cc.binexpected) (λ _. make_blob-Kept r' k') (λ _. falls k')

  pub step_char-Kept :
      (q : State) (c : ℕ) (ahead : Option ℕ) (r : Run)
      → Kept b m r.cc
      → KeepsRun b m (step_char q c ahead r)
  unfolding step_char step_comment
  step_char-Kept start c ahead r k = step_start-Kept c r k
  step_char-Kept open_paren c ahead r k = step_open-Kept r k
  step_char-Kept close_paren c ahead r k = step_close-Kept r k
  step_char-Kept atom c ahead r k = step_atom-Kept c r k
  step_char-Kept dquoted c ahead r k = step_dquoted-Kept c ahead r k
  step_char-Kept dquoted_end c ahead r k = falls (ground (arith, k))
  step_char-Kept tick c ahead r k = step_tick-Kept c r k
  step_char-Kept quoted_list c ahead r k = step_quoted_list-Kept c r k
  step_char-Kept quoted_close c ahead r k = step_quoted_close-Kept r k
  step_char-Kept quoted_string c ahead r k = step_quoted_string-Kept c r k
  step_char-Kept comment c ahead r k = falls (ground (arith, k))
  step_char-Kept hash c ahead r k = step_hash-Kept c r k
  step_char-Kept hash_b c ahead r k = step_hash_b-Kept c r k
  step_char-Kept size_string c ahead r k = step_size_string-Kept c r k
  step_char-Kept blob c ahead r k = step_blob-Kept (some c) r k
  step_char-Kept (other_state n) c ahead r k = returns (ground (arith, k))
