-- ===== src/Events/Alike/Blocks.antt =====
-- The blocks of code that the states share, in src/parser.c and in src/event_temp.c, and what the
-- handlers are told.
use sfsexp.Prelude.{
  ℕ, suc, ◌+◌, ◌≡◌, refl, ap, sym, ◌∙◌, List, zero, Bool, true, false, [], ◌∷◌, some, Bytes, length,
  ltb, ◌==◌, Bool-cases, inl, inr, arith,
}
use mathlib.Core.List.{reverse}
use mathlib.Core.Path.{subst}
use sfsexp.Memory.{sexp_realloc}
use sfsexp.Memory.Quiet.{sexp_realloc_quiet}
use sfsexp.Sexp.{snoc, AtomType, Elt, Event}
use sfsexp.Cache.{World, sexp_t_allocate, pd_allocate}
use sfsexp.Cache.Quiet.{on_heap_quiet}
use sfsexp.Parser.Base.{ParseData, Run, uint_inc, Meets-bind, falls}
use sfsexp.Parser.Actions.{
  call_handler, put_char, terminate, need, new_val, make_atom, attach, push_data, pop_data,
}
use sfsexp.Parser.Frame.{Partly, Partly-intro}
use sfsexp.RoundTrip.Conf.{
  Conf, Surely, Surely-intro, counted_as, put_char-InConf, attach-InConf, call_handler-IsReady,
}
use sfsexp.Events.{grow_size, grow_buffer, store_char, tell_text, tell_end}
use sfsexp.Safety.{Shape}
use sfsexp.Parser.Atoms.{deliver}
use sfsexp.FastStack.{is_low, empty_stack}
use sfsexp.Events.Alike.{
  InTell, Heard, AlikeAt, Both, both_done, Both-last, Surely-and, call_handler-events,
}

pub put_char-Heard : (f : Bool) (c : ℕ) (r : Run) → Partly (Heard r) (put_char f c r)
unfolding put_char
put_char-Heard f c r = Partly-intro (put_char f c r) λ r' e. ground arith

pub attach-Heard : (sx : Elt) (r : Run) → Partly (Heard r) (attach sx r)
unfolding attach
attach-Heard sx r = Partly-intro (attach sx r) λ r' e. ground arith

pub push_data-Heard : (d : ParseData) (r : Run) → Heard r (push_data d r)
unfolding push_data
push_data-Heard d r = ground arith

pub pop_data-Heard : (r : Run) → Partly (Heard r) (pop_data r)
unfolding pop_data sfsexp.Cache.pd_deallocate
pop_data-Heard r = Partly-intro (pop_data r) λ r' e. ground arith

-- The element allocated is not seen in the other variables.
abbrev pub OnlyWorld : Run → Run → Type 0
OnlyWorld r r' = (r'.cc ≡ r.cc) × (r'.elts ≡ r.elts) × (r'.w.events ≡ r.w.events)

pub need_sexp-OnlyWorld : (r : Run) → Partly (OnlyWorld r) (need sexp_t_allocate r)
unfolding need sexp_t_allocate
need_sexp-OnlyWorld r = Partly-intro (need sexp_t_allocate r) λ r' e. ground arith

pub need_data-OnlyWorld : (r : Run) → Partly (OnlyWorld r) (need pd_allocate r)
unfolding need pd_allocate
need_data-OnlyWorld r = Partly-intro (need pd_allocate r) λ r' e. ground arith

new_val-Heard : (sx : Elt) (r : Run) → Partly (Heard r) (new_val sx r)
unfolding new_val
new_val-Heard sx r = Partly-intro (new_val sx r) λ r' e. ground arith

-- A text was told, with as many bytes as the buffer counts.
pub record ToldText (aty : AtomType) (s : Bytes) (r r' : Run) : Type 0 where
  pub qdepth : r'.cc.qdepth ≡ r.cc.qdepth
  pub elts : r'.elts ≡ uint_inc r.elts
  pub handlers : r'.cc.event_handlers ≡ r.cc.event_handlers
  pub events :
      r'.w.events
      ≡ (call_handler
          (λ h. h.characters)
          (Event.characters s r.cc.val_used aty)
          r.cc.event_handlers
          r.w).events

pub make_atom-ToldText :
    (aty : AtomType) (clears : Bool) (s : Bytes) (r : Run)
    → Partly (λ (p : Run × Elt). ToldText aty s r p.0) (make_atom aty clears s r)
unfolding make_atom
make_atom-ToldText aty clears s r = Meets-bind (need_sexp-OnlyWorld r) λ r₁ p.
    Meets-bind (new_val-Heard _ _) λ r₂ q. falls (
      ground (
        arith,
        p,
        q,
        call_handler-events (λ h. h.characters) (Event.characters s r.cc.val_used aty)
            r.cc.event_handlers r.cc.event_handlers r.w r₁.w refl p.2,
      ))

grow_buffer-InTell :
    (c : ℕ) (k : Conf) (r : Run)
    → InTell k r
    → Surely (InTell (record k { text = c ∷ k.text })) (grow_buffer (c ∷ k.text) r)
unfolding grow_buffer
grow_buffer-InTell c k r (i, q) = elim (Bool-cases (r.cc.val_used + 1 == r.cc.val_allocated)) [
  | inl full ↦
      let g =
        on_heap_quiet r.w q (sexp_realloc (r.cc.val_allocated + grow_size) r.cc.val_allocated)
          (sexp_realloc_quiet r.w.heap q.quiet _ _) in
      let counted : (r.cc.val_used + 1 == suc (length k.text)) ≡ true = ground arith in
      rw full (rw g.granted (rw counted (falls (ground arith, g.ready))))
  | inr fits ↦ rw fits (falls (ground arith, q))
]

store_char-InTell :
    (c : ℕ) (k : Conf) (r : Run)
    → InTell k r
    → Surely (InTell (record k { text = c ∷ k.text })) (store_char c r)
unfolding store_char
store_char-InTell c k r i =
    let room : ltb (length k.text) r.cc.val_allocated ≡ true = ground arith in
    rw (i.0.text, store_char) (rw room (grow_buffer-InTell c k r i))

store_char-Heard : (c : ℕ) (r : Run) → Partly (Heard r) (store_char c r)
unfolding store_char
store_char-Heard c r = Partly-intro (store_char c r) λ r' e. ground arith

pub terminate-InTell :
    (k : Conf) (r : Run) → InTell k r → Surely (λ s. s ≡ reverse k.text) (terminate r)
unfolding terminate
terminate-InTell k r i = Surely-intro (reverse k.text) (ground (arith, i.0)) refl

pub tell_text-InTell :
    (aty : AtomType) (s : Bytes) (k : Conf) (r : Run)
    → InTell k (counted_as (length k.text) r)
    → InTell (record k { text = [] }) (tell_text aty s r)
unfolding tell_text
tell_text-InTell aty s k r i = (ground (arith, i.0), call_handler-IsReady _ _ _ _ i.1)

pub tell_text-ToldText :
    (aty : AtomType) (s : Bytes) (r : Run) → ToldText aty s r (tell_text aty s r)
unfolding tell_text
tell_text-ToldText aty s r = record { qdepth = refl; elts = refl; handlers = refl; events = refl }

pub Heard-through : {rc re a b : Run} → Heard rc re → Heard rc a → Heard re b → Heard a b
Heard-through h p q = ground (arith, h, p, q)

-- The byte goes to the buffer of both parsers.
pub put-Both :
    (f : Bool) (c : ℕ) (k : Conf) (rc re : Run)
    → AlikeAt k rc re
    → Both (AlikeAt (record k { text = c ∷ k.text })) (put_char f c rc) (store_char c re)
put-Both f c k rc re (i, t, h) =
    Both-last (Surely-and (put_char-InConf f c k rc i) (put_char-Heard f c rc))
      (Surely-and (store_char-InTell c k re t) (store_char-Heard c re))
      λ a b p q. (p.0, q.0, Heard-through h p.1 q.1)

-- The two runs but for the levels, of which there are as many as before.
pub record Joined (k : Conf) (a b : Run) : Type 0 where
  pub levels : List ParseData
  pub alike : AlikeAt (record k { levels = levels }) a b

-- An element is delivered to the top level, or it is the result, in both parsers.
deliver_at-Both :
    (d : ℕ) (result result' : Run) (sx : Elt) (k : Conf) (rc re : Run)
    → Shape d k.levels
    → AlikeAt k rc re
    → result'.w.events ≡ result.w.events
    → Both (Joined k) (deliver result sx rc) (tell_end result' re)
unfolding deliver tell_end sfsexp.Events.leave
deliver_at-Both zero result result' sx k rc re s (i, t, h) e =
    let bare : empty_stack rc.cc.stack ≡ true =
      ap (λ u. empty_stack (record rc.cc.stack { used = u })) (i.0.levels ∙ s) in
    let low : is_low re.cc.stack.height ≡ true =
      ground (arith, t.0.counted, ap (λ l. length l) s) in
    rw bare (rw low (both_done e))
deliver_at-Both (suc d) result result' sx k rc re (top, below, l, o) (i, t, h) e =
    let filled : empty_stack rc.cc.stack ≡ false =
      ap (λ u. empty_stack (record rc.cc.stack { used = u })) (i.0.levels ∙ l) in
    let high : is_low re.cc.stack.height ≡ false =
      ground (arith, t.0.counted, ap (λ l. length l) l) in
    rw filled (
      rw high (
        Both-last {Q = λ b. b ≡ re}
          (Surely-and (attach-InConf sx top below k rc l i) (attach-Heard sx rc)) (falls refl)
          λ a b p q. record {
            levels = some (snoc top sx) ∷ below;
            alike = (
              p.0,
              subst (λ b. InTell (record k { levels = some (snoc top sx) ∷ below }) b) (sym q)
                  (ground (arith, t.0, ap (λ l. length l) l), t.1),
              ground (arith, p.1, h, q),
            );
          }))

pub deliver-Both :
    (result result' : Run) (sx : Elt) (k : Conf) (rc re : Run)
    → Shape k.depth k.levels
    → AlikeAt k rc re
    → result'.w.events ≡ result.w.events
    → Both (Joined k) (deliver result sx rc) (tell_end result' re)
deliver-Both result result' sx k = deliver_at-Both k.depth result result' sx k
