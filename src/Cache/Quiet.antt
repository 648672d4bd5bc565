-- ===== src/Cache/Quiet.antt =====
-- Allocation through the caches where every request is granted.
use sfsexp.Prelude.{ℕ, ◌<◌, ◌≡◌, refl, Bool, true, Option, none, some, Bool-cases, inl, inr}
use sfsexp.Memory.{Heap}
use sfsexp.Memory.Quiet.{IsQuiet, Grants, sexp_malloc_quiet}
use sfsexp.FastStack.{FastStack, pop, empty_stack}
use sfsexp.FastStack.Quiet.{make_stack-IsQuiet, push-IsQuiet}
use sfsexp.Cache.{
  World, Cached, sizeof_sexp, sizeof_parse_data, on_heap, fresh, take_cached, put_cached,
  sexp_t_allocate, pd_allocate, pd_deallocate,
}

fresh-IsQuiet :
    (size : ℕ) (c : Option (FastStack Cached)) (h : Heap)
    → IsQuiet h
    → ((fresh size c h).2 ≡ true) × IsQuiet (fresh size c h).0
unfolding fresh
fresh-IsQuiet size c h q = let m = sexp_malloc_quiet h q size in rw m.0 (refl, m.1)

take_cached-IsQuiet :
    (size : ℕ) (c : Option (FastStack Cached)) (h : Heap)
    → IsQuiet h
    → ((take_cached size c h).2 ≡ true) × IsQuiet (take_cached size c h).0
unfolding take_cached pop
take_cached-IsQuiet size none h q =
    let m = make_stack-IsQuiet {A = Cached} h q in
    rw (m.0, take_cached) (fresh-IsQuiet size _ _ m.1)
take_cached-IsQuiet size (some s) h q = elim (Bool-cases (empty_stack s)) [
  | inl e ↦ rw e (fresh-IsQuiet size _ h q)
  | inr e ↦ rw e (refl, q)
]

put_cached-IsQuiet :
    (size : ℕ) (c : Option (FastStack Cached)) (h : Heap)
    → IsQuiet h
    → IsQuiet (put_cached size c h).0
unfolding put_cached
put_cached-IsQuiet size none h q =
    let m = make_stack-IsQuiet {A = Cached} h q in rw (m.0, put_cached) (push-IsQuiet tt _ _ m.1).1
put_cached-IsQuiet size (some s) h q = (push-IsQuiet tt s h q).1

-- What the parser needs of the world to never meet a failure: every request is granted, and the
-- buffer sizes are ones that `set_parser_buffer_params` accepts.
pub record IsReady (w : World) : Type 0 where
  pub quiet : IsQuiet w.heap
  pub start_pos : 0 < w.val_start_size
  pub grow_pos : 0 < w.val_grow_size

-- The call returned no NULL, reported no event, and left the world ready.
pub record Ready (w : World) (r : World × Bool) : Type 0 where
  pub granted : r.1 ≡ true
  pub ready : IsReady r.0
  pub same_events : r.0.events ≡ w.events

module _ (w : World) (q : IsReady w) where
  pub sexp_t_allocate_quiet : Ready w (sexp_t_allocate w)
  unfolding sexp_t_allocate
  sexp_t_allocate_quiet =
      let t = take_cached-IsQuiet sizeof_sexp w.sexp_t_cache w.heap q.quiet in
      record {
        granted = t.0;
        ready = record { quiet = t.1; start_pos = q.start_pos; grow_pos = q.grow_pos };
        same_events = refl;
      }

  pub pd_allocate_quiet : Ready w (pd_allocate w)
  unfolding pd_allocate
  pd_allocate_quiet =
      let t = take_cached-IsQuiet sizeof_parse_data w.pd_cache w.heap q.quiet in
      record {
        granted = t.0;
        ready = record { quiet = t.1; start_pos = q.start_pos; grow_pos = q.grow_pos };
        same_events = refl;
      }

  pub on_heap_quiet : (f : Heap → Heap × Bool) → Grants (f w.heap) → Ready w (on_heap f w)
  on_heap_quiet f g = record {
    granted = g.0;
    ready = record { quiet = g.1; start_pos = q.start_pos; grow_pos = q.grow_pos };
    same_events = refl;
  }

  pub pd_deallocate_quiet : IsReady (pd_deallocate w) × ((pd_deallocate w).events ≡ w.events)
  unfolding pd_deallocate
  pd_deallocate_quiet = (
    record {
      quiet = put_cached-IsQuiet sizeof_parse_data w.pd_cache w.heap q.quiet;
      start_pos = q.start_pos;
      grow_pos = q.grow_pos;
    },
    refl,
  )
