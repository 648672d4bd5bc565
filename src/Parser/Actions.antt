-- ===== src/Parser/Actions.antt =====
-- src/parser.c, the blocks of code that states of the machine share: storing a byte in the value
-- buffer, making an element from it, attaching an element to the stack's top level, popping a level,
-- calling a handler.
use sfsexp.Prelude.{
  ℕ, ◌+◌, Bool, false, List, [], ◌∷◌, Option, none, some, Bytes, ltb, ◌==◌, if◌then◌else◌, length,
}
use mathlib.Core.List.{reverse}
use sfsexp.Errors.{err_memory}
use sfsexp.Memory.{sexp_malloc, sexp_realloc}
use sfsexp.FastStack.{push, pop, top_data, set_top, set_popped}
use sfsexp.Sexp.{AtomType, text, Elt, value, list, Sexp, nil, node, Event, Handlers, snoc}
use sfsexp.Cache.{World, on_heap, sexp_t_allocate, sexp_t_deallocate, pd_deallocate}
use sfsexp.Parser.Base.{ParseData, Run, Outcome, next, fault, ◌>>=◌, save, uint_inc}

-- `event_handlers->h(...)`, where neither pointer is NULL.
unfoldable pub call_handler : (Handlers → Bool) → Event → Option Handlers → World → World
call_handler h e none w = w
call_handler h e (some hs) w = if h hs then record w { events = e ∷ w.events } else w

abbrev pub emit : (Handlers → Bool) → Event → Run → Run
emit h e r = record r { w = call_handler h e r.cc.event_handlers r.w }

-- `vcur = val`
abbrev pub rewind : Option Bytes → Option Bytes
rewind none = none
rewind (some b) = some []

abbrev pub is_escape : ℕ → Bool
is_escape c = c == b'\\'

-- `val_used++` and what follows it, after the byte was stored: `b` are the bytes of the buffer with
-- the new one. A failed reallocation leaves the old buffer, and state 1 forgets it (`forgets`).
-- After a growth `vcur` is `val + val_used`, which has to be where the bytes end. The sum of the sizes
-- is taken not to wrap a size_t, as where `sexp_val_grow_size` and the buffer are below 2^63.
unfoldable pub grow_val : Bool → Bytes → Run → Outcome Run
grow_val forgets b r =
    if r.cc.val_used + 1 == r.cc.val_allocated
    then (let (w, granted) =
          on_heap (sexp_realloc (r.cc.val_allocated + r.w.val_grow_size) r.cc.val_allocated) r.w in
        if granted
        then (if r.cc.val_used + 1 == length b
            then next (record r {
              w = w;
              cc = record r.cc {
                val = some b;
                val_used = r.cc.val_used + 1;
                val_allocated = r.cc.val_allocated + r.w.val_grow_size;
              };
            })
            else fault)
        else save err_memory nil (record r {
          w = w;
          cc = record r.cc {
            val = if forgets then none else r.cc.val;
            val_used = r.cc.val_used + 1;
          };
        }))
    else next (record r { cc = record r.cc { val = some b; val_used = r.cc.val_used + 1 } })

-- `vcur[0] = c`, a fault outside the buffer, and the rest of the block.
unfoldable pub put_char : Bool → ℕ → Run → Outcome Run
unfolding grow_val
put_char forgets c r = elim r.cc.val [
  | none ↦ fault
  | some b ↦ if ltb (length b) r.cc.val_allocated then grow_val forgets (c ∷ b) r else fault
]

-- `vcur--; vcur[0] = c; vcur++`, a fault below the buffer.
unfoldable pub overwrite : ℕ → Run → Outcome Run
overwrite c r = elim r.cc.val [
  | none ↦ fault
  | some [] ↦ fault
  | some (_ ∷ b) ↦ next (record r { cc = record r.cc { val = some (c ∷ b) } })
]

-- `vcur[0] = '\0'`; the bytes of the buffer are the text now.
unfoldable pub terminate : Run → Outcome Bytes
terminate r = elim r.cc.val [
  | none ↦ fault
  | some b ↦ if ltb (length b) r.cc.val_allocated then next (reverse b) else fault
]

-- An element with the text `s`; the fields for binary data are not assigned.
abbrev pub atom_elt : AtomType → Bytes → ℕ → ℕ → Elt
atom_elt aty s allocated used = value (record {
  aty = aty;
  val = text s;
  val_allocated = allocated;
  val_used = used;
  bindata = none;
  binlength = 0;
})

-- An allocation whose failure ends the call.
unfoldable pub need : (World → World × Bool) → Run → Outcome Run
need f r =
    let (w, granted) = f r.w in
    if granted then next (record r { w = w }) else save err_memory nil (record r { w = w })

-- A new value buffer, after `sx` took the old one over. Where it is refused, `sx` is deallocated
-- with the buffer.
unfoldable pub new_val : Elt → Run → Outcome Run
new_val sx r =
    let (w, granted) = on_heap (sexp_malloc r.w.val_start_size) r.w in
    if granted
    then next (record r {
      w = w;
      cc = record r.cc { val = some []; val_allocated = r.w.val_start_size; val_used = 0 };
    })
    else elim (sexp_t_deallocate sx w) [
      | none ↦ fault
      | some w' ↦ save err_memory nil (record r { w = w'; cc = record r.cc { val = none } })
    ]

-- `elts++` and the new element in `sx`.
abbrev pub made : Elt → Run → Run
made sx r = record r { elts = uint_inc r.elts; sx = node sx nil }

-- The element takes the value buffer over, the handler is called, and the parser gets a new buffer.
-- State 5 sets `squoted` to 0 as it chooses the type (`clears`).
unfoldable pub make_atom : AtomType → Bool → Bytes → Run → Outcome (Run × Elt)
make_atom aty clears s r = need sexp_t_allocate r >>= λ r₁.
    let sx = atom_elt aty s r₁.cc.val_allocated r₁.cc.val_used in
    let r₂ = record (made sx r₁) {
      cc = record r₁.cc { squoted = if clears then false else r₁.cc.squoted };
    } in
    new_val sx (emit (λ h. h.characters) (Event.characters s r₁.cc.val_used aty) r₂) >>= λ r₃.
    next (r₃, sx)

-- `data->lst->next = sx`, or `data->fst = sx` on an empty level; a fault on NULL.
unfoldable pub attach : Elt → Run → Outcome Run
unfolding top_data set_top
attach sx r = elim (top_data r.cc.stack.used) [
  | some (some fst) ↦
      next (record r { cc = record r.cc { stack = set_top (some (snoc fst sx)) r.cc.stack } })
  | some none ↦ fault
  | none ↦ fault
]

-- `push(stack, data)`, whose result the parser ignores.
unfoldable pub push_data : ParseData → Run → Run
push_data d r =
    let (h, pushed) = push (some r.cc.stack) d r.w.heap in
    record r {
      w = record r.w { heap = h };
      cc = record r.cc { stack = elim pushed [ none ↦ r.cc.stack | some s ↦ s ] };
    }

-- `lvl = pop(stack)`, `sx = data->fst`, `pd_deallocate(data)` and `lvl->data = NULL`.
unfoldable pub pop_data : Run → Outcome Run
unfolding pop set_popped
pop_data r =
    let (h, s, lvl) = pop (some r.cc.stack) r.w.heap in
    elim s [
      | none ↦ fault
      | some s' ↦ elim lvl [
        | some (some fst) ↦ next (record r {
          w = pd_deallocate (record r.w { heap = h });
          cc = record r.cc { stack = set_popped none s' };
          sx = fst;
        })
        | some none ↦ fault
        | none ↦ fault
      ]
    ]

-- `while (stack->top != NULL)` round `pop_data`, over the levels in use.
unfoldable pub unwind : List ParseData → Run → Outcome Run
unwind [] r = next r
unwind (_ ∷ below) r = pop_data r >>= λ r'. unwind below r'

-- `data->lst->list = sx`, on an element that is a list; a fault on NULL and on a value.
unfoldable pub set_last_list : Sexp → Sexp → Option Sexp
set_last_list nil sx = none
set_last_list (node (value v) nil) sx = none
set_last_list (node (list l) nil) sx = some (node (list sx) nil)
set_last_list (node e (node d rest)) sx = elim (set_last_list (node d rest) sx) [
  | none ↦ none
  | some xs ↦ some (node e xs)
]
