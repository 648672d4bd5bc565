-- ===== src/Cache/Storage.antt =====
-- The storage of the caches of src/parser.c in the limited build of the allocator: what they occupy
-- beside what the program holds, as elements go back to them and at the clean-up.
use sfsexp.Prelude.{
  ℕ, ◌+◌, ◌*◌, ◌≤◌, ◌<◌, ◌≡◌, refl, ◌∙◌, ap, true, false, List, [], ◌∷◌, Option, none, some, length,
  arith,
}
use sfsexp.Memory.{Heap, size_mod, sexp_malloc, sexp_free}
use sfsexp.FastStack.{
  int_inc, FastStack, empty, sizeof_stack_lvl, sizeof_faststack, make_stack, push, push_level,
}
use sfsexp.FastStack.Storage.{storage, destroy_stack-used, destroy_stack-limit}
use sfsexp.Cache.{
  World, Cached, sizeof_sexp, sizeof_parse_data, put_cached, free_cached, drop_cache, sexp_cleanup,
}

-- The bytes that a cache of elements of a size occupies: its levels, and the elements on them.
abbrev pub cached : ℕ → Option (FastStack Cached) → ℕ
cached size none = 0
cached size (some s) = storage s + size * length s.used

-- What the cache itself will take when it has to be made.
abbrev pub unmade : Option (FastStack Cached) → ℕ
unmade none = sizeof_faststack
unmade (some s) = 0

-- The limited build, every request within the limit granted, and `used` bytes charged.
pub record Charged (m used : ℕ) (h : Heap) : Type 0 where
  pub limit : h.max_memory ≡ some m
  pub charged : h.used_memory ≡ used
  pub grants : (n : ℕ) → h.refuses n ≡ false

pub sexp_malloc-Charged :
    (m used size : ℕ) (h : Heap)
    → m < size_mod
    → used + size ≤ m
    → Charged m used h
    → ((sexp_malloc size h).1 ≡ true) × Charged m (used + size) (sexp_malloc size h).0
unfolding sexp_malloc
sexp_malloc-Charged m used size h f r c = ground (arith, c.grants h.requests)

-- Where an element of `size` bytes goes back, they are the cache's, with at most one new level.
pub record PutBack (m base size : ℕ) (c : Option (FastStack Cached))
    (r : Heap × Option (FastStack Cached)) : Type 0 where
  pub kept : FastStack Cached
  pub still : r.1 ≡ some kept
  pub used : Charged m (base + cached size r.1) r.0
  pub grown : cached size r.1 ≤ cached size c + unmade c + sizeof_stack_lvl + size

push_level-PutBack :
    (m base size : ℕ) (s : FastStack Cached) (spares : List Cached) (h : Heap)
    → s.spare ≡ spares
    → m < size_mod
    → base + size + cached size (some s) + sizeof_stack_lvl ≤ m
    → Charged m (base + size + cached size (some s)) h
    → PutBack m base size (some s) (push_level tt s spares h)
unfolding push_level
push_level-PutBack m base size s (_ ∷ above) h e f r c = record {
  kept = record { used = tt ∷ s.used; spare = above; height = int_inc s.height };
  still = refl;
  used = ground (arith, c, ap (λ (l : List Cached). length l) e);
  grown = ground (arith, ap (λ (l : List Cached). length l) e);
}
push_level-PutBack m base size s [] h e f r c =
    let (granted, c') = sexp_malloc-Charged m _ sizeof_stack_lvl h f r c in
    rw granted (record {
      kept = record { used = tt ∷ s.used; spare = []; height = int_inc s.height };
      still = refl;
      used = ground (arith, c', ap (λ (l : List Cached). length l) e);
      grown = ground (arith, ap (λ (l : List Cached). length l) e);
    })

PutBack-made :
    {m base size : ℕ} {r : Heap × Option (FastStack Cached)}
    → PutBack m base size (some empty) r
    → PutBack m base size none r
PutBack-made p = record {
  kept = p.kept;
  still = p.still;
  used = p.used;
  grown = omega (arith, p.grown);
}

pub put_cached-PutBack :
    (m base size : ℕ) (c : Option (FastStack Cached)) (h : Heap)
    → m < size_mod
    → base + size + cached size c + unmade c + sizeof_stack_lvl ≤ m
    → Charged m (base + size + cached size c) h
    → PutBack m base size c (put_cached size c h)
unfolding put_cached push make_stack
put_cached-PutBack m base size (some s) h f r c =
    push_level-PutBack m base size s s.spare h refl f (omega (arith, r)) c
put_cached-PutBack m base size none h f r c =
    let (granted, c') = sexp_malloc-Charged m _ sizeof_faststack h f (omega (arith, r)) c in
    rw (granted, put_cached)
      (PutBack-made
        (push_level-PutBack m base size empty [] _ refl f (omega (arith, r)) (ground (arith, c'))))

free_cached-used :
    (size : ℕ) (xs : List Cached) (h : Heap) (m rest : ℕ)
    → h.max_memory ≡ some m
    → h.used_memory ≡ rest + size * length xs
    → ((free_cached size xs h).max_memory ≡ some m) × ((free_cached size xs h).used_memory ≡ rest)
unfolding free_cached sexp_free
free_cached-used size [] h m rest l c = (l, grind arith)
free_cached-used size (x ∷ xs) h m rest l c =
    free_cached-used size xs (sexp_free size h) m rest (ground (arith, l)) (grind (arith, l))

drop_cache-used :
    (size : ℕ) (c : Option (FastStack Cached)) (h : Heap) (m rest : ℕ)
    → h.max_memory ≡ some m
    → h.used_memory ≡ rest + cached size c
    → rest + cached size c ≤ m
    → ((drop_cache size c h).max_memory ≡ some m) × ((drop_cache size c h).used_memory ≡ rest)
unfolding drop_cache
drop_cache-used size none h m rest l c f = (l, omega (arith, c))
drop_cache-used size (some s) h m rest l c f =
    let f' = free_cached-used size s.used h m (rest + storage s) l (omega (arith, c)) in
    (
      destroy_stack-limit s (free_cached size s.used h) ∙ f'.0,
      destroy_stack-used m rest s (free_cached size s.used h)
          (record { limit = f'.0; charged = f'.1; within = omega (arith, f, f'.1) }),
    )

-- `sexp_cleanup` gives back what the caches occupy.
pub sexp_cleanup-used :
    (m live : ℕ) (w : World)
    → w.heap.max_memory ≡ some m
    → w.heap.used_memory
      ≡ live + cached sizeof_sexp w.sexp_t_cache + cached sizeof_parse_data w.pd_cache
    → w.heap.used_memory ≤ m
    → (sexp_cleanup w).heap.used_memory ≡ live
unfolding sexp_cleanup
sexp_cleanup-used m live w l c f =
    let d =
      drop_cache-used sizeof_parse_data w.pd_cache w.heap m
        (live + cached sizeof_sexp w.sexp_t_cache) l c (omega (arith, c, f)) in
    (drop_cache-used sizeof_sexp w.sexp_t_cache _ m live d.0 d.1 (omega (arith, c, f))).1
