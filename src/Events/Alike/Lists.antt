-- ===== src/Events/Alike/Lists.antt =====
-- The states 2 and 3 of src/parser.c and of src/event_temp.c side by side.
use sfsexp.Prelude.{
  ℕ, Bytes, zero, suc, ◌+◌, ◌≤◌, ◌<◌, ◌≡◌, refl, sym, ap, ◌∙◌, false, List, ◌∷◌, some, length,
  if◌then◌else◌, arith,
}
use sfsexp.Sexp.{list, nil, node}
use sfsexp.Cache.{sexp_t_allocate, pd_allocate}
use sfsexp.Cache.Quiet.{sexp_t_allocate_quiet}
use sfsexp.FastStack.{is_low, int_limit, int_max, int_inc}
use sfsexp.Parser.Base.{
  start, open_paren, ParseData, Run, ◌>>=◌, uint_inc, Meets-bind, Meets-if, falls,
}
use sfsexp.Parser.Actions.{made, pop_data}
use sfsexp.Parser.Frame.{Partly, Partly-intro}
use sfsexp.Parser.Structure.{step_open, root_level, open_level, close_list}
use sfsexp.Parser.Progress.Measure.{Partly-mono}
use sfsexp.RoundTrip.Conf.{Conf, InConf, need-Ready}
use sfsexp.RoundTrip.Lists.{place, open_level-InConf}
use sfsexp.Safety.{Good, Shape}
use sfsexp.Safety.Lists.{Opened-length, placed}
use sfsexp.Events.{on_open}
use sfsexp.Events.Alike.{Heard, AlikeAt, Both, Both-left, Both-end, Surely-and, Paired}
use sfsexp.Events.Alike.Blocks.{
  need_sexp-OnlyWorld, need_data-OnlyWorld, attach-Heard, push_data-Heard, pop_data-Heard,
}

-- The height of the stack in `eparse_sexp` when a list is opened.
abbrev raised : ℕ → ℕ
raised h = int_inc (if is_low h then int_inc h else h)

raised_at :
    (d : ℕ) (levels : List ParseData)
    → d + 1 < int_max
    → Shape d levels
    → raised (length levels) ≡ d + 2
raised_at zero levels b s = ap raised (ap (λ l. length l) s)
raised_at (suc d) levels b (top, below, l, o) =
    ap raised (ap (λ l. length l) l) ∙ ground (arith, Opened-length (suc d) below o)

root_level-Heard : (r : Run) → Partly (Heard r) (root_level r)
unfolding root_level pd_allocate
root_level-Heard r = Partly-intro (root_level r) λ r' e.
    ground
      (arith, push_data-Heard (some (node (list nil) nil)) (record r { w = (pd_allocate r.w).0 }))

place-Heard : (r : Run) → Partly (Heard r) (place r)
place-Heard r =
    Meets-if (is_low r.cc.stack.height) (λ _. root_level-Heard r) (λ _. attach-Heard (list nil) r)

open_level-Heard : (r : Run) → Partly (Heard r) (open_level r)
unfolding open_level
open_level-Heard r =
    Meets-bind (need_data-OnlyWorld r)
      λ r' p. falls (ground (arith, p, push_data-Heard (some nil) r'))

close_list-Heard : (r : Run) → Partly (Heard r) (close_list r)
unfolding close_list
close_list-Heard r = Partly-intro (close_list r) λ r' e. ground arith

pub closed-Heard : (r : Run) → Partly (Heard r) (pop_data r >>= close_list)
closed-Heard r =
    Meets-bind (pop_data-Heard r)
      λ r₁ p. Partly-mono (close_list-Heard r₁) λ r₂ q. ground (arith, p, q)

module _ (mem : Bytes) (n : ℕ) (k : Conf) (rc re : Run) (a : AlikeAt k rc re) (g : Good n k)
    (sq : k.squoted ≡ false) where
  pub on_open-Both :
      n < int_max → k.state ≡ open_paren → Both (Paired mem) (step_open rc) (on_open re)
  unfolding step_open on_open
  on_open-Both fits q =
      let (i, t, h) = a in
      let deep : k.depth + 1 ≤ k.t = ground (arith, g.deep, q) in
      let k₁ : Conf = record k { depth = k.depth + 1 } in
      let (levels, o, put) = placed k.depth k₁ g.shape in
      Both-left
        (Surely-and
          (need-Ready sexp_t_allocate
            (record rc { cc = record rc.cc { depth = uint_inc rc.cc.depth } })
            (sexp_t_allocate_quiet rc.w i.1))
          (need_sexp-OnlyWorld (record rc { cc = record rc.cc { depth = uint_inc rc.cc.depth } })))
        λ r₁ (b, only).
          let i₁ : InConf k₁ (made (list nil) r₁) =
            (ground (arith, i.0, b.0, deep, fits, g.within), b.1) in
          Both-left (Surely-and (put _ i₁) (place-Heard (made (list nil) r₁))) λ r₂ (i₂, h₂).
            let room : length levels + 1 < int_limit =
              omega (arith, Opened-length (suc k.depth) levels o, deep, fits, g.within) in
            Both-end _ (Surely-and (open_level-InConf _ r₂ room i₂) (open_level-Heard r₂))
              λ r₃ (i₃, h₃). (
                record k { state = start; depth = k.depth + 1; levels = some nil ∷ levels },
                (
                  i₃,
                  (
                    record {
                      counted =
                          ap raised t.0.counted
                          ∙ raised_at k.depth k.levels (omega (arith, deep, fits, g.within)) g.shape
                          ∙ sym (omega (arith, Opened-length (suc k.depth) levels o));
                      state = refl;
                      at = t.0.at;
                      depth = ground (arith, t.0.depth, deep, fits, g.within);
                      text = t.0.text;
                      text_used = t.0.text_used;
                      room = t.0.room;
                      esc = t.0.esc;
                      squoted = t.0.squoted;
                      mode = t.0.mode;
                    },
                    t.1,
                  ),
                  record {
                    qdepth = h.qdepth ∙ sym (h₃.qdepth ∙ h₂.qdepth ∙ ap (λ c. c.qdepth) only.0);
                    elts = ap uint_inc h.elts ∙ sym (h₃.elts ∙ h₂.elts ∙ ap uint_inc only.1);
                    handlers =
                        h.handlers
                        ∙ sym (h₃.handlers ∙ h₂.handlers ∙ ap (λ c. c.event_handlers) only.0);
                    events = h.events ∙ sym (h₃.events ∙ h₂.events ∙ only.2);
                  },
                ),
                sq,
              )
