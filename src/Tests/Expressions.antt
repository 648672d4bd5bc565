-- ===== src/Tests/Expressions.antt =====
-- The theorems on src/sexp_ops.c at concrete inputs, and runs of its functions.
use Prim.Native.String.{String}
use sfsexp.Prelude.{length, ◌<◌, ◌≡◌, refl, true, some, arith}
use sfsexp.Sexp.{basic, Sexp, list, nil, node}
use sfsexp.Sexp.View.{view_all}
use sfsexp.Cache.{World}
use sfsexp.Cache.Quiet.{IsReady}
use sfsexp.SexpOps.{find_sexp, bfs_find_sexp, copy_sexp, sexp_list_length}
use sfsexp.SexpOps.Search.{
  IsNamedFind, AreAssigned, is_found, find_sexp-bfs_find_sexp, find_sexp-IsNamed,
}
use sfsexp.SexpOps.Copy.{HasText, IsWhole, copy_sexp-view}
use sfsexp.Tests.Values.{codes, calm, calm-IsReady, atom_of, text_value}

-- ((y) x)
abbrev pair : Sexp
pair = node (list (node (list (node (atom_of basic "y") nil)) (node (atom_of basic "x") nil))) nil

-- A parsed atom holds its text.
whole : (t : String) → length (codes t) < 256 → HasText (text_value basic t)
whole t h = record {
  bytes = codes t;
  stored = refl;
  ended = omega arith;
  within = omega (arith, h);
}

find_sexp-bfs_find_sexp_example :
    (is_found (find_sexp (codes "x") pair) ≡ some true)
    × (is_found (bfs_find_sexp (codes "x") pair) ≡ some true)
unfolding AreAssigned sfsexp.SexpOps.Search.occurs
find_sexp-bfs_find_sexp_example =
    find_sexp-bfs_find_sexp (codes "x") pair ((((λ e. cc), tt), ((λ e. cc), tt)), tt)

find_sexp-IsNamed_example :
    IsNamedFind (codes "x") (find_sexp (codes "x") pair)
    × IsNamedFind (codes "x") (bfs_find_sexp (codes "x") pair)
find_sexp-IsNamed_example = find_sexp-IsNamed (codes "x") pair

copy_sexp-view_example :
    (w : World) × (s : Sexp) × (copy_sexp pair calm ≡ some (w, s))
    × (view_all s ≡ view_all pair)
    × IsReady w
unfolding IsWhole
copy_sexp-view_example =
    copy_sexp-view pair calm (((whole "y" (omega arith), tt), (whole "x" (omega arith), tt)), tt)
      calm-IsReady

length_run : sexp_list_length pair ≡ 2
unfolding sexp_list_length
length_run = refl
