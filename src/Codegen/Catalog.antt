-- ===== src/Codegen/Catalog.antt =====
-- The catalogues of the device types and functions of codegen.c.
pub mod Entry
pub mod Arith
pub mod Compare
pub mod Math
pub mod Libraries
use pg_strom.Prelude.{List, [], ◌∷◌, ◌++◌}
use pg_strom.Codegen.Catalog.Entry.{Procat}
use pg_strom.Codegen.Catalog.Arith.{cast_procs, arith_procs}
use pg_strom.Codegen.Catalog.Compare.{compare_procs}
use pg_strom.Codegen.Catalog.Math.{bit_procs, math_procs}
use pg_strom.Codegen.Catalog.Libraries.{
  devfunc_numericlib_catalog, devfunc_timelib_catalog, devfunc_textlib_catalog,
}
use pg_strom.Codegen.{Libs}

unfoldable pub devfunc_common_catalog : List Procat
unfolding cast_procs arith_procs compare_procs bit_procs math_procs
devfunc_common_catalog = cast_procs ++ (arith_procs ++ (compare_procs ++ (bit_procs ++ math_procs)))
