-- ===== src/Codegen/Catalog/Compare.antt =====
-- The comparisons of `devfunc_common_catalog` of codegen.c.
use pg_strom.Prelude.{List, [], ◌∷◌}
use pg_strom.Codegen.Catalog.Entry.{
  int8_oid, int2_oid, int4_oid, float4_oid, float8_oid, Procat, proc, no_callback,
}

-- Comparisons.
unfoldable pub compare_procs : List Procat
compare_procs =
    proc "int2eq" 2 (int2_oid ∷ int2_oid ∷ []) "b:==" no_callback
    ∷ proc "int24eq" 2 (int2_oid ∷ int4_oid ∷ []) "b:==" no_callback
    ∷ proc "int28eq" 2 (int2_oid ∷ int8_oid ∷ []) "b:==" no_callback
    ∷ proc "int42eq" 2 (int4_oid ∷ int2_oid ∷ []) "b:==" no_callback
    ∷ proc "int4eq" 2 (int4_oid ∷ int4_oid ∷ []) "b:==" no_callback
    ∷ proc "int48eq" 2 (int4_oid ∷ int8_oid ∷ []) "b:==" no_callback
    ∷ proc "int82eq" 2 (int8_oid ∷ int2_oid ∷ []) "b:==" no_callback
    ∷ proc "int84eq" 2 (int8_oid ∷ int4_oid ∷ []) "b:==" no_callback
    ∷ proc "int8eq" 2 (int8_oid ∷ int8_oid ∷ []) "b:==" no_callback
    ∷ proc "float4eq" 2 (float4_oid ∷ float4_oid ∷ []) "b:==" no_callback
    ∷ proc "float48eq" 2 (float4_oid ∷ float8_oid ∷ []) "b:==" no_callback
    ∷ proc "float84eq" 2 (float4_oid ∷ float4_oid ∷ []) "b:==" no_callback
    ∷ proc "float8eq" 2 (float8_oid ∷ float8_oid ∷ []) "b:==" no_callback
    ∷ proc "int2ne" 2 (int2_oid ∷ int2_oid ∷ []) "b:!=" no_callback
    ∷ proc "int24ne" 2 (int2_oid ∷ int4_oid ∷ []) "b:!=" no_callback
    ∷ proc "int28ne" 2 (int2_oid ∷ int8_oid ∷ []) "b:!=" no_callback
    ∷ proc "int42ne" 2 (int4_oid ∷ int2_oid ∷ []) "b:!=" no_callback
    ∷ proc "int4ne" 2 (int4_oid ∷ int4_oid ∷ []) "b:!=" no_callback
    ∷ proc "int48ne" 2 (int4_oid ∷ int8_oid ∷ []) "b:!=" no_callback
    ∷ proc "int82ne" 2 (int8_oid ∷ int2_oid ∷ []) "b:!=" no_callback
    ∷ proc "int84ne" 2 (int8_oid ∷ int4_oid ∷ []) "b:!=" no_callback
    ∷ proc "int8ne" 2 (int8_oid ∷ int8_oid ∷ []) "b:!=" no_callback
    ∷ proc "float4ne" 2 (float4_oid ∷ float4_oid ∷ []) "b:!=" no_callback
    ∷ proc "float48ne" 2 (float4_oid ∷ float8_oid ∷ []) "b:!=" no_callback
    ∷ proc "float84ne" 2 (float4_oid ∷ float4_oid ∷ []) "b:!=" no_callback
    ∷ proc "float8ne" 2 (float8_oid ∷ float8_oid ∷ []) "b:!=" no_callback
    ∷ proc "int2gt" 2 (int2_oid ∷ int2_oid ∷ []) "b:>" no_callback
    ∷ proc "int24gt" 2 (int2_oid ∷ int4_oid ∷ []) "b:>" no_callback
    ∷ proc "int28gt" 2 (int2_oid ∷ int8_oid ∷ []) "b:>" no_callback
    ∷ proc "int42gt" 2 (int4_oid ∷ int2_oid ∷ []) "b:>" no_callback
    ∷ proc "int4gt" 2 (int4_oid ∷ int4_oid ∷ []) "b:>" no_callback
    ∷ proc "int48gt" 2 (int4_oid ∷ int8_oid ∷ []) "b:>" no_callback
    ∷ proc "int82gt" 2 (int8_oid ∷ int2_oid ∷ []) "b:>" no_callback
    ∷ proc "int84gt" 2 (int8_oid ∷ int4_oid ∷ []) "b:>" no_callback
    ∷ proc "int8gt" 2 (int8_oid ∷ int8_oid ∷ []) "b:>" no_callback
    ∷ proc "float4gt" 2 (float4_oid ∷ float4_oid ∷ []) "b:>" no_callback
    ∷ proc "float48gt" 2 (float4_oid ∷ float8_oid ∷ []) "b:>" no_callback
    ∷ proc "float84gt" 2 (float4_oid ∷ float4_oid ∷ []) "b:>" no_callback
    ∷ proc "float8gt" 2 (float8_oid ∷ float8_oid ∷ []) "b:>" no_callback
    ∷ proc "int2lt" 2 (int2_oid ∷ int2_oid ∷ []) "b:<" no_callback
    ∷ proc "int24lt" 2 (int2_oid ∷ int4_oid ∷ []) "b:<" no_callback
    ∷ proc "int28lt" 2 (int2_oid ∷ int8_oid ∷ []) "b:<" no_callback
    ∷ proc "int42lt" 2 (int4_oid ∷ int2_oid ∷ []) "b:<" no_callback
    ∷ proc "int4lt" 2 (int4_oid ∷ int4_oid ∷ []) "b:<" no_callback
    ∷ proc "int48lt" 2 (int4_oid ∷ int8_oid ∷ []) "b:<" no_callback
    ∷ proc "int82lt" 2 (int8_oid ∷ int2_oid ∷ []) "b:<" no_callback
    ∷ proc "int84lt" 2 (int8_oid ∷ int4_oid ∷ []) "b:<" no_callback
    ∷ proc "int8lt" 2 (int8_oid ∷ int8_oid ∷ []) "b:<" no_callback
    ∷ proc "float4lt" 2 (float4_oid ∷ float4_oid ∷ []) "b:<" no_callback
    ∷ proc "float48lt" 2 (float4_oid ∷ float8_oid ∷ []) "b:<" no_callback
    ∷ proc "float84lt" 2 (float4_oid ∷ float4_oid ∷ []) "b:<" no_callback
    ∷ proc "float8lt" 2 (float8_oid ∷ float8_oid ∷ []) "b:<" no_callback
    ∷ proc "int2ge" 2 (int2_oid ∷ int2_oid ∷ []) "b:>=" no_callback
    ∷ proc "int24ge" 2 (int2_oid ∷ int4_oid ∷ []) "b:>=" no_callback
    ∷ proc "int28ge" 2 (int2_oid ∷ int8_oid ∷ []) "b:>=" no_callback
    ∷ proc "int42ge" 2 (int4_oid ∷ int2_oid ∷ []) "b:>=" no_callback
    ∷ proc "int4ge" 2 (int4_oid ∷ int4_oid ∷ []) "b:>=" no_callback
    ∷ proc "int48ge" 2 (int4_oid ∷ int8_oid ∷ []) "b:>=" no_callback
    ∷ proc "int82ge" 2 (int8_oid ∷ int2_oid ∷ []) "b:>=" no_callback
    ∷ proc "int84ge" 2 (int8_oid ∷ int4_oid ∷ []) "b:>=" no_callback
    ∷ proc "int8ge" 2 (int8_oid ∷ int8_oid ∷ []) "b:>=" no_callback
    ∷ proc "float4ge" 2 (float4_oid ∷ float4_oid ∷ []) "b:>=" no_callback
    ∷ proc "float48ge" 2 (float4_oid ∷ float8_oid ∷ []) "b:>=" no_callback
    ∷ proc "float84ge" 2 (float4_oid ∷ float4_oid ∷ []) "b:>=" no_callback
    ∷ proc "float8ge" 2 (float8_oid ∷ float8_oid ∷ []) "b:>=" no_callback
    ∷ proc "int2le" 2 (int2_oid ∷ int2_oid ∷ []) "b:<=" no_callback
    ∷ proc "int24le" 2 (int2_oid ∷ int4_oid ∷ []) "b:<=" no_callback
    ∷ proc "int28le" 2 (int2_oid ∷ int8_oid ∷ []) "b:<=" no_callback
    ∷ proc "int42le" 2 (int4_oid ∷ int2_oid ∷ []) "b:<=" no_callback
    ∷ proc "int4le" 2 (int4_oid ∷ int4_oid ∷ []) "b:<=" no_callback
    ∷ proc "int48le" 2 (int4_oid ∷ int8_oid ∷ []) "b:<=" no_callback
    ∷ proc "int82le" 2 (int8_oid ∷ int2_oid ∷ []) "b:<=" no_callback
    ∷ proc "int84le" 2 (int8_oid ∷ int4_oid ∷ []) "b:<=" no_callback
    ∷ proc "int8le" 2 (int8_oid ∷ int8_oid ∷ []) "b:<=" no_callback
    ∷ proc "float4le" 2 (float4_oid ∷ float4_oid ∷ []) "b:<=" no_callback
    ∷ proc "float48le" 2 (float4_oid ∷ float8_oid ∷ []) "b:<=" no_callback
    ∷ proc "float84le" 2 (float4_oid ∷ float4_oid ∷ []) "b:<=" no_callback
    ∷ proc "float8le" 2 (float8_oid ∷ float8_oid ∷ []) "b:<=" no_callback
    ∷ []
