-- ===== src/Codegen/Catalog/Arith.antt =====
-- The casts and arithmetic operators of `devfunc_common_catalog` of codegen.c.
use pg_strom.Prelude.{List, [], ◌∷◌}
use pg_strom.Codegen.Catalog.Entry.{
  bool_oid, int8_oid, int2_oid, int4_oid, float4_oid, float8_oid, Procat, proc, no_callback,
  div_oper,
}

-- Type cast functions.
unfoldable pub cast_procs : List Procat
cast_procs =
    proc "int2" 1 (int4_oid ∷ []) "c:" no_callback
    ∷ proc "int2" 1 (int8_oid ∷ []) "c:" no_callback
    ∷ proc "int2" 1 (float4_oid ∷ []) "c:" no_callback
    ∷ proc "int2" 1 (float8_oid ∷ []) "c:" no_callback
    ∷ proc "int4" 1 (bool_oid ∷ []) "c:" no_callback
    ∷ proc "int4" 1 (int2_oid ∷ []) "c:" no_callback
    ∷ proc "int4" 1 (int8_oid ∷ []) "c:" no_callback
    ∷ proc "int4" 1 (float4_oid ∷ []) "c:" no_callback
    ∷ proc "int4" 1 (float8_oid ∷ []) "c:" no_callback
    ∷ proc "int8" 1 (int2_oid ∷ []) "c:" no_callback
    ∷ proc "int8" 1 (int4_oid ∷ []) "c:" no_callback
    ∷ proc "int8" 1 (float4_oid ∷ []) "c:" no_callback
    ∷ proc "int8" 1 (float8_oid ∷ []) "c:" no_callback
    ∷ proc "float4" 1 (int2_oid ∷ []) "c:" no_callback
    ∷ proc "float4" 1 (int4_oid ∷ []) "c:" no_callback
    ∷ proc "float4" 1 (int8_oid ∷ []) "c:" no_callback
    ∷ proc "float4" 1 (float8_oid ∷ []) "c:" no_callback
    ∷ proc "float8" 1 (int2_oid ∷ []) "c:" no_callback
    ∷ proc "float8" 1 (int4_oid ∷ []) "c:" no_callback
    ∷ proc "float8" 1 (int8_oid ∷ []) "c:" no_callback
    ∷ proc "float8" 1 (float4_oid ∷ []) "c:" no_callback
    ∷ []

-- Arithmetic operators.
unfoldable pub arith_procs : List Procat
arith_procs =
    proc "int2pl" 2 (int2_oid ∷ int2_oid ∷ []) "b:+" no_callback
    ∷ proc "int24pl" 2 (int2_oid ∷ int4_oid ∷ []) "b:+" no_callback
    ∷ proc "int28pl" 2 (int2_oid ∷ int8_oid ∷ []) "b:+" no_callback
    ∷ proc "int42pl" 2 (int4_oid ∷ int2_oid ∷ []) "b:+" no_callback
    ∷ proc "int4pl" 2 (int4_oid ∷ int4_oid ∷ []) "b:+" no_callback
    ∷ proc "int48pl" 2 (int4_oid ∷ int8_oid ∷ []) "b:+" no_callback
    ∷ proc "int82pl" 2 (int8_oid ∷ int2_oid ∷ []) "b:+" no_callback
    ∷ proc "int84pl" 2 (int8_oid ∷ int4_oid ∷ []) "b:+" no_callback
    ∷ proc "int8pl" 2 (int8_oid ∷ int8_oid ∷ []) "b:+" no_callback
    ∷ proc "float4pl" 2 (float4_oid ∷ float4_oid ∷ []) "b:+" no_callback
    ∷ proc "float48pl" 2 (float4_oid ∷ float8_oid ∷ []) "b:+" no_callback
    ∷ proc "float84pl" 2 (float4_oid ∷ float4_oid ∷ []) "b:+" no_callback
    ∷ proc "float8pl" 2 (float8_oid ∷ float8_oid ∷ []) "b:+" no_callback
    ∷ proc "int2mi" 2 (int2_oid ∷ int2_oid ∷ []) "b:-" no_callback
    ∷ proc "int24mi" 2 (int2_oid ∷ int4_oid ∷ []) "b:-" no_callback
    ∷ proc "int28mi" 2 (int2_oid ∷ int8_oid ∷ []) "b:-" no_callback
    ∷ proc "int42mi" 2 (int4_oid ∷ int2_oid ∷ []) "b:-" no_callback
    ∷ proc "int4mi" 2 (int4_oid ∷ int4_oid ∷ []) "b:-" no_callback
    ∷ proc "int48mi" 2 (int4_oid ∷ int8_oid ∷ []) "b:-" no_callback
    ∷ proc "int82mi" 2 (int8_oid ∷ int2_oid ∷ []) "b:-" no_callback
    ∷ proc "int84mi" 2 (int8_oid ∷ int4_oid ∷ []) "b:-" no_callback
    ∷ proc "int8mi" 2 (int8_oid ∷ int8_oid ∷ []) "b:-" no_callback
    ∷ proc "float4mi" 2 (float4_oid ∷ float4_oid ∷ []) "b:-" no_callback
    ∷ proc "float48mi" 2 (float4_oid ∷ float8_oid ∷ []) "b:-" no_callback
    ∷ proc "float84mi" 2 (float4_oid ∷ float4_oid ∷ []) "b:-" no_callback
    ∷ proc "float8mi" 2 (float8_oid ∷ float8_oid ∷ []) "b:-" no_callback
    ∷ proc "int2mul" 2 (int2_oid ∷ int2_oid ∷ []) "b:*" no_callback
    ∷ proc "int24mul" 2 (int2_oid ∷ int4_oid ∷ []) "b:*" no_callback
    ∷ proc "int28mul" 2 (int2_oid ∷ int8_oid ∷ []) "b:*" no_callback
    ∷ proc "int42mul" 2 (int4_oid ∷ int2_oid ∷ []) "b:*" no_callback
    ∷ proc "int4mul" 2 (int4_oid ∷ int4_oid ∷ []) "b:*" no_callback
    ∷ proc "int48mul" 2 (int4_oid ∷ int8_oid ∷ []) "b:*" no_callback
    ∷ proc "int82mul" 2 (int8_oid ∷ int2_oid ∷ []) "b:*" no_callback
    ∷ proc "int84mul" 2 (int8_oid ∷ int4_oid ∷ []) "b:*" no_callback
    ∷ proc "int8mul" 2 (int8_oid ∷ int8_oid ∷ []) "b:*" no_callback
    ∷ proc "float4mul" 2 (float4_oid ∷ float4_oid ∷ []) "b:*" no_callback
    ∷ proc "float48mul" 2 (float4_oid ∷ float8_oid ∷ []) "b:*" no_callback
    ∷ proc "float84mul" 2 (float4_oid ∷ float4_oid ∷ []) "b:*" no_callback
    ∷ proc "float8mul" 2 (float8_oid ∷ float8_oid ∷ []) "b:*" no_callback
    ∷ proc "int2div" 2 (int2_oid ∷ int2_oid ∷ []) "0" div_oper
    ∷ proc "int24div" 2 (int2_oid ∷ int4_oid ∷ []) "0" div_oper
    ∷ proc "int28div" 2 (int2_oid ∷ int8_oid ∷ []) "0" div_oper
    ∷ proc "int42div" 2 (int4_oid ∷ int2_oid ∷ []) "0" div_oper
    ∷ proc "int4div" 2 (int4_oid ∷ int4_oid ∷ []) "0" div_oper
    ∷ proc "int48div" 2 (int4_oid ∷ int8_oid ∷ []) "0" div_oper
    ∷ proc "int82div" 2 (int8_oid ∷ int2_oid ∷ []) "0" div_oper
    ∷ proc "int84div" 2 (int8_oid ∷ int4_oid ∷ []) "0" div_oper
    ∷ proc "int8div" 2 (int8_oid ∷ int8_oid ∷ []) "0" div_oper
    ∷ proc "float4div" 2 (float4_oid ∷ float4_oid ∷ []) "0.0" div_oper
    ∷ proc "float48div" 2 (float4_oid ∷ float8_oid ∷ []) "0.0" div_oper
    ∷ proc "float84div" 2 (float4_oid ∷ float4_oid ∷ []) "0.0" div_oper
    ∷ proc "float8div" 2 (float8_oid ∷ float8_oid ∷ []) "0.0" div_oper
    ∷ proc "int2mod" 2 (int2_oid ∷ int2_oid ∷ []) "b:%" no_callback
    ∷ proc "int4mod" 2 (int4_oid ∷ int4_oid ∷ []) "b:%" no_callback
    ∷ proc "int8mod" 2 (int8_oid ∷ int8_oid ∷ []) "b:%" no_callback
    ∷ proc "int2up" 1 (int2_oid ∷ []) "l:+" no_callback
    ∷ proc "int4up" 1 (int4_oid ∷ []) "l:+" no_callback
    ∷ proc "int8up" 1 (int8_oid ∷ []) "l:+" no_callback
    ∷ proc "float4up" 1 (float4_oid ∷ []) "l:+" no_callback
    ∷ proc "float8up" 1 (float8_oid ∷ []) "l:+" no_callback
    ∷ proc "int2mi" 1 (int2_oid ∷ []) "l:-" no_callback
    ∷ proc "int4mi" 1 (int4_oid ∷ []) "l:-" no_callback
    ∷ proc "int8mi" 1 (int8_oid ∷ []) "l:-" no_callback
    ∷ proc "float4mi" 1 (float4_oid ∷ []) "l:-" no_callback
    ∷ proc "float8mi" 1 (float8_oid ∷ []) "l:-" no_callback
    ∷ proc "int2abs" 1 (int2_oid ∷ []) "f:abs" no_callback
    ∷ proc "int4abs" 1 (int4_oid ∷ []) "f:abs" no_callback
    ∷ proc "int8abs" 1 (int8_oid ∷ []) "f:abs" no_callback
    ∷ proc "float4abs" 1 (float4_oid ∷ []) "l:fabs" no_callback
    ∷ proc "float8abs" 1 (float8_oid ∷ []) "l:fabs" no_callback
    ∷ []
