-- ===== src/Codegen/Catalog/Math.antt =====
-- The operators on bits and mathematical functions of `devfunc_common_catalog` of codegen.c.
use pg_strom.Prelude.{List, [], ◌∷◌}
use pg_strom.Codegen.Catalog.Entry.{
  int8_oid, int2_oid, int4_oid, float4_oid, float8_oid, Procat, proc, no_callback, setup_const,
}

-- Operators on bits.
unfoldable pub bit_procs : List Procat
bit_procs =
    proc "int2and" 2 (int2_oid ∷ int2_oid ∷ []) "b:&" no_callback
    ∷ proc "int4and" 2 (int4_oid ∷ int4_oid ∷ []) "b:&" no_callback
    ∷ proc "int8and" 2 (int8_oid ∷ int8_oid ∷ []) "b:&" no_callback
    ∷ proc "int2or" 2 (int2_oid ∷ int2_oid ∷ []) "b:|" no_callback
    ∷ proc "int4or" 2 (int4_oid ∷ int4_oid ∷ []) "b:|" no_callback
    ∷ proc "int8or" 2 (int8_oid ∷ int8_oid ∷ []) "b:|" no_callback
    ∷ proc "int2xor" 2 (int2_oid ∷ int2_oid ∷ []) "b:^" no_callback
    ∷ proc "int4xor" 2 (int4_oid ∷ int4_oid ∷ []) "b:^" no_callback
    ∷ proc "int8xor" 2 (int8_oid ∷ int8_oid ∷ []) "b:^" no_callback
    ∷ proc "int2not" 1 (int2_oid ∷ []) "b:~" no_callback
    ∷ proc "int4not" 1 (int4_oid ∷ []) "b:~" no_callback
    ∷ proc "int8not" 1 (int8_oid ∷ []) "b:~" no_callback
    ∷ proc "int2shr" 2 (int2_oid ∷ int4_oid ∷ []) "b:>>" no_callback
    ∷ proc "int4shr" 2 (int4_oid ∷ int4_oid ∷ []) "b:>>" no_callback
    ∷ proc "int8shr" 2 (int8_oid ∷ int4_oid ∷ []) "b:>>" no_callback
    ∷ proc "int2shl" 2 (int2_oid ∷ int4_oid ∷ []) "b:<<" no_callback
    ∷ proc "int4shl" 2 (int4_oid ∷ int4_oid ∷ []) "b:<<" no_callback
    ∷ proc "int8shl" 2 (int8_oid ∷ int4_oid ∷ []) "b:<<" no_callback
    ∷ []

-- Mathematical and trigonometric functions.
unfoldable pub math_procs : List Procat
math_procs =
    proc "abs" 1 (int2_oid ∷ []) "f:abs" no_callback
    ∷ proc "abs" 1 (int4_oid ∷ []) "f:abs" no_callback
    ∷ proc "abs" 1 (int8_oid ∷ []) "f:abs" no_callback
    ∷ proc "abs" 1 (float4_oid ∷ []) "f:fabs" no_callback
    ∷ proc "abs" 1 (float8_oid ∷ []) "f:fabs" no_callback
    ∷ proc "cbrt" 1 (float4_oid ∷ []) "f:cbrt" no_callback
    ∷ proc "dcbrt" 1 (float8_oid ∷ []) "f:cbrt" no_callback
    ∷ proc "ceil" 1 (float8_oid ∷ []) "f:ceil" no_callback
    ∷ proc "ceiling" 1 (float8_oid ∷ []) "f:ceil" no_callback
    ∷ proc "exp" 1 (float8_oid ∷ []) "f:exp" no_callback
    ∷ proc "dexp" 1 (float8_oid ∷ []) "f:exp" no_callback
    ∷ proc "floor" 1 (float8_oid ∷ []) "f:dfloor" no_callback
    ∷ proc "ln" 1 (float8_oid ∷ []) "f:log" no_callback
    ∷ proc "dlog1" 1 (float8_oid ∷ []) "f:log" no_callback
    ∷ proc "log" 1 (float8_oid ∷ []) "f:log10" no_callback
    ∷ proc "dlog10" 1 (float8_oid ∷ []) "f:log10" no_callback
    ∷ proc "pi" 0 [] "f:M_PI" setup_const
    ∷ proc "power" 2 (float8_oid ∷ float8_oid ∷ []) "f:pow" no_callback
    ∷ proc "pow" 2 (float8_oid ∷ float8_oid ∷ []) "f:pow" no_callback
    ∷ proc "dpow" 2 (float8_oid ∷ float8_oid ∷ []) "f:pow" no_callback
    ∷ proc "round" 1 (float8_oid ∷ []) "f:round" no_callback
    ∷ proc "dround" 1 (float8_oid ∷ []) "f:round" no_callback
    ∷ proc "sign" 1 (float8_oid ∷ []) "f:sign" no_callback
    ∷ proc "sqrt" 1 (float8_oid ∷ []) "f:sqrt" no_callback
    ∷ proc "dsqrt" 1 (float8_oid ∷ []) "f:sqrt" no_callback
    ∷ proc "trunc" 1 (float8_oid ∷ []) "f:trunc" no_callback
    ∷ proc "dtrunc" 1 (float8_oid ∷ []) "f:trunc" no_callback
    ∷ proc "degrees" 1 (float4_oid ∷ []) "f:degrees" no_callback
    ∷ proc "degrees" 1 (float8_oid ∷ []) "f:degrees" no_callback
    ∷ proc "radians" 1 (float8_oid ∷ []) "f:radians" no_callback
    ∷ proc "acos" 1 (float8_oid ∷ []) "f:acos" no_callback
    ∷ proc "asin" 1 (float8_oid ∷ []) "f:asin" no_callback
    ∷ proc "atan" 1 (float8_oid ∷ []) "f:atan" no_callback
    ∷ proc "atan2" 2 (float8_oid ∷ float8_oid ∷ []) "f:atan2" no_callback
    ∷ proc "cos" 1 (float8_oid ∷ []) "f:cos" no_callback
    ∷ proc "sin" 1 (float8_oid ∷ []) "f:sin" no_callback
    ∷ proc "tan" 1 (float8_oid ∷ []) "f:tan" no_callback
    ∷ []
