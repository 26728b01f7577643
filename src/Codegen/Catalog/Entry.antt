-- ===== src/Codegen/Catalog/Entry.antt =====
-- The entries of the catalogues of codegen.c, with the object identifiers of PostgreSQL's `pg_type.h`.
use pg_strom.Prelude.{ℕ, Bool, true, false, List, [], ◌∷◌}
use Prim.Native.String.{String}

abbrev pub bool_oid : ℕ
bool_oid = 16

abbrev pub bytea_oid : ℕ
bytea_oid = 17

abbrev pub int8_oid : ℕ
int8_oid = 20

abbrev pub int2_oid : ℕ
int2_oid = 21

abbrev pub int4_oid : ℕ
int4_oid = 23

abbrev pub text_oid : ℕ
text_oid = 25

abbrev pub float4_oid : ℕ
float4_oid = 700

abbrev pub float8_oid : ℕ
float8_oid = 701

abbrev pub bpchar_oid : ℕ
bpchar_oid = 1042

abbrev pub varchar_oid : ℕ
varchar_oid = 1043

abbrev pub date_oid : ℕ
date_oid = 1082

abbrev pub time_oid : ℕ
time_oid = 1083

abbrev pub timestamp_oid : ℕ
timestamp_oid = 1114

abbrev pub timestamptz_oid : ℕ
timestamptz_oid = 1184

abbrev pub numeric_oid : ℕ
numeric_oid = 1700

-- An entry of `devtype_catalog`.
pub record Typecat : Type 0 where
  pub type_oid : ℕ
  pub type_base : String
  pub type_is_builtin : Bool

-- `func_callback`.
pub data Callback : Type 0 where
  no_callback div_oper setup_const : Callback

-- `devfunc_catalog_t`.
pub record Procat : Type 0 where
  pub func_name : String
  pub func_nargs : ℕ
  pub func_argtypes : List ℕ
  pub func_template : String
  pub func_callback : Callback

abbrev pub proc : String → ℕ → List ℕ → String → Callback → Procat
proc name nargs argtypes template callback = record {
  func_name = name;
  func_nargs = nargs;
  func_argtypes = argtypes;
  func_template = template;
  func_callback = callback;
}

abbrev typecat : ℕ → String → Bool → Typecat
typecat oid base builtin = record { type_oid = oid; type_base = base; type_is_builtin = builtin }

unfoldable pub devtype_catalog : List Typecat
devtype_catalog =
    typecat bool_oid "cl_bool" true
    ∷ typecat int2_oid "cl_short" false
    ∷ typecat int4_oid "cl_int" false
    ∷ typecat int8_oid "cl_long" false
    ∷ typecat float4_oid "cl_float" false
    ∷ typecat float8_oid "cl_double" false
    ∷ typecat date_oid "cl_int" false
    ∷ typecat time_oid "cl_long" false
    ∷ typecat timestamp_oid "cl_long" false
    ∷ typecat timestamptz_oid "cl_long" false
    ∷ typecat bpchar_oid "varlena" false
    ∷ typecat varchar_oid "varlena" false
    ∷ typecat numeric_oid "varlena" false
    ∷ typecat bytea_oid "varlena" false
    ∷ typecat text_oid "varlena" false
    ∷ []
