-- ===== src/Codegen/Catalog/Libraries.antt =====
-- The catalogues of codegen.c whose functions stand in a library of the device.
use pg_strom.Prelude.{List, [], ◌∷◌}
use pg_strom.Codegen.Catalog.Entry.{
  int4_oid, text_oid, bpchar_oid, date_oid, time_oid, timestamp_oid, timestamptz_oid, numeric_oid,
  Procat, proc, no_callback,
}

-- `devfunc_numericlib_catalog`, less what is compiled out.
unfoldable pub devfunc_numericlib_catalog : List Procat
devfunc_numericlib_catalog =
    proc "int2" 1 (numeric_oid ∷ []) "F:numeric_int2" no_callback
    ∷ proc "int4" 1 (numeric_oid ∷ []) "F:numeric_int4" no_callback
    ∷ proc "int8" 1 (numeric_oid ∷ []) "F:numeric_int8" no_callback
    ∷ proc "float4" 1 (numeric_oid ∷ []) "F:numeric_float4" no_callback
    ∷ proc "float8" 1 (numeric_oid ∷ []) "F:numeric_float8" no_callback
    ∷ proc "numeric_eq" 2 (numeric_oid ∷ numeric_oid ∷ []) "F:numeric_eq" no_callback
    ∷ proc "numeric_ne" 2 (numeric_oid ∷ numeric_oid ∷ []) "F:numeric_ne" no_callback
    ∷ proc "numeric_lt" 2 (numeric_oid ∷ numeric_oid ∷ []) "F:numeric_lt" no_callback
    ∷ proc "numeric_le" 2 (numeric_oid ∷ numeric_oid ∷ []) "F:numeric_le" no_callback
    ∷ proc "numeric_gt" 2 (numeric_oid ∷ numeric_oid ∷ []) "F:numeric_gt" no_callback
    ∷ proc "numeric_ge" 2 (numeric_oid ∷ numeric_oid ∷ []) "F:numeric_ge" no_callback
    ∷ []

-- `devfunc_timelib_catalog`.
unfoldable pub devfunc_timelib_catalog : List Procat
devfunc_timelib_catalog =
    proc "date" 1 (date_oid ∷ []) "c:" no_callback
    ∷ proc "date" 1 (timestamp_oid ∷ []) "F:timestamp_date" no_callback
    ∷ proc "date" 1 (timestamptz_oid ∷ []) "F:timestamptz_date" no_callback
    ∷ proc "time" 1 (timestamp_oid ∷ []) "F:timestamp_time" no_callback
    ∷ proc "time" 1 (timestamptz_oid ∷ []) "F:timestamptz_time" no_callback
    ∷ proc "time" 1 (time_oid ∷ []) "c:" no_callback
    ∷ proc "timestamp" 1 (timestamp_oid ∷ []) "c:" no_callback
    ∷ proc "timestamp" 1 (timestamptz_oid ∷ []) "F:timestamptz_timestamp" no_callback
    ∷ proc "timestamp" 1 (date_oid ∷ []) "F:date_timestamp" no_callback
    ∷ proc "timestamptz" 1 (timestamp_oid ∷ []) "F:timestamp_timestamptz" no_callback
    ∷ proc "timestamptz" 1 (timestamptz_oid ∷ []) "c:" no_callback
    ∷ proc "timestamptz" 1 (date_oid ∷ []) "F:date_timestamptz" no_callback
    ∷ proc "datetime_pl" 2 (date_oid ∷ time_oid ∷ []) "F:datetime_pl" no_callback
    ∷ proc "timedate_pl" 2 (time_oid ∷ date_oid ∷ []) "F:timedata_pl" no_callback
    ∷ proc "date_pli" 2 (date_oid ∷ int4_oid ∷ []) "F:date_pli" no_callback
    ∷ proc "integer_pl_date" 2 (int4_oid ∷ date_oid ∷ []) "F:integer_pl_date" no_callback
    ∷ proc "date_mii" 2 (date_oid ∷ int4_oid ∷ []) "F:date_mii" no_callback
    ∷ proc "date_eq" 2 (date_oid ∷ date_oid ∷ []) "b:==" no_callback
    ∷ proc "date_ne" 2 (date_oid ∷ date_oid ∷ []) "b:!=" no_callback
    ∷ proc "date_lt" 2 (date_oid ∷ date_oid ∷ []) "b:<" no_callback
    ∷ proc "date_le" 2 (date_oid ∷ date_oid ∷ []) "b:<=" no_callback
    ∷ proc "date_gt" 2 (date_oid ∷ date_oid ∷ []) "b:>" no_callback
    ∷ proc "date_ge" 2 (date_oid ∷ date_oid ∷ []) "b:>=" no_callback
    ∷ proc "time_eq" 2 (time_oid ∷ time_oid ∷ []) "b:==" no_callback
    ∷ proc "time_ne" 2 (time_oid ∷ time_oid ∷ []) "b:!=" no_callback
    ∷ proc "time_lt" 2 (time_oid ∷ time_oid ∷ []) "b:<" no_callback
    ∷ proc "time_le" 2 (time_oid ∷ time_oid ∷ []) "b:<=" no_callback
    ∷ proc "time_gt" 2 (time_oid ∷ time_oid ∷ []) "b:>" no_callback
    ∷ proc "time_ge" 2 (time_oid ∷ time_oid ∷ []) "b:>=" no_callback
    ∷ proc "timestamp_eq" 2 (timestamp_oid ∷ timestamp_oid ∷ []) "F:timestamp_eq" no_callback
    ∷ proc "timestamp_ne" 2 (timestamp_oid ∷ timestamp_oid ∷ []) "F:timestamp_ne" no_callback
    ∷ proc "timestamp_lt" 2 (timestamp_oid ∷ timestamp_oid ∷ []) "F:timestamp_lt" no_callback
    ∷ proc "timestamp_le" 2 (timestamp_oid ∷ timestamp_oid ∷ []) "F:timestamp_le" no_callback
    ∷ proc "timestamp_gt" 2 (timestamp_oid ∷ timestamp_oid ∷ []) "F:timestamp_gt" no_callback
    ∷ proc "timestamp_ge" 2 (timestamp_oid ∷ timestamp_oid ∷ []) "F:timestamp_ge" no_callback
    ∷ []

-- `devfunc_textlib_catalog`.
unfoldable pub devfunc_textlib_catalog : List Procat
devfunc_textlib_catalog =
    proc "bpchareq" 2 (bpchar_oid ∷ bpchar_oid ∷ []) "F:bpchareq" no_callback
    ∷ proc "bpcharne" 2 (bpchar_oid ∷ bpchar_oid ∷ []) "F:bpcharne" no_callback
    ∷ proc "bpcharlt" 2 (bpchar_oid ∷ bpchar_oid ∷ []) "F:bpcharlt" no_callback
    ∷ proc "bpcharle" 2 (bpchar_oid ∷ bpchar_oid ∷ []) "F:bpcharle" no_callback
    ∷ proc "bpchargt" 2 (bpchar_oid ∷ bpchar_oid ∷ []) "F:bpchargt" no_callback
    ∷ proc "bpcharge" 2 (bpchar_oid ∷ bpchar_oid ∷ []) "F:bpcharge" no_callback
    ∷ proc "texteq" 2 (text_oid ∷ text_oid ∷ []) "F:texteq" no_callback
    ∷ proc "textne" 2 (text_oid ∷ text_oid ∷ []) "F:textne" no_callback
    ∷ proc "textlt" 2 (text_oid ∷ text_oid ∷ []) "F:textlt" no_callback
    ∷ proc "textle" 2 (text_oid ∷ text_oid ∷ []) "F:textle" no_callback
    ∷ proc "textgt" 2 (text_oid ∷ text_oid ∷ []) "F:textgt" no_callback
    ∷ proc "textge" 2 (text_oid ∷ text_oid ∷ []) "F:textge" no_callback
    ∷ []
