-- ===== src/Codegen/Setup.antt =====
-- The texts of device functions: the `devfunc_setup_*` functions of codegen.c, and the functions for
-- null tests of a type.
pub mod Pointers
pub mod Catalogued
pub mod Outcome
use pg_strom.Prelude.{
  ℕ, zero, suc, ◌+◌, Bool, true, false, if◌then◌else◌, Option, none, some, List, [], ◌∷◌,
}
use Prim.Native.String.{String, ◌++◌ as ◌<>◌, slice, len}
use text.Mathlib.Text.{starts_with}
use pg_strom.Codegen.{Devtype, BoolExprType, and_expr, or_expr, not_expr}
use pg_strom.Codegen.Catalog.Entry.{Procat, Callback, no_callback, div_oper, setup_const}

-- A `devfunc_info` that is being set up: its name and text (`none` is `NULL`), a negative entry, or a
-- null pointer that is followed. A type of the arguments or the result may be `NULL`.
pub data Setup : Type 0 where
  set_up : String → Option String → Setup
  negative null_pointer : Setup

-- The text of a format and its arguments.
abbrev pub concat : List String → String
concat [] = ""
concat (s ∷ ss) = s <> concat ss

-- `templ + 2`.
abbrev pub behind_mark : String → String
behind_mark t = slice t 2 (len t)

-- The text for null tests of the type `name`; `bool` is the name of the result's type.
null_test_text : String → String → String → String → String
null_test_text bool func name value = concat (
    "static pg_" ∷ bool ∷ "_t pgfn_" ∷ func ∷ "(pg_" ∷ name ∷ "_t arg)\n{\n  pg_" ∷ bool
    ∷ "_t result;\n\n  result.isnull = false;\n  result.value = " ∷ value
    ∷ ";\n  return result;\n}\n" ∷ [])

abbrev pub is_null_name : String → String
is_null_name name = name <> "_is_null"

abbrev pub is_not_null_name : String → String
is_not_null_name name = name <> "_is_not_null"

unfoldable pub make_devtype_is_null_fn : String → String → String
unfolding null_test_text
make_devtype_is_null_fn bool name = null_test_text bool (is_null_name name) name "arg.isnull"

unfoldable pub make_devtype_is_not_null_fn : String → String → String
unfolding null_test_text
make_devtype_is_not_null_fn bool name =
    null_test_text bool (is_not_null_name name) name "!arg.isnull"

-- The head of a function of the two types, with its result.
abbrev head_of_two : Devtype → String → Devtype → Devtype → String
head_of_two ret func dtype1 dtype2 = concat (
    "static pg_" ∷ ret.type_name ∷ "_t pgfn_" ∷ func ∷ "(pg_" ∷ dtype1.type_name ∷ "_t arg1, pg_"
    ∷ dtype2.type_name ∷ "_t arg2)\n{\n    pg_" ∷ ret.type_name ∷ "_t result;\n" ∷ [])

abbrev head_of_one : Devtype → String → Devtype → String
head_of_one ret func dtype = concat (
    "static pg_" ∷ ret.type_name ∷ "_t pgfn_" ∷ func ∷ "(pg_" ∷ dtype.type_name
    ∷ "_t arg)\n{\n    pg_" ∷ ret.type_name ∷ "_t result;\n" ∷ [])

-- `linitial` and `lsecond` of the types of the arguments.
unfoldable pub devfunc_setup_div_oper : Option Devtype → List (Option Devtype) → Procat → Setup
devfunc_setup_div_oper (some ret) (some dtype1 ∷ some dtype2 ∷ _) procat = set_up procat.func_name (
    some (
      concat (
        head_of_two ret procat.func_name dtype1 dtype2
        ∷ "    if (arg2 == "
        ∷ procat.func_template
        ∷ ")\n    {\n        result.isnull = true;\n        PG_ERRORSET(ERRCODE_DIVISION_BY_ZERO);\n    }\n    else\n    {\n        result.value = ("
        ∷ ret.type_base
        ∷ ")(arg1 / arg2);\n        result.isnull = arg1.isnull | arg2.isnull;\n    }\n    return result;\n}\n"
        ∷ [])))
devfunc_setup_div_oper _ _ procat = null_pointer

unfoldable pub devfunc_setup_const : Option Devtype → Procat → Setup
devfunc_setup_const (some ret) procat = set_up procat.func_name (
    some (
      concat (
        "static pg_" ∷ ret.type_name ∷ "_t pgfn_" ∷ procat.func_name ∷ "(void)\n{\n  pg_"
        ∷ ret.type_name ∷ "_t result;\n  result.isnull = false;\n  result.value = "
        ∷ procat.func_template ∷ ";\n  return result;\n}\n" ∷ [])))
devfunc_setup_const none procat = null_pointer

unfoldable pub devfunc_setup_cast : Option Devtype → List (Option Devtype) → Procat → Setup
devfunc_setup_cast (some ret) (some dtype ∷ _) procat = set_up procat.func_name (
    some (
      concat (
        head_of_one ret procat.func_name dtype
        ∷ "    result.value  = ("
        ∷ ret.type_base
        ∷ ")arg.value;\n    result.isnull = arg.isnull;\n    return result;\n}\n"
        ∷ [])))
devfunc_setup_cast _ _ procat = null_pointer

unfoldable pub devfunc_setup_oper_both : Option Devtype → List (Option Devtype) → Procat → Setup
devfunc_setup_oper_both (some ret) (some dtype1 ∷ some dtype2 ∷ _) procat =
    set_up procat.func_name (
      some (
        concat (
          head_of_two ret procat.func_name dtype1 dtype2
          ∷ "    result.value = ("
          ∷ ret.type_base
          ∷ ")(arg1.value "
          ∷ behind_mark procat.func_template
          ∷ " arg2.value);\n    result.isnull = arg1.isnull | arg2.isnull;\n    return result;\n}\n"
          ∷ [])))
devfunc_setup_oper_both _ _ procat = null_pointer

unfoldable pub devfunc_setup_oper_either : Option Devtype → List (Option Devtype) → Procat → Setup
devfunc_setup_oper_either (some ret) (some dtype ∷ _) procat =
    let templ = procat.func_template in
    set_up procat.func_name (
      some (
        concat (
          head_of_one ret procat.func_name dtype
          ∷ "    result.value = ("
          ∷ ret.type_base
          ∷ ")("
          ∷ (if starts_with templ "l:" then behind_mark templ else "")
          ∷ "arg"
          ∷ (if starts_with templ "r:" then behind_mark templ else "")
          ∷ ");\n    result.isnull = arg.isnull;\n    return result;\n}\n"
          ∷ [])))
devfunc_setup_oper_either _ _ procat = null_pointer

abbrev pub prefixed : String → Option String → Option String
prefixed s none = none
prefixed s (some t) = some (s <> t)

-- The three loops over the arguments; `index` counts from 1 and `sep` stands in front of all but the
-- first. A type that is `NULL` is followed in the first loop.
abbrev pub arg_list : (ℕ → String) → List (Option Devtype) → ℕ → String → String → Option String
arg_list print [] index first sep = some ""
arg_list print (none ∷ ds) index first sep = none
arg_list print (some d ∷ ds) index first sep =
    prefixed (concat (first ∷ "pg_" ∷ d.type_name ∷ "_t arg" ∷ print index ∷ []))
      (arg_list print ds (suc index) sep sep)

abbrev pub arg_fields : (ℕ → String) → List (Option Devtype) → ℕ → String → String → String → String
arg_fields print [] index field first sep = ""
arg_fields print (d ∷ ds) index field first sep =
    concat
      (first ∷ "arg" ∷ print index ∷ field ∷ arg_fields print ds (suc index) field sep sep ∷ [])

abbrev is_null_of_args : (ℕ → String) → List (Option Devtype) → String
is_null_of_args print [] = "false"
is_null_of_args print (d ∷ ds) = arg_fields print (d ∷ ds) 1 ".isnull" "" " | "

-- The text behind the list of arguments, where that has been printed.
abbrev pub func_text :
    (ℕ → String) → Devtype → List (Option Devtype) → Procat → Option String → Setup
func_text print ret args procat none = null_pointer
func_text print ret args procat (some declared) = set_up procat.func_name (
    some (
      concat (
        "static pg_"
        ∷ ret.type_name
        ∷ "_t pgfn_"
        ∷ procat.func_name
        ∷ "("
        ∷ declared
        ∷ ")\n{\n    pg_"
        ∷ ret.type_name
        ∷ "_t result;\n    result.isnull = "
        ∷ is_null_of_args print args
        ∷ ";\n    if (!result.isnull)\n        result.value = ("
        ∷ ret.type_base
        ∷ ") "
        ∷ behind_mark procat.func_template
        ∷ "("
        ∷ arg_fields print args 1 ".value" "" ", "
        ∷ ");\n    return result;\n}\n"
        ∷ [])))

unfoldable pub devfunc_setup_func :
    (ℕ → String) → Option Devtype → List (Option Devtype) → Procat → Setup
devfunc_setup_func print none args procat = null_pointer
devfunc_setup_func print (some ret) args procat =
    func_text print ret args procat (arg_list print args 1 "" ", ")

-- The loops of `devfunc_setup_boolop`: `n` arguments from number `index` on.
abbrev pub repeat_args : (ℕ → String) → ℕ → ℕ → String → String → String → String → String
repeat_args print zero index before after first sep = ""
repeat_args print (suc n) index before after first sep = concat (
    first
    ∷ before
    ∷ print index
    ∷ after
    ∷ repeat_args print n (suc index) before after sep sep
    ∷ [])

abbrev boolop_sep : BoolExprType → String
boolop_sep and_expr = " & "
boolop_sep or_expr = " | "
boolop_sep not_expr = " | "

-- The text; `bool` is the name of the type.
unfoldable pub devfunc_setup_boolop_text :
    (ℕ → String) → BoolExprType → String → String → ℕ → String
devfunc_setup_boolop_text print boolop bool fn_name fn_nargs = concat (
    "static pg_"
    ∷ bool
    ∷ "_t pgfn_"
    ∷ fn_name
    ∷ "("
    ∷ repeat_args print fn_nargs 1 (concat ("pg_" ∷ bool ∷ "_t arg" ∷ [])) "" "" ", "
    ∷ ")\n{\n  pg_"
    ∷ bool
    ∷ "_t result;\n  result.isnull = "
    ∷ repeat_args print fn_nargs 1 "arg" ".isnull" "" " | "
    ∷ ";\n  result.value = "
    ∷ repeat_args print fn_nargs 1 "arg" ".value" "" (boolop_sep boolop)
    ∷ ";\n  return result;\n}\n"
    ∷ [])

-- The choice of the set-up by the mark of the template, for an entry without a callback.
unfoldable pub setup_template :
    (ℕ → String) → Option Devtype → List (Option Devtype) → Procat → Setup
setup_template print ret args procat =
    let templ = procat.func_template in
    if starts_with templ "c:"
    then devfunc_setup_cast ret args procat
    else if starts_with templ "b:"
    then devfunc_setup_oper_both ret args procat
    else if starts_with templ "l:"
    then devfunc_setup_oper_either ret args procat
    else if starts_with templ "r:"
    then devfunc_setup_oper_either ret args procat
    else if starts_with templ "f:"
    then devfunc_setup_func print ret args procat
    else if starts_with templ "F:"
    then set_up (behind_mark templ) none
    else negative

abbrev pub setup_by :
    (ℕ → String) → Option Devtype → List (Option Devtype) → Procat → Callback → Setup
setup_by print ret args procat div_oper = devfunc_setup_div_oper ret args procat
setup_by print ret args procat setup_const = devfunc_setup_const ret procat
setup_by print ret args procat no_callback = setup_template print ret args procat

unfoldable pub setup_func : (ℕ → String) → Option Devtype → List (Option Devtype) → Procat → Setup
unfolding setup_template devfunc_setup_div_oper devfunc_setup_const devfunc_setup_cast
    devfunc_setup_oper_both devfunc_setup_oper_either devfunc_setup_func
setup_func print ret args procat = setup_by print ret args procat procat.func_callback
