-- ===== src/Codegen/Declarations.antt =====
-- `pgstrom_codegen_declarations` of codegen.c: the lines in front of the device code.
pub mod Defined
pub mod Complete
pub mod Uses
use pg_strom.Prelude.{ℕ, suc, Bool, true, false, if◌then◌else◌, Option, List, [], ◌∷◌, ◌++◌}
use pg_strom.Codegen.{
  Const, Param, Var, Expr, const, param, var, Devtype, Devfunc, Reply, found, missing, raised,
  Lookups, CodegenContext,
}
use Prim.Native.String.{String}

-- What one call of `appendStringInfo` adds; a `param_macro` defines `KPARAM_<index>` and a
-- `var_macro` `KVAR_<index>`, of a type with this name.
pub data Line : Type 0 where
  simple_type_template : String → String → Line
  varlena_type_template : String → Line
  newline : Line
  func_decl_line : Option String → Line
  param_macro : ℕ → String → Line
  var_macro varlena_var_macro : ℕ → String → Line

pub data Declared (S : Type 0) : Type 0 where
  declared : List Line → S → Declared S
  raises crashes : Declared S

abbrev pub type_lines : List Devtype → List Line
type_lines [] = []
type_lines (d ∷ ds) =
    (if d.is_varlena
      then varlena_type_template d.type_name
      else simple_type_template d.type_name d.type_base)
    ∷ type_lines ds

abbrev pub func_lines : List Devfunc → List Line
func_lines [] = []
func_lines (d ∷ ds) = func_decl_line d.func_decl ∷ func_lines ds

abbrev pub var_line : ℕ → Devtype → Line
var_line index d =
    if d.is_varlena then varlena_var_macro index d.type_name else var_macro index d.type_name

module _ {S : Type 0} where
  abbrev pub then_lines : Declared S → (List Line → S → Declared S) → Declared S
  then_lines (declared str s) k = k str s
  then_lines raises k = raises
  then_lines crashes k = crashes

  -- One more line, of the type that is looked up; its absence is a null pointer.
  abbrev pub typed_line : Reply S Devtype → List Line → (Devtype → Line) → Declared S
  typed_line (found d s) str line = declared (str ++ (line d ∷ [])) s
  typed_line (missing s) str line = crashes
  typed_line raised str line = raises

  module _ (L : Lookups S) where
    unfoldable pub declare_param : Expr → ℕ → List Line → S → Declared S
    declare_param (const con) index str s =
        typed_line (L.devtype_lookup con.consttype s) str λ d. param_macro index d.type_name
    declare_param (param p) index str s =
        typed_line (L.devtype_lookup p.paramtype s) str λ d. param_macro index d.type_name
    declare_param e index str s = raises

    -- `used_vars` holds `Var` nodes, and no other node is read as one.
    unfoldable pub declare_var : Expr → ℕ → List Line → S → Declared S
    declare_var (var v) index str s = typed_line (L.devtype_lookup v.vartype s) str (var_line index)
    declare_var e index str s = crashes

    unfoldable pub declare_params : List Expr → ℕ → List Line → S → Declared S
    unfolding declare_param
    declare_params [] index str s = declared str s
    declare_params (e ∷ es) index str s =
        then_lines (declare_param e index str s) (declare_params es (suc index))

    unfoldable pub declare_vars : List Expr → ℕ → List Line → S → Declared S
    unfolding declare_var
    declare_vars [] index str s = declared str s
    declare_vars (e ∷ es) index str s =
        then_lines (declare_var e index str s) (declare_vars es (suc index))

    unfoldable pub codegen_declarations : CodegenContext → S → Declared S
    unfolding declare_params declare_vars
    codegen_declarations context s =
        let types = type_lines context.type_defs ++ (newline ∷ []) in
        let functions = types ++ func_lines context.func_defs in
        then_lines (declare_params context.used_params 0 functions s)
          (declare_vars context.used_vars 0)
