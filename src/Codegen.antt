-- ===== src/Codegen.antt =====
-- The code generator of codegen.c: the expression trees it reads, the device types and functions
-- it looks up, and the walker that appends the device code of an expression. The nodes carry the
-- fields that codegen.c reads.
pub mod Walker
pub mod Expression
pub mod Reference
pub mod Catalog
pub mod Setup
pub mod Lookup
pub mod Tables
pub mod Walks
pub mod Correct
pub mod Declarations
pub mod Code
pub mod Accepted
use pg_strom.Prelude.{
  ℕ, suc, ◌+◌, Bool, true, false, ◌||◌, ◌==◌, if◌then◌else◌, Option, none, some, List, [], ◌∷◌,
  ◌++◌,
}
use Prim.Native.String.{String}

pub data NullTestType : Type 0 where
  is_null is_not_null : NullTestType

pub data BoolTestType : Type 0 where
  is_true is_not_true is_false is_not_false is_unknown is_not_unknown : BoolTestType

pub data BoolExprType : Type 0 where
  and_expr or_expr not_expr : BoolExprType

pub data ParamKind : Type 0 where
  param_extern param_exec param_sublink : ParamKind

pub record Const : Type 0 where
  pub consttype : ℕ
  pub constcollid : ℕ
  pub constvalue : Option ℕ

pub record Param : Type 0 where
  pub paramkind : ParamKind
  pub paramid : ℕ
  pub paramtype : ℕ
  pub paramcollid : ℕ

pub record Var : Type 0 where
  pub varno : ℕ
  pub varattno : ℕ
  pub vartype : ℕ
  pub varcollid : ℕ

-- `FuncExpr` (the function) and `OpExpr` (the operator), less the arguments.
pub record Call : Type 0 where
  pub oid : ℕ
  pub collid : ℕ
  pub inputcollid : ℕ

-- A `Node *`; `other` is a node of any other tag.
mutual
  pub data Expr : Type 0 where
    null : Expr
    const : Const → Expr
    param : Param → Expr
    var : Var → Expr
    func op distinct : Call → Exprs → Expr
    null_test : NullTestType → Bool → Expr → Expr
    bool_test : BoolTestType → Expr → Expr
    bool_expr : BoolExprType → Exprs → Expr
    node_list : Exprs → Expr
    other : ℕ → Expr

  pub data Exprs : Type 0 where
    nil : Exprs
    cons : Expr → Exprs → Exprs

pub length_exprs : Exprs → ℕ
length_exprs nil = 0
length_exprs (cons e es) = suc (length_exprs es)

-- `devtype_info`, at its address, less `type_decl` and the flag DEVTYPE_IS_BUILTIN, which nothing
-- reads; the last two are the names of its functions for null tests.
pub record Devtype : Type 0 where
  pub type_at : ℕ
  pub type_oid : ℕ
  pub is_varlena : Bool
  pub type_name : String
  pub type_base : String
  pub type_is_null_fn : String
  pub type_is_not_null_fn : String

-- `DEVFUNC_INCL_FLAGS`.
pub record Libs : Type 0 where
  pub timelib : Bool
  pub textlib : Bool
  pub numericlib : Bool

abbrev pub union : Libs → Libs → Libs
union a b = record {
  timelib = a.timelib || b.timelib;
  textlib = a.textlib || b.textlib;
  numericlib = a.numericlib || b.numericlib;
}

-- `devfunc_info`, at its address.
pub record Devfunc : Type 0 where
  pub func_at : ℕ
  pub func_name : String
  pub libs : Libs
  pub func_decl : Option String

-- What a lookup gives back, with the caches it leaves; `raised` is `elog(ERROR)`, or a null pointer
-- that the lookup follows.
pub data Reply (S : Type 0) (A : Type 0) : Type 0 where
  found : A → S → Reply S A
  missing : S → Reply S A
  raised : Reply S A

-- The device types and functions, behind their caches of type `S`.
pub record Lookups (S : Type 0) : Type 0 where
  pub devtype_lookup : ℕ → S → Reply S Devtype
  pub devfunc_lookup : ℕ → S → Reply S Devfunc
  pub devfunc_lookup_boolop : String → ℕ → S → Reply S Devfunc
  pub devfunc_setup_boolop : BoolExprType → String → ℕ → S → Reply S Devfunc

-- What the code calls of PostgreSQL; `print_number` is the `%u` of `snprintf`.
pub record Backend : Type 0 where
  pub equal : Expr → Expr → Bool
  pub expr_type : Expr → ℕ
  pub get_opcode : ℕ → ℕ
  pub make_andclause : Exprs → Expr
  pub print_number : ℕ → String

-- What one call of `appendStringInfo` adds to the text. `call f` is `pgfn_f(` and `call_not` is
-- `pg_boolop_not(`.
pub data Piece : Type 0 where
  kparam kvar : ℕ → Piece
  call : String → Piece
  call_not comma close : Piece

-- `codegen_context`; `kernel_flags` are the bits of `extra_flags` beside the libraries.
pub record CodegenContext : Type 0 where
  pub type_defs : List Devtype
  pub func_defs : List Devfunc
  pub used_params : List Expr
  pub used_vars : List Expr
  pub extra_libs : Libs
  pub kernel_flags : ℕ

-- `codegen_walker_context` and the caches, which outlive it.
pub record Walk (S : Type 0) : Type 0 where
  pub str : List Piece
  pub defs : CodegenContext
  pub caches : S

-- The walker returns true or false, raises an error, or follows a null pointer.
pub data Outcome (S : Type 0) : Type 0 where
  done : Walk S → Outcome S
  refused : S → Outcome S
  error : Outcome S
  crash : Outcome S
