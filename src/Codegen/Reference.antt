-- ===== src/Codegen/Reference.antt =====
-- A two-pass reference for the walker of codegen.c: which expressions have device code, and the
-- code, printed with tables of parameters and columns that are already complete. `Answering` is
-- what the walker relies on of the lookups.
use pg_strom.Prelude.{
  ℕ, Bool, true, false, ◌||◌, ◌&&◌, not, ◌==◌, Option, none, some, List, [], ◌∷◌, ◌++◌, ◌≡◌,
}
use pg_strom.Codegen.{
  NullTestType, BoolExprType, and_expr, or_expr, not_expr, Expr, null, const, param, var, func, op,
  distinct, null_test, bool_test, bool_expr, node_list, other, Exprs, nil, cons, length_exprs,
  Devfunc, Reply, found, missing, raised, Lookups, Backend, Piece, kparam, kvar, call, call_not,
  comma, close,
}
use pg_strom.Codegen.Walker.{
  oid_is_valid, is_extern, find, bool_oid, bool_test_name, null_test_name, boolop_name,
}
use Prim.Native.String.{String}

abbrev pub all : (Expr → Bool) → List Expr → Bool
all f [] = true
all f (x ∷ xs) = f x && all f xs

-- What a lookup finds out about an object identifier: a value, no support on the device, or no such
-- row in the catalogue.
pub data Verdict (A : Type 0) : Type 0 where
  known : A → Verdict A
  unknown invalid : Verdict A

abbrev pub is_known : {A : Type 0} → Verdict A → Bool
is_known (known a) = true
is_known unknown = false
is_known invalid = false

-- The names of the device functions for null tests of a type and for a function.
pub record Names : Type 0 where
  pub types : ℕ → Verdict (NullTestType → String)
  pub funcs : ℕ → Verdict String

abbrev pub name_or_empty : Verdict String → String
name_or_empty (known n) = n
name_or_empty unknown = ""
name_or_empty invalid = ""

abbrev pub null_test_or_empty : NullTestType → Verdict (NullTestType → String) → String
null_test_or_empty t (known n) = n t
null_test_or_empty t unknown = ""
null_test_or_empty t invalid = ""

abbrev pub Answers :
    {S A V : Type 0} → (S → Type 0) → (A → V → Type 0) → Verdict V → Reply S A → Type 0
Answers Good R (known v) (found a s) = R a v × Good s
Answers Good R unknown (missing s) = Good s
Answers Good R invalid raised = Unit {0}
Answers Good R _ _ = ⊥

-- A lookup for AND or OR finds a function of that name, or none.
abbrev pub MayFind : {S : Type 0} → (S → Type 0) → String → Reply S Devfunc → Type 0
MayFind Good n (found d s) = (d.func_name ≡ n) × Good s
MayFind Good n (missing s) = Good s
MayFind Good n raised = ⊥

module _ {S : Type 0} (L : Lookups S) (B : Backend) (N : Names) where
  -- The lookups answer as `N` says, from any state of the caches that is `Good`.
  pub record Answering : Type 1 where
    pub Good : S → Type 0
    pub types_lem :
        (oid : ℕ) (s : S)
        → Good s
        → Answers Good
            (λ d n. (t : NullTestType) → null_test_name t d ≡ n t)
            (N.types oid)
            (L.devtype_lookup oid s)
    pub funcs_lem :
        (oid : ℕ) (s : S)
        → Good s
        → Answers Good (λ d n. d.func_name ≡ n) (N.funcs oid) (L.devfunc_lookup oid s)
    pub boolop_lem :
        (n : String) (nargs : ℕ) (s : S)
        → Good s
        → MayFind Good n (L.devfunc_lookup_boolop n nargs s)
    pub setup_lem :
        (b : BoolExprType) (n : String) (nargs : ℕ) (s : S)
        → Good s
        → Answers Good (λ d n. d.func_name ≡ n) (known n) (L.devfunc_setup_boolop b n nargs s)

-- The name of a parameter or a column: its place in the table.
abbrev pub print_leaf : (ℕ → Piece) → Option ℕ → List Piece
print_leaf mk none = []
print_leaf mk (some i) = mk i ∷ []

abbrev pub print_call : Piece → List Piece → List Piece
print_call p args = p ∷ (args ++ (close ∷ []))

abbrev pub print_comma : Bool → List Piece
print_comma true = []
print_comma false = comma ∷ []

module _ (B : Backend) (N : Names) where
  -- The nodes that have device code.
  unfoldable mutual
    pub has_code : Expr → Bool
    has_code null = true
    has_code (const con) = not (oid_is_valid con.constcollid) && is_known (N.types con.consttype)
    has_code (param p) =
        not (oid_is_valid p.paramcollid || not (is_extern p.paramkind))
        && is_known (N.types p.paramtype)
    has_code (var v) = not (oid_is_valid v.varcollid) && is_known (N.types v.vartype)
    has_code (func f args) = is_known (N.funcs f.oid) && have_code args
    has_code (op o args) =
        not (oid_is_valid o.collid || oid_is_valid o.inputcollid)
        && (is_known (N.funcs (B.get_opcode o.oid)) && have_code args)
    has_code (distinct o args) =
        not (oid_is_valid o.collid || oid_is_valid o.inputcollid)
        && (is_known (N.funcs (B.get_opcode o.oid)) && have_code args)
    has_code (null_test t argisrow arg) =
        not argisrow && (is_known (N.types (B.expr_type arg)) && has_code arg)
    has_code (bool_test t arg) = (B.expr_type arg == bool_oid) && has_code arg
    has_code (bool_expr and_expr args) = have_code args
    has_code (bool_expr or_expr args) = have_code args
    has_code (bool_expr not_expr args) = first_has_code args
    has_code (node_list es) = false
    has_code (other n) = false

    pub have_code : Exprs → Bool
    have_code nil = true
    have_code (cons e es) = has_code e && have_code es

    pub first_has_code : Exprs → Bool
    first_has_code nil = false
    first_has_code (cons e es) = has_code e

  -- The device code over the tables `ps` and `vs`.
  unfoldable mutual
    unfolding length_exprs

    pub print : List Expr → List Expr → Expr → List Piece
    print ps vs null = []
    print ps vs (const con) = print_leaf kparam (find B.equal (const con) ps)
    print ps vs (param p) = print_leaf kparam (find B.equal (param p) ps)
    print ps vs (var v) = print_leaf kvar (find B.equal (var v) vs)
    print ps vs (func f args) =
        print_call (call (name_or_empty (N.funcs f.oid))) (print_args ps vs true args)
    print ps vs (op o args) =
        print_call (call (name_or_empty (N.funcs (B.get_opcode o.oid))))
          (print_args ps vs true args)
    print ps vs (distinct o args) =
        print_call (call (name_or_empty (N.funcs (B.get_opcode o.oid))))
          (print_args ps vs true args)
    print ps vs (null_test t argisrow arg) =
        print_call (call (null_test_or_empty t (N.types (B.expr_type arg)))) (print ps vs arg)
    print ps vs (bool_test t arg) = print_call (call (bool_test_name t)) (print ps vs arg)
    print ps vs (bool_expr and_expr args) =
        print_call (call (boolop_name B and_expr (length_exprs args))) (print_args ps vs true args)
    print ps vs (bool_expr or_expr args) =
        print_call (call (boolop_name B or_expr (length_exprs args))) (print_args ps vs true args)
    print ps vs (bool_expr not_expr args) = print_call call_not (print_first ps vs args)
    print ps vs (node_list es) = []
    print ps vs (other n) = []

    pub print_args : List Expr → List Expr → Bool → Exprs → List Piece
    print_args ps vs first nil = []
    print_args ps vs first (cons e es) =
        print_comma first ++ (print ps vs e ++ print_args ps vs false es)

    pub print_first : List Expr → List Expr → Exprs → List Piece
    print_first ps vs nil = []
    print_first ps vs (cons e es) = print ps vs e

module _ (N : Names) where
  -- The node is one for which `pgstrom_codegen_declarations` has a line.
  abbrev pub is_declared_param : Expr → Bool
  is_declared_param (const con) = is_known (N.types con.consttype)
  is_declared_param (param p) = is_known (N.types p.paramtype)
  is_declared_param _ = false

  abbrev pub is_declared_var : Expr → Bool
  is_declared_var (var v) = is_known (N.types v.vartype)
  is_declared_var _ = false

  abbrev pub Tracked : List Expr → List Expr → Type 0
  Tracked ps vs = (all is_declared_param ps ≡ true) × (all is_declared_var vs ≡ true)
