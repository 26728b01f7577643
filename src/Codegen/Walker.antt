-- ===== src/Codegen/Walker.antt =====
-- `codegen_expression_walker` of codegen.c with the lookups that track what the code needs.
use pg_strom.Prelude.{
  ℕ, suc, Bool, true, false, ◌||◌, not, ◌==◌, if◌then◌else◌, Option, none, some, List, [], ◌∷◌,
  ◌++◌, length,
}
use pg_strom.Codegen.{
  NullTestType, is_null, is_not_null, BoolTestType, is_true, is_not_true, is_false, is_not_false,
  is_unknown, is_not_unknown, BoolExprType, and_expr, or_expr, not_expr, ParamKind, param_extern,
  param_exec, param_sublink, Const, Param, Var, Call, Expr, null, const, param, var, func, op,
  distinct, null_test, bool_test, bool_expr, node_list, other, Exprs, nil, cons, length_exprs,
  Devtype, Devfunc, union, Reply, found, missing, raised, Lookups, Backend, kparam, kvar, call,
  call_not, comma, close, Piece, CodegenContext, Walk, Outcome, done, refused, error, crash,
}
use Prim.Native.String.{String, ◌++◌ as ◌<>◌}

abbrev pub bool_oid : ℕ
bool_oid = 16

-- `OidIsValid`.
abbrev pub oid_is_valid : ℕ → Bool
oid_is_valid oid = not (oid == 0)

abbrev pub has_type_at : ℕ → List Devtype → Bool
has_type_at a [] = false
has_type_at a (d ∷ ds) = (d.type_at == a) || has_type_at a ds

abbrev pub has_func_at : ℕ → List Devfunc → Bool
has_func_at a [] = false
has_func_at a (d ∷ ds) = (d.func_at == a) || has_func_at a ds

abbrev pub track_type : Devtype → CodegenContext → CodegenContext
track_type d c = record c {
  type_defs = if has_type_at d.type_at c.type_defs then c.type_defs else c.type_defs ++ (d ∷ []);
}

abbrev pub track_func : Devfunc → CodegenContext → CodegenContext
track_func d c = record c {
  func_defs = if has_func_at d.func_at c.func_defs then c.func_defs else c.func_defs ++ (d ∷ []);
  extra_libs = union c.extra_libs d.libs;
}

abbrev pub next_index : Option ℕ → Option ℕ
next_index none = none
next_index (some i) = some (suc i)

-- The index of the first node that is `equal` to one.
abbrev pub find : (Expr → Expr → Bool) → Expr → List Expr → Option ℕ
find equal node [] = none
find equal node (x ∷ xs) = if equal node x then some 0 else next_index (find equal node xs)

abbrev pub is_extern : ParamKind → Bool
is_extern param_extern = true
is_extern param_exec = false
is_extern param_sublink = false

abbrev pub null_test_name : NullTestType → Devtype → String
null_test_name is_null d = d.type_is_null_fn
null_test_name is_not_null d = d.type_is_not_null_fn

abbrev pub bool_test_name : BoolTestType → String
bool_test_name is_true = "bool_is_true"
bool_test_name is_not_true = "bool_is_not_true"
bool_test_name is_false = "bool_is_false"
bool_test_name is_not_false = "bool_is_not_false"
bool_test_name is_unknown = "bool_is_unknown"
bool_test_name is_not_unknown = "bool_is_not_unknown"

-- `namebuf` of AND and OR.
abbrev pub boolop_name : Backend → BoolExprType → ℕ → String
boolop_name B and_expr nargs = "boolop_and_" <> B.print_number nargs
boolop_name B or_expr nargs = "boolop_or_" <> B.print_number nargs
boolop_name B not_expr nargs = ""

module _ {S : Type 0} where
  abbrev pub append : Piece → Walk S → Walk S
  append p w = record w { str = w.str ++ (p ∷ []) }

  abbrev pub then_walk : Outcome S → (Walk S → Outcome S) → Outcome S
  then_walk (done w) k = k w
  then_walk (refused s) k = refused s
  then_walk error k = error
  then_walk crash k = crash

  -- The reply of a lookup in a walk; `absent` is what the code does with `NULL`.
  abbrev pub answer :
      {A : Type 0} → Reply S A → Walk S → (A → Walk S → Outcome S) → (S → Outcome S) → Outcome S
  answer (found a s) w k absent = k a (record w { caches = s })
  answer (missing s) w k absent = absent s
  answer raised w k absent = error

  -- A call in the text: the piece that opens it, the arguments and `)`.
  abbrev pub in_call : Piece → (Walk S → Outcome S) → Walk S → Outcome S
  in_call p args w = then_walk (args (append p w)) λ w. done (append close w)

  -- The name of a parameter: of the place where it was found, or of a new one.
  abbrev pub name_param : Expr → Walk S → Option ℕ → Outcome S
  name_param node w (some i) = done (append (kparam i) w)
  name_param node w none =
      let ps = w.defs.used_params in
      done (
        append (kparam (length ps))
          (record w { defs = record w.defs { used_params = ps ++ (node ∷ []) } }))

  abbrev pub name_var : Expr → Walk S → Option ℕ → Outcome S
  name_var node w (some i) = done (append (kvar i) w)
  name_var node w none =
      let vs = w.defs.used_vars in
      done (
        append (kvar (length vs))
          (record w { defs = record w.defs { used_vars = vs ++ (node ∷ []) } }))

  module _ (L : Lookups S) (B : Backend) where
    -- `devtype_lookup_and_track` under the test of its result.
    abbrev pub devtype_lookup_and_track : ℕ → Walk S → (Walk S → Outcome S) → Outcome S
    devtype_lookup_and_track oid w k =
        answer (L.devtype_lookup oid w.caches) w
          (λ d w. k (record w { defs = track_type d w.defs })) refused

    abbrev pub devfunc_lookup_and_track :
        ℕ → Walk S → (Devfunc → Walk S → Outcome S) → (S → Outcome S) → Outcome S
    devfunc_lookup_and_track oid w k absent =
        answer (L.devfunc_lookup oid w.caches) w
          (λ d w. k d (record w { defs = track_func d w.defs })) absent

    -- The loop over `used_params`, for a `Const` and for a `Param`.
    unfoldable pub use_param : Expr → Walk S → Outcome S
    use_param node w = name_param node w (find B.equal node w.defs.used_params)

    unfoldable pub use_var : Expr → Walk S → Outcome S
    use_var node w = name_var node w (find B.equal node w.defs.used_vars)

    unfoldable pub walk_const : Const → Walk S → Outcome S
    unfolding use_param
    walk_const con w =
        if oid_is_valid con.constcollid
        then refused w.caches
        else devtype_lookup_and_track con.consttype w (use_param (const con))

    unfoldable pub walk_param : Param → Walk S → Outcome S
    unfolding use_param
    walk_param p w =
        if oid_is_valid p.paramcollid || not (is_extern p.paramkind)
        then refused w.caches
        else devtype_lookup_and_track p.paramtype w (use_param (param p))

    unfoldable pub walk_var : Var → Walk S → Outcome S
    unfolding use_var
    walk_var v w =
        if oid_is_valid v.varcollid
        then refused w.caches
        else devtype_lookup_and_track v.vartype w (use_var (var v))

    -- The function for AND or OR: looked up, or else set up, and tracked. A set-up without a result
    -- would be a null pointer that is followed.
    unfoldable pub boolop_func :
        BoolExprType → ℕ → Walk S → (Devfunc → Walk S → Outcome S) → Outcome S
    boolop_func b nargs w k =
        let name = boolop_name B b nargs in
        let tracked = λ (d : Devfunc) (w : Walk S). k d (record w { defs = track_func d w.defs }) in
        answer (L.devfunc_lookup_boolop name nargs w.caches) w tracked
          (λ s. answer (L.devfunc_setup_boolop b name nargs s) w tracked λ s. crash)

    -- The test of the collation of a `FuncExpr` is an `Assert` and so compiled out, and the test
    -- of the result of its lookup is one of `func`: a null pointer is followed.
    unfoldable pub walk_func : Call → (Walk S → Outcome S) → Walk S → Outcome S
    walk_func f args w =
        devfunc_lookup_and_track f.oid w (λ d w. in_call (call d.func_name) args w) (λ s. crash)

    unfoldable pub walk_op : Call → (Walk S → Outcome S) → Walk S → Outcome S
    walk_op o args w =
        if oid_is_valid o.collid || oid_is_valid o.inputcollid
        then refused w.caches
        else devfunc_lookup_and_track (B.get_opcode o.oid) w
            (λ d w. in_call (call d.func_name) args w) refused

    unfoldable pub walk_null_test :
        NullTestType → Bool → Expr → (Walk S → Outcome S) → Walk S → Outcome S
    walk_null_test t argisrow arg walk_arg w =
        if argisrow
        then refused w.caches
        else answer (L.devtype_lookup (B.expr_type arg) w.caches) w
            (λ d w. in_call (call (null_test_name t d)) walk_arg w) refused

    unfoldable pub walk_bool_test : BoolTestType → Expr → (Walk S → Outcome S) → Walk S → Outcome S
    walk_bool_test t arg walk_arg w =
        if not (B.expr_type arg == bool_oid)
        then error
        else in_call (call (bool_test_name t)) walk_arg w

    -- `walk_first` is the walk of the first argument.
    unfoldable pub walk_bool_expr :
        BoolExprType → ℕ → (Walk S → Outcome S) → (Walk S → Outcome S) → Walk S → Outcome S
    unfolding boolop_func
    walk_bool_expr not_expr nargs walk_first args w = in_call call_not walk_first w
    walk_bool_expr b nargs walk_first args w =
        boolop_func b nargs w (λ d w. in_call (call d.func_name) args w)

    unfoldable mutual
      unfolding walk_const walk_param walk_var walk_func walk_op walk_null_test walk_bool_test
          walk_bool_expr length_exprs

      pub walker : Expr → Walk S → Outcome S
      walker null w = done w
      walker (const con) w = walk_const con w
      walker (param p) w = walk_param p w
      walker (var v) w = walk_var v w
      walker (func f args) w = walk_func f (walk_args true args) w
      walker (op o args) w = walk_op o (walk_args true args) w
      walker (distinct o args) w = walk_op o (walk_args true args) w
      walker (null_test t argisrow arg) w = walk_null_test t argisrow arg (walker arg) w
      walker (bool_test t arg) w = walk_bool_test t arg (walker arg) w
      walker (bool_expr b args) w =
          walk_bool_expr b (length_exprs args) (walk_first args) (walk_args true args) w
      walker (node_list es) w = refused w.caches
      walker (other n) w = refused w.caches

      -- The arguments of a call; `first` is true at the head of the list.
      pub walk_args : Bool → Exprs → Walk S → Outcome S
      walk_args first nil w = done w
      walk_args first (cons e es) w =
          then_walk (walker e (if first then w else append comma w)) (walk_args false es)

      -- `linitial` of the arguments.
      pub walk_first : Exprs → Walk S → Outcome S
      walk_first nil w = crash
      walk_first (cons e es) w = walker e w
