-- ===== src/Codegen/Expression/Accepts.antt =====
-- What an acceptance by `pgstrom_codegen_available_expression` of codegen.c tells of a tree, and what
-- is relied on of `exprType`.
use pg_strom.Prelude.{Bool, true, false, ◌&&◌, not, ◌==◌, if◌then◌else◌, ◌≡◌}
use pg_strom.Codegen.{
  Const, Param, Var, Call, Expr, null, const, param, var, func, op, distinct, null_test, bool_test,
  bool_expr, node_list, other, Exprs, nil, cons, BoolExprType, NullTestType, BoolTestType, Reply,
  found, missing, raised, Backend,
}
use pg_strom.Codegen.Walker.{bool_oid}
use pg_strom.Codegen.Reference.{Verdict, known, unknown, invalid, is_known, Names, Answers}
use pg_strom.Codegen.Expression.{when_found}

module _ (B : Backend) (N : Names) where
  -- The types of the nodes: those that the nodes carry, `bool` of a test, and of a call of a
  -- function of the device a type of the device.
  pub record ExprTypes : Type 0 where
    pub of_const : (c : Const) → B.expr_type (const c) ≡ c.consttype
    pub of_param : (p : Param) → B.expr_type (param p) ≡ p.paramtype
    pub of_var : (v : Var) → B.expr_type (var v) ≡ v.vartype
    pub of_null_test :
        (t : NullTestType) (r : Bool) (e : Expr) → B.expr_type (null_test t r e) ≡ bool_oid
    pub of_bool_test : (t : BoolTestType) (e : Expr) → B.expr_type (bool_test t e) ≡ bool_oid
    pub of_bool_expr : (b : BoolExprType) (es : Exprs) → B.expr_type (bool_expr b es) ≡ bool_oid
    pub of_func :
        (f : Call) (es : Exprs)
        → is_known (N.funcs f.oid) ≡ true
        → is_known (N.types (B.expr_type (func f es))) ≡ true
    pub of_op :
        (o : Call) (es : Exprs)
        → is_known (N.funcs (B.get_opcode o.oid)) ≡ true
        → is_known (N.types (B.expr_type (op o es))) ≡ true
    pub of_distinct :
        (o : Call) (es : Exprs)
        → is_known (N.funcs (B.get_opcode o.oid)) ≡ true
        → is_known (N.types (B.expr_type (distinct o es))) ≡ true
    pub bool_known : is_known (N.types bool_oid) ≡ true

-- A tree of the planner: no null pointer and no list inside, and tests of booleans are of booleans.
unfoldable mutual
  pub is_tree : Backend → Expr → Bool
  is_tree B null = false
  is_tree B (node_list es) = false
  is_tree B (const c) = true
  is_tree B (param p) = true
  is_tree B (var v) = true
  is_tree B (func f es) = are_trees B es
  is_tree B (op f es) = are_trees B es
  is_tree B (distinct f es) = are_trees B es
  is_tree B (null_test t r e) = is_tree B e
  is_tree B (bool_test t e) = (B.expr_type e == bool_oid) && is_tree B e
  is_tree B (bool_expr b es) = are_trees B es
  is_tree B (other n) = true

  pub are_trees : Backend → Exprs → Bool
  are_trees B nil = true
  are_trees B (cons e es) = is_tree B e && are_trees B es

module _ {S : Type 0} (Good : S → Type 0) where
  -- What an acceptance tells: the state is good and `has` holds.
  abbrev pub Accepts : Bool → Reply S (Unit {0}) → Type 0
  Accepts has (found u s) = (has ≡ true) × Good s
  Accepts has (missing s) = Good s
  Accepts has raised = Unit {0}

  pub Accepts-guard :
      (g has : Bool) (s : S) (r : Reply S (Unit {0}))
      → Good s
      → Accepts has r
      → Accepts (not g && has) (if g then missing s else r)
  Accepts-guard true has s r good a = good
  Accepts-guard false has s r good a = a

  pub Accepts-when :
      {A V : Type 0} (R : A → V → Type 0) (v : Verdict V) (has : Bool) (r : Reply S A)
      (k : S → Reply S (Unit {0}))
      → Answers Good R v r
      → ((s : S) → Good s → Accepts has (k s))
      → Accepts (is_known v && has) (when_found r k)
  Accepts-when R (known n) has (found d s) k a next = next s (a.1)
  Accepts-when R unknown has (missing s) k a next = a
  Accepts-when R invalid has raised k a next = tt
  Accepts-when R (known n) has (missing s) k a next = absurd a
  Accepts-when R (known n) has raised k a next = absurd a
  Accepts-when R unknown has (found d s) k a next = absurd a
  Accepts-when R unknown has raised k a next = absurd a
  Accepts-when R invalid has (found d s) k a next = absurd a
  Accepts-when R invalid has (missing s) k a next = absurd a

  pub Accepts-list :
      (a b : Bool) (r : Reply S (Unit {0})) (k : S → Reply S (Unit {0}))
      → Accepts a r
      → ((s : S) → Good s → Accepts b (k s))
      → Accepts (a && b) (when_found r k)
  Accepts-list a b (found u s) k (has, good) next = rw has (next s good)
  Accepts-list a b (missing s) k good next = good
  Accepts-list a b raised k u next = tt

  pub Accepts-weaken :
      (a b : Bool) (r : Reply S (Unit {0})) → (a ≡ true → b ≡ true) → Accepts a r → Accepts b r
  Accepts-weaken a b (found u s) f (has, good) = (f has, good)
  Accepts-weaken a b (missing s) f good = good
  Accepts-weaken a b raised f u = tt
