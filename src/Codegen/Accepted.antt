-- ===== src/Codegen/Accepted.antt =====
-- `pgstrom_codegen_available_expression` against the code generator: what the planner accepts, it
-- finds code for. `ExprTypes` is what the theorem relies on of `exprType`.
use pg_strom.Prelude.{
  and-left, and-right, ℕ, Bool, true, ◌||◌, ◌&&◌, not, ◌==◌, if◌then◌else◌, ◌≡◌, refl, subst,
}
use pg_strom.Codegen.{
  Expr, null, const, param, var, func, op, distinct, null_test, bool_test, bool_expr, node_list,
  other, Exprs, nil, cons, and_expr, Reply, found, missing, Lookups, Backend, CodegenContext,
}
use pg_strom.Codegen.Walker.{oid_is_valid, is_extern, bool_oid}
use pg_strom.Codegen.Reference.{is_known, Names, Answering, has_code, have_code}
use pg_strom.Codegen.Expression.{
  conjunction, codegen_expression, when_found, available_expression, available_list,
}
use pg_strom.Codegen.Code.{HasText, codegen_expression-has_code}
use pg_strom.Codegen.Expression.Accepts.{
  ExprTypes, is_tree, are_trees, Accepts, Accepts-guard, Accepts-when, Accepts-list, Accepts-weaken,
}

module _ {S : Type 0} (L : Lookups S) (B : Backend) (N : Names) (A : Answering L B N)
    (T : ExprTypes B N) where
  -- Of a tree that has code the type is one of the device.
  expr_type-known :
      (e : Expr)
      → is_tree B e ≡ true
      → has_code B N e ≡ true
      → is_known (N.types (B.expr_type e)) ≡ true
  unfolding has_code is_tree
  expr_type-known null t h = absurd (cc)
  expr_type-known (const c) t h = rw (T.of_const c) (and-right _ _ h)
  expr_type-known (param p) t h = rw (T.of_param p) (and-right _ _ h)
  expr_type-known (var v) t h = rw (T.of_var v) (and-right _ _ h)
  expr_type-known (func f es) t h = T.of_func f es (and-left _ _ h)
  expr_type-known (op o es) t h = T.of_op o es (and-left _ _ (and-right _ _ h))
  expr_type-known (distinct o es) t h = T.of_distinct o es (and-left _ _ (and-right _ _ h))
  expr_type-known (null_test n r e) t h = rw (T.of_null_test n r e) T.bool_known
  expr_type-known (bool_test n e) t h = rw (T.of_bool_test n e) T.bool_known
  expr_type-known (bool_expr b es) t h = rw (T.of_bool_expr b es) T.bool_known
  expr_type-known (node_list es) t h = absurd (cc)
  expr_type-known (other n) t h = absurd (cc)

  -- A leaf of a type.
  type-Accepts :
      (g : Bool) (oid : ℕ) (s : S)
      → A.Good s
      → Accepts A.Good
          (not g && is_known (N.types oid))
          (if g then missing s else when_found (L.devtype_lookup oid s) (found tt))
  type-Accepts g oid s good = Accepts-guard A.Good g _ s _ good (
      Accepts-weaken A.Good (is_known (N.types oid) && true) _ _ (and-left _ _) (
        Accepts-when A.Good _ (N.types oid) true (L.devtype_lookup oid s) (found tt)
          (A.types_lem oid s good) λ s good. (refl, good)))

  -- A call whose arguments are accepted by `k`.
  func-Accepts :
      (g : Bool) (oid : ℕ) (has : Bool) (s : S) (k : S → Reply S (Unit {0}))
      → A.Good s
      → ((s : S) → A.Good s → Accepts A.Good has (k s))
      → Accepts A.Good
          (not g && (is_known (N.funcs oid) && has))
          (if g then missing s else when_found (L.devfunc_lookup oid s) k)
  func-Accepts g oid has s k good next = Accepts-guard A.Good g _ s _ good (
      Accepts-when A.Good _ (N.funcs oid) has (L.devfunc_lookup oid s) k (A.funcs_lem oid s good)
        next)

  mutual
    unfolding available_expression available_list has_code have_code is_tree are_trees

    available_expression-Accepts :
        (e : Expr) (s : S)
        → A.Good s
        → is_tree B e ≡ true
        → Accepts A.Good (has_code B N e) (available_expression L B e s)
    available_expression-Accepts null s good t = absurd (cc)
    available_expression-Accepts (node_list es) s good t = absurd (cc)
    available_expression-Accepts (const con) s good t =
        type-Accepts (oid_is_valid con.constcollid) con.consttype s good
    available_expression-Accepts (param p) s good t =
        type-Accepts (oid_is_valid p.paramcollid || not (is_extern p.paramkind)) p.paramtype s good
    available_expression-Accepts (var v) s good t =
        type-Accepts (oid_is_valid v.varcollid) v.vartype s good
    available_expression-Accepts (func f args) s good t =
        Accepts-weaken A.Good _ _ _
          (and-right (not (oid_is_valid f.collid || oid_is_valid f.inputcollid)) _)
          (func-Accepts (oid_is_valid f.collid || oid_is_valid f.inputcollid) f.oid _ s _ good
            λ s good. available_list-Accepts args s good t)
    available_expression-Accepts (op o args) s good t =
        func-Accepts (oid_is_valid o.collid || oid_is_valid o.inputcollid) (B.get_opcode o.oid) _ s
          _ good λ s good. available_list-Accepts args s good t
    available_expression-Accepts (distinct o args) s good t =
        func-Accepts (oid_is_valid o.collid || oid_is_valid o.inputcollid) (B.get_opcode o.oid) _ s
          _ good λ s good. available_list-Accepts args s good t
    available_expression-Accepts (null_test n r arg) s good t = Accepts-guard A.Good r _ s _ good (
        Accepts-weaken A.Good (has_code B N arg) _ _ (λ h. rw (expr_type-known arg t h) h)
          (available_expression-Accepts arg s good t))
    available_expression-Accepts (bool_test n arg) s good t =
        Accepts-weaken A.Good (has_code B N arg) _ _
          (λ h. rw (and-left (B.expr_type arg == bool_oid) (is_tree B arg) t) h)
          (available_expression-Accepts arg s good (and-right _ _ t))
    available_expression-Accepts (bool_expr b args) s good t = good
    available_expression-Accepts (other n) s good t = good

    available_list-Accepts :
        (es : Exprs) (s : S)
        → A.Good s
        → are_trees B es ≡ true
        → Accepts A.Good (have_code B N es) (available_list L B es s)
    available_list-Accepts nil s good t = (refl, good)
    available_list-Accepts (cons e es) s good t =
        Accepts-list A.Good _ _ _ _ (available_expression-Accepts e s good (and-left _ _ t))
          λ s good. available_list-Accepts es s good (and-right _ _ t)

  -- The conjunction of a list whose elements all have code.
  conjunction-has_code :
      (es : Exprs)
      → B.make_andclause es ≡ bool_expr and_expr es
      → have_code B N es ≡ true
      → has_code B N (conjunction B (node_list es)) ≡ true
  unfolding has_code have_code
  conjunction-has_code nil clause h = rw clause refl
  conjunction-has_code (cons e nil) clause h = and-left _ _ h
  conjunction-has_code (cons e (cons e' es)) clause h = rw clause h

  -- Where the lookups answer as `N` says from caches that are good, `exprType` is as `ExprTypes` says,
  -- every node is `equal` to itself and `make_andclause` of the list is its conjunction: for a list of
  -- well-formed trees that `available_expression` accepts from good caches, the code generator returns
  -- a text from any good caches, and not `NULL`.
  pub codegen_expression-accepted :
      (same : (e : Expr) → B.equal e e ≡ true) (es : Exprs) (s s' s'' : S)
      (context : CodegenContext)
      → B.make_andclause es ≡ bool_expr and_expr es
      → are_trees B es ≡ true
      → A.Good s
      → available_expression L B (node_list es) s ≡ found tt s'
      → A.Good s''
      → HasText (codegen_expression L B (node_list es) context s'')
  unfolding available_expression
  codegen_expression-accepted same es s s' s'' context clause t good accepted good'' =
      let accepts : Accepts A.Good (have_code B N es) (found tt s') =
        subst (Accepts A.Good (have_code B N es)) accepted (available_list-Accepts es s good t) in
      (codegen_expression-has_code L B N same A (node_list es) context s'' good'').0
        (conjunction-has_code es clause accepts.0)
