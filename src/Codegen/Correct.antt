-- ===== src/Codegen/Correct.antt =====
-- The walker of codegen.c against the two-pass reference.
use pg_strom.Prelude.{Bool, true, false, ◌||◌, not, ◌==◌, append-nil, ◌≡◌, refl, sym}
use pg_strom.Codegen.{
  and_expr, or_expr, not_expr, Expr, null, const, param, var, func, op, distinct, null_test,
  bool_test, bool_expr, node_list, other, Exprs, nil, cons, length_exprs, Lookups, Backend, call,
  call_not, comma, Walk, refused,
}
use pg_strom.Codegen.Walker.{
  append, walk_const, walk_param, walk_var, walk_func, walk_op, walk_null_test, walk_bool_test,
  walk_bool_expr, boolop_func, walker, walk_args, walk_first, oid_is_valid, is_extern,
  bool_test_name, bool_oid,
}
use pg_strom.Codegen.Tables.{Extends-refl}
use pg_strom.Codegen.Walks.{
  Walks, Walks-append, Walks-after, Walks-then, Walks-in_call, Walks-answer, Walks-guard,
  Walks-raise,
}
use pg_strom.Codegen.Walks.Tracking.{
  Walks-boolop, Walks-use_param, Walks-use_var, Walks-type, Walks-func,
}
use pg_strom.Codegen.Reference.{
  Tracked, Names, Answering, has_code, have_code, first_has_code, print, print_args, print_first,
}

module _ {S : Type 0} (L : Lookups S) (B : Backend) (N : Names)
    (same : (e : Expr) → B.equal e e ≡ true) (A : Answering L B N) where
  mutual
    unfolding walk_const walk_param walk_var walk_func walk_op walk_null_test walk_bool_test
        walk_bool_expr boolop_func walker walk_args walk_first has_code have_code first_has_code
        print print_args print_first length_exprs

    pub walker-Walks :
        (e : Expr) (w : Walk S)
        → A.Good w.caches
        → Walks A.Good (Tracked N) (has_code B N e) (λ ps vs. print B N ps vs e) w (walker L B e w)
    walker-Walks null w good =
        (refl, good, Extends-refl _, Extends-refl _, (λ k. k), λ ps vs _ _. sym (append-nil w.str))
    walker-Walks (const con) w good =
        Walks-guard A.Good (Tracked N) (oid_is_valid con.constcollid) _ _ w _ good (
          Walks-type L B N same A con.consttype _ w _ good
            (λ typed. Walks-use_param L B N same A (const con) typed))
    walker-Walks (param p) w good =
        Walks-guard A.Good (Tracked N) (oid_is_valid p.paramcollid || not (is_extern p.paramkind)) _
          _ w _ good
          (Walks-type L B N same A p.paramtype _ w _ good
            (λ typed. Walks-use_param L B N same A (param p) typed))
    walker-Walks (var v) w good =
        Walks-guard A.Good (Tracked N) (oid_is_valid v.varcollid) _ _ w _ good (
          Walks-type L B N same A v.vartype _ w _ good
            (λ typed. Walks-use_var L B N same A (var v) typed))
    walker-Walks (func f args) w good =
        Walks-func L B N same A f.oid _ _ w _ _ good (walk_args-Walks true args) λ s good'. refl
    walker-Walks (op o args) w good =
        Walks-guard A.Good (Tracked N) (oid_is_valid o.collid || oid_is_valid o.inputcollid) _ _ w _
          good
          (Walks-func L B N same A (B.get_opcode o.oid) _ _ w _ _ good (walk_args-Walks true args)
            λ s good'. (refl, good'))
    walker-Walks (distinct o args) w good =
        Walks-guard A.Good (Tracked N) (oid_is_valid o.collid || oid_is_valid o.inputcollid) _ _ w _
          good
          (Walks-func L B N same A (B.get_opcode o.oid) _ _ w _ _ good (walk_args-Walks true args)
            λ s good'. (refl, good'))
    walker-Walks (null_test t argisrow arg) w good =
        Walks-guard A.Good (Tracked N) argisrow _ _ w _ good (
          Walks-answer A.Good (Tracked N) _ (N.types (B.expr_type arg)) _ _ w _ _ refused
            (A.types_lem _ w.caches good)
            (λ d n s is_n named good'.
              rw (is_n, named t)
                (Walks-in_call A.Good (Tracked N) _ _ (call (n t)) _ _ good' (walker-Walks arg)))
            λ s good'. (refl, good'))
    walker-Walks (bool_test t arg) w good =
        Walks-raise A.Good (Tracked N) (B.expr_type arg == bool_oid) _ _ w _ (
          Walks-in_call A.Good (Tracked N) _ _ (call (bool_test_name t)) (walker L B arg) w good
            (walker-Walks arg))
    walker-Walks (bool_expr and_expr args) w good =
        Walks-boolop L B N same A and_expr (length_exprs args) _ _ w _ good
          (walk_args-Walks true args)
    walker-Walks (bool_expr or_expr args) w good =
        Walks-boolop L B N same A or_expr (length_exprs args) _ _ w _ good
          (walk_args-Walks true args)
    walker-Walks (bool_expr not_expr args) w good =
        Walks-in_call A.Good (Tracked N) _ _ call_not _ w good (walk_first-Walks args)
    walker-Walks (node_list es) w good = (refl, good)
    walker-Walks (other n) w good = (refl, good)

    walk_args-Walks :
        (first : Bool) (es : Exprs) (w : Walk S)
        → A.Good w.caches
        → Walks A.Good
            (Tracked N)
            (have_code B N es)
            (λ ps vs. print_args B N ps vs first es)
            w
            (walk_args L B first es w)
    walk_args-Walks first nil w good =
        (refl, good, Extends-refl _, Extends-refl _, (λ k. k), λ ps vs _ _. sym (append-nil w.str))
    walk_args-Walks true (cons e es) w good =
        Walks-then A.Good (Tracked N) _ _ _ _ w _ _ (walker-Walks e w good)
          (walk_args-Walks false es)
    walk_args-Walks false (cons e es) w good =
        Walks-after A.Good (Tracked N) _ _ _ w (append comma w) _
          (Walks-append A.Good (Tracked N) comma w good)
          (Walks-then A.Good (Tracked N) _ _ _ _ (append comma w) _ _
            (walker-Walks e (append comma w) good) (walk_args-Walks false es))

    walk_first-Walks :
        (es : Exprs) (w : Walk S)
        → A.Good w.caches
        → Walks A.Good
            (Tracked N)
            (first_has_code B N es)
            (λ ps vs. print_first B N ps vs es)
            w
            (walk_first L B es w)
    walk_first-Walks nil w good = refl
    walk_first-Walks (cons e es) w good = walker-Walks e w good
