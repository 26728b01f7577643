-- ===== src/Codegen/Expression.antt =====
-- `pgstrom_codegen_expression` and `pgstrom_codegen_available_expression` of codegen.c.
pub mod Accepts
use pg_strom.Prelude.{◌||◌, not, if◌then◌else◌, List, []}
use pg_strom.Codegen.{
  Expr, null, const, param, var, func, op, distinct, null_test, bool_test, bool_expr, node_list,
  other, Exprs, nil, cons, Reply, found, missing, raised, Lookups, Backend, Piece, CodegenContext,
  Outcome, done, refused, error, crash,
}
use pg_strom.Codegen.Walker.{oid_is_valid, is_extern, walker}

-- The text and the context with which the code generator returns; `no_text` is `NULL`.
pub data Generated (S : Type 0) : Type 0 where
  text : List Piece → CodegenContext → S → Generated S
  no_text : CodegenContext → S → Generated S
  raises crashes : Generated S

-- A list stands for its one element, or for the conjunction of its elements.
abbrev pub conjunction : Backend → Expr → Expr
conjunction B (node_list (cons e nil)) = e
conjunction B (node_list es) = B.make_andclause es
conjunction B e = e

module _ {S : Type 0} where
  -- The context is written back only when the walker returns true.
  abbrev pub write_back : CodegenContext → Outcome S → Generated S
  write_back context (done w) = text w.str w.defs w.caches
  write_back context (refused s) = no_text context s
  write_back context error = raises
  write_back context crash = crashes

  -- A lookup under `!`, with what follows when it has a result.
  abbrev pub when_found : {A : Type 0} → Reply S A → (S → Reply S (Unit {0})) → Reply S (Unit {0})
  when_found (found a s) k = k s
  when_found (missing s) k = missing s
  when_found raised k = raised

module _ {S : Type 0} (L : Lookups S) (B : Backend) where
  unfoldable pub codegen_expression : Expr → CodegenContext → S → Generated S
  codegen_expression e context s =
      write_back context
        (walker L B (conjunction B e) (record { str = []; defs = context; caches = s }))

  -- `found tt` is true and `missing` is false.
  unfoldable mutual
    pub available_expression : Expr → S → Reply S (Unit {0})
    available_expression null s = found tt s
    available_expression (node_list es) s = available_list es s
    available_expression (const con) s =
        if oid_is_valid con.constcollid
        then missing s
        else when_found (L.devtype_lookup con.consttype s) (found tt)
    available_expression (param p) s =
        if oid_is_valid p.paramcollid || not (is_extern p.paramkind)
        then missing s
        else when_found (L.devtype_lookup p.paramtype s) (found tt)
    available_expression (var v) s =
        if oid_is_valid v.varcollid
        then missing s
        else when_found (L.devtype_lookup v.vartype s) (found tt)
    available_expression (func f args) s =
        if oid_is_valid f.collid || oid_is_valid f.inputcollid
        then missing s
        else when_found (L.devfunc_lookup f.oid s) (available_list args)
    available_expression (op o args) s =
        if oid_is_valid o.collid || oid_is_valid o.inputcollid
        then missing s
        else when_found (L.devfunc_lookup (B.get_opcode o.oid) s) (available_list args)
    available_expression (distinct o args) s =
        if oid_is_valid o.collid || oid_is_valid o.inputcollid
        then missing s
        else when_found (L.devfunc_lookup (B.get_opcode o.oid) s) (available_list args)
    available_expression (null_test t argisrow arg) s =
        let rest = available_expression arg s in if argisrow then missing s else rest
    available_expression (bool_test t arg) s = available_expression arg s
    available_expression (bool_expr b args) s = missing s
    available_expression (other n) s = missing s

    pub available_list : Exprs → S → Reply S (Unit {0})
    available_list nil s = found tt s
    available_list (cons e es) s = when_found (available_expression e s) (available_list es)
