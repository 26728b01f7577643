-- ===== src/Tests/Generator.antt =====
-- Runs of the code generator at concrete inputs: `x = 7 AND x IS NOT NULL` and its parts.
use pg_strom.Prelude.{
  ℕ, Bool, true, false, ◌&&◌, ◌+◌, ◌==◌, if◌then◌else◌, Option, none, some, List, [], ◌∷◌, ◌≡◌, ◌↔◌,
  refl, arith, Bool-cases, inl, inr, ap, sym, ◌∙◌,
}
use pg_strom.Prelude.Int.{pos}
use Prim.Native.String.{String}
use pg_strom.Codegen.{
  Expr, const, param, var, op, null_test, bool_expr, node_list, is_not_null, and_expr, Exprs, nil,
  cons, Reply, found, missing, raised, Backend, CodegenContext, Piece, kparam, kvar, call, comma,
  close,
}
use pg_strom.Codegen.Catalog.Entry.{devtype_catalog}
use pg_strom.Codegen.Setup.{setup_func}
use pg_strom.Codegen.Walker.{walker, bool_oid}
use pg_strom.Codegen.Reference.{known, Names, Answering, has_code, print}
use pg_strom.Codegen.Lookup.{TypeRow, ProcRow, Syscache, Caches, devtype_lookup}
use pg_strom.Codegen.Lookup.Types.{null_names, type_verdict}
use pg_strom.Codegen.Lookup.Funcs.{catalog_array, lookup_by_name, lookups}
use pg_strom.Codegen.Lookup.Rows.{row_outcome, func_verdict, KeysAreUnique}
use pg_strom.Codegen.Lookup.Answered.{lookups-Answering, Right-Good}
use pg_strom.Codegen.Expression.{Generated, text, codegen_expression, available_expression}
use pg_strom.Codegen.Declarations.{Line, declared, codegen_declarations}
use pg_strom.Codegen.Declarations.Defined.{uses_param, uses_var, defines_param, defines_var}
use pg_strom.Codegen.Code.{
  HasText, codegen_expression-has_code, codegen_expression-print, codegen_declarations-uses,
}
use pg_strom.Codegen.Accepted.{codegen_expression-accepted}
use pg_strom.Codegen.Expression.Accepts.{ExprTypes, are_trees}

abbrev row : String → TypeRow
row name = record { typname = name; typlen = pos 4; typnamespace = 11 }

abbrev int4eq : ProcRow
int4eq = record {
  proname = "int4eq";
  pronamespace = 11;
  proargtypes = 23 ∷ 23 ∷ [];
  prorettype = 16;
}

-- A catalogue with two types and one function.
abbrev syscache : Syscache
syscache = record {
  type_row =
      λ oid. if oid == 23 then some (row "int4") else if oid == 16 then some (row "bool") else none;
  proc_row = λ oid. if oid == 65 then some int4eq else none;
  hash_uint32 = λ oid. oid;
  hash_name = λ s. 5;
  hash_oids = λ oids. 9;
  print_number = λ n. "1";
  memory_behind = λ oids i. 70000 + i;
}

abbrev fresh : Caches
fresh = record { type_slot = λ h. []; func_slot = λ h. []; next_at = 1 }

abbrev names : Names
names = record { types = type_verdict syscache; funcs = func_verdict syscache }

only_int4eq : (oid : ℕ) (r : ProcRow) → syscache.proc_row oid ≡ some r → r ≡ int4eq
only_int4eq oid r h = elim (Bool-cases (oid == 65)) [
  | inl t ↦ let same : some int4eq ≡ some r = rw t at h in cc
  | inr f ↦ absurd (let h' : none ≡ some r = rw f at h in cc)
]

abbrev syscache-KeysAreUnique : KeysAreUnique syscache
syscache-KeysAreUnique = record {
  in_namespace = λ oid r h. rw (only_int4eq oid r h) refl;
  unique = λ oid oid' r r' h h' m.
      ap (row_outcome syscache) (only_int4eq oid' r' h' ∙ sym (only_int4eq oid r h));
}

same_option : Option ℕ → Option ℕ → Bool
same_option none none = true
same_option (some a) (some b) = a == b
same_option _ _ = false

-- Constants and columns by their fields; no other node is compared here.
unfoldable same_node : Expr → Expr → Bool
unfolding same_option
same_node (const a) (const b) =
    (a.consttype == b.consttype)
    && ((a.constcollid == b.constcollid) && same_option a.constvalue b.constvalue)
same_node (var a) (var b) =
    (a.varno == b.varno)
    && ((a.varattno == b.varattno) && ((a.vartype == b.vartype) && (a.varcollid == b.varcollid)))
same_node (const a) _ = false
same_node (var a) _ = false
same_node _ _ = true

same_option_self : (o : Option ℕ) → same_option o o ≡ true
unfolding same_option
same_option_self none = refl
same_option_self (some a) = ground arith

same_node_self : (e : Expr) → same_node e e ≡ true
unfolding same_node
same_node_self (const a) = ground (arith, same_option_self a.constvalue)
same_node_self (var a) = ground arith
same_node_self e = refl

abbrev node_type : Expr → ℕ
node_type (const c) = c.consttype
node_type (param p) = p.paramtype
node_type (var v) = v.vartype
node_type _ = bool_oid

abbrev host : Backend
host = record {
  equal = same_node;
  expr_type = node_type;
  get_opcode = λ o. if o == 96 then 65 else 0;
  make_andclause = bool_expr and_expr;
  print_number = λ n. "2";
}

bool_verdict : type_verdict syscache bool_oid ≡ known (null_names (row "bool"))
unfolding type_verdict devtype_catalog
bool_verdict = refl

abbrev answering : Answering (lookups syscache) host names
answering = lookups-Answering syscache syscache-KeysAreUnique (row "bool") bool_verdict host

int4eq_known : func_verdict syscache 65 ≡ known "int4eq"
unfolding row_outcome type_verdict devtype_catalog catalog_array setup_func
int4eq_known = refl

fresh-Good : answering.Good fresh
fresh-Good =
    Right-Good syscache syscache-KeysAreUnique (row "bool") bool_verdict host fresh
      (λ h. tt, λ h. tt)

abbrev host-ExprTypes : ExprTypes host names
unfolding type_verdict devtype_catalog
host-ExprTypes = record {
  of_const = λ c. refl;
  of_param = λ p. refl;
  of_var = λ v. refl;
  of_null_test = λ t r e. refl;
  of_bool_test = λ t e. refl;
  of_bool_expr = λ b es. refl;
  of_func = λ f es h. refl;
  of_op = λ f es h. refl;
  of_distinct = λ f es h. refl;
  bool_known = refl;
}

abbrev column : Expr
column = var (record { varno = 1; varattno = 2; vartype = 23; varcollid = 0 })

abbrev seven : Expr
seven = const (record { consttype = 23; constcollid = 0; constvalue = some 7 })

abbrev equals_seven : Expr
equals_seven = op (record { oid = 96; collid = 0; inputcollid = 0 }) (cons column (cons seven nil))

abbrev quals : Exprs
quals = cons equals_seven (cons (null_test is_not_null false column) nil)

abbrev empty : CodegenContext
empty = record {
  type_defs = [];
  func_defs = [];
  used_params = [];
  used_vars = [];
  extra_libs = record { timelib = false; textlib = false; numericlib = false };
  kernel_flags = 0;
}

abbrev quals_code : List Piece
quals_code =
    call "boolop_and_2"
    ∷ call "int4eq"
    ∷ kvar 0
    ∷ comma
    ∷ kparam 0
    ∷ close
    ∷ comma
    ∷ call "int4_is_not_null"
    ∷ kvar 0
    ∷ close
    ∷ close
    ∷ []

abbrev context_of : Generated Caches → CodegenContext
context_of (text code context s) = context
context_of _ = empty

abbrev caches_of : Generated Caches → Caches
caches_of (text code context s) = s
caches_of _ = fresh

abbrev generated : Generated Caches
generated = codegen_expression (lookups syscache) host (node_list quals) empty fresh

abbrev quals_context : CodegenContext
quals_context = context_of generated

quals_generated : generated ≡ text quals_code quals_context (caches_of generated)
unfolding codegen_expression same_node walker lookups devtype_lookup lookup_by_name devtype_catalog
    catalog_array
quals_generated = refl

abbrev left_by : Reply Caches (Unit {0}) → Caches
left_by (found a s) = s
left_by (missing s) = s
left_by raised = fresh

abbrev available : Reply Caches (Unit {0})
available = available_expression (lookups syscache) host (node_list quals) fresh

quals_available : available ≡ found tt (left_by available)
unfolding available_expression lookups devtype_lookup lookup_by_name devtype_catalog catalog_array
quals_available = refl

codegen_expression-accepted_example :
    HasText (codegen_expression (lookups syscache) host (node_list quals) empty fresh)
unfolding are_trees
codegen_expression-accepted_example =
    codegen_expression-accepted (lookups syscache) host names answering host-ExprTypes
      same_node_self quals fresh (left_by available) fresh empty refl refl fresh-Good
      quals_available fresh-Good

codegen_expression-has_code_example :
    (has_code host names (bool_expr and_expr quals) ≡ true)
    ↔ HasText (codegen_expression (lookups syscache) host (node_list quals) empty fresh)
codegen_expression-has_code_example =
    codegen_expression-has_code (lookups syscache) host names same_node_self answering
      (node_list quals) empty fresh fresh-Good

codegen_expression-print_example :
    quals_code ≡ print host names (seven ∷ []) (column ∷ seven ∷ []) (bool_expr and_expr quals)
unfolding codegen_expression walker lookups devtype_catalog catalog_array same_node
codegen_expression-print_example =
    codegen_expression-print (lookups syscache) host names same_node_self answering
      (node_list quals) empty fresh fresh-Good quals_code quals_context (caches_of generated)
      quals_generated (seven ∷ []) (column ∷ seven ∷ []) ([], refl) (seven ∷ [], refl)

codegen_declarations-uses_example :
    (str : List Line) × (s : Caches) × (codegen_declarations
        (lookups syscache)
        quals_context
        (caches_of generated)
      ≡ declared str s)
    × ((i : ℕ) → uses_param i quals_code ≡ true → defines_param i str ≡ 1)
    × ((i : ℕ) → uses_var i quals_code ≡ true → defines_var i str ≡ 1)
codegen_declarations-uses_example =
    codegen_declarations-uses (lookups syscache) host names same_node_self answering
      (node_list quals) empty fresh fresh-Good quals_code quals_context (caches_of generated)
      quals_generated (refl, refl)
