-- ===== src/Codegen/Declarations/Complete.antt =====
-- The declarations of codegen.c for tables whose types are all known.
use pg_strom.Prelude.{
  and-left, and-right, ℕ, suc, ◌+◌, true, ◌==◌, if◌then◌else◌, List, [], ◌∷◌, ◌++◌, length, arith,
  ◌≡◌, refl, Bool-cases, inl, inr, ◌∙◌,
}
use pg_strom.Codegen.{
  Expr, null, const, param, var, func, op, distinct, null_test, bool_test, bool_expr, node_list,
  other, Devtype, Devfunc, Lookups, Backend, CodegenContext,
}
use pg_strom.Codegen.Reference.{all, Names, Answering, Tracked, is_declared_param, is_declared_var}
use pg_strom.Codegen.Declarations.{
  Line, newline, param_macro, type_lines, func_lines, var_line, declare_param, declare_var,
  declare_params, declare_vars, codegen_declarations,
}
use pg_strom.Codegen.Declarations.Defined.{
  defines_param, defines_var, defines_param-append, defines_var-append, in_range, Defines,
  Defines-then, typed_line-Defines,
}

var_line-defines :
    (i index : ℕ) (d : Devtype)
    → (defines_param i (var_line index d ∷ []) ≡ 0)
      × (defines_var i (var_line index d ∷ []) ≡ (if i == index then 1 else 0))
var_line-defines i index d = elim (Bool-cases d.is_varlena) [
  | inl t ↦ rw t (refl, omega arith)
  | inr n ↦ rw n (refl, omega arith)
]

in_range-suc :
    (index n i : ℕ)
    → in_range index (suc n) i ≡ (if i == index then 1 else 0) + in_range (suc index) n i
in_range-suc index n i = ground arith

func_lines-defines :
    (ds : List Devfunc) (i : ℕ)
    → (defines_param i (func_lines ds) ≡ 0) × (defines_var i (func_lines ds) ≡ 0)
func_lines-defines [] i = (refl, refl)
func_lines-defines (d ∷ ds) i = func_lines-defines ds i

type_lines-defines :
    (ts : List Devtype) (i : ℕ)
    → (defines_param i (type_lines ts) ≡ 0) × (defines_var i (type_lines ts) ≡ 0)
type_lines-defines [] i = (refl, refl)
type_lines-defines (t ∷ ts) i = elim (Bool-cases t.is_varlena) [
  | inl yes_it ↦ rw yes_it (type_lines-defines ts i)
  | inr not_it ↦ rw not_it (type_lines-defines ts i)
]

-- The lines of the types and of the functions define no macro.
functions-defines :
    (ds : List Devfunc) (ts : List Devtype)
    → ((i : ℕ) → defines_param i ((type_lines ts ++ (newline ∷ [])) ++ func_lines ds) ≡ 0)
      × ((i : ℕ) → defines_var i ((type_lines ts ++ (newline ∷ [])) ++ func_lines ds) ≡ 0)
functions-defines ds ts = (
  (λ i. omega (
    arith,
    defines_param-append i (type_lines ts ++ (newline ∷ [])) (func_lines ds),
    defines_param-append i (type_lines ts) (newline ∷ []),
    (type_lines-defines ts i).0,
    (func_lines-defines ds i).0,
  )),
  λ i. omega (
    arith,
    defines_var-append i (type_lines ts ++ (newline ∷ [])) (func_lines ds),
    defines_var-append i (type_lines ts) (newline ∷ []),
    (type_lines-defines ts i).1,
    (func_lines-defines ds i).1,
  ),
)

module _ {S : Type 0} (L : Lookups S) (B : Backend) (N : Names) (A : Answering L B N) where
  declare_param-Defines :
      (e : Expr) (index : ℕ) (str : List Line) (s : S)
      → A.Good s
      → is_declared_param N e ≡ true
      → Defines A.Good
          (λ i. defines_param i str + (if i == index then 1 else 0))
          (λ i. defines_var i str)
          (declare_param L e index str s)
  unfolding declare_param
  declare_param-Defines (const con) index str s good k =
      typed_line-Defines A.Good _ (N.types con.consttype) (L.devtype_lookup con.consttype s) str _ _
        _ (A.types_lem con.consttype s good) k
        (λ d i. omega (arith, defines_param-append i str (param_macro index d.type_name ∷ [])))
        (λ d i. omega (arith, defines_var-append i str (param_macro index d.type_name ∷ [])))
  declare_param-Defines (param p) index str s good k =
      typed_line-Defines A.Good _ (N.types p.paramtype) (L.devtype_lookup p.paramtype s) str _ _ _
        (A.types_lem p.paramtype s good) k
        (λ d i. omega (arith, defines_param-append i str (param_macro index d.type_name ∷ [])))
        (λ d i. omega (arith, defines_var-append i str (param_macro index d.type_name ∷ [])))
  declare_param-Defines null index str s good k = absurd (cc)
  declare_param-Defines (var v) index str s good k = absurd (cc)
  declare_param-Defines (func f es) index str s good k = absurd (cc)
  declare_param-Defines (op f es) index str s good k = absurd (cc)
  declare_param-Defines (distinct f es) index str s good k = absurd (cc)
  declare_param-Defines (null_test t b e) index str s good k = absurd (cc)
  declare_param-Defines (bool_test t e) index str s good k = absurd (cc)
  declare_param-Defines (bool_expr b es) index str s good k = absurd (cc)
  declare_param-Defines (node_list es) index str s good k = absurd (cc)
  declare_param-Defines (other n) index str s good k = absurd (cc)

  declare_var-Defines :
      (e : Expr) (index : ℕ) (str : List Line) (s : S)
      → A.Good s
      → is_declared_var N e ≡ true
      → Defines A.Good
          (λ i. defines_param i str)
          (λ i. defines_var i str + (if i == index then 1 else 0))
          (declare_var L e index str s)
  unfolding declare_var
  declare_var-Defines (var v) index str s good k =
      typed_line-Defines A.Good _ (N.types v.vartype) (L.devtype_lookup v.vartype s) str
        (var_line index) _ _ (A.types_lem v.vartype s good) k
        (λ d i. omega (
          arith,
          defines_param-append i str (var_line index d ∷ []),
          (var_line-defines i index d).0,
        ))
        (λ d i.
          defines_var-append i str (var_line index d ∷ [])
          ∙ (rw ((var_line-defines i index d).1) refl))
  declare_var-Defines (const con) index str s good k = absurd (cc)
  declare_var-Defines (param p) index str s good k = absurd (cc)
  declare_var-Defines null index str s good k = absurd (cc)
  declare_var-Defines (func f es) index str s good k = absurd (cc)
  declare_var-Defines (op f es) index str s good k = absurd (cc)
  declare_var-Defines (distinct f es) index str s good k = absurd (cc)
  declare_var-Defines (null_test t b e) index str s good k = absurd (cc)
  declare_var-Defines (bool_test t e) index str s good k = absurd (cc)
  declare_var-Defines (bool_expr b es) index str s good k = absurd (cc)
  declare_var-Defines (node_list es) index str s good k = absurd (cc)
  declare_var-Defines (other n) index str s good k = absurd (cc)

  declare_params-Defines :
      (es : List Expr) (index : ℕ) (str : List Line) (s : S) (ps vs : ℕ → ℕ)
      → A.Good s
      → all (is_declared_param N) es ≡ true
      → ((i : ℕ) → defines_param i str + in_range index (length es) i ≡ ps i)
      → ((i : ℕ) → defines_var i str ≡ vs i)
      → Defines A.Good ps vs (declare_params L es index str s)
  unfolding declare_params
  declare_params-Defines [] index str s ps vs good k p v =
      (good, (λ i. ground (arith, p i)), λ i. ground (arith, v i))
  declare_params-Defines (e ∷ es) index str s ps vs good k p v =
      let k_head = and-left (is_declared_param N e) (all (is_declared_param N) es) k in
      let k_tail = and-right (is_declared_param N e) (all (is_declared_param N) es) k in
      Defines-then A.Good _ _ ps vs (declare_param L e index str s)
        (declare_params L es (suc index)) (declare_param-Defines e index str s good k_head)
        λ str' s' good' p' v'.
          declare_params-Defines es (suc index) str' s' ps vs good' k_tail
            (λ i. ground (arith, p i, p' i, in_range-suc index (length es) i)) (λ i. v' i ∙ v i)

  declare_vars-Defines :
      (es : List Expr) (index : ℕ) (str : List Line) (s : S) (ps vs : ℕ → ℕ)
      → A.Good s
      → all (is_declared_var N) es ≡ true
      → ((i : ℕ) → defines_param i str ≡ ps i)
      → ((i : ℕ) → defines_var i str + in_range index (length es) i ≡ vs i)
      → Defines A.Good ps vs (declare_vars L es index str s)
  unfolding declare_vars
  declare_vars-Defines [] index str s ps vs good k p v =
      (good, (λ i. ground (arith, p i)), λ i. ground (arith, v i))
  declare_vars-Defines (e ∷ es) index str s ps vs good k p v =
      let k_head = and-left (is_declared_var N e) (all (is_declared_var N) es) k in
      let k_tail = and-right (is_declared_var N e) (all (is_declared_var N) es) k in
      Defines-then A.Good _ _ ps vs (declare_var L e index str s) (declare_vars L es (suc index))
        (declare_var-Defines e index str s good k_head)
        λ str' s' good' p' v'.
          declare_vars-Defines es (suc index) str' s' ps vs good' k_tail (λ i. p' i ∙ p i)
            (λ i. ground (arith, v i, v' i, in_range-suc index (length es) i))

  -- Of types that are known, the declarations define `KPARAM_i` once for each parameter `i` of the
  -- context and `KVAR_i` once for each column `i`, and no other.
  pub codegen_declarations-Defines :
      (context : CodegenContext) (s : S)
      → A.Good s
      → Tracked N context.used_params context.used_vars
      → Defines A.Good
          (in_range 0 (length context.used_params))
          (in_range 0 (length context.used_vars))
          (codegen_declarations L context s)
  unfolding codegen_declarations
  codegen_declarations-Defines context s good (ps_known, vs_known) =
      let (none_p, none_v) = functions-defines context.func_defs context.type_defs in
      Defines-then A.Good (in_range 0 (length context.used_params)) (λ i. 0) _ _ _ _
        (declare_params-Defines context.used_params 0 _ s _ _ good ps_known
          (λ i. omega (arith, none_p i)) none_v)
        λ str' s' good' p' v'.
          declare_vars-Defines context.used_vars 0 str' s' _ _ good' vs_known p'
            λ i. omega (arith, v' i)
