-- ===== src/Codegen/Declarations/Uses.antt =====
-- The macros that printed device code uses lie in the tables it is printed with.
use pg_strom.Prelude.{
  ℕ, ◌<◌, Bool, true, false, ◌||◌, Option, none, some, List, [], ◌∷◌, ◌++◌, length, arith, ◌≡◌,
  refl, Bool-cases, inl, inr,
}
use Prim.Native.String.{String}
use pg_strom.Codegen.{
  Expr, null, const, param, var, func, op, distinct, null_test, bool_test, bool_expr, node_list,
  other, and_expr, or_expr, not_expr, Exprs, nil, cons, Backend, Piece, kparam, kvar, call,
  call_not, comma, close, length_exprs,
}
use pg_strom.Codegen.Walker.{find, bool_test_name, boolop_name}
use pg_strom.Codegen.Tables.{next_index-some}
use pg_strom.Codegen.Reference.{
  Names, print, print_args, print_first, print_leaf, print_call, name_or_empty, null_test_or_empty,
}
use pg_strom.Codegen.Declarations.Defined.{uses_param, uses_var}

-- A text that uses the macros of `n` parameters and `m` columns at most.
abbrev pub UsesBelow : ℕ → ℕ → List Piece → Type 0
UsesBelow n m code =
    ((i : ℕ) → uses_param i code ≡ true → i < n) × ((i : ℕ) → uses_var i code ≡ true → i < m)

uses_param-append :
    (i : ℕ) (xs ys : List Piece) → uses_param i (xs ++ ys) ≡ (uses_param i xs || uses_param i ys)
uses_param-append i [] ys = refl
uses_param-append i (kparam j ∷ xs) ys = ground (arith, uses_param-append i xs ys)
uses_param-append i (kvar j ∷ xs) ys = uses_param-append i xs ys
uses_param-append i (call f ∷ xs) ys = uses_param-append i xs ys
uses_param-append i (call_not ∷ xs) ys = uses_param-append i xs ys
uses_param-append i (comma ∷ xs) ys = uses_param-append i xs ys
uses_param-append i (close ∷ xs) ys = uses_param-append i xs ys

uses_var-append :
    (i : ℕ) (xs ys : List Piece) → uses_var i (xs ++ ys) ≡ (uses_var i xs || uses_var i ys)
uses_var-append i [] ys = refl
uses_var-append i (kparam j ∷ xs) ys = uses_var-append i xs ys
uses_var-append i (kvar j ∷ xs) ys = ground (arith, uses_var-append i xs ys)
uses_var-append i (call f ∷ xs) ys = uses_var-append i xs ys
uses_var-append i (call_not ∷ xs) ys = uses_var-append i xs ys
uses_var-append i (comma ∷ xs) ys = uses_var-append i xs ys
uses_var-append i (close ∷ xs) ys = uses_var-append i xs ys

module _ (n m : ℕ) where
  UsesBelow-append :
      (xs ys : List Piece) → UsesBelow n m xs → UsesBelow n m ys → UsesBelow n m (xs ++ ys)
  UsesBelow-append xs ys (px, vx) (py, vy) = (
    (λ i h. elim (Bool-cases (uses_param i xs)) [
      | inl t ↦ px i t
      | inr f ↦ py i (rw (uses_param-append i xs ys, f) at h)
    ]),
    λ i h. elim (Bool-cases (uses_var i xs)) [
      | inl t ↦ vx i t
      | inr f ↦ vy i (rw (uses_var-append i xs ys, f) at h)
    ],
  )

  UsesBelow-none :
      (xs : List Piece)
      → ((i : ℕ) → uses_param i xs ≡ false)
      → ((i : ℕ) → uses_var i xs ≡ false)
      → UsesBelow n m xs
  UsesBelow-none xs p v = ((λ i h. absurd (let q = p i in cc)), λ i h. absurd (let q = v i in cc))

  UsesBelow-call :
      (p : Piece) (args : List Piece)
      → UsesBelow n m (p ∷ [])
      → UsesBelow n m args
      → UsesBelow n m (print_call p args)
  UsesBelow-call p args hp h =
      UsesBelow-append (p ∷ []) (args ++ (close ∷ [])) hp
        (UsesBelow-append args (close ∷ []) h (UsesBelow-none (close ∷ []) (λ i. refl) λ i. refl))

  UsesBelow-named :
      (f : String) (args : List Piece)
      → UsesBelow n m args
      → UsesBelow n m (print_call (call f) args)
  UsesBelow-named f args =
      UsesBelow-call (call f) args (UsesBelow-none (call f ∷ []) (λ i. refl) λ i. refl)

find-lt :
    (equal : Expr → Expr → Bool) (e : Expr) (xs : List Expr) (i : ℕ)
    → find equal e xs ≡ some i
    → i < length xs
find-lt equal e [] i h = absurd (cc)
find-lt equal e (x ∷ xs) i h = elim (Bool-cases (equal e x)) [
  | inl t ↦ let h' : some 0 ≡ some i = rw t at h in ground arith
  | inr f ↦
      let (j, p, q) = next_index-some (find equal e xs) i (rw f at h) in
      omega (arith, find-lt equal e xs j p)
]

module _ (B : Backend) (N : Names) (ps vs : List Expr) where
  UsesBelow-param :
      (e : Expr) (o : Option ℕ)
      → find B.equal e ps ≡ o
      → UsesBelow (length ps) (length vs) (print_leaf kparam o)
  UsesBelow-param e none h = UsesBelow-none _ _ [] (λ i. refl) λ i. refl
  UsesBelow-param e (some j) h =
      ((λ i u. ground (arith, find-lt B.equal e ps j h)), λ i u. absurd (cc))

  UsesBelow-var :
      (e : Expr) (o : Option ℕ)
      → find B.equal e vs ≡ o
      → UsesBelow (length ps) (length vs) (print_leaf kvar o)
  UsesBelow-var e none h = UsesBelow-none _ _ [] (λ i. refl) λ i. refl
  UsesBelow-var e (some j) h =
      ((λ i u. absurd (cc)), λ i u. ground (arith, find-lt B.equal e vs j h))

  mutual
    unfolding print print_args print_first

    pub print-UsesBelow : (e : Expr) → UsesBelow (length ps) (length vs) (print B N ps vs e)
    print-UsesBelow null = UsesBelow-none _ _ [] (λ i. refl) λ i. refl
    print-UsesBelow (const con) = UsesBelow-param (const con) _ refl
    print-UsesBelow (param p) = UsesBelow-param (param p) _ refl
    print-UsesBelow (var v) = UsesBelow-var (var v) _ refl
    print-UsesBelow (func f args) =
        UsesBelow-named _ _ (name_or_empty (N.funcs f.oid)) (print_args B N ps vs true args)
          (print_args-UsesBelow true args)
    print-UsesBelow (op o args) =
        UsesBelow-named _ _ (name_or_empty (N.funcs (B.get_opcode o.oid)))
          (print_args B N ps vs true args) (print_args-UsesBelow true args)
    print-UsesBelow (distinct o args) =
        UsesBelow-named _ _ (name_or_empty (N.funcs (B.get_opcode o.oid)))
          (print_args B N ps vs true args) (print_args-UsesBelow true args)
    print-UsesBelow (null_test t r arg) =
        UsesBelow-named _ _ (null_test_or_empty t (N.types (B.expr_type arg))) (print B N ps vs arg)
          (print-UsesBelow arg)
    print-UsesBelow (bool_test t arg) =
        UsesBelow-named _ _ (bool_test_name t) (print B N ps vs arg) (print-UsesBelow arg)
    print-UsesBelow (bool_expr and_expr args) =
        UsesBelow-named _ _ (boolop_name B and_expr (length_exprs args))
          (print_args B N ps vs true args) (print_args-UsesBelow true args)
    print-UsesBelow (bool_expr or_expr args) =
        UsesBelow-named _ _ (boolop_name B or_expr (length_exprs args))
          (print_args B N ps vs true args) (print_args-UsesBelow true args)
    print-UsesBelow (bool_expr not_expr args) =
        UsesBelow-call _ _ call_not (print_first B N ps vs args)
          (UsesBelow-none _ _ (call_not ∷ []) (λ i. refl) λ i. refl) (print_first-UsesBelow args)
    print-UsesBelow (node_list es) = UsesBelow-none _ _ [] (λ i. refl) λ i. refl
    print-UsesBelow (other n) = UsesBelow-none _ _ [] (λ i. refl) λ i. refl

    print_args-UsesBelow :
        (first : Bool) (es : Exprs)
        → UsesBelow (length ps) (length vs) (print_args B N ps vs first es)
    print_args-UsesBelow first nil = UsesBelow-none _ _ [] (λ i. refl) λ i. refl
    print_args-UsesBelow true (cons e es) =
        UsesBelow-append _ _ (print B N ps vs e) (print_args B N ps vs false es) (print-UsesBelow e)
          (print_args-UsesBelow false es)
    print_args-UsesBelow false (cons e es) =
        UsesBelow-append _ _ (comma ∷ []) (print B N ps vs e ++ print_args B N ps vs false es)
          (UsesBelow-none _ _ (comma ∷ []) (λ i. refl) λ i. refl)
          (UsesBelow-append _ _ (print B N ps vs e) (print_args B N ps vs false es)
            (print-UsesBelow e) (print_args-UsesBelow false es))

    print_first-UsesBelow :
        (es : Exprs) → UsesBelow (length ps) (length vs) (print_first B N ps vs es)
    print_first-UsesBelow nil = UsesBelow-none _ _ [] (λ i. refl) λ i. refl
    print_first-UsesBelow (cons e es) = print-UsesBelow e
