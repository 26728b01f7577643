-- ===== src/Codegen/Code.antt =====
-- What `pgstrom_codegen_expression` of codegen.c gives back, with the declarations for it.
use pg_strom.Prelude.{ℕ, true, false, List, [], length, ◌≡◌, refl, sym, ◌↔◌, arith, subst}
use pg_strom.Codegen.{
  Expr, Lookups, Backend, Piece, CodegenContext, Outcome, done, refused, error, crash,
}
use pg_strom.Codegen.Reference.{Names, Answering, Tracked, has_code, print}
use pg_strom.Codegen.Tables.{Extends, Extends-refl}
use pg_strom.Codegen.Walks.{Walks}
use pg_strom.Codegen.Correct.{walker-Walks}
use pg_strom.Codegen.Expression.{
  Generated, text, no_text, raises, crashes, write_back, conjunction, codegen_expression,
}
use pg_strom.Codegen.Declarations.{Line, Declared, declared, codegen_declarations}
use pg_strom.Codegen.Declarations.Defined.{
  defines_param, defines_var, uses_param, uses_var, in_range, Defines,
}
use pg_strom.Codegen.Declarations.Complete.{codegen_declarations-Defines}
use pg_strom.Codegen.Declarations.Uses.{UsesBelow, print-UsesBelow}

module _ {S : Type 0} where
  -- The code generator has returned a text.
  abbrev pub HasText : Generated S → Type 0
  HasText g = (code : List Piece) × (context : CodegenContext) × (s : S) × (g ≡ text code context s)

-- Each macro of a text that uses those below two bounds is defined once.
Defines-once :
    {S : Type 0} (Good : S → Type 0) (n m : ℕ) (code : List Piece) (r : Declared S)
    → Defines Good (in_range 0 n) (in_range 0 m) r
    → UsesBelow n m code
    → (str : List Line) × (s : S) × (r ≡ declared str s)
      × ((i : ℕ) → uses_param i code ≡ true → defines_param i str ≡ 1)
      × ((i : ℕ) → uses_var i code ≡ true → defines_var i str ≡ 1)
Defines-once Good n m code (declared str s) (_, p, v) (up, uv) =
    (str, s, refl, (λ i u. ground (arith, p i, up i u)), λ i u. ground (arith, v i, uv i u))
Defines-once Good n m code Declared.raises d u = absurd d
Defines-once Good n m code Declared.crashes d u = absurd d

module _ {S : Type 0} (L : Lookups S) (B : Backend) (N : Names)
    (same : (e : Expr) → B.equal e e ≡ true) (A : Answering L B N) where
  -- What the code generator gives back for a node, by whether it has code.
  abbrev Generates : Expr → CodegenContext → Generated S → Type 0
  Generates e context (text code context' s') =
      (has_code B N e ≡ true)
      × A.Good s'
      × (Tracked N context.used_params context.used_vars
          → Tracked N context'.used_params context'.used_vars)
      × ((ps vs : List Expr)
          → Extends context'.used_params ps
          → Extends context'.used_vars vs
          → code ≡ print B N ps vs e)
  Generates e context (no_text context' s') =
      (has_code B N e ≡ false) × A.Good s' × (context' ≡ context)
  Generates e context raises = has_code B N e ≡ false
  Generates e context crashes = has_code B N e ≡ false

  write_back-Generates :
      (e : Expr) (context : CodegenContext) (s : S) (o : Outcome S)
      → Walks A.Good
          (Tracked N)
          (has_code B N e)
          (λ ps vs. print B N ps vs e)
          (record { str = []; defs = context; caches = s })
          o
      → Generates e context (write_back context o)
  write_back-Generates e context s (done w) (has, good, _, _, keeps, prints) =
      (has, good, keeps, prints)
  write_back-Generates e context s (refused s') (has, good) = (has, good, refl)
  write_back-Generates e context s error has = has
  write_back-Generates e context s crash has = has

  codegen_expression-Generates :
      (e : Expr) (context : CodegenContext) (s : S)
      → A.Good s
      → Generates (conjunction B e) context (codegen_expression L B e context s)
  unfolding codegen_expression
  codegen_expression-Generates e context s good =
      write_back-Generates (conjunction B e) context s _ (
        walker-Walks L B N same A (conjunction B e)
          (record { str = []; defs = context; caches = s }) good)

  text-has_code :
      (e : Expr) (context : CodegenContext) (g : Generated S)
      → Generates e context g
      → (has_code B N e ≡ true) ↔ HasText g
  text-has_code e context (text code context' s') h = ((λ _. (code, context', s', refl)), λ _. h.0)
  text-has_code e context (no_text context' s') h =
      ((λ t. absurd (let n = h.0 in cc)), λ u. absurd (let q = u.3 in cc))
  text-has_code e context raises h = ((λ t. absurd (cc)), λ u. absurd (let q = u.3 in cc))
  text-has_code e context crashes h = ((λ t. absurd (cc)), λ u. absurd (let q = u.3 in cc))

  module _ (e : Expr) (context : CodegenContext) (s : S) (good : A.Good s) where
    -- Where the lookups answer as `N` says from caches that are good, and every node is `equal` to
    -- itself: from good caches the code generator returns a text exactly for the expressions that have
    -- device code by the reference.
    pub codegen_expression-has_code :
        (has_code B N (conjunction B e) ≡ true) ↔ HasText (codegen_expression L B e context s)
    codegen_expression-has_code =
        text-has_code (conjunction B e) context _ (codegen_expression-Generates e context s good)

    module _ (code : List Piece) (context' : CodegenContext) (s' : S)
        (result : codegen_expression L B e context s ≡ text code context' s') where
      generated : Generates (conjunction B e) context (text code context' s')
      generated =
          subst (Generates (conjunction B e) context) result
            (codegen_expression-Generates e context s good)

      -- Where the lookups answer as `N` says from caches that are good, and every node is `equal` to
      -- itself: a text that is generated from good caches is the code that the two-pass reference
      -- prints with the tables of parameters and columns of the context that is left, and with any
      -- tables that have more at their end.
      pub codegen_expression-print :
          (ps vs : List Expr)
          → Extends context'.used_params ps
          → Extends context'.used_vars vs
          → code ≡ print B N ps vs (conjunction B e)
      codegen_expression-print = generated.3

      -- Where the lookups answer as `N` says from caches that are good, and every node is `equal` to
      -- itself: if the types of the parameters and columns of the context are known at first, then
      -- for the context that is left by the generation of a text from good caches the declarations
      -- are generated, and each macro for a parameter or a column that the text uses is defined
      -- there exactly once.
      pub codegen_declarations-uses :
          Tracked N context.used_params context.used_vars
          → (str : List Line) × (s'' : S) × (codegen_declarations L context' s' ≡ declared str s'')
            × ((i : ℕ) → uses_param i code ≡ true → defines_param i str ≡ 1)
            × ((i : ℕ) → uses_var i code ≡ true → defines_var i str ≡ 1)
      codegen_declarations-uses tracked =
          Defines-once A.Good (length context'.used_params) (length context'.used_vars) code _
            (codegen_declarations-Defines L B N A context' s' generated.1 (generated.2 tracked))
            (subst (UsesBelow (length context'.used_params) (length context'.used_vars))
              (sym (
                generated.3 context'.used_params context'.used_vars (Extends-refl _)
                  (Extends-refl _)))
              (print-UsesBelow B N context'.used_params context'.used_vars (conjunction B e)))
