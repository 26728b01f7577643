-- ===== src/Codegen/Declarations/Defined.antt =====
-- The macros that the declarations of codegen.c define, and the macros that device code uses.
use pg_strom.Prelude.{
  ℕ, ◌+◌, Bool, true, false, ◌||◌, ◌&&◌, ◌==◌, ltb, leb, if◌then◌else◌, List, [], ◌∷◌, ◌++◌, arith,
  ◌≡◌,
}
use pg_strom.Codegen.{Devtype, Reply, found, missing, raised, Piece, kparam, kvar}
use pg_strom.Codegen.Reference.{Verdict, known, unknown, invalid, is_known, Answers}
use pg_strom.Codegen.Declarations.{
  Line, simple_type_template, varlena_type_template, newline, func_decl_line, param_macro,
  var_macro, varlena_var_macro, Declared, declared, raises, crashes, then_lines, typed_line,
}

-- How often a macro is defined.
abbrev pub defines_param : ℕ → List Line → ℕ
defines_param i [] = 0
defines_param i (param_macro j n ∷ ls) = (if i == j then 1 else 0) + defines_param i ls
defines_param i (_ ∷ ls) = defines_param i ls

abbrev pub defines_var : ℕ → List Line → ℕ
defines_var i [] = 0
defines_var i (var_macro j n ∷ ls) = (if i == j then 1 else 0) + defines_var i ls
defines_var i (varlena_var_macro j n ∷ ls) = (if i == j then 1 else 0) + defines_var i ls
defines_var i (_ ∷ ls) = defines_var i ls

-- The macros that a text uses.
abbrev pub uses_param : ℕ → List Piece → Bool
uses_param i [] = false
uses_param i (kparam j ∷ ps) = (i == j) || uses_param i ps
uses_param i (_ ∷ ps) = uses_param i ps

abbrev pub uses_var : ℕ → List Piece → Bool
uses_var i [] = false
uses_var i (kvar j ∷ ps) = (i == j) || uses_var i ps
uses_var i (_ ∷ ps) = uses_var i ps

-- Within `[i, i + n)`.
abbrev pub in_range : ℕ → ℕ → ℕ → ℕ
in_range i n j = if leb i j && ltb j (i + n) then 1 else 0

pub defines_param-append :
    (i : ℕ) (xs ys : List Line)
    → defines_param i (xs ++ ys) ≡ defines_param i xs + defines_param i ys
defines_param-append i [] ys = omega arith
defines_param-append i (simple_type_template a b ∷ xs) ys = defines_param-append i xs ys
defines_param-append i (varlena_type_template a ∷ xs) ys = defines_param-append i xs ys
defines_param-append i (newline ∷ xs) ys = defines_param-append i xs ys
defines_param-append i (func_decl_line d ∷ xs) ys = defines_param-append i xs ys
defines_param-append i (param_macro j n ∷ xs) ys = omega (arith, defines_param-append i xs ys)
defines_param-append i (var_macro j n ∷ xs) ys = defines_param-append i xs ys
defines_param-append i (varlena_var_macro j n ∷ xs) ys = defines_param-append i xs ys

pub defines_var-append :
    (i : ℕ) (xs ys : List Line) → defines_var i (xs ++ ys) ≡ defines_var i xs + defines_var i ys
defines_var-append i [] ys = omega arith
defines_var-append i (simple_type_template a b ∷ xs) ys = defines_var-append i xs ys
defines_var-append i (varlena_type_template a ∷ xs) ys = defines_var-append i xs ys
defines_var-append i (newline ∷ xs) ys = defines_var-append i xs ys
defines_var-append i (func_decl_line d ∷ xs) ys = defines_var-append i xs ys
defines_var-append i (param_macro j n ∷ xs) ys = defines_var-append i xs ys
defines_var-append i (var_macro j n ∷ xs) ys = omega (arith, defines_var-append i xs ys)
defines_var-append i (varlena_var_macro j n ∷ xs) ys = omega (arith, defines_var-append i xs ys)

module _ {S : Type 0} (Good : S → Type 0) where
  -- Lines that come to hold `ps i` and `vs i` definitions of the macros with number `i`.
  abbrev pub Defines : (ℕ → ℕ) → (ℕ → ℕ) → Declared S → Type 0
  Defines ps vs (declared str s) =
      Good s × ((i : ℕ) → defines_param i str ≡ ps i) × ((i : ℕ) → defines_var i str ≡ vs i)
  Defines ps vs raises = ⊥
  Defines ps vs crashes = ⊥

  pub Defines-then :
      (ps vs ps' vs' : ℕ → ℕ) (r : Declared S) (k : List Line → S → Declared S)
      → Defines ps vs r
      → ((str : List Line) (s : S)
          → Good s
          → ((i : ℕ) → defines_param i str ≡ ps i)
          → ((i : ℕ) → defines_var i str ≡ vs i)
          → Defines ps' vs' (k str s))
      → Defines ps' vs' (then_lines r k)
  Defines-then ps vs ps' vs' (declared str s) k (good, p, v) next = next str s good p v
  Defines-then ps vs ps' vs' raises k u next = u
  Defines-then ps vs ps' vs' crashes k u next = u

  -- The line of a type that is known.
  pub typed_line-Defines :
      {V : Type 0} (R : Devtype → V → Type 0) (v : Verdict V) (r : Reply S Devtype)
      (str : List Line) (line : Devtype → Line) (ps vs : ℕ → ℕ)
      → Answers Good R v r
      → is_known v ≡ true
      → ((d : Devtype) (i : ℕ) → defines_param i (str ++ (line d ∷ [])) ≡ ps i)
      → ((d : Devtype) (i : ℕ) → defines_var i (str ++ (line d ∷ [])) ≡ vs i)
      → Defines ps vs (typed_line r str line)
  typed_line-Defines R (known n) (found d s) str line ps vs a k p v = (a.1, p d, v d)
  typed_line-Defines R (known n) (missing s) str line ps vs a k p v = a
  typed_line-Defines R (known n) raised str line ps vs a k p v = a
  typed_line-Defines R unknown r str line ps vs a k p v = absurd (cc)
  typed_line-Defines R invalid r str line ps vs a k p v = absurd (cc)
