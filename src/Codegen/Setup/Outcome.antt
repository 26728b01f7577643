-- ===== src/Codegen/Setup/Outcome.antt =====
-- What a set-up of codegen.c ends with: it depends on which types are `NULL`, and not on the types.
use pg_strom.Prelude.{
  ℕ, suc, Bool, true, false, if◌then◌else◌, Option, none, some, List, [], ◌∷◌, map, ◌≡◌, refl, ◌∙◌,
  sym,
}
use Prim.Native.String.{String}
use text.Mathlib.Text.{starts_with}
use pg_strom.Codegen.{Devtype}
use pg_strom.Codegen.Reference.{Verdict, known, unknown, invalid}
use pg_strom.Codegen.Catalog.Entry.{Procat, Callback, no_callback, div_oper, setup_const}
use pg_strom.Codegen.Setup.{
  Setup, set_up, negative, null_pointer, arg_list, prefixed, func_text, setup_template, setup_by,
  setup_func, devfunc_setup_div_oper, devfunc_setup_const, devfunc_setup_cast,
  devfunc_setup_oper_both, devfunc_setup_oper_either, devfunc_setup_func,
}

-- The name of the function, no support, or an error.
abbrev pub outcome : Setup → Verdict String
outcome (set_up n d) = known n
outcome negative = unknown
outcome null_pointer = invalid

abbrev pub some_type : Devtype
some_type = record {
  type_at = 0;
  type_oid = 0;
  is_varlena = false;
  type_name = "";
  type_base = "";
  type_is_null_fn = "";
  type_is_not_null_fn = "";
}

-- `NULL`, or some type.
abbrev pub blank : Option Devtype → Option Devtype
blank none = none
blank (some d) = some some_type

abbrev is_made : Option String → Bool
is_made none = false
is_made (some s) = true

prefixed-is_made :
    (s : String) (o o' : Option String)
    → is_made o ≡ is_made o'
    → is_made (prefixed s o) ≡ is_made o'
prefixed-is_made s none o' h = h
prefixed-is_made s (some t) o' h = h

prefixed_both :
    (s s' : String) (o o' : Option String)
    → is_made o ≡ is_made o'
    → is_made (prefixed s o) ≡ is_made (prefixed s' o')
prefixed_both s s' o o' h = prefixed-is_made s o o' h ∙ sym (prefixed-is_made s' o' o' refl)

arg_list-blank :
    (print : ℕ → String) (ds : List (Option Devtype)) (index : ℕ) (first sep : String)
    → is_made (arg_list print ds index first sep)
      ≡ is_made (arg_list print (map blank ds) index first sep)
arg_list-blank print [] index first sep = refl
arg_list-blank print (none ∷ ds) index first sep = refl
arg_list-blank print (some d ∷ ds) index first sep =
    prefixed_both _ _ _ _ (arg_list-blank print ds (suc index) sep sep)

func_text-blank :
    (print : ℕ → String) (r : Devtype) (ds : List (Option Devtype)) (p : Procat)
    (o o' : Option String)
    → is_made o ≡ is_made o'
    → outcome (func_text print r ds p o) ≡ outcome (func_text print some_type (map blank ds) p o')
func_text-blank print r ds p none none h = refl
func_text-blank print r ds p none (some t) h = absurd (cc)
func_text-blank print r ds p (some s) none h = absurd (cc)
func_text-blank print r ds p (some s) (some t) h = refl

if-outcome :
    (b : Bool) (x x' y y' : Setup)
    → outcome x ≡ outcome x'
    → outcome y ≡ outcome y'
    → outcome (if b then x else y) ≡ outcome (if b then x' else y')
if-outcome true x x' y y' h k = h
if-outcome false x x' y y' h k = k

module _ (p : Procat) where
  cast-blank :
      (r : Option Devtype) (ds : List (Option Devtype))
      → outcome (devfunc_setup_cast r ds p)
        ≡ outcome (devfunc_setup_cast (blank r) (map blank ds) p)
  unfolding devfunc_setup_cast
  cast-blank none ds = refl
  cast-blank (some r) [] = refl
  cast-blank (some r) (none ∷ ds) = refl
  cast-blank (some r) (some d ∷ ds) = refl

  either-blank :
      (r : Option Devtype) (ds : List (Option Devtype))
      → outcome (devfunc_setup_oper_either r ds p)
        ≡ outcome (devfunc_setup_oper_either (blank r) (map blank ds) p)
  unfolding devfunc_setup_oper_either
  either-blank none ds = refl
  either-blank (some r) [] = refl
  either-blank (some r) (none ∷ ds) = refl
  either-blank (some r) (some d ∷ ds) = refl

  both-blank :
      (r : Option Devtype) (ds : List (Option Devtype))
      → outcome (devfunc_setup_oper_both r ds p)
        ≡ outcome (devfunc_setup_oper_both (blank r) (map blank ds) p)
  unfolding devfunc_setup_oper_both
  both-blank none ds = refl
  both-blank (some r) [] = refl
  both-blank (some r) (none ∷ ds) = refl
  both-blank (some r) (some d ∷ []) = refl
  both-blank (some r) (some d ∷ none ∷ ds) = refl
  both-blank (some r) (some d ∷ some e ∷ ds) = refl

  div-blank :
      (r : Option Devtype) (ds : List (Option Devtype))
      → outcome (devfunc_setup_div_oper r ds p)
        ≡ outcome (devfunc_setup_div_oper (blank r) (map blank ds) p)
  unfolding devfunc_setup_div_oper
  div-blank none ds = refl
  div-blank (some r) [] = refl
  div-blank (some r) (none ∷ ds) = refl
  div-blank (some r) (some d ∷ []) = refl
  div-blank (some r) (some d ∷ none ∷ ds) = refl
  div-blank (some r) (some d ∷ some e ∷ ds) = refl

  const-blank :
      (r : Option Devtype)
      → outcome (devfunc_setup_const r p) ≡ outcome (devfunc_setup_const (blank r) p)
  unfolding devfunc_setup_const
  const-blank none = refl
  const-blank (some r) = refl

  func-blank :
      (print : ℕ → String) (r : Option Devtype) (ds : List (Option Devtype))
      → outcome (devfunc_setup_func print r ds p)
        ≡ outcome (devfunc_setup_func print (blank r) (map blank ds) p)
  unfolding devfunc_setup_func
  func-blank print none ds = refl
  func-blank print (some r) ds =
      func_text-blank print r ds p _ _ (arg_list-blank print ds 1 "" ", ")

  template-blank :
      (print : ℕ → String) (r : Option Devtype) (ds : List (Option Devtype))
      → outcome (setup_template print r ds p)
        ≡ outcome (setup_template print (blank r) (map blank ds) p)
  unfolding setup_template
  template-blank print r ds =
      if-outcome (starts_with p.func_template "c:") _ _ _ _ (cast-blank r ds) (
        if-outcome (starts_with p.func_template "b:") _ _ _ _ (both-blank r ds) (
          if-outcome (starts_with p.func_template "l:") _ _ _ _ (either-blank r ds) (
            if-outcome (starts_with p.func_template "r:") _ _ _ _ (either-blank r ds) (
              if-outcome (starts_with p.func_template "f:") _ _ _ _ (func-blank print r ds) refl))))

  setup_by-blank :
      (print : ℕ → String) (r : Option Devtype) (ds : List (Option Devtype)) (c : Callback)
      → outcome (setup_by print r ds p c) ≡ outcome (setup_by print (blank r) (map blank ds) p c)
  setup_by-blank print r ds div_oper = div-blank r ds
  setup_by-blank print r ds setup_const = const-blank r
  setup_by-blank print r ds no_callback = template-blank print r ds

  -- A set-up ends as it does for any other types in place of those that are not `NULL`.
  pub setup_func-blank :
      (print : ℕ → String) (r : Option Devtype) (ds : List (Option Devtype))
      → outcome (setup_func print r ds p) ≡ outcome (setup_func print (blank r) (map blank ds) p)
  unfolding setup_func
  setup_func-blank print r ds = setup_by-blank print r ds p.func_callback
