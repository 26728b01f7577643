-- ===== src/Codegen/Lookup/Args.antt =====
-- The lookups of the types of the arguments of a function.
use pg_strom.Prelude.{
  ℕ, zero, suc, Option, none, some, List, [], ◌∷◌, map, length, ◌≡◌, refl, ap, subst,
}
use pg_strom.Codegen.{Devtype}
use pg_strom.Codegen.Catalog.Entry.{bool_oid}
use pg_strom.Codegen.Reference.{known}
use pg_strom.Codegen.Setup.Outcome.{blank}
use pg_strom.Codegen.Lookup.{TypeRow, Syscache, FuncEntry, Caches, devtype_lookup}
use pg_strom.Codegen.Lookup.Funcs.{as_option, lookup_args}
use pg_strom.Codegen.Lookup.Types.{null_names, type_verdict, TypesAreRight}
use pg_strom.Codegen.Lookup.Kept.{blank_of, WithFuncs, OneAnswer, devtype_lookup-OneAnswer}

abbrev pub copies : ℕ → Option Devtype → List (Option Devtype)
copies zero d = []
copies (suc n) d = d ∷ copies n d

-- The types of `n` arguments of one type; without arguments the type is not looked up.
abbrev pub blank_args : ℕ → Option (Option Devtype) → Option (List (Option Devtype))
blank_args zero o = some []
blank_args (suc n) none = none
blank_args (suc n) (some d) = some (copies (suc n) d)

module _ (P : Syscache) where
  abbrev pub ArgsAnswer :
      (ℕ → List FuncEntry)
      → ℕ
      → Option (List (Option Devtype))
      → Option (List (Option Devtype) × Caches)
      → Type 0
  ArgsAnswer slot n none none = Unit {0}
  ArgsAnswer slot n (some ds') (some (ds, c)) =
      (map blank ds ≡ ds') × (length ds ≡ n) × WithFuncs P slot c
  ArgsAnswer slot n _ _ = ⊥

  module _ (bool_row : TypeRow)
      (has_bool : type_verdict P bool_oid ≡ known (null_names bool_row)) where
    rest-ArgsAnswer :
        (slot : ℕ → List FuncEntry) (n : ℕ) (d d' : Option Devtype)
        (o : Option (List (Option Devtype) × Caches))
        → blank d ≡ d'
        → ArgsAnswer slot n (some (copies n d')) o
        → ArgsAnswer slot
            (suc n)
            (some (copies (suc n) d'))
            (elim o [ none ↦ none | some (ds, c'') ↦ some (d ∷ ds, c'') ])
    rest-ArgsAnswer slot n d d' none same a = absurd a
    rest-ArgsAnswer slot n d d' (some (ds, c)) same (all_same, count, good) =
        (cc, ap suc count, good)

    first-ArgsAnswer :
        (oid n : ℕ) (slot : ℕ → List FuncEntry) (d : Option Devtype)
        (o : Option (Option Devtype × Caches))
        → ((c : Caches)
            → WithFuncs P slot c
            → ArgsAnswer slot n (some (copies n d)) (lookup_args P oid n c))
        → OneAnswer P slot (some d) o
        → ArgsAnswer slot (suc n) (some (copies (suc n) d)) (elim o [
          | none ↦ none
          | some (d', c') ↦ elim (lookup_args P oid n c') [
            | none ↦ none
            | some (ds, c'') ↦ some (d' ∷ ds, c'')
          ]
        ])
    first-ArgsAnswer oid n slot d none next a = absurd a
    first-ArgsAnswer oid n slot d (some (d', c')) next (same, good) =
        rest-ArgsAnswer slot n d' d (lookup_args P oid n c') same (next c' good)

    -- Where a lookup of the type is no error, as many types as there are arguments.
    lookup_args-copies :
        (oid n : ℕ) (slot : ℕ → List FuncEntry) (d : Option Devtype)
        → blank_of (type_verdict P oid) ≡ some d
        → (c : Caches) → WithFuncs P slot c
        → ArgsAnswer slot n (some (copies n d)) (lookup_args P oid n c)
    unfolding lookup_args
    lookup_args-copies oid zero slot d h c good = (refl, refl, good)
    lookup_args-copies oid (suc n) slot d h c good =
        first-ArgsAnswer oid n slot d (as_option (devtype_lookup P oid c))
          (lookup_args-copies oid n slot d h)
          (subst (λ o. OneAnswer P slot o (as_option (devtype_lookup P oid c))) h
            (subst
              (λ l.
                OneAnswer P l (blank_of (type_verdict P oid)) (as_option (devtype_lookup P oid c)))
              good.1 (devtype_lookup-OneAnswer P bool_row has_bool oid c good.0)))

    invalid-ArgsAnswer :
        (oid n : ℕ) (slot : ℕ → List FuncEntry) (o : Option (Option Devtype × Caches))
        → OneAnswer P slot none o
        → ArgsAnswer slot (suc n) none (elim o [
          | none ↦ none
          | some (d', c') ↦ elim (lookup_args P oid n c') [
            | none ↦ none
            | some (ds, c'') ↦ some (d' ∷ ds, c'')
          ]
        ])
    invalid-ArgsAnswer oid n slot none a = tt
    invalid-ArgsAnswer oid n slot (some (d', c')) a = absurd a

    args-ArgsAnswer :
        (oid n : ℕ) (c : Caches) (o : Option (Option Devtype))
        → blank_of (type_verdict P oid) ≡ o
        → TypesAreRight P c
        → ArgsAnswer c.func_slot n (blank_args n o) (lookup_args P oid n c)
    unfolding lookup_args
    args-ArgsAnswer oid zero c o h right = (refl, refl, (right, refl))
    args-ArgsAnswer oid (suc n) c none h right =
        invalid-ArgsAnswer oid n c.func_slot (as_option (devtype_lookup P oid c)) (
          subst (λ o. OneAnswer P c.func_slot o (as_option (devtype_lookup P oid c))) h
            (devtype_lookup-OneAnswer P bool_row has_bool oid c right))
    args-ArgsAnswer oid (suc n) c (some d) h right =
        lookup_args-copies oid (suc n) c.func_slot d h c (right, refl)

    -- From caches with right types, the lookups of the types of `n` arguments answer as the catalogue
    -- does, and keep the functions.
    pub lookup_args-ArgsAnswer :
        (oid n : ℕ) (c : Caches)
        → TypesAreRight P c
        → ArgsAnswer c.func_slot n
            (blank_args n (blank_of (type_verdict P oid)))
            (lookup_args P oid n c)
    lookup_args-ArgsAnswer oid n c right = args-ArgsAnswer oid n c _ refl right
