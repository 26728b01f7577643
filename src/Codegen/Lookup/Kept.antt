-- ===== src/Codegen/Lookup/Kept.antt =====
-- The lookups of types keep the cache of functions, and answer as the catalogue does.
use pg_strom.Prelude.{
  ℕ, Bool, true, false, if◌then◌else◌, Option, none, some, List, ◌≡◌, refl, subst,
}
use Prim.Native.String.{String}
use pg_strom.Codegen.{Devtype, NullTestType, Reply, found, missing, raised}
use pg_strom.Codegen.Catalog.Entry.{bool_oid}
use pg_strom.Codegen.Reference.{Verdict, known, unknown, invalid, Answers}
use pg_strom.Codegen.Setup.Outcome.{some_type, blank}
use pg_strom.Codegen.Lookup.{
  TypeRow, Syscache, TypeEntry, FuncEntry, Caches, give, new_type, add_row, found_or_add,
  lookup_bool, with_bool, devtype_lookup,
}
use pg_strom.Codegen.Lookup.Funcs.{as_option}
use pg_strom.Codegen.Lookup.Types.{
  null_names, Named, type_verdict, TypesAreRight, devtype_lookup-Answers,
}

-- A reply leaves the cache of functions as it was.
abbrev KeepsFuncs : (ℕ → List FuncEntry) → Reply Caches Devtype → Type 0
KeepsFuncs slot (found d c) = c.func_slot ≡ slot
KeepsFuncs slot (missing c) = c.func_slot ≡ slot
KeepsFuncs slot raised = Unit {0}

give-KeepsFuncs : (b : Bool) (d : Devtype) (c : Caches) → KeepsFuncs c.func_slot (give b d c)
give-KeepsFuncs true d c = refl
give-KeepsFuncs false d c = refl

bool_entry-KeepsFuncs :
    (b : Bool) (d : Devtype) (c : Caches) → KeepsFuncs c.func_slot (if b then raised else found d c)
bool_entry-KeepsFuncs true d c = tt
bool_entry-KeepsFuncs false d c = refl

-- What a verdict says of a type: an error, `NULL`, or some type.
abbrev pub blank_of : Verdict (NullTestType → String) → Option (Option Devtype)
blank_of (known n) = some (some some_type)
blank_of unknown = some none
blank_of invalid = none

module _ (P : Syscache) where
  give_kept :
      (slot : ℕ → List FuncEntry) (b : Bool) (d : Devtype) (c : Caches)
      → c.func_slot ≡ slot
      → KeepsFuncs slot (give b d c)
  give_kept slot true d c h = h
  give_kept slot false d c h = h

  with_bool-KeepsFuncs :
      (e : TypeEntry) (slot : ℕ → List FuncEntry) (r : Reply Caches Devtype)
      → KeepsFuncs slot r
      → KeepsFuncs slot (with_bool P e r)
  with_bool-KeepsFuncs e slot (found d c) h = give_kept slot e.is_negative e.info c h
  with_bool-KeepsFuncs e slot (missing c) h = tt
  with_bool-KeepsFuncs e slot raised h = tt

  add_row-KeepsFuncs :
      (oid : ℕ) (c : Caches) (k : TypeEntry → Caches → Reply Caches Devtype) (o : Option TypeRow)
      → ((e : TypeEntry) (c' : Caches)
          → c'.func_slot ≡ c.func_slot
          → KeepsFuncs c.func_slot (k e c'))
      → KeepsFuncs c.func_slot (add_row P oid c k o)
  add_row-KeepsFuncs oid c k none next = tt
  add_row-KeepsFuncs oid c k (some row) next = next (new_type P oid c.next_at row) _ refl

  found_or_add-KeepsFuncs :
      (oid : ℕ) (c : Caches) (k : TypeEntry → Caches → Reply Caches Devtype) (o : Option TypeEntry)
      → ((e : TypeEntry) (c' : Caches)
          → c'.func_slot ≡ c.func_slot
          → KeepsFuncs c.func_slot (k e c'))
      → KeepsFuncs c.func_slot (found_or_add P oid c k o)
  found_or_add-KeepsFuncs oid c k none next = add_row-KeepsFuncs oid c k (P.type_row oid) next
  found_or_add-KeepsFuncs oid c k (some e) next = give-KeepsFuncs e.is_negative e.info c

  lookup_bool-KeepsFuncs : (c : Caches) → KeepsFuncs c.func_slot (lookup_bool P c)
  unfolding lookup_bool
  lookup_bool-KeepsFuncs c = found_or_add-KeepsFuncs bool_oid c _ _ λ e c' h.
      subst (λ slot. KeepsFuncs slot (if e.is_negative then raised else found e.info c')) h
        (bool_entry-KeepsFuncs e.is_negative e.info c')

  devtype_lookup-KeepsFuncs :
      (oid : ℕ) (c : Caches) → KeepsFuncs c.func_slot (devtype_lookup P oid c)
  unfolding devtype_lookup
  devtype_lookup-KeepsFuncs oid c = found_or_add-KeepsFuncs oid c _ _ λ e c' h.
      with_bool-KeepsFuncs e c.func_slot (lookup_bool P c')
        (subst (λ slot. KeepsFuncs slot (lookup_bool P c')) h (lookup_bool-KeepsFuncs c'))

  -- Caches with right types and these functions.
  abbrev pub WithFuncs : (ℕ → List FuncEntry) → Caches → Type 0
  WithFuncs slot c = TypesAreRight P c × (c.func_slot ≡ slot)

  -- A type, or an error, as it should be.
  abbrev pub OneAnswer :
      (ℕ → List FuncEntry) → Option (Option Devtype) → Option (Option Devtype × Caches) → Type 0
  OneAnswer slot none none = Unit {0}
  OneAnswer slot (some d') (some (d, c)) = (blank d ≡ d') × WithFuncs slot c
  OneAnswer slot _ _ = ⊥

  Answers-OneAnswer :
      (slot : ℕ → List FuncEntry) (v : Verdict (NullTestType → String)) (r : Reply Caches Devtype)
      → Answers (TypesAreRight P) Named v r
      → KeepsFuncs slot r
      → OneAnswer slot (blank_of v) (as_option r)
  Answers-OneAnswer slot (known n) (found d c) a k = (refl, (a.1, k))
  Answers-OneAnswer slot (known n) (missing c) a k = absurd a
  Answers-OneAnswer slot (known n) raised a k = absurd a
  Answers-OneAnswer slot unknown (found d c) a k = absurd a
  Answers-OneAnswer slot unknown (missing c) a k = (refl, (a, k))
  Answers-OneAnswer slot unknown raised a k = absurd a
  Answers-OneAnswer slot invalid (found d c) a k = absurd a
  Answers-OneAnswer slot invalid (missing c) a k = absurd a
  Answers-OneAnswer slot invalid raised a k = tt

  Answers-WithFuncs :
      (slot : ℕ → List FuncEntry) (v : Verdict (NullTestType → String)) (r : Reply Caches Devtype)
      → Answers (TypesAreRight P) Named v r
      → KeepsFuncs slot r
      → Answers (WithFuncs slot) Named v r
  Answers-WithFuncs slot (known n) (found d c) a k = (a.0, (a.1, k))
  Answers-WithFuncs slot (known n) (missing c) a k = absurd a
  Answers-WithFuncs slot (known n) raised a k = absurd a
  Answers-WithFuncs slot unknown (found d c) a k = absurd a
  Answers-WithFuncs slot unknown (missing c) a k = (a, k)
  Answers-WithFuncs slot unknown raised a k = absurd a
  Answers-WithFuncs slot invalid (found d c) a k = absurd a
  Answers-WithFuncs slot invalid (missing c) a k = absurd a
  Answers-WithFuncs slot invalid raised a k = tt

  module _ (bool_row : TypeRow)
      (has_bool : type_verdict P bool_oid ≡ known (null_names bool_row)) where
    pub devtype_lookup-WithFuncs :
        (oid : ℕ) (c : Caches)
        → TypesAreRight P c
        → Answers (WithFuncs c.func_slot) Named (type_verdict P oid) (devtype_lookup P oid c)
    devtype_lookup-WithFuncs oid c right =
        Answers-WithFuncs c.func_slot _ _ (devtype_lookup-Answers P bool_row has_bool oid c right)
          (devtype_lookup-KeepsFuncs oid c)

    pub devtype_lookup-OneAnswer :
        (oid : ℕ) (c : Caches)
        → TypesAreRight P c
        → OneAnswer c.func_slot (blank_of (type_verdict P oid)) (as_option (devtype_lookup P oid c))
    devtype_lookup-OneAnswer oid c right =
        Answers-OneAnswer c.func_slot _ _ (devtype_lookup-Answers P bool_row has_bool oid c right)
          (devtype_lookup-KeepsFuncs oid c)
