-- ===== src/Codegen/Lookup/Types.antt =====
-- The cache of device types of codegen.c against the catalogue: what a lookup answers does not depend
-- on what the cache holds.
use pg_strom.Prelude.{
  ℕ, Bool, true, false, ◌==◌, if◌then◌else◌, Option, none, some, List, [], ◌∷◌, ◌++◌, ◌≡◌, refl,
  sym, subst, Bool-cases, inl, inr, ==_iff,
}
use Prim.Native.String.{String}
use pg_strom.Codegen.{Devtype, NullTestType, is_null, is_not_null, Reply, found, missing, raised}
use pg_strom.Codegen.Walker.{null_test_name}
use pg_strom.Codegen.Catalog.Entry.{bool_oid, Typecat, devtype_catalog}
use pg_strom.Codegen.Setup.{is_null_name, is_not_null_name}
use pg_strom.Codegen.Reference.{Verdict, known, unknown, invalid, Answers}
use pg_strom.Codegen.Lookup.{
  TypeRow, Syscache, TypeEntry, Caches, pg_catalog_namespace, find_type, find_typecat, give,
  type_hash, type_entry, new_type, add_type, add_row, found_or_add, lookup_bool, with_bool,
  devtype_lookup,
}

abbrev pub null_names : TypeRow → NullTestType → String
null_names row is_null = is_null_name row.typname
null_names row is_not_null = is_not_null_name row.typname

abbrev pub catalog_verdict : TypeRow → Option Typecat → Verdict (NullTestType → String)
catalog_verdict row none = unknown
catalog_verdict row (some cat) = known (null_names row)

abbrev pub row_verdict : ℕ → Option TypeRow → Verdict (NullTestType → String)
row_verdict oid none = invalid
row_verdict oid (some row) =
    catalog_verdict row
      (if row.typnamespace == pg_catalog_namespace then find_typecat oid devtype_catalog else none)

-- Null tests of an entry have these names.
abbrev pub Named : Devtype → (NullTestType → String) → Type 0
Named d n = (t : NullTestType) → null_test_name t d ≡ n t

abbrev pub Fits : Bool → Devtype → Verdict (NullTestType → String) → Type 0
Fits true d v = v ≡ unknown
Fits false d v = (n : NullTestType → String) × (v ≡ known n) × Named d n

type_entry-Fits :
    (P : Syscache) (oid at : ℕ) (row : TypeRow) (o : Option Typecat)
    → Fits
        (type_entry P oid at row o).is_negative
        (type_entry P oid at row o).info
        (catalog_verdict row o)
type_entry-Fits P oid at row none = refl
type_entry-Fits P oid at row (some cat) = (null_names row, refl, same)
  where
    same :
        (t : NullTestType)
        → null_test_name t (type_entry P oid at row (some cat)).info ≡ null_names row t
    same is_null = refl
    same is_not_null = refl

type_entry-oid :
    (P : Syscache) (oid at : ℕ) (row : TypeRow) (o : Option Typecat)
    → (type_entry P oid at row o).info.type_oid ≡ oid
type_entry-oid P oid at row none = refl
type_entry-oid P oid at row (some cat) = refl

module _ (P : Syscache) where
  -- What the catalogue says of a type.
  unfoldable pub type_verdict : ℕ → Verdict (NullTestType → String)
  type_verdict oid = row_verdict oid (P.type_row oid)

  -- An entry that says what the catalogue does.
  abbrev pub EntryIsRight : ℕ → TypeEntry → Type 0
  EntryIsRight oid e = Fits e.is_negative e.info (type_verdict oid)

  abbrev pub SlotIsRight : List TypeEntry → Type 0
  SlotIsRight [] = Unit {0}
  SlotIsRight (e ∷ es) = EntryIsRight e.info.type_oid e × SlotIsRight es

  abbrev pub TypesAreRight : Caches → Type 0
  TypesAreRight c = (h : ℕ) → SlotIsRight (c.type_slot h)

  SlotIsRight-append :
      (es : List TypeEntry) (e : TypeEntry)
      → SlotIsRight es
      → EntryIsRight e.info.type_oid e
      → SlotIsRight (es ++ (e ∷ []))
  SlotIsRight-append [] e s r = (r, tt)
  SlotIsRight-append (x ∷ es) e s r = (s.0, SlotIsRight-append es e s.1 r)

  -- An entry that is found is one of the type, and right.
  find_type-IsRight :
      (oid : ℕ) (es : List TypeEntry) (e : TypeEntry)
      → SlotIsRight es
      → find_type oid es ≡ some e
      → EntryIsRight oid e
  find_type-IsRight oid [] e s h = absurd (cc)
  find_type-IsRight oid (x ∷ es) e s h = elim (Bool-cases (x.info.type_oid == oid)) [
    | inl t ↦
        let same_oid : x.info.type_oid ≡ oid = (==_iff _ _).0 t in
        let same : x ≡ e = cc in
        subst (λ y. EntryIsRight oid y) same (subst (λ o. EntryIsRight o x) same_oid s.0)
    | inr f ↦ find_type-IsRight oid es e s.1 (rw f at h)
  ]

  new_type-IsRight :
      (oid at : ℕ) (row : TypeRow)
      → P.type_row oid ≡ some row
      → EntryIsRight oid (new_type P oid at row)
  unfolding new_type type_verdict
  new_type-IsRight oid at row h = rw h (type_entry-Fits P oid at row _)

  pub new_type-oid : (oid at : ℕ) (row : TypeRow) → (new_type P oid at row).info.type_oid ≡ oid
  unfolding new_type
  new_type-oid oid at row = type_entry-oid P oid at row _

  -- A right entry answers as the catalogue does.
  give-Answers :
      (b : Bool) (d : Devtype) (v : Verdict (NullTestType → String)) (c : Caches)
      → Fits b d v
      → TypesAreRight c
      → Answers TypesAreRight Named v (give b d c)
  give-Answers true d v c is_unknown right = rw is_unknown right
  give-Answers false d v c (n, is_known_n, named) right = rw is_known_n (named, right)

  add_type-IsRight :
      (oid at : ℕ) (row : TypeRow) (c : Caches)
      → P.type_row oid ≡ some row
      → TypesAreRight c
      → TypesAreRight (add_type P oid (new_type P oid at row) c)
  add_type-IsRight oid at row c h right k = elim (Bool-cases (k == type_hash P oid)) [
    | inl t ↦ rw t (
        SlotIsRight-append (c.type_slot (type_hash P oid)) (new_type P oid at row) (right _) (
          subst (λ o. EntryIsRight o (new_type P oid at row)) (sym (new_type-oid oid at row))
            (new_type-IsRight oid at row h)))
    | inr f ↦ rw f (right k)
  ]

  add_row-Answers :
      (oid : ℕ) (c : Caches) (k : TypeEntry → Caches → Reply Caches Devtype) (o : Option TypeRow)
      → P.type_row oid ≡ o
      → TypesAreRight c
      → ((e : TypeEntry) (c' : Caches)
          → EntryIsRight oid e
          → TypesAreRight c'
          → Answers TypesAreRight Named (type_verdict oid) (k e c'))
      → Answers TypesAreRight Named (type_verdict oid) (add_row P oid c k o)
  unfolding type_verdict
  add_row-Answers oid c k none h right next = rw h tt
  add_row-Answers oid c k (some row) h right next =
      next (new_type P oid c.next_at row) _ (new_type-IsRight oid c.next_at row h)
        (add_type-IsRight oid c.next_at row c h right)

  found_or_add-Answers :
      (oid : ℕ) (c : Caches) (k : TypeEntry → Caches → Reply Caches Devtype) (o : Option TypeEntry)
      → find_type oid (c.type_slot (type_hash P oid)) ≡ o
      → TypesAreRight c
      → ((e : TypeEntry) (c' : Caches)
          → EntryIsRight oid e
          → TypesAreRight c'
          → Answers TypesAreRight Named (type_verdict oid) (k e c'))
      → Answers TypesAreRight Named (type_verdict oid) (found_or_add P oid c k o)
  found_or_add-Answers oid c k none h right next =
      add_row-Answers oid c k (P.type_row oid) refl right next
  found_or_add-Answers oid c k (some e) h right next =
      give-Answers e.is_negative e.info (type_verdict oid) c (find_type-IsRight oid _ e (right _) h)
        right

  -- The type `bool` has an entry in the catalogue.
  module _ (bool_row : TypeRow)
      (has_bool : type_verdict bool_oid ≡ known (null_names bool_row)) where
    bool_entry-Answers :
        (b : Bool) (e : TypeEntry) (c : Caches)
        → Fits b e.info (type_verdict bool_oid)
        → TypesAreRight c
        → Answers TypesAreRight Named (type_verdict bool_oid) (if b then raised else found e.info c)
    bool_entry-Answers true e c is_unknown right = absurd (cc)
    bool_entry-Answers false e c (n, is_n, named) right = rw is_n (named, right)

    lookup_bool-Answers :
        (c : Caches)
        → TypesAreRight c
        → Answers TypesAreRight Named (type_verdict bool_oid) (lookup_bool P c)
    unfolding lookup_bool
    lookup_bool-Answers c right =
        found_or_add-Answers bool_oid c _ _ refl right
          λ e c' fits right'. bool_entry-Answers e.is_negative e c' fits right'

    with_bool-Answers :
        (oid : ℕ) (e : TypeEntry) (v : Verdict (NullTestType → String)) (r : Reply Caches Devtype)
        → EntryIsRight oid e
        → v ≡ known (null_names bool_row)
        → Answers TypesAreRight Named v r
        → Answers TypesAreRight Named (type_verdict oid) (with_bool P e r)
    with_bool-Answers oid e (known n) (found d c) fits k a =
        give-Answers e.is_negative e.info (type_verdict oid) c fits a.1
    with_bool-Answers oid e (known n) (missing c) fits k a = absurd a
    with_bool-Answers oid e (known n) raised fits k a = absurd a
    with_bool-Answers oid e unknown r fits k a = absurd (cc)
    with_bool-Answers oid e invalid r fits k a = absurd (cc)

    -- Where the catalogue knows the type `bool`, and each entry of the caches says what the catalogue
    -- does: a lookup answers what the catalogue says of the type, whatever else the caches hold (a type
    -- with its names for null tests, no support, or an error where there is no such type), and leaves
    -- caches whose entries say what the catalogue does.
    pub devtype_lookup-Answers :
        (oid : ℕ) (c : Caches)
        → TypesAreRight c
        → Answers TypesAreRight Named (type_verdict oid) (devtype_lookup P oid c)
    unfolding devtype_lookup
    devtype_lookup-Answers oid c right =
        found_or_add-Answers oid c _ _ refl right λ e c' fits right'.
          with_bool-Answers oid e _ _ fits has_bool (lookup_bool-Answers c' right')
