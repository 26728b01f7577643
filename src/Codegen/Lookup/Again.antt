-- ===== src/Codegen/Lookup/Again.antt =====
-- A device type of codegen.c keeps its entry: the pointers that `list_append_unique_ptr` compares
-- stand for the types.
use pg_strom.Prelude.{
  ℕ, Bool, true, false, ◌==◌, if◌then◌else◌, Option, none, some, List, [], ◌∷◌, ◌++◌, ◌≡◌, refl,
  Bool-cases, inl, inr, ==_iff, ==-refl, subst,
}
use pg_strom.Codegen.{Devtype, Reply, found, missing, raised}
use pg_strom.Codegen.Catalog.Entry.{bool_oid}
use pg_strom.Codegen.Lookup.{
  TypeRow, Syscache, TypeEntry, Caches, find_type, give, type_hash, new_type, add_type, add_row,
  found_or_add, lookup_bool, with_bool, devtype_lookup,
}
use pg_strom.Codegen.Lookup.Types.{new_type-oid}

find_type-append :
    (oid : ℕ) (es ys : List TypeEntry) (e : TypeEntry)
    → find_type oid es ≡ some e
    → find_type oid (es ++ ys) ≡ some e
find_type-append oid [] ys e h = absurd (cc)
find_type-append oid (x ∷ es) ys e h = elim (Bool-cases (x.info.type_oid == oid)) [
  | inl t ↦ rw t (rw t at h)
  | inr f ↦ rw f (find_type-append oid es ys e (rw f at h))
]

find_type-last :
    (oid : ℕ) (es : List TypeEntry) (e : TypeEntry)
    → find_type oid es ≡ none
    → e.info.type_oid ≡ oid
    → find_type oid (es ++ (e ∷ [])) ≡ some e
find_type-last oid [] e h same = rw (same, ==-refl oid) refl
find_type-last oid (x ∷ es) e h same = elim (Bool-cases (x.info.type_oid == oid)) [
  | inl t ↦ absurd (let h' : some x ≡ none = rw t at h in cc)
  | inr f ↦ rw f (find_type-last oid es e (rw f at h) same)
]

module _ (P : Syscache) where
  abbrev Finds : ℕ → Caches → TypeEntry → Type 0
  Finds oid c e = find_type oid (c.type_slot (type_hash P oid)) ≡ some e

  abbrev Keeps : Caches → Caches → Type 0
  Keeps c c' = (oid : ℕ) (e : TypeEntry) → Finds oid c e → Finds oid c' e

  add_type-Keeps : (oid : ℕ) (e : TypeEntry) (c : Caches) → Keeps c (add_type P oid e c)
  add_type-Keeps oid e c oid' e' h = elim (Bool-cases (type_hash P oid' == type_hash P oid)) [
    | inl t ↦
        let same : type_hash P oid' ≡ type_hash P oid = (==_iff _ _).0 t in
        rw t (find_type-append oid' (c.type_slot (type_hash P oid)) (e ∷ []) e' (rw same at h))
    | inr f ↦ rw f h
  ]

  abbrev ReplyKeeps : Caches → Reply Caches Devtype → Type 0
  ReplyKeeps c (found d c') = Keeps c c'
  ReplyKeeps c (missing c') = Keeps c c'
  ReplyKeeps c raised = Unit {0}

  give-Keeps : (b : Bool) (d : Devtype) (c : Caches) → ReplyKeeps c (give b d c)
  give-Keeps true d c = λ oid e h. h
  give-Keeps false d c = λ oid e h. h

  bool_entry-Keeps :
      (b : Bool) (d : Devtype) (c c' : Caches)
      → Keeps c c'
      → ReplyKeeps c (if b then raised else found d c')
  bool_entry-Keeps true d c c' k = tt
  bool_entry-Keeps false d c c' k = k

  lookup_bool-Keeps : (c : Caches) → ReplyKeeps c (lookup_bool P c)
  unfolding lookup_bool
  lookup_bool-Keeps c = of_entry (find_type bool_oid (c.type_slot (type_hash P bool_oid)))
    where
      of_row :
          (o : Option TypeRow)
          → ReplyKeeps c
              (add_row P bool_oid c (λ e c. if e.is_negative then raised else found e.info c) o)
      of_row none = tt
      of_row (some row) =
          bool_entry-Keeps _ _ c _ (add_type-Keeps bool_oid (new_type P bool_oid c.next_at row) c)

      of_entry :
          (o : Option TypeEntry)
          → ReplyKeeps c (
              found_or_add P bool_oid c (λ e c. if e.is_negative then raised else found e.info c) o)
      of_entry none = of_row (P.type_row bool_oid)
      of_entry (some e) = give-Keeps e.is_negative e.info c

  -- The entry of the type that is found stands in the slot.
  abbrev Stays : ℕ → Reply Caches Devtype → Type 0
  Stays oid (found d c) =
      (e : TypeEntry) × Finds oid c e × (give e.is_negative e.info c ≡ found d c)
  Stays oid (missing c) = Unit {0}
  Stays oid raised = Unit {0}

  give-Stays :
      (oid : ℕ) (e : TypeEntry) (c : Caches) (b : Bool)
      → e.is_negative ≡ b
      → Finds oid c e
      → Stays oid (give b e.info c)
  give-Stays oid e c true q h = tt
  give-Stays oid e c false q h = (e, h, rw q refl)

  with_bool-Stays :
      (oid : ℕ) (e : TypeEntry) (c : Caches) (r : Reply Caches Devtype)
      → Finds oid c e
      → ReplyKeeps c r
      → Stays oid (with_bool P e r)
  with_bool-Stays oid e c (found d c') h keeps =
      give-Stays oid e c' e.is_negative refl (keeps oid e h)
  with_bool-Stays oid e c (missing c') h keeps = tt
  with_bool-Stays oid e c raised h keeps = tt

  add_row-Stays :
      (oid : ℕ) (c : Caches) (o : Option TypeRow)
      → find_type oid (c.type_slot (type_hash P oid)) ≡ none
      → Stays oid (add_row P oid c (λ e c. with_bool P e (lookup_bool P c)) o)
  add_row-Stays oid c none h = tt
  add_row-Stays oid c (some row) h =
      let e = new_type P oid c.next_at row in
      with_bool-Stays oid e (add_type P oid e c) _
        (rw (==-refl (type_hash P oid)) (
          find_type-last oid (c.type_slot (type_hash P oid)) e h
            (new_type-oid P oid c.next_at row)))
        (lookup_bool-Keeps (add_type P oid e c))

  found_or_add-Stays :
      (oid : ℕ) (c : Caches) (o : Option TypeEntry)
      → find_type oid (c.type_slot (type_hash P oid)) ≡ o
      → Stays oid (found_or_add P oid c (λ e c. with_bool P e (lookup_bool P c)) o)
  found_or_add-Stays oid c none h = add_row-Stays oid c (P.type_row oid) h
  found_or_add-Stays oid c (some e) h = give-Stays oid e c e.is_negative refl h

  devtype_lookup-Stays : (oid : ℕ) (c : Caches) → Stays oid (devtype_lookup P oid c)
  unfolding devtype_lookup
  devtype_lookup-Stays oid c = found_or_add-Stays oid c _ refl

  -- A type that a lookup has found is found again by the next lookup of it, at the same address, and
  -- the caches stay as they are.
  pub devtype_lookup-again :
      (oid : ℕ) (c c' : Caches) (d : Devtype)
      → devtype_lookup P oid c ≡ found d c'
      → devtype_lookup P oid c' ≡ found d c'
  unfolding devtype_lookup
  devtype_lookup-again oid c c' d h =
      let (e, finds, gives) : Stays oid (found d c') =
        subst (Stays oid) h (devtype_lookup-Stays oid c) in
      rw finds gives
