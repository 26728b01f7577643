-- ===== src/Codegen/Lookup.antt =====
-- The lookups of device types and functions of codegen.c with their caches, which are lists of entries
-- in hash slots.
pub mod Types
pub mod Funcs
pub mod Again
pub mod Kept
pub mod Args
pub mod Rows
pub mod Entry
pub mod Answered
use pg_strom.Prelude.{
  ℕ, zero, suc, ◌+◌, ◌%◌, Bool, true, false, ◌&&◌, not, ◌==◌, if◌then◌else◌, Option, none, some,
  List, [], ◌∷◌, ◌++◌, length, update,
}
use pg_strom.Prelude.Int.{ℤ, pos, lt_int}
use Prim.Native.String.{String}
use pg_strom.Codegen.{Devtype, Devfunc, Libs, BoolExprType, Reply, found, missing, raised, Lookups}
use pg_strom.Codegen.Catalog.Libraries.{
  devfunc_numericlib_catalog, devfunc_timelib_catalog, devfunc_textlib_catalog,
}
use pg_strom.Codegen.Catalog.Entry.{bool_oid, Typecat, devtype_catalog, Procat}
use pg_strom.Codegen.Setup.{
  Setup, set_up, negative, null_pointer, setup_func, is_null_name, is_not_null_name,
  devfunc_setup_boolop_text,
}

-- The columns of `pg_type` and `pg_proc` that the code reads.
pub record TypeRow : Type 0 where
  pub typname : String
  pub typlen : ℤ
  pub typnamespace : ℕ

pub record ProcRow : Type 0 where
  pub proname : String
  pub pronamespace : ℕ
  pub proargtypes : List ℕ
  pub prorettype : ℕ

-- The system caches, the hash functions, `%u`, and what memory holds behind an array of types.
pub record Syscache : Type 0 where
  pub type_row : ℕ → Option TypeRow
  pub proc_row : ℕ → Option ProcRow
  pub hash_uint32 : ℕ → ℕ
  pub hash_name : String → ℕ
  pub hash_oids : List ℕ → ℕ
  pub print_number : ℕ → String
  pub memory_behind : List ℕ → ℕ → ℕ

-- An entry of `devtype_info_slot`; the flag is `DEVINFO_IS_NEGATIVE`.
pub record TypeEntry : Type 0 where
  pub is_negative : Bool
  pub info : Devtype

-- An entry of `devfunc_info_slot`; `nargs` is the length of its `func_args`.
pub record FuncEntry : Type 0 where
  pub is_negative : Bool
  pub namespace : ℕ
  pub nargs : ℕ
  pub argtypes : List ℕ
  pub info : Devfunc

-- `devtype_info_slot`, `devfunc_info_slot` and the next address of `devinfo_memcxt`.
pub record Caches : Type 0 where
  pub type_slot : ℕ → List TypeEntry
  pub func_slot : ℕ → List FuncEntry
  pub next_at : ℕ

abbrev pub pg_catalog_namespace : ℕ
pg_catalog_namespace = 11

-- The loop over a slot.
abbrev pub find_type : ℕ → List TypeEntry → Option TypeEntry
find_type oid [] = none
find_type oid (e ∷ es) =
    let rest = find_type oid es in if e.info.type_oid == oid then some e else rest

-- The loop over `devtype_catalog`.
abbrev pub find_typecat : ℕ → List Typecat → Option Typecat
find_typecat oid [] = none
find_typecat oid (c ∷ cs) =
    let rest = find_typecat oid cs in if c.type_oid == oid then some c else rest

abbrev pub give : {A : Type 0} → Bool → A → Caches → Reply Caches A
give true a c = missing c
give false a c = found a c

module _ (P : Syscache) where
  abbrev pub type_hash : ℕ → ℕ
  type_hash oid = P.hash_uint32 oid % 128

  -- The entry of a row; without an entry of the catalogue its names are null pointers.
  abbrev pub type_entry : ℕ → ℕ → TypeRow → Option Typecat → TypeEntry
  type_entry oid at row none = record {
    is_negative = true;
    info = record {
      type_at = at;
      type_oid = oid;
      is_varlena = lt_int row.typlen (pos 0);
      type_name = "";
      type_base = "";
      type_is_null_fn = "";
      type_is_not_null_fn = "";
    };
  }
  type_entry oid at row (some cat) = record {
    is_negative = false;
    info = record {
      type_at = at;
      type_oid = oid;
      is_varlena = lt_int row.typlen (pos 0);
      type_name = row.typname;
      type_base = cat.type_base;
      type_is_null_fn = is_null_name row.typname;
      type_is_not_null_fn = is_not_null_name row.typname;
    };
  }

  unfoldable pub new_type : ℕ → ℕ → TypeRow → TypeEntry
  new_type oid at row =
      type_entry oid at row (
        if row.typnamespace == pg_catalog_namespace then find_typecat oid devtype_catalog else none)

  abbrev pub add_type : ℕ → TypeEntry → Caches → Caches
  add_type oid e c = record c {
    type_slot = update c.type_slot (type_hash oid) (c.type_slot (type_hash oid) ++ (e ∷ []));
    next_at = c.next_at + 1;
  }

  -- A new entry for the row, which `k` is told of.
  abbrev pub add_row :
      ℕ
      → Caches
      → (TypeEntry → Caches → Reply Caches Devtype)
      → Option TypeRow
      → Reply Caches Devtype
  add_row oid c k none = raised
  add_row oid c k (some row) =
      k (new_type oid c.next_at row) (add_type oid (new_type oid c.next_at row) c)

  -- The entry found in the slot, or else a new one.
  abbrev pub found_or_add :
      ℕ
      → Caches
      → (TypeEntry → Caches → Reply Caches Devtype)
      → Option TypeEntry
      → Reply Caches Devtype
  found_or_add oid c k (some e) = give e.is_negative e.info c
  found_or_add oid c k none = add_row oid c k (P.type_row oid)

  abbrev pub find_or_add :
      ℕ → Caches → (TypeEntry → Caches → Reply Caches Devtype) → Reply Caches Devtype
  find_or_add oid c k = found_or_add oid c k (find_type oid (c.type_slot (type_hash oid)))

  -- The lookup of `BOOLOID` by the functions for null tests of a new entry. Its own new entry finds
  -- itself; a negative one is a null pointer that is followed.
  unfoldable pub lookup_bool : Caches → Reply Caches Devtype
  unfolding new_type
  lookup_bool c = find_or_add bool_oid c λ e c. if e.is_negative then raised else found e.info c

  abbrev pub with_bool : TypeEntry → Reply Caches Devtype → Reply Caches Devtype
  with_bool e (found d c) = give e.is_negative e.info c
  with_bool e (missing c) = raised
  with_bool e raised = raised

  unfoldable pub devtype_lookup : ℕ → Caches → Reply Caches Devtype
  unfolding new_type lookup_bool
  devtype_lookup oid c = find_or_add oid c λ e c. with_bool e (lookup_bool c)
