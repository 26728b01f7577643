-- ===== src/Tests/Lookups.antt =====
-- Lookups of device types and functions in caches that are empty at first.
use pg_strom.Prelude.{true, false, ◌==◌, ◌+◌, if◌then◌else◌, none, some, [], ◌∷◌, ◌≡◌, refl, map}
use pg_strom.Prelude.Int.{pos}
use Prim.Native.String.{String}
use pg_strom.Codegen.{Devtype, found}
use pg_strom.Codegen.Reference.{Answers}
use pg_strom.Codegen.Catalog.Entry.{int4_oid, Procat, proc, no_callback, devtype_catalog}
use pg_strom.Codegen.Setup.{setup_func, null_pointer}
use pg_strom.Codegen.Setup.Pointers.{IsSetUp}
use pg_strom.Codegen.Setup.Catalogued.{all_procats, is_bit_not, setup_func-catalogued}
use pg_strom.Codegen.Lookup.{TypeRow, Syscache, Caches, new_type, add_type, devtype_lookup}
use pg_strom.Codegen.Lookup.Types.{Named, TypesAreRight, type_verdict, devtype_lookup-Answers}
use pg_strom.Codegen.Lookup.Again.{devtype_lookup-again}

abbrev row : String → TypeRow
row name = record { typname = name; typlen = pos 4; typnamespace = 11 }

abbrev syscache : Syscache
syscache = record {
  type_row =
      λ oid. if oid == 23 then some (row "int4") else if oid == 16 then some (row "bool") else none;
  proc_row = λ oid. none;
  hash_uint32 = λ oid. oid;
  hash_name = λ s. 5;
  hash_oids = λ oids. 9;
  print_number = λ n. "1";
  memory_behind = λ oids i. 70000 + i;
}

abbrev empty : Caches
empty = record { type_slot = λ h. []; func_slot = λ h. []; next_at = 1 }

abbrev with_int4 : Caches
with_int4 = add_type syscache 23 (new_type syscache 23 1 (row "int4")) empty

abbrev with_both : Caches
with_both = add_type syscache 16 (new_type syscache 16 2 (row "bool")) with_int4

devtype_lookup-Answers_example :
    Answers
      (TypesAreRight syscache)
      Named
      (type_verdict syscache 23)
      (devtype_lookup syscache 23 empty)
unfolding type_verdict devtype_catalog
devtype_lookup-Answers_example = devtype_lookup-Answers syscache (row "bool") refl 23 empty λ h. tt

devtype_lookup-again_example :
    devtype_lookup syscache 23 with_both
    ≡ found (new_type syscache 23 1 (row "int4")).info with_both
unfolding devtype_lookup devtype_catalog
devtype_lookup-again_example =
    devtype_lookup-again syscache 23 empty with_both (new_type syscache 23 1 (row "int4")).info refl

abbrev int4 : Devtype
int4 = record {
  type_at = 1;
  type_oid = 23;
  is_varlena = false;
  type_name = "int4";
  type_base = "cl_int";
  type_is_null_fn = "int4_is_null";
  type_is_not_null_fn = "int4_is_not_null";
}

abbrev int4not : Procat
int4not = proc "int4not" 1 (int4_oid ∷ []) "b:~" no_callback

setup_func-catalogued_example :
    (is_bit_not int4not ≡ true
      → setup_func (λ n. "1") (some int4) (map some (int4 ∷ [])) int4not ≡ null_pointer)
    × (is_bit_not int4not ≡ false
        → IsSetUp (setup_func (λ n. "1") (some int4) (map some (int4 ∷ [])) int4not))
unfolding all_procats
setup_func-catalogued_example =
    setup_func-catalogued (λ n. "1") int4 int4not 179 (int4 ∷ []) refl refl
