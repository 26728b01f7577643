-- ===== src/Codegen/Lookup/Funcs.antt =====
-- The lookups of device functions of codegen.c, by name and types, and the interface of the lookups.
use pg_strom.Prelude.{
  ℕ, zero, suc, ◌+◌, ◌%◌, Bool, true, false, ◌&&◌, ◌==◌, if◌then◌else◌, Option, none, some, List,
  [], ◌∷◌, ◌++◌, length, update,
}
use Prim.Native.Nat.{bit_xor}
use Prim.Native.String.{String, compare}
use text.Mathlib.Text.{is_eq}
use pg_strom.Codegen.{Devtype, Devfunc, Libs, BoolExprType, Reply, found, missing, raised, Lookups}
use pg_strom.Codegen.Catalog.{devfunc_common_catalog}
use pg_strom.Codegen.Catalog.Libraries.{
  devfunc_numericlib_catalog, devfunc_timelib_catalog, devfunc_textlib_catalog,
}
use pg_strom.Codegen.Catalog.Entry.{bool_oid, Procat}
use pg_strom.Codegen.Setup.{
  Setup, set_up, negative, null_pointer, setup_func, devfunc_setup_boolop_text,
}
use pg_strom.Codegen.Lookup.{
  Syscache, FuncEntry, Caches, pg_catalog_namespace, give, devtype_lookup,
}

abbrev pub same_text : String → String → Bool
same_text s t = is_eq (compare s t)

-- `memcmp` of the types that are asked for with the first types of an entry.
abbrev pub eq_oids : List ℕ → List ℕ → Bool
eq_oids [] _ = true
eq_oids (a ∷ as_a) (b ∷ as_b) = (a == b) && eq_oids as_a as_b
eq_oids (_ ∷ _) [] = false

-- The loop over a slot of functions.
abbrev pub find_func : ℕ → String → List ℕ → List FuncEntry → Option FuncEntry
find_func namespace name argtypes [] = none
find_func namespace name argtypes (e ∷ es) =
    let rest = find_func namespace name argtypes es in
    if (namespace == e.namespace)
      && (same_text name e.info.func_name
          && ((length argtypes == e.nargs) && eq_oids argtypes e.argtypes))
    then some e
    else rest

-- The loop over one catalogue.
abbrev pub find_proc : String → List ℕ → List Procat → Option Procat
find_proc name argtypes [] = none
find_proc name argtypes (p ∷ ps) =
    let rest = find_proc name argtypes ps in
    if same_text p.func_name name
      && ((p.func_nargs == length argtypes) && eq_oids argtypes p.func_argtypes)
    then some p
    else rest

-- The loop over the catalogues: the entry with the number of its catalogue and the flags of that.
abbrev pub first_found :
    ℕ → Libs → Option Procat → Option (ℕ × Libs × Procat) → Option (ℕ × Libs × Procat)
first_found i libs (some p) rest = some (i, libs, p)
first_found i libs none rest = rest

abbrev pub find_in : String → List ℕ → ℕ → List (List Procat × Libs) → Option (ℕ × Libs × Procat)
find_in name argtypes i [] = none
find_in name argtypes i ((ps, libs) ∷ cs) =
    let rest = find_in name argtypes (suc i) cs in
    first_found i libs (find_proc name argtypes ps) rest

abbrev pub no_libs : Libs
no_libs = record { timelib = false; textlib = false; numericlib = false }

-- `catalog_array`.
unfoldable pub catalog_array : List (List Procat × Libs)
unfolding devfunc_common_catalog devfunc_numericlib_catalog devfunc_timelib_catalog
    devfunc_textlib_catalog
catalog_array =
    (devfunc_common_catalog, no_libs)
    ∷ (devfunc_numericlib_catalog, record no_libs { numericlib = true })
    ∷ (devfunc_timelib_catalog, record no_libs { timelib = true })
    ∷ (devfunc_textlib_catalog, record no_libs { textlib = true })
    ∷ []

-- `func_argtypes[i]`, which may lie behind the array.
abbrev pub read_oid : (ℕ → ℕ) → List ℕ → ℕ → ℕ
read_oid behind [] i = behind i
read_oid behind (a ∷ oids) zero = a
read_oid behind (a ∷ oids) (suc i) = read_oid behind oids i

abbrev pub as_option : Reply Caches Devtype → Option (Option Devtype × Caches)
as_option (found d c) = some (some d, c)
as_option (missing c) = some (none, c)
as_option raised = none

module _ (P : Syscache) where
  abbrev pub func_hash : String → List ℕ → ℕ
  func_hash name argtypes = bit_xor (P.hash_name name) (P.hash_oids argtypes) % 1024

  -- The loop over the arguments, which looks up the same type `n` times.
  unfoldable pub lookup_args : ℕ → ℕ → Caches → Option (List (Option Devtype) × Caches)
  unfolding devtype_lookup
  lookup_args oid zero c = some ([], c)
  lookup_args oid (suc n) c = elim (as_option (devtype_lookup P oid c)) [
    | none ↦ none
    | some (d, c') ↦ elim (lookup_args oid n c') [
      | none ↦ none
      | some (ds, c'') ↦ some (d ∷ ds, c'')
    ]
  ]

  abbrev pub add_func : ℕ → FuncEntry → Caches → Caches
  add_func hash e c = record c {
    func_slot = update c.func_slot hash (c.func_slot hash ++ (e ∷ []));
    next_at = c.next_at + 1;
  }

  -- A negative entry keeps no list of arguments.
  abbrev pub negative_func : ℕ → ℕ → String → List ℕ → FuncEntry
  negative_func at namespace name argtypes = record {
    is_negative = true;
    namespace = namespace;
    nargs = 0;
    argtypes = argtypes;
    info = record { func_at = at; func_name = name; libs = no_libs; func_decl = none };
  }

  -- The entry that a set-up has made joins its slot.
  abbrev pub finish_func :
      ℕ → String → List ℕ → Libs → List (Option Devtype) → Setup → Caches → Reply Caches Devfunc
  finish_func namespace name argtypes libs args null_pointer c = raised
  finish_func namespace name argtypes libs args negative c = missing (
      add_func (func_hash name argtypes)
        (record (negative_func c.next_at namespace name argtypes) { nargs = length args }) c)
  finish_func namespace name argtypes libs args (set_up func_name decl) c =
      let d : Devfunc = record {
        func_at = c.next_at;
        func_name = func_name;
        libs = libs;
        func_decl = decl;
      } in
      found d (
        add_func (func_hash name argtypes)
          (record {
            is_negative = false;
            namespace = namespace;
            nargs = length args;
            argtypes = argtypes;
            info = d;
          })
          c)

  -- An entry of catalogue `i`: the types of its result and its arguments, and the set-up. The index of
  -- the type of an argument is that of the catalogue.
  unfoldable pub setup_entry :
      ℕ → String → List ℕ → ℕ → ℕ → Libs → Procat → Caches → Reply Caches Devfunc
  unfolding lookup_args devtype_lookup setup_func
  setup_entry namespace name argtypes rettype i libs p c =
      elim (as_option (devtype_lookup P rettype c)) [
        | none ↦ raised
        | some (ret, c') ↦
            elim (lookup_args (read_oid (P.memory_behind argtypes) argtypes i) (length argtypes)
              c') [
                | none ↦ raised
                | some (args, c'') ↦
                    finish_func namespace name argtypes libs args
                      (setup_func P.print_number ret args p) c''
              ]
      ]

  -- Of a function that the slot does not hold: the entry of the catalogues is set up, and without one
  -- a negative entry joins the slot.
  abbrev pub add_found :
      String → ℕ → List ℕ → ℕ → Caches → Option (ℕ × Libs × Procat) → Reply Caches Devfunc
  add_found name namespace argtypes rettype c none =
      missing
        (add_func (func_hash name argtypes) (negative_func c.next_at namespace name argtypes) c)
  add_found name namespace argtypes rettype c (some (i, libs, p)) =
      setup_entry namespace name argtypes rettype i libs p c

  abbrev pub catalogued : String → ℕ → List ℕ → Option (ℕ × Libs × Procat)
  catalogued name namespace argtypes =
      if namespace == pg_catalog_namespace then find_in name argtypes 0 catalog_array else none

  abbrev pub found_or_set_up :
      String → ℕ → List ℕ → ℕ → Caches → Option FuncEntry → Reply Caches Devfunc
  found_or_set_up name namespace argtypes rettype c (some e) = give e.is_negative e.info c
  found_or_set_up name namespace argtypes rettype c none =
      if namespace == 0
      then missing c
      else add_found name namespace argtypes rettype c (catalogued name namespace argtypes)

  unfoldable pub lookup_by_name : String → ℕ → List ℕ → ℕ → Caches → Reply Caches Devfunc
  unfolding setup_entry
  lookup_by_name name namespace argtypes rettype c =
      found_or_set_up name namespace argtypes rettype c
        (find_func namespace name argtypes (c.func_slot (func_hash name argtypes)))

  unfoldable pub devfunc_lookup : ℕ → Caches → Reply Caches Devfunc
  unfolding lookup_by_name
  devfunc_lookup oid c = elim (P.proc_row oid) [
    | none ↦ raised
    | some r ↦ lookup_by_name r.proname r.pronamespace r.proargtypes r.prorettype c
  ]

  -- `devfunc_setup_boolop`: a function that joins no slot.
  unfoldable pub devfunc_setup_boolop : BoolExprType → String → ℕ → Caches → Reply Caches Devfunc
  unfolding devtype_lookup devfunc_setup_boolop_text
  devfunc_setup_boolop b name nargs c = elim (devtype_lookup P bool_oid c) [
    | raised ↦ raised
    | missing c' ↦ raised
    | found t c' ↦
        found
          (record {
            func_at = c'.next_at;
            func_name = name;
            libs = no_libs;
            func_decl = some (devfunc_setup_boolop_text P.print_number b t.type_name name nargs);
          })
          (record c' { next_at = c'.next_at + 1 })
  ]

  abbrev replicate : ℕ → ℕ → List ℕ
  replicate zero a = []
  replicate (suc n) a = a ∷ replicate n a

  -- The lookups of the walker.
  unfoldable pub lookups : Lookups Caches
  unfolding devtype_lookup devfunc_lookup lookup_by_name devfunc_setup_boolop
  lookups = record {
    devtype_lookup = devtype_lookup P;
    devfunc_lookup = devfunc_lookup;
    devfunc_lookup_boolop = λ name nargs. lookup_by_name name 0 (replicate nargs bool_oid) bool_oid;
    devfunc_setup_boolop = devfunc_setup_boolop;
  }
