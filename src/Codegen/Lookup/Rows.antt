-- ===== src/Codegen/Lookup/Rows.antt =====
-- What the catalogues say of a function, and caches whose entries say so.
use pg_strom.Prelude.{
  ℕ, Bool, true, false, ◌&&◌, ◌==◌, Option, none, some, List, [], ◌∷◌, ◌++◌, length, ◌≡◌, refl, sym,
  subst, Bool-cases, inl, inr, arith,
}
use Prim.Native.String.{String}
use pg_strom.Codegen.{Devtype, Devfunc, Libs}
use pg_strom.Codegen.Catalog.Entry.{Procat}
use pg_strom.Codegen.Reference.{Verdict, known, unknown, invalid, Answers}
use pg_strom.Codegen.Setup.{setup_func}
use pg_strom.Codegen.Setup.Outcome.{outcome}
use pg_strom.Codegen.Lookup.{ProcRow, Syscache, FuncEntry, Caches, give}
use pg_strom.Codegen.Lookup.Types.{type_verdict, TypesAreRight}
use pg_strom.Codegen.Lookup.Funcs.{same_text, eq_oids, find_func, read_oid, add_func, catalogued}
use pg_strom.Codegen.Lookup.Kept.{blank_of}
use pg_strom.Codegen.Lookup.Args.{blank_args}

-- A row of `pg_proc` is found by the key of an entry.
abbrev pub is_key_of : ProcRow → ℕ → String → ℕ → List ℕ → Bool
is_key_of r namespace name nargs argtypes =
    (r.pronamespace == namespace)
    && (same_text r.proname name
        && ((length r.proargtypes == nargs) && eq_oids r.proargtypes argtypes))

module _ (P : Syscache) where
  -- The outcome of the set-up of an entry of the catalogues for the types of a row.
  abbrev pub args_outcome :
      Procat → Option (Option Devtype) → Option (List (Option Devtype)) → Verdict String
  args_outcome p none args = invalid
  args_outcome p (some ret) none = invalid
  args_outcome p (some ret) (some args) = outcome (setup_func P.print_number ret args p)

  abbrev pub catalog_outcome : ProcRow → Option (ℕ × Libs × Procat) → Verdict String
  catalog_outcome r none = unknown
  catalog_outcome r (some (i, libs, p)) = args_outcome p (blank_of (type_verdict P r.prorettype)) (
      blank_args (length r.proargtypes)
        (blank_of (type_verdict P (read_oid (P.memory_behind r.proargtypes) r.proargtypes i))))

  abbrev pub catalog_entry : ProcRow → Option (ℕ × Libs × Procat)
  catalog_entry r = catalogued P r.proname r.pronamespace r.proargtypes

  -- What the catalogues say of a function.
  unfoldable pub row_outcome : ProcRow → Verdict String
  row_outcome r = catalog_outcome r (catalog_entry r)

  abbrev pub option_outcome : Option ProcRow → Verdict String
  option_outcome none = invalid
  option_outcome (some r) = row_outcome r

  abbrev pub func_verdict : ℕ → Verdict String
  func_verdict oid = option_outcome (P.proc_row oid)

  -- The name and the number of arguments that the entry for a row has: an entry for a function of the
  -- catalogues has the name that its set-up gives it, and one for a function that is in none of them has
  -- no number of arguments.
  abbrev pub name_made : ProcRow → Verdict String → String
  name_made r (known n) = n
  name_made r unknown = r.proname
  name_made r invalid = r.proname

  abbrev pub nargs_made : ProcRow → Option (ℕ × Libs × Procat) → ℕ
  nargs_made r none = 0
  nargs_made r (some p) = length r.proargtypes

  abbrev pub made_for : ProcRow → ProcRow → Bool
  made_for r r' =
      is_key_of r' r.pronamespace (name_made r (row_outcome r)) (nargs_made r (catalog_entry r))
        r.proargtypes

  -- `pg_proc`: every row is in a namespace, and an entry for a row is found by no other row, unless the
  -- catalogues say the same of both.
  pub record KeysAreUnique : Type 0 where
    pub in_namespace :
        (oid : ℕ) (r : ProcRow) → P.proc_row oid ≡ some r → (r.pronamespace == 0) ≡ false
    pub unique :
        (oid oid' : ℕ) (r r' : ProcRow)
        → P.proc_row oid ≡ some r
        → P.proc_row oid' ≡ some r'
        → made_for r r' ≡ true
        → row_outcome r' ≡ row_outcome r

  abbrev pub FuncFits : Bool → Devfunc → Verdict String → Type 0
  FuncFits true d v = v ≡ unknown
  FuncFits false d v = v ≡ known d.func_name

  -- An entry says of every row that finds it what the catalogues do.
  abbrev pub FuncIsRight : FuncEntry → Type 0
  FuncIsRight e =
      ((e.namespace == 0) ≡ false)
      × ((oid : ℕ) (r : ProcRow)
          → P.proc_row oid ≡ some r
          → is_key_of r e.namespace e.info.func_name e.nargs e.argtypes ≡ true
          → FuncFits e.is_negative e.info (row_outcome r))

  abbrev pub FuncsAreRight : List FuncEntry → Type 0
  FuncsAreRight [] = Unit {0}
  FuncsAreRight (e ∷ es) = FuncIsRight e × FuncsAreRight es

  abbrev pub Right : Caches → Type 0
  Right c = TypesAreRight P c × ((h : ℕ) → FuncsAreRight (c.func_slot h))

  FuncsAreRight-append :
      (es : List FuncEntry) (e : FuncEntry)
      → FuncsAreRight es
      → FuncIsRight e
      → FuncsAreRight (es ++ (e ∷ []))
  FuncsAreRight-append [] e s r = (r, tt)
  FuncsAreRight-append (x ∷ es) e s r = (s.0, FuncsAreRight-append es e s.1 r)

  pub add_func-Right :
      (hash : ℕ) (e : FuncEntry) (c : Caches)
      → FuncIsRight e
      → Right c
      → Right (add_func P hash e c)
  add_func-Right hash e c r right = (
    right.0,
    λ k. elim (Bool-cases (k == hash)) [
      | inl t ↦ rw t (FuncsAreRight-append (c.func_slot hash) e (right.1 hash) r)
      | inr f ↦ rw f (right.1 k)
    ],
  )

  -- An entry that is found is right, and found by its key.
  pub find_func-IsRight :
      (r : ProcRow) (es : List FuncEntry) (e : FuncEntry)
      → FuncsAreRight es
      → find_func r.pronamespace r.proname r.proargtypes es ≡ some e
      → FuncIsRight e × (is_key_of r e.namespace e.info.func_name e.nargs e.argtypes ≡ true)
  find_func-IsRight r [] e s h = absurd (cc)
  find_func-IsRight r (x ∷ es) e s h =
      elim (Bool-cases (is_key_of r x.namespace x.info.func_name x.nargs x.argtypes)) [
        | inl t ↦
            let same : x ≡ e = cc in
            subst
              (λ (y : FuncEntry).
                FuncIsRight y
                × (is_key_of r y.namespace y.info.func_name y.nargs y.argtypes ≡ true))
              same (s.0, t)
        | inr f ↦ find_func-IsRight r es e s.1 (rw f at h)
      ]

  pub give-Answers :
      (b : Bool) (d : Devfunc) (v : Verdict String) (c : Caches)
      → FuncFits b d v
      → Right c
      → Answers Right (λ (f : Devfunc) (n : String). f.func_name ≡ n) v (give b d c)
  give-Answers true d v c h right = rw h right
  give-Answers false d v c h right = rw h (refl, right)

  -- Without a row in no namespace, no entry is found for AND and OR.
  pub no_namespace :
      (name : String) (argtypes : List ℕ) (es : List FuncEntry)
      → FuncsAreRight es
      → find_func 0 name argtypes es ≡ none
  no_namespace name argtypes [] s = refl
  no_namespace name argtypes (e ∷ es) s =
      let other : (0 == e.namespace) ≡ false = ground (arith, (s.0).0) in
      rw other (no_namespace name argtypes es s.1)

  module _ (keys : KeysAreUnique) (oid : ℕ) (r : ProcRow) (here : P.proc_row oid ≡ some r) where
    -- An entry with the key that is made for the row is right if it says what the catalogues do.
    pub made-IsRight :
        (e : FuncEntry)
        → e.namespace ≡ r.pronamespace
        → e.info.func_name ≡ name_made r (row_outcome r)
        → e.nargs ≡ nargs_made r (catalog_entry r)
        → e.argtypes ≡ r.proargtypes
        → FuncFits e.is_negative e.info (row_outcome r)
        → FuncIsRight e
    made-IsRight e n f a t fits = (
      rw n (keys.in_namespace oid r here),
      λ oid' r' here' asked.
          let made : made_for r r' ≡ true = rw (n, f, a, t) at asked in
          subst (λ v. FuncFits e.is_negative e.info v)
            (sym (keys.unique oid oid' r r' here here' made)) fits,
    )
