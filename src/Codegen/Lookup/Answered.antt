-- ===== src/Codegen/Lookup/Answered.antt =====
-- The lookups of codegen.c against the catalogues of types and functions, whatever the caches hold: an
-- instance of the laws that the walker relies on.
use pg_strom.Prelude.{ℕ, Option, none, some, List, ◌+◌, ◌≡◌, refl, subst}
use Prim.Native.String.{String}
use pg_strom.Codegen.{
  Devtype, Devfunc, NullTestType, BoolExprType, Reply, found, missing, raised, Backend,
}
use pg_strom.Codegen.Catalog.Entry.{bool_oid}
use pg_strom.Codegen.Reference.{Verdict, known, unknown, invalid, Answers, MayFind, Answering}
use pg_strom.Codegen.Setup.{devfunc_setup_boolop_text}
use pg_strom.Codegen.Lookup.{TypeRow, ProcRow, Syscache, Caches, devtype_lookup}
use pg_strom.Codegen.Lookup.Types.{null_names, Named, type_verdict}
use pg_strom.Codegen.Lookup.Funcs.{
  no_libs, func_hash, lookup_by_name, devfunc_lookup, devfunc_setup_boolop, lookups,
}
use pg_strom.Codegen.Lookup.Kept.{WithFuncs, devtype_lookup-WithFuncs}
use pg_strom.Codegen.Lookup.Rows.{func_verdict, KeysAreUnique, Right, no_namespace, option_outcome}
use pg_strom.Codegen.Lookup.Entry.{slot-Answers}

module _ (P : Syscache) where
  module _ (keys : KeysAreUnique P) (bool_row : TypeRow)
      (has_bool : type_verdict P bool_oid ≡ known (null_names bool_row)) where
    row-Answers :
        (oid : ℕ) (o : Option ProcRow) (c : Caches)
        → P.proc_row oid ≡ o
        → Right P c
        → Answers
            (Right P)
            (λ (f : Devfunc) (n : String). f.func_name ≡ n)
            (option_outcome P o)
            (devfunc_lookup P oid c)
    unfolding devfunc_lookup lookup_by_name
    row-Answers oid none c h right = rw (devfunc_lookup, h) tt
    row-Answers oid (some r) c h right =
        rw (devfunc_lookup, h) (slot-Answers P keys oid r h bool_row has_bool _ c refl right)

    pub devfunc_lookup-Answers :
        (oid : ℕ) (c : Caches)
        → Right P c
        → Answers
            (Right P)
            (λ (f : Devfunc) (n : String). f.func_name ≡ n)
            (func_verdict P oid)
            (devfunc_lookup P oid c)
    devfunc_lookup-Answers oid c right = row-Answers oid _ c refl right

    types-Answers :
        (c : Caches) (v : Verdict (NullTestType → String)) (r : Reply Caches Devtype)
        → Right P c
        → Answers (WithFuncs P c.func_slot) Named v r
        → Answers (Right P) Named v r
    types-Answers c (known n) (found d c') right (named, (types, kept)) =
        (named, (types, λ h. rw kept (right.1 h)))
    types-Answers c (known n) (missing c') right a = absurd a
    types-Answers c (known n) raised right a = absurd a
    types-Answers c unknown (found d c') right a = absurd a
    types-Answers c unknown (missing c') right (types, kept) = (types, λ h. rw kept (right.1 h))
    types-Answers c unknown raised right a = absurd a
    types-Answers c invalid (found d c') right a = absurd a
    types-Answers c invalid (missing c') right a = absurd a
    types-Answers c invalid raised right a = tt

    boolop-MayFind :
        (name : String) (argtypes : List ℕ) (c : Caches)
        → Right P c
        → MayFind (Right P) name (lookup_by_name P name 0 argtypes bool_oid c)
    unfolding lookup_by_name
    boolop-MayFind name argtypes c right =
        rw (no_namespace P name argtypes _ (right.1 (func_hash P name argtypes))) right

    with_text-Answers :
        (b : BoolExprType) (name : String) (nargs : ℕ) (r : Reply Caches Devtype)
        → Answers (Right P) Named (known (null_names bool_row)) r
        → Answers
            (Right P)
            (λ (f : Devfunc) (n : String). f.func_name ≡ n)
            (known name)
            (elim r [
              | raised ↦ raised
              | missing c' ↦ raised
              | found t c' ↦
                  found
                    (record {
                      func_at = c'.next_at;
                      func_name = name;
                      libs = no_libs;
                      func_decl =
                          some (devfunc_setup_boolop_text P.print_number b t.type_name name nargs);
                    })
                    (record c' { next_at = c'.next_at + 1 })
            ])
    with_text-Answers b name nargs (found t c) (named, right) = (refl, right)
    with_text-Answers b name nargs (missing c) a = absurd a
    with_text-Answers b name nargs raised a = absurd a

    -- Under the same conditions the lookups of the program satisfy the laws that the walker relies on,
    -- over such caches.
    pub lookups-Answering :
        (B : Backend)
        → Answering (lookups P) B (record { types = type_verdict P; funcs = func_verdict P })
    unfolding lookups devfunc_setup_boolop
    lookups-Answering B = record {
      Good = Right P;
      types_lem = λ oid c right.
          types-Answers c _ _ right (devtype_lookup-WithFuncs P bool_row has_bool oid c right.0);
      funcs_lem = devfunc_lookup-Answers;
      boolop_lem = λ name nargs c right. boolop-MayFind name _ c right;
      setup_lem = λ b name nargs c right.
          with_text-Answers b name nargs (devtype_lookup P bool_oid c) (
            subst (λ v. Answers (Right P) Named v (devtype_lookup P bool_oid c)) has_bool
              (types-Answers c _ _ right
                (devtype_lookup-WithFuncs P bool_row has_bool bool_oid c right.0)));
    }

    pub Right-Good : (B : Backend) (c : Caches) → Right P c → (lookups-Answering B).Good c
    unfolding lookups-Answering
    Right-Good B c right = right
