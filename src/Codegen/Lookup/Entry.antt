-- ===== src/Codegen/Lookup/Entry.antt =====
-- The lookup of a function, of which a row of `pg_proc` is there, in the slot and the catalogues.
use pg_strom.Prelude.{ℕ, false, Option, none, some, List, length, ◌≡◌, refl, subst}
use Prim.Native.String.{String}
use pg_strom.Codegen.{Devtype, Devfunc, Libs, raised}
use pg_strom.Codegen.Catalog.Entry.{bool_oid, Procat}
use pg_strom.Codegen.Reference.{known, unknown, Answers}
use pg_strom.Codegen.Setup.{Setup, set_up, negative, null_pointer, setup_func}
use pg_strom.Codegen.Setup.Outcome.{outcome, blank, setup_func-blank}
use pg_strom.Codegen.Lookup.{TypeRow, ProcRow, Syscache, FuncEntry, Caches}
use pg_strom.Codegen.Lookup.Types.{null_names, type_verdict}
use pg_strom.Codegen.Lookup.Funcs.{
  find_func, read_oid, func_hash, lookup_args, negative_func, finish_func, setup_entry, add_found,
  found_or_set_up,
}
use pg_strom.Codegen.Lookup.Kept.{blank_of, WithFuncs, OneAnswer, devtype_lookup-OneAnswer}
use pg_strom.Codegen.Lookup.Rows.{
  row_outcome, KeysAreUnique, Right, add_func-Right, find_func-IsRight, give-Answers, made-IsRight,
  args_outcome, catalog_entry, nargs_made, FuncsAreRight,
}
use pg_strom.Codegen.Lookup.Args.{blank_args, ArgsAnswer, lookup_args-ArgsAnswer}

module _ (P : Syscache) where
  module _ (keys : KeysAreUnique P) (oid : ℕ) (r : ProcRow) (here : P.proc_row oid ≡ some r) where
    -- The arguments of `finish_func` as they are, and what they are with some type for each.
    finish_func-Answers :
        (i : ℕ) (libs : Libs) (p : Procat) (args : List (Option Devtype)) (s : Setup) (c : Caches)
        → catalog_entry P r ≡ some (i, libs, p)
        → row_outcome P r ≡ outcome s
        → length args ≡ length r.proargtypes
        → Right P c
        → Answers
            (Right P)
            (λ (f : Devfunc) (n : String). f.func_name ≡ n)
            (row_outcome P r)
            (finish_func P r.pronamespace r.proname r.proargtypes libs args s c)
    finish_func-Answers i libs p args null_pointer c entry same count right = rw same tt
    finish_func-Answers i libs p args negative c entry same count right =
        let e = record (negative_func P c.next_at r.pronamespace r.proname r.proargtypes) {
          nargs = length args;
        } in
        let nargs : length args ≡ nargs_made P r (catalog_entry P r) = rw entry count in
        rw same (
          add_func-Right P _ e c
            (made-IsRight P keys oid r here e refl (rw same refl) nargs refl same) right)
    finish_func-Answers i libs p args (set_up name decl) c entry same count right =
        let d : Devfunc = record {
          func_at = c.next_at;
          func_name = name;
          libs = libs;
          func_decl = decl;
        } in
        let e : FuncEntry = record {
          is_negative = false;
          namespace = r.pronamespace;
          nargs = length args;
          argtypes = r.proargtypes;
          info = d;
        } in
        let nargs : length args ≡ nargs_made P r (catalog_entry P r) = rw entry count in
        rw same (
          refl,
          add_func-Right P _ e c
              (made-IsRight P keys oid r here e refl (rw same refl) nargs refl same) right,
        )

    module _ (bool_row : TypeRow)
        (has_bool : type_verdict P bool_oid ≡ known (null_names bool_row)) where
      kept-Right :
          (slot : ℕ → List FuncEntry) (c : Caches)
          → ((h : ℕ) → FuncsAreRight P (slot h))
          → WithFuncs P slot c
          → Right P c
      kept-Right slot c right (types, kept) = (types, λ h. rw kept (right h))

      args-Answers :
          (i : ℕ) (libs : Libs) (p : Procat) (ret : Option Devtype) (slot : ℕ → List FuncEntry)
          (o : Option (List (Option Devtype))) (a : Option (List (Option Devtype) × Caches))
          → catalog_entry P r ≡ some (i, libs, p)
          → row_outcome P r ≡ args_outcome P p (some (blank ret)) o
          → ((h : ℕ) → FuncsAreRight P (slot h))
          → ArgsAnswer P slot (length r.proargtypes) o a
          → Answers
              (Right P)
              (λ (f : Devfunc) (n : String). f.func_name ≡ n)
              (row_outcome P r)
              (elim a [
                | none ↦ raised
                | some (args, c'') ↦
                    finish_func P r.pronamespace r.proname r.proargtypes libs args
                      (setup_func P.print_number ret args p)
                      c''
              ])
      args-Answers i libs p ret slot none none entry same right a = rw same tt
      args-Answers i libs p ret slot none (some (args, c)) entry same right a = absurd a
      args-Answers i libs p ret slot (some ds) none entry same right a = absurd a
      args-Answers i libs p ret slot (some ds) (some (args, c)) entry same right
            (blanks, count, good) =
          let shape = setup_func-blank p P.print_number ret args in
          finish_func-Answers i libs p args (setup_func P.print_number ret args p) c entry (cc)
            count (kept-Right slot c right good)

      ret-Answers :
          (i : ℕ) (libs : Libs) (p : Procat) (slot : ℕ → List FuncEntry)
          (o : Option (Option Devtype)) (a : Option (Option Devtype × Caches))
          → catalog_entry P r ≡ some (i, libs, p)
          → blank_of (type_verdict P r.prorettype) ≡ o
          → ((h : ℕ) → FuncsAreRight P (slot h))
          → OneAnswer P slot o a
          → Answers
              (Right P)
              (λ (f : Devfunc) (n : String). f.func_name ≡ n)
              (row_outcome P r)
              (elim a [
                | none ↦ raised
                | some (ret, c') ↦
                    elim (lookup_args P
                      (read_oid (P.memory_behind r.proargtypes) r.proargtypes i)
                      (length r.proargtypes)
                      c') [
                        | none ↦ raised
                        | some (args, c'') ↦
                            finish_func P r.pronamespace r.proname r.proargtypes libs args
                              (setup_func P.print_number ret args p)
                              c''
                      ]
              ])
      unfolding row_outcome
      ret-Answers i libs p slot none none entry ret_is right a = rw (entry, ret_is) tt
      ret-Answers i libs p slot none (some (ret, c)) entry ret_is right a = absurd a
      ret-Answers i libs p slot (some d) none entry ret_is right a = absurd a
      ret-Answers i libs p slot (some d) (some (ret, c)) entry ret_is right (same, (types, kept)) =
          let n = length r.proargtypes in
          let arg = read_oid (P.memory_behind r.proargtypes) r.proargtypes i in
          let blanks = blank_args n (blank_of (type_verdict P arg)) in
          args-Answers i libs p ret slot blanks (lookup_args P arg n c) entry
            (rw (entry, ret_is, same) refl) right
            (subst (λ l. ArgsAnswer P l n blanks (lookup_args P arg n c)) kept
              (lookup_args-ArgsAnswer P bool_row has_bool arg n c types))

      entry-Answers :
          (o : Option (ℕ × Libs × Procat)) (c : Caches)
          → catalog_entry P r ≡ o
          → Right P c
          → Answers
              (Right P)
              (λ (f : Devfunc) (n : String). f.func_name ≡ n)
              (row_outcome P r)
              (add_found P r.proname r.pronamespace r.proargtypes r.prorettype c o)
      unfolding row_outcome setup_entry
      entry-Answers none c entry right =
          let e = negative_func P c.next_at r.pronamespace r.proname r.proargtypes in
          let nothing : row_outcome P r ≡ unknown = rw entry refl in
          rw entry (
            add_func-Right P _ e c
              (made-IsRight P keys oid r here e refl (rw nothing refl) (rw entry refl) refl nothing)
              right)
      entry-Answers (some (i, libs, p)) c entry right =
          ret-Answers i libs p c.func_slot _ _ entry refl (right.1)
            (devtype_lookup-OneAnswer P bool_row has_bool r.prorettype c right.0)

      -- A lookup answers what the catalogues say of the row, and leaves caches whose entries do.
      pub slot-Answers :
          (o : Option FuncEntry) (c : Caches)
          → find_func r.pronamespace r.proname r.proargtypes
              (c.func_slot (func_hash P r.proname r.proargtypes))
            ≡ o
          → Right P c
          → Answers
              (Right P)
              (λ (f : Devfunc) (n : String). f.func_name ≡ n)
              (row_outcome P r)
              (found_or_set_up P r.proname r.pronamespace r.proargtypes r.prorettype c o)
      slot-Answers none c h right = rw (keys.in_namespace oid r here) (entry-Answers _ c refl right)
      slot-Answers (some e) c h right =
          let (is_right, asked) = find_func-IsRight P r _ e (right.1 _) h in
          give-Answers P e.is_negative e.info (row_outcome P r) c (is_right.1 oid r here asked)
            right
