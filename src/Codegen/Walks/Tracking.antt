-- ===== src/Codegen/Walks/Tracking.antt =====
-- The walks of codegen.c that look up a type or a function, or name a parameter or a column.
use pg_strom.Prelude.{
  and_true, ℕ, Bool, true, false, ◌&&◌, Option, none, some, List, [], ◌∷◌, append_assoc, ◌≡◌, refl,
  sym,
}
use pg_strom.Codegen.{
  BoolExprType, Expr, Devfunc, Lookups, Backend, Piece, kparam, kvar, call, Walk, Outcome, refused,
}
use pg_strom.Codegen.Walker.{
  name_param, name_var, devtype_lookup_and_track, devfunc_lookup_and_track, find, use_param,
  use_var, boolop_func, boolop_name, in_call, track_func,
}
use pg_strom.Codegen.Tables.{all-append, Extends-refl, find-append, find-last}
use pg_strom.Codegen.Reference.{
  is_declared_param, is_declared_var, Tracked, known, is_known, Names, Answering, print_leaf,
  print_call, name_or_empty,
}
use pg_strom.Codegen.Walks.{Walks, Walks-in_call, Walks-MayFind, Walks-answer}

module _ {S : Type 0} (L : Lookups S) (B : Backend) (N : Names)
    (same : (e : Expr) → B.equal e e ≡ true) (A : Answering L B N) where
  pub Walks-name_param :
      (e : Expr) (w : Walk S) (o : Option ℕ)
      → find B.equal e w.defs.used_params ≡ o
      → is_declared_param N e ≡ true
      → A.Good w.caches
      → Walks A.Good
          (Tracked N)
          true
          (λ ps vs. print_leaf kparam (find B.equal e ps))
          w
          (name_param e w o)
  Walks-name_param e w none fresh typed good = (
    refl,
    good,
    (e ∷ [], refl),
    Extends-refl _,
    (λ k. (all-append _ w.defs.used_params e k.0 typed, k.1)),
    λ ps vs ps_end vs_end.
        rw
          (
            ps_end.1,
            append_assoc w.defs.used_params (e ∷ []) (ps_end.0),
            find-last B.equal e w.defs.used_params (ps_end.0) (same e) fresh,
          )
          refl,
  )
  Walks-name_param e w (some i) there typed good = (
    refl,
    good,
    Extends-refl _,
    Extends-refl _,
    (λ k. k),
    λ ps vs ps_end vs_end.
        rw (ps_end.1, find-append B.equal e w.defs.used_params (ps_end.0) i there) refl,
  )

  pub Walks-name_var :
      (e : Expr) (w : Walk S) (o : Option ℕ)
      → find B.equal e w.defs.used_vars ≡ o
      → is_declared_var N e ≡ true
      → A.Good w.caches
      → Walks A.Good
          (Tracked N)
          true
          (λ ps vs. print_leaf kvar (find B.equal e vs))
          w
          (name_var e w o)
  Walks-name_var e w none fresh typed good = (
    refl,
    good,
    Extends-refl _,
    (e ∷ [], refl),
    (λ k. (k.0, all-append _ w.defs.used_vars e k.1 typed)),
    λ ps vs ps_end vs_end.
        rw
          (
            vs_end.1,
            append_assoc w.defs.used_vars (e ∷ []) (vs_end.0),
            find-last B.equal e w.defs.used_vars (vs_end.0) (same e) fresh,
          )
          refl,
  )
  Walks-name_var e w (some i) there typed good = (
    refl,
    good,
    Extends-refl _,
    Extends-refl _,
    (λ k. k),
    λ ps vs ps_end vs_end.
        rw (vs_end.1, find-append B.equal e w.defs.used_vars (vs_end.0) i there) refl,
  )

  pub Walks-type :
      (oid : ℕ) (text : List Expr → List Expr → List Piece) (w : Walk S) (k : Walk S → Outcome S)
      → A.Good w.caches
      → (is_known (N.types oid) ≡ true
          → (w' : Walk S) → A.Good w'.caches
          → Walks A.Good (Tracked N) true text w' (k w'))
      → Walks A.Good
          (Tracked N)
          (is_known (N.types oid))
          text
          w
          (devtype_lookup_and_track L B oid w k)
  Walks-type oid text w k good next = rw (sym (and_true (is_known (N.types oid)))) (
      Walks-answer A.Good (Tracked N) _ (N.types oid) true text w (L.devtype_lookup oid w.caches) _
        refused (A.types_lem oid w.caches good) (λ d n s is_n _ good'. next (rw is_n refl) _ good')
        λ s good'. (refl, good'))

  pub Walks-func :
      (oid : ℕ) (has : Bool) (text : List Expr → List Expr → List Piece) (w : Walk S)
      (args : Walk S → Outcome S) (absent : S → Outcome S)
      → A.Good w.caches
      → ((w' : Walk S) → A.Good w'.caches → Walks A.Good (Tracked N) has text w' (args w'))
      → ((s : S)
          → A.Good s
          → Walks A.Good
              (Tracked N)
              false
              (λ ps vs. print_call (call (name_or_empty (N.funcs oid))) (text ps vs))
              w
              (absent s))
      → Walks A.Good
          (Tracked N)
          (is_known (N.funcs oid) && has)
          (λ ps vs. print_call (call (name_or_empty (N.funcs oid))) (text ps vs))
          w
          (devfunc_lookup_and_track L B oid w (λ d w. in_call (call d.func_name) args w) absent)
  Walks-func oid has text w args absent good walk absent_lem =
      Walks-answer A.Good (Tracked N) _ (N.funcs oid) has _ w (L.devfunc_lookup oid w.caches) _
        absent (A.funcs_lem oid w.caches good)
        (λ d n s is_n named good'.
          rw (is_n, named) (Walks-in_call A.Good (Tracked N) has text (call n) args _ good' walk))
        absent_lem

  pub Walks-use_param :
      (e : Expr)
      → is_declared_param N e ≡ true
      → (w : Walk S) → A.Good w.caches
      → Walks A.Good
          (Tracked N)
          true
          (λ ps vs. print_leaf kparam (find B.equal e ps))
          w
          (use_param L B e w)
  unfolding use_param
  Walks-use_param e typed w good =
      Walks-name_param e w (find B.equal e w.defs.used_params) refl typed good

  pub Walks-use_var :
      (e : Expr)
      → is_declared_var N e ≡ true
      → (w : Walk S) → A.Good w.caches
      → Walks A.Good
          (Tracked N)
          true
          (λ ps vs. print_leaf kvar (find B.equal e vs))
          w
          (use_var L B e w)
  unfolding use_var
  Walks-use_var e typed w good =
      Walks-name_var e w (find B.equal e w.defs.used_vars) refl typed good

  pub Walks-boolop :
      (b : BoolExprType) (nargs : ℕ) (has : Bool) (text : List Expr → List Expr → List Piece)
      (w : Walk S) (args : Walk S → Outcome S)
      → A.Good w.caches
      → ((w' : Walk S) → A.Good w'.caches → Walks A.Good (Tracked N) has text w' (args w'))
      → Walks A.Good
          (Tracked N)
          has
          (λ ps vs. print_call (call (boolop_name B b nargs)) (text ps vs))
          w
          (boolop_func L B b nargs w (λ d w. in_call (call d.func_name) args w))
  unfolding boolop_func
  Walks-boolop b nargs has text w args good walk =
      let name = boolop_name B b nargs in
      let Text : List Expr → List Expr → List Piece =
        λ ps vs. print_call (call name) (text ps vs) in
      let tracked : (d : Devfunc) (s : S)
          → d.func_name ≡ name
          → A.Good s
          → Walks A.Good (Tracked N) has Text w (
              in_call (call d.func_name) args
                (record w { caches = s; defs = track_func d w.defs })) =
        λ d s named good'.
          rw named (Walks-in_call A.Good (Tracked N) has text (call name) args _ good' walk) in
      Walks-MayFind A.Good (Tracked N) name has Text w _ _ _ (A.boolop_lem name nargs w.caches good)
        tracked
        (λ s good'.
          Walks-answer A.Good (Tracked N) (λ (d : Devfunc) n. d.func_name ≡ n) (known name) has Text
            w _ _ _ (A.setup_lem b name nargs s good')
            (λ d n s' is_n named good''. tracked d s' (cc) good'') λ s' good''. refl)
