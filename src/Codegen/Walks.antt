-- ===== src/Codegen/Walks.antt =====
-- What a walk of codegen.c does to the text, the tables and the caches, and how walks compose.
pub mod Tracking
use pg_strom.Prelude.{
  and_true, ℕ, Bool, true, false, ◌&&◌, not, if◌then◌else◌, Option, none, some, List, [], ◌∷◌, ◌++◌,
  append_assoc, ◌≡◌, refl, sym, ◌∙◌,
}
use Prim.Native.String.{String}
use pg_strom.Codegen.{
  BoolExprType, Expr, Devfunc, Reply, found, missing, raised, Lookups, Backend, Piece, kparam, kvar,
  call, close, Walk, Outcome, done, refused, error, crash,
}
use pg_strom.Codegen.Walker.{
  name_param, name_var, devtype_lookup_and_track, devfunc_lookup_and_track, find, append, then_walk,
  answer, use_param, use_var, boolop_func, boolop_name, in_call, track_func,
}
use pg_strom.Codegen.Tables.{
  all-append, Extends, Extends-refl, Extends-trans, find-append, find-last,
}
use pg_strom.Codegen.Reference.{
  is_declared_param, is_declared_var, Tracked, Verdict, known, unknown, invalid, is_known, Names,
  Answers, MayFind, Answering, print_leaf, print_call, name_or_empty,
}

module _ {S : Type 0} (Good : S → Type 0) (Keeps : List Expr → List Expr → Type 0) where
  -- A walk that ends as `has` says; done, it has appended `text` of any later tables.
  abbrev pub Walks : Bool → (List Expr → List Expr → List Piece) → Walk S → Outcome S → Type 0
  Walks has text w (done w') =
      (has ≡ true)
      × Good w'.caches
      × Extends w.defs.used_params w'.defs.used_params
      × Extends w.defs.used_vars w'.defs.used_vars
      × (Keeps w.defs.used_params w.defs.used_vars → Keeps w'.defs.used_params w'.defs.used_vars)
      × ((ps vs : List Expr)
          → Extends w'.defs.used_params ps
          → Extends w'.defs.used_vars vs
          → w'.str ≡ w.str ++ text ps vs)
  Walks has text w (refused s) = (has ≡ false) × Good s
  Walks has text w error = has ≡ false
  Walks has text w crash = has ≡ false

  pub Walks-append :
      (p : Piece) (w : Walk S) → Good w.caches → Walks true (λ ps vs. p ∷ []) w (done (append p w))
  Walks-append p w good = (refl, good, Extends-refl _, Extends-refl _, (λ k. k), λ ps vs _ _. refl)

  -- What follows a walk that is done.
  pub Walks-after :
      (b : Bool) (p q : List Expr → List Expr → List Piece) (w w' : Walk S) (o : Outcome S)
      → Walks true p w (done w')
      → Walks b q w' o
      → Walks b (λ ps vs. p ps vs ++ q ps vs) w o
  Walks-after b p q w w' (done w'') (_, good, ps_grow, vs_grow, keeps, text)
        (has, good', ps_grow', vs_grow', keeps', text') =
      (
        has,
        good',
        Extends-trans _ _ _ ps_grow ps_grow',
        Extends-trans _ _ _ vs_grow vs_grow',
        (λ k. keeps' (keeps k)),
        λ ps vs ps_end vs_end.
            text' ps vs ps_end vs_end
            ∙ (rw
                (text ps vs (Extends-trans _ _ _ ps_grow' ps_end)
                  (Extends-trans _ _ _ vs_grow' vs_end))
                (append_assoc w.str (p ps vs) (q ps vs))),
      )
  Walks-after b p q w w' (refused s) _ second = second
  Walks-after b p q w w' error _ second = second
  Walks-after b p q w w' crash _ second = second

  pub Walks-then :
      (a b : Bool) (p q : List Expr → List Expr → List Piece) (w : Walk S) (o : Outcome S)
      (k : Walk S → Outcome S)
      → Walks a p w o
      → ((w' : Walk S) → Good w'.caches → Walks b q w' (k w'))
      → Walks (a && b) (λ ps vs. p ps vs ++ q ps vs) w (then_walk o k)
  Walks-then a b p q w (done w') k (has, good, ps_grow, vs_grow, keeps, text) next =
      rw has
        (Walks-after b p q w w' (k w') (refl, good, ps_grow, vs_grow, keeps, text) (next w' good))
  Walks-then a b p q w (refused s) k (not_it, good) next = (rw not_it refl, good)
  Walks-then a b p q w error k not_it next = rw not_it refl
  Walks-then a b p q w crash k not_it next = rw not_it refl

  pub Walks-in_call :
      (a : Bool) (t : List Expr → List Expr → List Piece) (p : Piece) (args : Walk S → Outcome S)
      (w : Walk S)
      → Good w.caches
      → ((w' : Walk S) → Good w'.caches → Walks a t w' (args w'))
      → Walks a (λ ps vs. print_call p (t ps vs)) w (in_call p args w)
  Walks-in_call a t p args w good walk =
      Walks-after a (λ ps vs. p ∷ []) (λ ps vs. t ps vs ++ (close ∷ [])) w (append p w)
        (in_call p args w) (Walks-append p w good)
        (rw (sym (and_true a)) (
          Walks-then a true t (λ ps vs. close ∷ []) (append p w) (args (append p w))
            (λ w. done (append close w)) (walk (append p w) good)
            λ w' good'. Walks-append close w' good'))

  -- A test at which the walker returns false.
  pub Walks-guard :
      (g has : Bool) (text : List Expr → List Expr → List Piece) (w : Walk S) (o : Outcome S)
      → Good w.caches
      → Walks has text w o
      → Walks (not g && has) text w (if g then refused w.caches else o)
  Walks-guard true has text w o good walk = (refl, good)
  Walks-guard false has text w o good walk = walk

  -- A test at which the walker raises an error.
  pub Walks-raise :
      (g has : Bool) (text : List Expr → List Expr → List Piece) (w : Walk S) (o : Outcome S)
      → Walks has text w o
      → Walks (g && has) text w (if not g then error else o)
  Walks-raise false has text w o walk = refl
  Walks-raise true has text w o walk = walk

  -- A lookup of a function by its name, which may find none.
  pub Walks-MayFind :
      (n : String) (has : Bool) (text : List Expr → List Expr → List Piece) (w : Walk S)
      (r : Reply S Devfunc) (k : Devfunc → Walk S → Outcome S) (absent : S → Outcome S)
      → MayFind Good n r
      → ((d : Devfunc) (s : S)
          → d.func_name ≡ n
          → Good s
          → Walks has text w (k d (record w { caches = s })))
      → ((s : S) → Good s → Walks has text w (absent s))
      → Walks has text w (answer r w k absent)
  Walks-MayFind n has text w (found d s) k absent (named, good) found_lem absent_lem =
      found_lem d s named good
  Walks-MayFind n has text w (missing s) k absent good found_lem absent_lem = absent_lem s good
  Walks-MayFind n has text w raised k absent u found_lem absent_lem = absurd u

  -- The same walk from a state with the same text and tables.
  pub Walks-answer :
      {A V : Type 0} (R : A → V → Type 0) (v : Verdict V) (has : Bool)
      (text : List Expr → List Expr → List Piece) (w : Walk S) (r : Reply S A)
      (k : A → Walk S → Outcome S) (absent : S → Outcome S)
      → Answers Good R v r
      → ((d : A) (n : V) (s : S)
          → v ≡ known n
          → R d n
          → Good s
          → Walks has text w (k d (record w { caches = s })))
      → ((s : S) → Good s → Walks false text w (absent s))
      → Walks (is_known v && has) text w (answer r w k absent)
  Walks-answer R (known n) has text w (found d s) k absent (same, good) found_lem absent_lem =
      found_lem d n s refl same good
  Walks-answer R unknown has text w (missing s) k absent good found_lem absent_lem =
      absent_lem s good
  Walks-answer R invalid has text w raised k absent u found_lem absent_lem = refl
  Walks-answer R (known n) has text w (missing s) k absent u found_lem absent_lem = absurd u
  Walks-answer R (known n) has text w raised k absent u found_lem absent_lem = absurd u
  Walks-answer R unknown has text w (found d s) k absent u found_lem absent_lem = absurd u
  Walks-answer R unknown has text w raised k absent u found_lem absent_lem = absurd u
  Walks-answer R invalid has text w (found d s) k absent u found_lem absent_lem = absurd u
  Walks-answer R invalid has text w (missing s) k absent u found_lem absent_lem = absurd u
