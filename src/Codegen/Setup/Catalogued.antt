-- ===== src/Codegen/Setup/Catalogued.antt =====
-- The set-up of each entry of the catalogues of codegen.c.
use pg_strom.Prelude.{
  and-left, and-right, ℕ, zero, suc, ◌≤◌, Bool, true, false, ◌&&◌, ◌==◌, leb, leb→le, if◌then◌else◌,
  Option, none, some, List, [], ◌∷◌, ◌++◌, map, length, get_elem?, ◌≡◌, refl, Bool-cases, inl, inr,
  arith, subst, ==_iff, ◌∙◌,
}
use Prim.Native.String.{String, compare}
use text.Mathlib.Text.{is_eq}
use text.Mathlib.TextEquality.{eq_iff}
use pg_strom.Codegen.{Devtype}
use pg_strom.Codegen.Catalog.{devfunc_common_catalog}
use pg_strom.Codegen.Catalog.Libraries.{
  devfunc_numericlib_catalog, devfunc_timelib_catalog, devfunc_textlib_catalog,
}
use pg_strom.Codegen.Catalog.Entry.{Procat, Callback, no_callback, div_oper, setup_const}
use pg_strom.Codegen.Setup.{
  null_pointer, setup_func, setup_by, setup_template, devfunc_setup_oper_both,
}
use pg_strom.Codegen.Setup.Pointers.{needed, IsSetUp, callback-IsSetUp}

-- The entries of the four catalogues.
unfoldable pub all_procats : List Procat
unfolding devfunc_common_catalog devfunc_numericlib_catalog devfunc_timelib_catalog
    devfunc_textlib_catalog
all_procats =
    devfunc_common_catalog
    ++ (devfunc_numericlib_catalog ++ (devfunc_timelib_catalog ++ devfunc_textlib_catalog))

-- The entries of the operator `~`, of one argument and with the template of an operator of two.
abbrev pub is_bit_not : Procat → Bool
is_bit_not p = is_eq (compare p.func_template "b:~")

abbrev covers : ℕ → Option ℕ → Bool
covers n none = false
covers n (some m) = leb m n

abbrev is_plain : Callback → Bool
is_plain no_callback = true
is_plain div_oper = false
is_plain setup_const = false

abbrev is_regular : Procat → Bool
is_regular p =
    if is_bit_not p
    then (p.func_nargs == 1) && is_plain p.func_callback
    else covers p.func_nargs (needed p)

abbrev all_procs : (Procat → Bool) → List Procat → Bool
all_procs f [] = true
all_procs f (p ∷ ps) = f p && all_procs f ps

all_procs-get :
    (f : Procat → Bool) (ps : List Procat) (i : ℕ) (p : Procat)
    → all_procs f ps ≡ true
    → get_elem? ps i ≡ some p
    → f p ≡ true
all_procs-get f [] i p h g = absurd (cc)
all_procs-get f (q ∷ ps) zero p h g = elim (Bool-cases (f q)) [
  | inl t ↦ let same : q ≡ p = cc in subst (λ r. f r ≡ true) same t
  | inr n ↦ absurd (let h' : false ≡ true = rw n at h in cc)
]
all_procs-get f (q ∷ ps) (suc i) p h g = elim (Bool-cases (f q)) [
  | inl t ↦ all_procs-get f ps i p (rw t at h) g
  | inr n ↦ absurd (let h' : false ≡ true = rw n at h in cc)
]

catalogs-regular : all_procs is_regular all_procats ≡ true
unfolding all_procats
catalogs-regular = refl

covers-some : (n : ℕ) (o : Option ℕ) → covers n o ≡ true → (m : ℕ) × (o ≡ some m) × (m ≤ n)
covers-some n none h = absurd (cc)
covers-some n (some m) h = (m, refl, leb→le m n h)

-- An operator of two arguments set up with one.
bit_not-null :
    (print : ℕ → String) (ret : Devtype) (p : Procat) (c : Callback) (ds : List Devtype)
    → p.func_template ≡ "b:~"
    → is_plain c ≡ true
    → length ds ≡ 1
    → setup_by print (some ret) (map some ds) p c ≡ null_pointer
unfolding setup_template devfunc_setup_oper_both
bit_not-null print ret p no_callback (d ∷ []) t h l = rw t refl
bit_not-null print ret p no_callback [] t h l = absurd (omega arith)
bit_not-null print ret p no_callback (d ∷ e ∷ ds) t h l = absurd (omega arith)
bit_not-null print ret p div_oper ds t h l = absurd (cc)
bit_not-null print ret p setup_const ds t h l = absurd (cc)

-- The set-up of an entry of the catalogues, with a type of the device for its result and for each of
-- its arguments: for the entries with the template of the operator `~` it follows a null pointer, and
-- for every other entry it ends with a function.
pub setup_func-catalogued :
    (print : ℕ → String) (ret : Devtype) (p : Procat) (i : ℕ) (ds : List Devtype)
    → get_elem? all_procats i ≡ some p
    → length ds ≡ p.func_nargs
    → (is_bit_not p ≡ true → setup_func print (some ret) (map some ds) p ≡ null_pointer)
      × (is_bit_not p ≡ false → IsSetUp (setup_func print (some ret) (map some ds) p))
unfolding setup_func
setup_func-catalogued print ret p i ds there enough =
    let regular = all_procs-get is_regular all_procats i p catalogs-regular there in
    (
      (λ is_not.
          let holds : ((p.func_nargs == 1) && is_plain p.func_callback) ≡ true =
            rw is_not at regular in
          let one = and-left (p.func_nargs == 1) (is_plain p.func_callback) holds in
          let plain = and-right (p.func_nargs == 1) (is_plain p.func_callback) holds in
          bit_not-null print ret p p.func_callback ds ((eq_iff _ _).0 is_not) plain
            (enough ∙ (==_iff _ _).0 one)),
      λ is_other.
          let (m, need, m_le) = covers-some p.func_nargs (needed p) (rw is_other at regular) in
          callback-IsSetUp print ret p ds p.func_callback m need (omega arith),
    )
