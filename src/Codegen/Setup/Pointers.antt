-- ===== src/Codegen/Setup/Pointers.antt =====
-- The arguments that the set-up of a catalogue's entry follows, against those that the entry has.
use pg_strom.Prelude.{
  ℕ, suc, ◌≤◌, if◌then◌else◌, Option, none, some, List, [], ◌∷◌, map, length, ◌≡◌, Bool-cases, inl,
  inr, arith,
}
use Prim.Native.String.{String}
use text.Mathlib.Text.{starts_with}
use pg_strom.Codegen.{Devtype}
use pg_strom.Codegen.Catalog.Entry.{Procat, Callback, no_callback, div_oper, setup_const}
use pg_strom.Codegen.Setup.{
  Setup, set_up, negative, null_pointer, arg_list, prefixed, func_text, setup_template, setup_by,
  devfunc_setup_div_oper, devfunc_setup_const, devfunc_setup_cast, devfunc_setup_oper_both,
  devfunc_setup_oper_either, devfunc_setup_func,
}

-- The number of arguments that the set-up of a template follows; `none` where it has no known mark.
abbrev pub followed : String → Option ℕ
followed templ =
    if starts_with templ "c:"
    then some 1
    else if starts_with templ "b:"
    then some 2
    else if starts_with templ "l:"
    then some 1
    else if starts_with templ "r:"
    then some 1
    else if starts_with templ "f:"
    then some 0
    else if starts_with templ "F:"
    then some 0
    else none

abbrev pub needed_by : Procat → Callback → Option ℕ
needed_by p div_oper = some 2
needed_by p setup_const = some 0
needed_by p no_callback = followed p.func_template

abbrev pub needed : Procat → Option ℕ
needed p = needed_by p p.func_callback

-- The set-up ends with a function.
abbrev pub IsSetUp : Setup → Type 0
IsSetUp (set_up n d) = Unit {0}
IsSetUp negative = ⊥
IsSetUp null_pointer = ⊥

HasText : Option String → Type 0
HasText none = ⊥
HasText (some s) = Unit {0}

prefixed-HasText : (s : String) (o : Option String) → HasText o → HasText (prefixed s o)
unfolding HasText
prefixed-HasText s none h = h
prefixed-HasText s (some t) h = tt

arg_list-HasText :
    (print : ℕ → String) (ds : List Devtype) (index : ℕ) (first sep : String)
    → HasText (arg_list print (map some ds) index first sep)
unfolding HasText
arg_list-HasText print [] index first sep = tt
arg_list-HasText print (d ∷ ds) index first sep =
    prefixed-HasText _ _ (arg_list-HasText print ds (suc index) sep sep)

func_text-IsSetUp :
    (print : ℕ → String) (ret : Devtype) (args : List (Option Devtype)) (p : Procat)
    (o : Option String)
    → HasText o
    → IsSetUp (func_text print ret args p o)
unfolding HasText
func_text-IsSetUp print ret args p none h = h
func_text-IsSetUp print ret args p (some s) h = tt

module _ (print : ℕ → String) (ret : Devtype) (p : Procat) where
  setup_cast-IsSetUp :
      (ds : List Devtype) → 1 ≤ length ds → IsSetUp (devfunc_setup_cast (some ret) (map some ds) p)
  unfolding devfunc_setup_cast
  setup_cast-IsSetUp [] h = absurd (omega arith)
  setup_cast-IsSetUp (d ∷ ds) h = tt

  setup_either-IsSetUp :
      (ds : List Devtype)
      → 1 ≤ length ds
      → IsSetUp (devfunc_setup_oper_either (some ret) (map some ds) p)
  unfolding devfunc_setup_oper_either
  setup_either-IsSetUp [] h = absurd (omega arith)
  setup_either-IsSetUp (d ∷ ds) h = tt

  setup_both-IsSetUp :
      (ds : List Devtype)
      → 2 ≤ length ds
      → IsSetUp (devfunc_setup_oper_both (some ret) (map some ds) p)
  unfolding devfunc_setup_oper_both
  setup_both-IsSetUp [] h = absurd (omega arith)
  setup_both-IsSetUp (d ∷ []) h = absurd (omega arith)
  setup_both-IsSetUp (d ∷ e ∷ ds) h = tt

  setup_div-IsSetUp :
      (ds : List Devtype)
      → 2 ≤ length ds
      → IsSetUp (devfunc_setup_div_oper (some ret) (map some ds) p)
  unfolding devfunc_setup_div_oper
  setup_div-IsSetUp [] h = absurd (omega arith)
  setup_div-IsSetUp (d ∷ []) h = absurd (omega arith)
  setup_div-IsSetUp (d ∷ e ∷ ds) h = tt

  setup_func-IsSetUp :
      (ds : List Devtype) → IsSetUp (devfunc_setup_func print (some ret) (map some ds) p)
  unfolding devfunc_setup_func
  setup_func-IsSetUp ds =
      func_text-IsSetUp print ret (map some ds) p _ (arg_list-HasText print ds 1 "" ", ")

  template-IsSetUp :
      (ds : List Devtype) (n : ℕ)
      → followed p.func_template ≡ some n
      → n ≤ length ds
      → IsSetUp (setup_template print (some ret) (map some ds) p)
  unfolding setup_template
  template-IsSetUp ds n f h = elim (Bool-cases (starts_with p.func_template "c:")) [
    | inl c ↦ rw c (
        setup_cast-IsSetUp ds
          (let e : 1 ≡ n = let q : some 1 ≡ some n = rw c at f in cc in omega arith))
    | inr c ↦ elim (Bool-cases (starts_with p.func_template "b:")) [
      | inl b ↦
          rw (c, b)
            (setup_both-IsSetUp ds
              (let e : 2 ≡ n = let q : some 2 ≡ some n = rw (c, b) at f in cc in omega arith))
      | inr b ↦ elim (Bool-cases (starts_with p.func_template "l:")) [
        | inl l ↦
            rw (c, b, l)
              (setup_either-IsSetUp ds
                (let e : 1 ≡ n = let q : some 1 ≡ some n = rw (c, b, l) at f in cc in omega arith))
        | inr l ↦ elim (Bool-cases (starts_with p.func_template "r:")) [
          | inl r ↦
              rw (c, b, l, r)
                (setup_either-IsSetUp ds (
                  let e : 1 ≡ n = let q : some 1 ≡ some n = rw (c, b, l, r) at f in cc in
                  omega arith))
          | inr r ↦ elim (Bool-cases (starts_with p.func_template "f:")) [
            | inl g ↦ rw (c, b, l, r, g) (setup_func-IsSetUp ds)
            | inr g ↦ elim (Bool-cases (starts_with p.func_template "F:")) [
              | inl u ↦ rw (c, b, l, r, g, u) tt
              | inr u ↦ absurd (let q : none ≡ some n = rw (c, b, l, r, g, u) at f in cc)
            ]
          ]
        ]
      ]
    ]
  ]

  -- The set-up of an entry with arguments enough ends with a function.
  pub callback-IsSetUp :
      (ds : List Devtype) (c : Callback) (n : ℕ)
      → needed_by p c ≡ some n
      → n ≤ length ds
      → IsSetUp (setup_by print (some ret) (map some ds) p c)
  unfolding devfunc_setup_const
  callback-IsSetUp ds div_oper n e h = setup_div-IsSetUp ds (let q : 2 ≡ n = cc in omega arith)
  callback-IsSetUp ds setup_const n e h = tt
  callback-IsSetUp ds no_callback n e h = template-IsSetUp ds n e h
