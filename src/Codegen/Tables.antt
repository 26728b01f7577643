-- ===== src/Codegen/Tables.antt =====
-- The tables of parameters and columns of codegen.c, which only grow at their end.
use pg_strom.Prelude.{
  ℕ, suc, Bool, true, false, Option, none, some, List, [], ◌∷◌, ◌++◌, length, append_assoc,
  append-nil, ◌≡◌, refl, sym, ap, inl, inr, Bool-cases,
}
use pg_strom.Codegen.{Expr}
use pg_strom.Codegen.Walker.{next_index, find}
use pg_strom.Codegen.Reference.{all}

-- `ys` is `xs` with more behind it.
abbrev pub Extends : List Expr → List Expr → Type 0
Extends xs ys = (zs : List Expr) × ys ≡ xs ++ zs

pub Extends-refl : (xs : List Expr) → Extends xs xs
Extends-refl xs = ([], sym (append-nil xs))

pub Extends-trans : (xs ys zs : List Expr) → Extends xs ys → Extends ys zs → Extends xs zs
Extends-trans xs ys zs (us, p) (vs, q) = (us ++ vs, rw (q, p) (append_assoc xs us vs))

pub next_index-some :
    (o : Option ℕ) (i : ℕ) → next_index o ≡ some i → (j : ℕ) × (o ≡ some j) × (suc j ≡ i)
next_index-some none i h = absurd (cc)
next_index-some (some j) i h = (j, refl, cc)

next_index-none : (o : Option ℕ) → next_index o ≡ none → o ≡ none
next_index-none none h = refl
next_index-none (some j) h = absurd (cc)

pub find-append :
    (equal : Expr → Expr → Bool) (e : Expr) (xs ys : List Expr) (i : ℕ)
    → find equal e xs ≡ some i
    → find equal e (xs ++ ys) ≡ some i
find-append equal e [] ys i h = absurd (cc)
find-append equal e (x ∷ xs) ys i h = elim (Bool-cases (equal e x)) [
  | inl t ↦ rw t (rw t at h)
  | inr f ↦
      let (j, p, q) = next_index-some (find equal e xs) i (rw f at h) in
      rw (f, find-append equal e xs ys j p) (ap some q)
]

pub find-last :
    (equal : Expr → Expr → Bool) (e : Expr) (xs ys : List Expr)
    → equal e e ≡ true
    → find equal e xs ≡ none
    → find equal e (xs ++ (e ∷ ys)) ≡ some (length xs)
find-last equal e [] ys same h = rw same
find-last equal e (x ∷ xs) ys same h = elim (Bool-cases (equal e x)) [
  | inl t ↦ absurd (let h' : some 0 ≡ none = rw t at h in cc)
  | inr f ↦ rw (f, find-last equal e xs ys same (next_index-none _ (rw f at h)))
]

pub all-append :
    (f : Expr → Bool) (xs : List Expr) (x : Expr)
    → all f xs ≡ true
    → f x ≡ true
    → all f (xs ++ (x ∷ [])) ≡ true
all-append f [] x h hx = rw hx refl
all-append f (y ∷ xs) x h hx = elim (Bool-cases (f y)) [
  | inl t ↦ rw t (all-append f xs x (rw t at h) hx)
  | inr e ↦ absurd (let h' : false ≡ true = rw e at h in cc)
]
