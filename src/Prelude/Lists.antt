-- ===== src/Prelude/Lists.antt =====
-- Lists of numbers as the linked lists of the program, measured by native numbers.
use Prim.Native.Nat.{ℕ, zero, suc, ◌+◌, ◌-◌, ◌<◌}
use mathlib.Core.Path.{◌≡◌, refl, ap}
use mathlib.Core.Logic.{inl, inr}
use mathlib.Core.Bool.{Bool, true, false, ◌||◌, ◌&&◌, not}
use mathlib.Core.Option.{Option, none, some}
use mathlib.Core.List.{List, [], ◌∷◌, ◌++◌}
use native.Mathlib.Omega.{arith}
use pg_strom.Prelude.Tests.{◌==◌, if◌then◌else◌, Bool-cases}

module _ {ℓ} {A : Type ℓ} where
  abbrev pub length : List A → ℕ
  length [] = 0
  length (x ∷ xs) = suc (length xs)

  abbrev pub get_elem? : List A → ℕ → Option A
  get_elem? [] i = none
  get_elem? (x ∷ xs) zero = some x
  get_elem? (x ∷ xs) (suc i) = get_elem? xs i

  pub length-append : (xs ys : List A) → length (xs ++ ys) ≡ length xs + length ys
  length-append [] ys = omega arith
  length-append (x ∷ xs) ys = omega (arith, length-append xs ys)

-- Membership as a test, which the tactics read.
abbrev pub has : ℕ → List ℕ → Bool
has a [] = false
has a (x ∷ xs) = (a == x) || has a xs

-- How often a number stands in a list.
abbrev pub count : ℕ → List ℕ → ℕ
count a [] = 0
count a (x ∷ xs) = (if a == x then 1 else 0) + count a xs

-- `dlist_delete`: the first occurrence goes.
abbrev pub erase : ℕ → List ℕ → List ℕ
erase a [] = []
erase a (x ∷ xs) = let rest = x ∷ erase a xs in if a == x then xs else rest

abbrev pub is_nodup : List ℕ → Bool
is_nodup [] = true
is_nodup (x ∷ xs) = not (has x xs) && is_nodup xs

pub has-append : (a : ℕ) (xs ys : List ℕ) → has a (xs ++ ys) ≡ (has a xs || has a ys)
has-append a [] ys = refl
has-append a (x ∷ xs) ys = ground (arith, has-append a xs ys)

pub count-append : (a : ℕ) (xs ys : List ℕ) → count a (xs ++ ys) ≡ count a xs + count a ys
count-append a [] ys = omega arith
count-append a (x ∷ xs) ys = ground (arith, count-append a xs ys)

pub count-erase :
    (b a : ℕ) (xs : List ℕ) → count b (erase a xs) ≡ count b xs - (if b == a then 1 else 0)
count-erase b a [] = ground arith
count-erase b a (x ∷ xs) = ground (arith, count-erase b a xs)

pub has-count : (a : ℕ) (xs : List ℕ) → has a xs ≡ (if count a xs == 0 then false else true)
has-count a [] = refl
has-count a (x ∷ xs) = ground (arith, has-count a xs)

pub length_pos_of_has : (a : ℕ) (xs : List ℕ) → has a xs ≡ true → 0 < length xs
length_pos_of_has a [] h = ground arith
length_pos_of_has a (x ∷ xs) h = omega arith

length-erase-has : (a : ℕ) (xs : List ℕ) → has a xs ≡ true → length xs ≡ suc (length (erase a xs))
length-erase-has a [] h = cc
length-erase-has a (x ∷ xs) h = elim (Bool-cases (a == x)) [
  | inl e ↦ rw e
  | inr e ↦ rw e (ap suc (length-erase-has a xs (rw e at h)))
]

length-erase_not : (a : ℕ) (xs : List ℕ) → has a xs ≡ false → length xs ≡ length (erase a xs)
length-erase_not a [] h = refl
length-erase_not a (x ∷ xs) h = elim (Bool-cases (a == x)) [
  | inl e ↦ absurd (ground arith)
  | inr e ↦ rw e (ap suc (length-erase_not a xs (rw e at h)))
]

pub length-erase :
    (a : ℕ) (xs : List ℕ) → length (erase a xs) ≡ length xs - (if has a xs then 1 else 0)
length-erase a xs = elim (Bool-cases (has a xs)) [
  | inl h ↦ rw h (omega (arith, length-erase-has a xs h))
  | inr h ↦ rw h (omega (arith, length-erase_not a xs h))
]
