-- ===== src/Tests/Requests.antt =====
-- Witnesses and tests of the columns that a cache serves.
use pg_strom.Prelude.{
  ℕ, suc, ◌≡◌, ◌≤◌, ◌<◌, true, false, not, ◌&&◌, Option, none, some, List, [], ◌∷◌, ◌==◌, has, min,
  if◌then◌else◌, refl, arith, subst,
}
use pg_strom.Tcache.Head.{Bitmapsets, Documented, TupleDesc, serves}
use pg_strom.Tcache.Head.Row.{serves_row_endless}
use pg_strom.Tcache.Head.Request.{serves-all_required, Columns, all_required}

abbrev least_of : ℕ → List ℕ → ℕ
least_of x [] = x
least_of x (y ∷ ys) = least_of (min x y) ys

abbrev without : ℕ → List ℕ → List ℕ
without i [] = []
without i (x ∷ xs) = let rest = without i xs in if x == i then rest else x ∷ rest

abbrev take_least : List ℕ → Option (ℕ × List ℕ)
take_least [] = none
take_least (x ∷ xs) = some (least_of x xs, without (least_of x xs) (x ∷ xs))

abbrev list_sets : Bitmapsets
list_sets = record {
  Set = List ℕ;
  first_member = take_least;
  add_member = λ s i. i ∷ s;
  is_member = has;
}

has-without : (k i : ℕ) (s : List ℕ) → has k (without i s) ≡ (has k s && not (k == i))
has-without k i [] = refl
has-without k i (x ∷ xs) = ground (arith, has-without k i xs)

least_of-has : (x : ℕ) (ys : List ℕ) → has (least_of x ys) (x ∷ ys) ≡ true
least_of-has x [] = ground arith
least_of-has x (y ∷ ys) = ground (arith, least_of-has (min x y) ys)

least_of-le : (x : ℕ) (ys : List ℕ) → least_of x ys ≤ x
least_of-le x [] = omega arith
least_of-le x (y ∷ ys) = ground (arith, least_of-le (min x y) ys)

least_of_least : (k x : ℕ) (ys : List ℕ) → k < least_of x ys → has k (x ∷ ys) ≡ false
least_of_least k x [] h = ground arith
least_of_least k x (y ∷ ys) h =
    ground (arith, least_of_least k (min x y) ys h, least_of-le (min x y) ys)

take_least-none : (s : List ℕ) → take_least s ≡ none → (i : ℕ) → has i s ≡ false
take_least-none [] e i = refl
take_least-none (x ∷ xs) e i = absurd (cc)

-- What is documented of the first member and the rest.
abbrev Taken : List ℕ → ℕ × List ℕ → Type 0
Taken s r =
    (has r.0 s ≡ true)
    × ((k : ℕ) → k < r.0 → has k s ≡ false)
    × ((k : ℕ) → has k r.1 ≡ (has k s && not (k == r.0)))

take_least-some : (s : List ℕ) (r : ℕ × List ℕ) → take_least s ≡ some r → Taken s r
take_least-some [] r e = absurd (cc)
take_least-some (x ∷ xs) r e =
    let taken : (least_of x xs, without (least_of x xs) (x ∷ xs)) ≡ r = cc in
    subst (Taken (x ∷ xs)) taken (
      least_of-has x xs,
      λ k h. least_of_least k x xs h,
      λ k. has-without k (least_of x xs) (x ∷ xs),
    )

list_sets-Documented : Documented list_sets
list_sets-Documented = record {
  first_member_none = take_least-none;
  first_member_in = λ s s' i e. (take_least-some s (i, s') e).0;
  first_member_least = λ s s' i e. (take_least-some s (i, s') e).1;
  first_member_rest = λ s s' i e. (take_least-some s (i, s') e).2;
  add_member_in = λ s i k. refl;
}

-- Three columns, of which the second one is dropped.
abbrev three_columns : TupleDesc
three_columns = record { natts = 3; attnum = suc; attisdropped = λ k. k == 1 }

-- The numbers of the first and the third column, where system attributes have those below 8.
abbrev first_and_third : List ℕ
first_and_third = 9 ∷ 11 ∷ []

first_and_third-Columns :
    Columns list_sets list_sets-Documented 8 three_columns 0 12 first_and_third
first_and_third-Columns i h = ground arith

refused_if_cached : serves list_sets 8 three_columns 13 first_and_third (0 ∷ 2 ∷ []) ≡ some false
unfolding serves
refused_if_cached = refl

served_if_missing : serves list_sets 8 three_columns 13 first_and_third (1 ∷ []) ≡ some true
unfolding serves
served_if_missing = refl

serves-all_required_example :
    serves list_sets 8 three_columns 13 first_and_third (0 ∷ 1 ∷ [])
    ≡ some (
        not (
          all_required list_sets list_sets-Documented 8 three_columns first_and_third (0 ∷ 1 ∷ [])))
serves-all_required_example =
    serves-all_required list_sets list_sets-Documented 8 three_columns 13 12 first_and_third
      (0 ∷ 1 ∷ []) (λ k. refl) (omega arith, (omega arith, tt)) (omega arith)
      first_and_third-Columns (omega arith)

serves_row_endless_example : serves list_sets 8 three_columns 1000 (8 ∷ []) (0 ∷ []) ≡ none
serves_row_endless_example =
    serves_row_endless list_sets list_sets-Documented 8 three_columns 1000 (8 ∷ []) (0 ∷ [])
      (omega arith) refl refl
