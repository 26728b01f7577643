-- ===== src/Tcache/Head/Row.antt =====
-- Requests for the whole row.
use pg_strom.Prelude.{
  ℕ, zero, suc, ◌+◌, ◌-◌, ◌≡◌, ◌<◌, Bool, true, false, none, some, List, ◌==◌, ltb, length, arith,
  refl, ◌∙◌, inl, inr, Bool-cases, Option-cases, ◌||◌,
}
use pg_strom.Tcache.Head.{
  Bitmapsets, Documented, TupleDesc, add_columns, take_member, match_columns, serves,
}
use pg_strom.Tcache.Head.Rounds.{match_columns-some}

module _ (B : Bitmapsets) (law : Documented B) (low : ℕ) (d : TupleDesc) where
  or_true : (b : Bool) → (b || true) ≡ true
  or_true true = refl
  or_true false = refl

  add_columns-has :
      (x n k : ℕ) (s : B.Set)
      → B.is_member x s ≡ true
      → B.is_member x (add_columns B low d n k s) ≡ true
  add_columns-has x zero k s h = h
  add_columns-has x (suc n) k s h = elim (Bool-cases (d.attisdropped k)) [
    | inl t ↦ rw t (add_columns-has x n (suc k) s h)
    | inr f ↦ rw f (
        add_columns-has x n (suc k) (B.add_member s (k + low))
          (law.add_member_in s (k + low) x ∙ rw h (or_true (x == (k + low)))))
  ]

  -- The reference to the whole row is added again by the first column.
  add_columns_row :
      (n : ℕ) (s : B.Set)
      → 0 < n
      → d.attisdropped 0 ≡ false
      → B.is_member low (add_columns B low d n 0 s) ≡ true
  add_columns_row zero s h kept = absurd (omega arith)
  add_columns_row (suc n) s h kept =
      let first : (low == (0 + low)) ≡ true = ground arith in
      rw kept (
        add_columns-has low n 1 (B.add_member s (0 + low))
          (law.add_member_in s (0 + low) low ∙ rw first refl))

  take_member_row :
      (s s' : B.Set) (i : ℕ) (ks : List ℕ)
      → 0 < d.natts
      → d.attisdropped 0 ≡ false
      → B.is_member low s ≡ true
      → B.first_member s ≡ some (i, s')
      → ((take_member B low d i s' ks).1 ≡ ks)
        × (B.is_member low (take_member B low d i s' ks).0 ≡ true)
  take_member_row s s' i ks some_atts kept row e = elim (Bool-cases (ltb i low)) [
    | inl before ↦
        let other : (low == i) ≡ false = ground arith in
        rw before (refl, rw (law.first_member_rest s s' i e low, row, other) refl)
    | inr not_before ↦ elim (Bool-cases (i == low)) [
      | inl t ↦ rw (not_before, t) (refl, add_columns_row d.natts s' some_atts kept)
      | inr f ↦ absurd (let gone = law.first_member_least s s' i e low (ground arith) in cc)
    ]
  ]

  match_columns_endless :
      (fuel : ℕ) (s : B.Set) (ks : List ℕ)
      → 0 < d.natts
      → d.attisdropped 0 ≡ false
      → B.is_member low s ≡ true
      → match_columns B low d fuel (length ks) s ks ≡ none
  unfolding match_columns
  match_columns_endless zero s ks some_atts kept row = refl
  match_columns_endless (suc fuel) s ks some_atts kept row =
      elim (Option-cases (B.first_member s)) [
        | inl e ↦ absurd (let gone = law.first_member_none s e low in cc)
        | inr ((i, s'), e) ↦
            let (same, row') = take_member_row s s' i ks some_atts kept row e in
            let goes_on : ltb (length ks - length ks) d.natts ≡ true = ground arith in
            match_columns-some B low d fuel (length ks) s s' i ks e
            ∙ rw (goes_on, same)
                (match_columns_endless fuel (take_member B low d i s' ks).0 ks some_atts kept row')
      ]

  -- Where the relation has attributes and the first one is not dropped: the test of a request for the
  -- whole row does not end, whatever the cache holds and however many rounds are given.
  pub serves_row_endless :
      (fuel : ℕ) (required : B.Set) (i_cached : List ℕ)
      → 0 < d.natts
      → d.attisdropped 0 ≡ false
      → B.is_member low required ≡ true
      → serves B low d fuel required i_cached ≡ none
  unfolding serves
  serves_row_endless fuel required i_cached some_atts kept row =
      rw (serves, match_columns_endless fuel required i_cached some_atts kept row) refl
