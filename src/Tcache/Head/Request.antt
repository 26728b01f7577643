-- ===== src/Tcache/Head/Request.antt =====
-- Which requests a cache serves.
use pg_strom.Prelude.{
  ℕ, zero, suc, ◌+◌, ◌-◌, ◌≡◌, ◌≤◌, ◌<◌, Bool, true, false, not, ◌&&◌, none, some, List, [], ◌∷◌,
  ◌==◌, ltb, length, is_empty, arith, refl, ◌∙◌, sym, inl, inr, Bool-cases, Option-cases, and_true,
  ltb→lt, ◌≢◌, and-left, and-right,
}
use pg_strom.Tcache.Head.{
  Bitmapsets, Documented, TupleDesc, skip_cached, take_member, match_columns, serves,
}
use pg_strom.Tcache.Head.Rounds.{match_columns-none, match_columns-some}

-- Indices in ascending order, from `a` on.
abbrev pub AscendFrom : ℕ → List ℕ → Type 0
AscendFrom a [] = Unit {0}
AscendFrom a (k ∷ ks) = (a ≤ k) × AscendFrom (suc k) ks

pub AscendFrom-mono : (a b : ℕ) (ks : List ℕ) → b ≤ a → AscendFrom a ks → AscendFrom b ks
AscendFrom-mono a b [] h asc = tt
AscendFrom-mono a b (k ∷ ks) h (le, asc) = (omega arith, asc)

module _ (B : Bitmapsets) (law : Documented B) (low : ℕ) (d : TupleDesc) where
  -- Every cached column is required.
  abbrev pub all_required : B.Set → List ℕ → Bool
  all_required s [] = true
  all_required s (k ∷ ks) = B.is_member (suc k + low) s && all_required s ks

  -- The members of `s'` are those of `s` but `i`.
  all_required_rest :
      (s s' : B.Set) (i a : ℕ) (ks : List ℕ)
      → B.first_member s ≡ some (i, s')
      → i < suc a + low
      → AscendFrom a ks
      → all_required s ks ≡ all_required s' ks
  all_required_rest s s' i a [] e h asc = refl
  all_required_rest s s' i a (k ∷ ks) e h (le, asc) =
      let other : (suc k + low == i) ≡ false = ground arith in
      let same : B.is_member (suc k + low) s' ≡ B.is_member (suc k + low) s =
        rw (law.first_member_rest s s' i e (suc k + low), other)
          (and_true (B.is_member (suc k + low) s)) in
      rw (same, all_required_rest s s' i (suc k) ks e (omega arith) asc) refl

  -- A column ahead of those that remain is none of them.
  skip_cached_ahead :
      (i : ℕ) (ks : List ℕ)
      → ((k : ℕ) → d.attnum k ≡ suc k)
      → AscendFrom i ks
      → skip_cached B low d i ks ≡ ks
  skip_cached_ahead i [] numbered asc = refl
  skip_cached_ahead i (k ∷ ks) numbered (le, asc) =
      let other : (suc k == i) ≡ false = ground arith in rw (numbered k, other) refl

  -- A column that is not the next cached one changes nothing.
  all_required_other :
      (s s' : B.Set) (i a : ℕ) (ks : List ℕ)
      → (k : ℕ) → B.first_member s ≡ some (i, s')
      → i ≢ suc k + low
      → AscendFrom a (k ∷ ks)
      → all_required s (k ∷ ks) ≡ all_required s' (k ∷ ks)
  all_required_other s s' i a ks k e other (le, asc) = elim (Bool-cases (ltb (suc k + low) i)) [
    | inl before ↦
        let absent : B.is_member (suc k + low) s ≡ false =
          law.first_member_least s s' i e (suc k + low) (ltb→lt (suc k + low) i before) in
        rw (law.first_member_rest s s' i e (suc k + low), absent) refl
    | inr after ↦
        let behind : i < suc k + low = ground arith in
        all_required_rest s s' i k (k ∷ ks) e behind (omega arith, asc)
  ]

  -- A required column and the cached columns that remain behind it.
  abbrev Passes : ℕ → B.Set → B.Set → List ℕ → List ℕ → Type 0
  Passes a s s' ks ks' =
      (all_required s ks ≡ all_required s' ks') × AscendFrom a ks' × (length ks' ≤ length ks)

  skip_cached-Passes :
      (s s' : B.Set) (i a : ℕ) (ks : List ℕ)
      → ((k : ℕ) → d.attnum k ≡ suc k)
      → B.first_member s ≡ some (i, s')
      → low < i
      → AscendFrom a ks
      → Passes a s s' ks (skip_cached B low d (i - low) ks)
  skip_cached-Passes s s' i a [] numbered e h asc = (refl, tt, omega arith)
  skip_cached-Passes s s' i a (k ∷ ks) numbered e h (le, asc) =
      let first = law.first_member_in s s' i e in
      elim (Bool-cases (suc k == (i - low))) [
        | inl t ↦
            let here : i ≡ suc k + low = ground arith in
            let number : i - low ≡ suc k = omega (arith, here) in
            let ahead : skip_cached B low d (i - low) ks ≡ ks =
              rw number (skip_cached_ahead (suc k) ks numbered asc) in
            let taken : B.is_member (suc k + low) s ≡ true = rw (← here) first in
            rw (numbered k, t, ahead, taken)
              (
                all_required_rest s s' i (suc k) ks e (omega arith) asc,
                AscendFrom-mono (suc k) a ks (omega arith) asc,
                omega arith,
              )
        | inr f ↦
            rw (numbered k, f)
              (all_required_other s s' i a ks k e (ground arith) (le, asc), (le, asc), omega arith)
      ]

  -- All members are columns, and none is below `lo` or from `bound` on.
  abbrev pub Columns : ℕ → ℕ → B.Set → Type 0
  Columns lo bound s = (i : ℕ) → B.is_member i s ≡ true → (low < i) × (lo ≤ i) × (i < bound)

  Columns-rest :
      (lo bound : ℕ) (s s' : B.Set) (i : ℕ)
      → B.first_member s ≡ some (i, s')
      → Columns lo bound s
      → Columns (suc i) bound s'
  Columns-rest lo bound s s' i e cols k here =
      let rest = law.first_member_rest s s' i e k in
      let both : (B.is_member k s && not (k == i)) ≡ true = sym rest ∙ here in
      let was = and-left (B.is_member k s) (not (k == i)) both in
      let other = and-right (B.is_member k s) (not (k == i)) both in
      elim (Bool-cases (ltb k i)) [
        | inl before ↦
            absurd (let gone = law.first_member_least s s' i e k (ltb→lt k i before) in cc)
        | inr after ↦ ((cols k was).0, ground arith, (cols k was).2)
      ]

  take_member_column :
      (i : ℕ) (s : B.Set) (ks : List ℕ)
      → low < i
      → take_member B low d i s ks ≡ (s, skip_cached B low d (i - low) ks)
  take_member_column i s ks h =
      let not_system : ltb i low ≡ false = ground arith in
      let not_row : (i == low) ≡ false = ground arith in rw (not_system, not_row) refl

  none_required :
      (s : B.Set) (ks : List ℕ) → B.first_member s ≡ none → is_empty ks ≡ all_required s ks
  none_required s [] e = refl
  none_required s (k ∷ ks) e = rw (law.first_member_none s e (suc k + low)) refl

  none_left : (s : B.Set) (ks : List ℕ) → length ks ≡ 0 → is_empty ks ≡ all_required s ks
  none_left s [] e = refl
  none_left s (k ∷ ks) e = absurd (omega arith)

  match_columns-is_empty :
      (fuel lo bound ncols a : ℕ) (s : B.Set) (ks : List ℕ)
      → ((k : ℕ) → d.attnum k ≡ suc k)
      → AscendFrom a ks
      → length ks ≤ ncols
      → ncols ≤ d.natts
      → Columns lo bound s
      → lo ≤ bound
      → bound < fuel + lo
      → (remaining : List ℕ) × (match_columns B low d fuel ncols s ks ≡ some remaining)
        × (is_empty remaining ≡ all_required s ks)
  match_columns-is_empty zero lo bound ncols a s ks numbered asc few fits cols some_left h =
      absurd (omega arith)
  match_columns-is_empty (suc fuel) lo bound ncols a s ks numbered asc few fits cols some_left h =
      elim (Option-cases (B.first_member s)) [
        | inl e ↦ (ks, match_columns-none B low d fuel ncols s ks e, none_required s ks e)
        | inr ((i, s'), e) ↦
            let (column, from, below) = cols i (law.first_member_in s s' i e) in
            let (same, asc', short) = skip_cached-Passes s s' i a ks numbered e column asc in
            let round = match_columns-some B low d fuel ncols s s' i ks e in
            elim (Bool-cases (ltb (ncols - length ks) d.natts)) [
              | inl t ↦
                  let (remaining, ended, empty) =
                    match_columns-is_empty fuel (suc i) bound ncols a s'
                      (skip_cached B low d (i - low) ks) numbered asc' (omega (arith, short)) fits
                      (Columns-rest lo bound s s' i e cols) below (omega arith) in
                  (
                    remaining,
                    round ∙ rw (t, take_member_column i s' ks column) ended,
                    empty ∙ sym same,
                  )
              | inr f ↦ (ks, rw (round, f) refl, none_left s ks (ground arith))
            ]
      ]

  -- Where the attributes of the relation are numbered from 1 on, the indices of the cached columns
  -- ascend and are as many as the attributes at most, and only columns are required, each with a member
  -- below `bound`: with `bound` rounds and one more the test ends, and the cache serves the request if
  -- and only if one of its columns is not required.
  pub serves-all_required :
      (fuel bound : ℕ) (required : B.Set) (i_cached : List ℕ)
      → ((k : ℕ) → d.attnum k ≡ suc k)
      → AscendFrom 0 i_cached
      → length i_cached ≤ d.natts
      → Columns 0 bound required
      → bound < fuel
      → serves B low d fuel required i_cached ≡ some (not (all_required required i_cached))
  unfolding serves
  serves-all_required fuel bound required i_cached numbered asc few cols h =
      let (remaining, ended, empty) =
        match_columns-is_empty fuel 0 bound (length i_cached) 0 required i_cached numbered asc
          (omega arith) few cols (omega arith) (omega arith) in
      rw (serves, ended, empty) refl
