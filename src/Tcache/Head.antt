-- ===== src/Tcache/Head.antt =====
-- The columns of a cache: those that `tcache_create_tchead` gives to a new one, and the test of
-- `tcache_get_tchead` whether a cache serves a request. The sets of attributes are those of
-- PostgreSQL, which hold the number of an attribute less `FirstLowInvalidHeapAttributeNumber`: system
-- attributes come first, then the reference to the whole row, then the columns.
pub mod Rounds
pub mod Request
pub mod Row
pub mod Made
use pg_strom.Prelude.{
  ℕ, zero, suc, ◌+◌, ◌-◌, ◌≡◌, ◌↔◌, ◌⊎◌, ◌<◌, Bool, true, false, not, ◌&&◌, ◌||◌, Option, none,
  some, List, [], ◌∷◌, if◌then◌else◌, ◌==◌, ltb, length, is_empty,
}

-- What the code uses of `Bitmapset`; `first_member` gives the member that it takes out with the rest.
pub record Bitmapsets : Type 1 where
  pub Set : Type 0
  pub first_member : Set → Option (ℕ × Set)
  pub add_member : Set → ℕ → Set
  pub is_member : ℕ → Set → Bool

-- What is documented of them: the first member is the least one.
pub record Documented (B : Bitmapsets) : Type 0 where
  pub first_member_none : (s : B.Set) → B.first_member s ≡ none → (i : ℕ) → B.is_member i s ≡ false
  pub first_member_in :
      (s s' : B.Set) (i : ℕ) → B.first_member s ≡ some (i, s') → B.is_member i s ≡ true
  pub first_member_least :
      (s s' : B.Set) (i : ℕ)
      → B.first_member s ≡ some (i, s')
      → (k : ℕ) → k < i
      → B.is_member k s ≡ false
  pub first_member_rest :
      (s s' : B.Set) (i : ℕ)
      → B.first_member s ≡ some (i, s')
      → (k : ℕ) → B.is_member k s' ≡ (B.is_member k s && not (k == i))
  pub add_member_in :
      (s : B.Set) (i k : ℕ) → B.is_member k (B.add_member s i) ≡ (k == i || B.is_member k s)

-- `TupleDesc`: the attributes of a relation, by index.
pub record TupleDesc : Type 0 where
  pub natts : ℕ
  pub attnum : ℕ → ℕ
  pub attisdropped : ℕ → Bool

-- `low` is `FirstLowInvalidHeapAttributeNumber`, without its sign.
module _ (B : Bitmapsets) (low : ℕ) (d : TupleDesc) where
  -- The columns of a new cache: the required ones and those of the old cache. `ncols` is their number,
  -- as `Assert(tc_head->ncols == j)` has it.
  abbrev pub old_columns : List ℕ → B.Set → B.Set
  old_columns [] s = s
  old_columns (i ∷ is) s = old_columns is (B.add_member s (i + 1 + low))

  -- The loop over `n` attributes from the one at `i`.
  abbrev pub cached_from : ℕ → ℕ → B.Set → List ℕ
  cached_from zero i s = []
  cached_from (suc n) i s =
      let rest = cached_from n (suc i) s in
      if B.is_member (d.attnum i + low) s then i ∷ rest else rest

  abbrev pub cached_columns : B.Set → List ℕ → List ℕ
  cached_columns required i_cached = cached_from d.natts 0 (old_columns i_cached required)

  -- The loop over `n` attributes from the one at `k`, for a reference to the whole row.
  abbrev pub add_columns : ℕ → ℕ → B.Set → B.Set
  add_columns zero k s = s
  add_columns (suc n) k s =
      add_columns n (suc k) (if d.attisdropped k then s else B.add_member s (k + low))

  -- The loop over the cached columns from `j` on, as long as they are the required one.
  abbrev pub skip_cached : ℕ → List ℕ → List ℕ
  skip_cached i [] = []
  skip_cached i (k ∷ ks) = let rest = skip_cached i ks in if d.attnum k == i then rest else k ∷ ks

  -- What becomes of the set and of the cached columns from `j` on by the member `i`.
  abbrev pub take_member : ℕ → B.Set → List ℕ → B.Set × List ℕ
  take_member i s cached =
      if ltb i low
      then (s, cached)
      else if i == low
      then (add_columns d.natts 0 s, cached)
      else (s, skip_cached (i - low) cached)

  -- The loop over the required attributes, on `ncols` cached columns of which those from `j` on are
  -- given: those that remain at its end.
  unfoldable pub match_columns : ℕ → ℕ → B.Set → List ℕ → Option (List ℕ)
  match_columns zero ncols s cached = none
  match_columns (suc fuel) ncols s cached = elim (B.first_member s) [
    | none ↦ some cached
    | some (i, s') ↦
        let next = take_member i s' cached in
        let rest = match_columns fuel ncols next.0 next.1 in
        if ltb (ncols - length cached) d.natts then rest else some cached
  ]

  -- Whether the cache serves the request, `j < temp->ncols`.
  unfoldable pub serves : ℕ → B.Set → List ℕ → Option Bool
  unfolding match_columns
  serves fuel required i_cached = elim (match_columns fuel (length i_cached) required i_cached) [
    | none ↦ none
    | some remaining ↦ some (not (is_empty remaining))
  ]
