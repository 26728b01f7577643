-- ===== src/Tcache/Compaction/Kept.antt =====
-- The rows that a compaction keeps, their order and the range of their blocks.
use pg_strom.Prelude.{
  ℕ, zero, suc, ◌+◌, ◌<◌, ◌≤◌, ◌≡◌, refl, List, [], ◌∷◌, ◌++◌, if◌then◌else◌, ltb, arith, ap, ◌∙◌,
}
use pg_strom.Tcache.{ItemPointers, Row, ColumnStore}

module _ {C : Type 0} where
  -- The `n` rows from index `i` on.
  abbrev pub rows_from : (ℕ → Row C) → ℕ → ℕ → List (Row C)
  rows_from rows i zero = []
  rows_from rows i (suc n) = rows i ∷ rows_from rows (suc i) n

  unfoldable pub rows_of : ColumnStore C → List (Row C)
  rows_of tcs = rows_from tcs.rows 0 tcs.nrows

  -- The rows whose raw xmax is a normal transaction id.
  abbrev pub kept_rows : ℕ → List (Row C) → List (Row C)
  kept_rows first_normal_xid [] = []
  kept_rows first_normal_xid (r ∷ l) =
      let rest = kept_rows first_normal_xid l in
      if ltb (r.raw_xmax) first_normal_xid then rest else r ∷ rest

  abbrev pub AllRows : (Row C → Type 0) → List (Row C) → Type 0
  AllRows P [] = Unit {0}
  AllRows P (r ∷ l) = P r × AllRows P l

  pub rows_from-append :
      (rows : ℕ → Row C) (i n m : ℕ)
      → rows_from rows i (n + m) ≡ rows_from rows i n ++ rows_from rows (i + n) m
  rows_from-append rows i zero m =
      let start : i ≡ i + 0 = omega arith in
      let count : 0 + m ≡ m = omega arith in rw count (ap (λ k. rows_from rows k m) start)
  rows_from-append rows i (suc n) m =
      let start : suc i + n ≡ i + suc n = omega arith in
      let count : suc n + m ≡ suc (n + m) = omega arith in
      rw count (
        ap (λ l. rows i ∷ l)
          (rows_from-append rows (suc i) n m
            ∙ ap (λ k. rows_from rows (suc i) n ++ rows_from rows k m) start))

  pub rows_from-shift :
      (f g : ℕ → Row C) (i k n : ℕ)
      → ((j : ℕ) → j < n → f (i + j) ≡ g (k + j))
      → rows_from f i n ≡ rows_from g k n
  rows_from-shift f g i k zero same = refl
  rows_from-shift f g i k (suc n) same =
      let first : f i ≡ g k = ap f (omega arith) ∙ same 0 (omega arith) ∙ ap g (omega arith) in
      rw first (
        ap (λ l. g k ∷ l)
          (rows_from-shift f g (suc i) (suc k) n
            (λ j h. ap f (omega arith) ∙ same (suc j) (omega arith) ∙ ap g (omega arith))))

  pub rows_from-cong :
      (f g : ℕ → Row C) (i n : ℕ)
      → ((j : ℕ) → i ≤ j → j < i + n → f j ≡ g j)
      → rows_from f i n ≡ rows_from g i n
  rows_from-cong f g i zero same = refl
  rows_from-cong f g i (suc n) same =
      rw
        (
          same i (omega arith) (omega arith),
          rows_from-cong f g (suc i) n (λ j h h'. same j (omega arith) (omega arith)),
        )
        refl

module _ (ip : ItemPointers) where
  -- The rows of a column store are in its range of blocks.
  abbrev pub InRange : ColumnStore ip.Ctid → Type 0
  InRange tcs =
      AllRows
        (λ r.
          (ip.block_number (r.ctid) ≤ tcs.blkno_max) × (tcs.blkno_min ≤ ip.block_number (r.ctid)))
        (rows_of tcs)

  no_rows : (tcs : ColumnStore ip.Ctid) → tcs.nrows ≡ 0 → rows_of tcs ≡ []
  unfolding rows_of
  no_rows tcs e = ap (λ n. rows_from tcs.rows 0 n) e
