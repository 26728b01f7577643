-- ===== src/Tcache/Sort/Arranged.antt =====
-- Rearrangements of a part of the rows, counted by tests.
use pg_strom.Prelude.{
  ℕ, zero, suc, ◌+◌, ◌<◌, ◌≤◌, ◌≡◌, refl, Bool, false, ◌==◌, if◌then◌else◌, update, inl, inr,
  Bool-cases, arith, ◌∙◌,
}
use pg_strom.Tcache.{Row}
use pg_strom.Tcache.Sort.{swap_rows}

module _ {C : Type 0} where
  -- How many of the first `n` rows satisfy a test.
  abbrev pub count_rows : (Row C → Bool) → (ℕ → Row C) → ℕ → ℕ
  count_rows q rows zero = 0
  count_rows q rows (suc n) = count_rows q rows n + (if q (rows n) then 1 else 0)

  -- The rows outside [left, bound) are the same, and those inside are the same but for their order.
  abbrev pub Arranged : ℕ → ℕ → (ℕ → Row C) → (ℕ → Row C) → Type 0
  Arranged left bound rows rows' =
      ((j : ℕ) → j < left → rows' j ≡ rows j)
      × ((j : ℕ) → bound ≤ j → rows' j ≡ rows j)
      × ((q : Row C → Bool) (n : ℕ) → bound ≤ n → count_rows q rows' n ≡ count_rows q rows n)

  pub Arranged-trans :
      (left bound l b : ℕ) (rows rows' rows'' : ℕ → Row C)
      → left ≤ l
      → b ≤ bound
      → Arranged left bound rows rows'
      → Arranged l b rows' rows''
      → Arranged left bound rows rows''
  Arranged-trans left bound l b rows rows' rows'' le le' (below, above, counts)
        (below', above', counts') =
      (
        λ j h. below' j (omega arith) ∙ below j h,
        λ j h. above' j (omega arith) ∙ above j h,
        λ q n h. counts' q n (omega arith) ∙ counts q n h,
      )

  count_rows-update_above :
      (q : Row C → Bool) (rows : ℕ → Row C) (x : ℕ) (r : Row C) (n : ℕ)
      → n ≤ x
      → count_rows q (update rows x r) n ≡ count_rows q rows n
  count_rows-update_above q rows x r zero h = refl
  count_rows-update_above q rows x r (suc n) h =
      let other : (n == x) ≡ false = ground arith in
      rw (other, count_rows-update_above q rows x r n (omega arith)) refl

  count_rows-update :
      (q : Row C → Bool) (rows : ℕ → Row C) (x : ℕ) (r : Row C) (n : ℕ)
      → x < n
      → count_rows q (update rows x r) n + (if q (rows x) then 1 else 0)
        ≡ count_rows q rows n + (if q r then 1 else 0)
  count_rows-update q rows x r zero h = absurd (omega arith)
  count_rows-update q rows x r (suc n) h = elim (Bool-cases (n == x)) [
    | inl e ↦
        let same : n ≡ x = ground arith in
        rw (e, count_rows-update_above q rows x r n (omega arith), same) (omega arith)
    | inr e ↦ let rest = count_rows-update q rows x r n (ground arith) in rw e (omega (arith, rest))
  ]

  pub swap_rows-Arranged :
      (left bound x y : ℕ) (rows : ℕ → Row C)
      → left ≤ x
      → x < y
      → y < bound
      → Arranged left bound rows (swap_rows rows x y)
  unfolding swap_rows
  swap_rows-Arranged left bound x y rows le lt lt' = (
    λ j h. outside j (ground arith) (ground arith),
    λ j h. outside j (ground arith) (ground arith),
    λ q n h.
        let first = count_rows-update q rows x (rows y) n (omega arith) in
        let second = count_rows-update q (update rows x (rows y)) y (rows x) n (omega arith) in
        let apart : (y == x) ≡ false = ground arith in omega (arith, first, rw apart at second),
  )
    where
      outside :
          (j : ℕ)
          → (j == x) ≡ false
          → (j == y) ≡ false
          → update (update rows x (rows y)) y (rows x) j ≡ rows j
      outside j e e' = rw (e', e) refl
