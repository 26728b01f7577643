-- ===== src/Tcache/Insert/Range.antt =====
-- The range of blocks and the order of the rows when a row is added.
use pg_strom.Prelude.{
  ℕ, suc, ◌-◌, ◌<◌, ◌≤◌, ◌≡◌, refl, true, false, ◌==◌, if◌then◌else◌, ltb, update, inl, inr,
  Bool-cases, arith,
}
use pg_strom.Tcache.{ItemPointers, IsComparison, Row, ColumnStore}
use pg_strom.Tcache.Insert.{extend_store}

module _ (ip : ItemPointers) (rank : ip.Ctid → ℕ) (law : IsComparison ip rank) where
  -- The rows are within the range of blocks, and in order if they are said to be.
  abbrev pub IsKept : ColumnStore ip.Ctid → Type 0
  IsKept tcs =
      ((j : ℕ)
        → j < tcs.nrows
        → (tcs.blkno_min ≤ ip.block_number ((tcs.rows j).ctid))
          × (ip.block_number ((tcs.rows j).ctid) ≤ tcs.blkno_max))
      × (tcs.is_sorted ≡ true
          → (i j : ℕ) → i ≤ j
          → j < tcs.nrows
          → rank ((tcs.rows i).ctid) ≤ rank ((tcs.rows j).ctid))

  -- The row is put behind the others, which stay as they are.
  abbrev pub Extends : ColumnStore ip.Ctid → Row ip.Ctid → ColumnStore ip.Ctid → Type 0
  Extends tcs row tcs' =
      (tcs'.nrows ≡ suc tcs.nrows)
      × (tcs'.rows tcs.nrows ≡ row)
      × ((j : ℕ) → j < tcs.nrows → tcs'.rows j ≡ tcs.rows j)

  update-Extends :
      (row : Row ip.Ctid) (tcs : ColumnStore ip.Ctid)
      → (update tcs.rows tcs.nrows row tcs.nrows ≡ row)
        × ((j : ℕ) → j < tcs.nrows → update tcs.rows tcs.nrows row j ≡ tcs.rows j)
  update-Extends row tcs = (
    let here : (tcs.nrows == tcs.nrows) ≡ true = ground arith in rw here refl,
    λ j h. let other : (j == tcs.nrows) ≡ false = ground arith in rw other refl,
  )

  Extends-IsKept :
      (row : Row ip.Ctid) (tcs tcs' : ColumnStore ip.Ctid)
      → Extends tcs row tcs'
      → tcs'.blkno_min ≤ ip.block_number (row.ctid)
      → ip.block_number (row.ctid) ≤ tcs'.blkno_max
      → ((j : ℕ)
          → j < tcs.nrows
          → (tcs'.blkno_min ≤ ip.block_number ((tcs.rows j).ctid))
            × (ip.block_number ((tcs.rows j).ctid) ≤ tcs'.blkno_max))
      → (tcs'.is_sorted ≡ true
          → (i j : ℕ) → i ≤ j
          → j < tcs.nrows
          → rank ((tcs.rows i).ctid) ≤ rank ((tcs.rows j).ctid))
      → (tcs'.is_sorted ≡ true
          → (i : ℕ) → i < tcs.nrows
          → rank ((tcs.rows i).ctid) ≤ rank (row.ctid))
      → IsKept tcs'
  Extends-IsKept row tcs tcs' (count, at_end, before) low high within sorted last = (range, order)
    where
      range :
          (j : ℕ)
          → j < tcs'.nrows
          → (tcs'.blkno_min ≤ ip.block_number ((tcs'.rows j).ctid))
            × (ip.block_number ((tcs'.rows j).ctid) ≤ tcs'.blkno_max)
      range j h = elim (Bool-cases (j == tcs.nrows)) [
        | inl e ↦ let same : j ≡ tcs.nrows = ground arith in rw (same, at_end) (low, high)
        | inr e ↦
            let old : j < tcs.nrows = ground (arith, count) in rw (before j old) (within j old)
      ]

      order :
          tcs'.is_sorted ≡ true
          → (i j : ℕ) → i ≤ j
          → j < tcs'.nrows
          → rank ((tcs'.rows i).ctid) ≤ rank ((tcs'.rows j).ctid)
      order is_in_order i j le h = elim (Bool-cases (i == tcs.nrows)) [
        | inl e ↦
            let same : i ≡ tcs.nrows = ground arith in
            let same' : j ≡ tcs.nrows = omega (arith, same, count) in rw (same, same') (omega arith)
        | inr e ↦ elim (Bool-cases (j == tcs.nrows)) [
          | inl e' ↦
              let same' : j ≡ tcs.nrows = ground arith in
              let old : i < tcs.nrows = ground (arith, count) in
              rw (same', at_end, before i old) (last is_in_order i old)
          | inr e' ↦
              let old' : j < tcs.nrows = ground (arith, count) in
              rw (before i (omega (arith, old')), before j old') (sorted is_in_order i j le old')
        ]
      ]

  -- The row is put behind the others, which stay as they are, and the range of blocks and the sign
  -- that the rows are sorted stay right.
  pub extend_store-IsKept :
      (row : Row ip.Ctid) (tcs : ColumnStore ip.Ctid)
      → ((a b : ip.Ctid) → rank a ≤ rank b → ip.block_number a ≤ ip.block_number b)
      → IsKept tcs
      → Extends tcs row (extend_store ip row tcs) × IsKept (extend_store ip row tcs)
  unfolding extend_store
  extend_store-IsKept row tcs blocks (within, sorted) =
      let (at_end, before) = update-Extends row tcs in
      let blkno = ip.block_number (row.ctid) in
      let put = record tcs { rows = update tcs.rows tcs.nrows row; nrows = suc tcs.nrows } in
      let ext : Extends tcs row put = (refl, at_end, before) in
      elim (Bool-cases (tcs.nrows == 0)) [
        | inl e ↦ rw e (
          ext,
          Extends-IsKept row tcs
              (record put { blkno_min = blkno; blkno_max = blkno; is_sorted = true }) ext
              (omega arith) (omega arith) (λ j h. absurd (ground arith))
              (λ q i j le h. absurd (ground arith)) (λ q i h. absurd (ground arith)),
        )
        | inr filled ↦ elim (Bool-cases (tcs.is_sorted)) [
          | inr e ↦
              rw (filled, e)
                (
                  ext,
                  Extends-IsKept row tcs
                      (record put {
                        blkno_max = if ltb (tcs.blkno_max) blkno then blkno else tcs.blkno_max;
                        blkno_min = if ltb blkno (tcs.blkno_min) then blkno else tcs.blkno_min;
                        is_sorted = false;
                      })
                      ext (ground arith) (ground arith) (λ j h. wider j h)
                      (λ q. absurd (ground arith)) (λ q. absurd (ground arith)),
                )
          | inl e ↦
              let last = (tcs.rows (tcs.nrows - 1)).ctid in
              let top = within (tcs.nrows - 1) (ground arith) in
              let below : (i : ℕ) → i < tcs.nrows → rank ((tcs.rows i).ctid) ≤ rank last =
                λ i h. sorted e i (tcs.nrows - 1) (omega arith) (omega arith) in
              elim (Bool-cases (ltb (rank last) (rank (row.ctid)))) [
                | inl e' ↦
                    rw (filled, e, (law (row.ctid) last).1, e')
                      (
                        ext,
                        Extends-IsKept row tcs (record put { blkno_max = blkno; is_sorted = true })
                            ext (omega (arith, top, later (ground arith))) (omega arith)
                            (λ j h.
                              ((within j h).0, omega (arith, reach j (below j h) (ground arith))))
                            (λ q. sorted e) (λ q i h. ground (arith, below i h)),
                      )
                | inr e' ↦
                    rw (filled, e, (law (row.ctid) last).1, e')
                      (
                        ext,
                        Extends-IsKept row tcs
                            (record put {
                              is_sorted = false;
                              blkno_min =
                                  if ltb blkno (tcs.blkno_min) then blkno else tcs.blkno_min;
                            })
                            ext (ground arith)
                            (omega (arith, top, blocks (row.ctid) last (ground arith)))
                            (λ j h. ((wider j h).0, (within j h).1)) (λ q. absurd (ground arith))
                            (λ q. absurd (ground arith)),
                      )
              ]
        ]
      ]
    where
      later :
          rank ((tcs.rows (tcs.nrows - 1)).ctid) ≤ rank (row.ctid)
          → ip.block_number ((tcs.rows (tcs.nrows - 1)).ctid) ≤ ip.block_number (row.ctid)
      later le = blocks ((tcs.rows (tcs.nrows - 1)).ctid) (row.ctid) le

      reach :
          (j : ℕ)
          → rank ((tcs.rows j).ctid) ≤ rank ((tcs.rows (tcs.nrows - 1)).ctid)
          → rank ((tcs.rows (tcs.nrows - 1)).ctid) ≤ rank (row.ctid)
          → ip.block_number ((tcs.rows j).ctid) ≤ ip.block_number (row.ctid)
      reach j le le' = blocks ((tcs.rows j).ctid) (row.ctid) (omega arith)

      wider :
          (j : ℕ)
          → j < tcs.nrows
          → ((if ltb (ip.block_number (row.ctid)) (tcs.blkno_min)
                then ip.block_number (row.ctid)
                else tcs.blkno_min)
              ≤ ip.block_number ((tcs.rows j).ctid))
            × (ip.block_number ((tcs.rows j).ctid) ≤ (
                if ltb (tcs.blkno_max) (ip.block_number (row.ctid))
                then ip.block_number (row.ctid)
                else tcs.blkno_max))
      wider j h = let old = within j h in (ground (arith, old), ground (arith, old))
