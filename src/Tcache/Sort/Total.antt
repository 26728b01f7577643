-- ===== src/Tcache/Sort/Total.antt =====
-- The sort ends within its bounds, and its result has the same rows.
use pg_strom.Prelude.{
  ℕ, zero, suc, ◌+◌, ◌-◌, ◌/◌, ◌<◌, ◌≤◌, ◌≡◌, refl, true, false, ◌==◌, ◌&&◌, ltb, inl, inr,
  Bool-cases, arith,
}
use pg_strom.Prelude.Run.{done, check, ◌>>◌, Returns, Returns-bind, Returns-mono}
use pg_strom.Tcache.{ItemPointers, IsComparison, Row, ColumnStore}
use pg_strom.Tcache.Sort.{
  num_rows_per_colstore, swap_rows, scan_up, scan_down, fits_temp, partition, sort_tcnode_internal,
  sort_tcnode,
}
use pg_strom.Tcache.Sort.Arranged.{Arranged, Arranged-trans, swap_rows-Arranged}
use pg_strom.Tcache.Sort.Scan.{scan_up-stops, scan_down-stops}

module _ (ip : ItemPointers) (rank : ip.Ctid → ℕ) (law : IsComparison ip rank) where
  -- A row at `u` or behind the left index stops the scan up, one at `d` or before the right index
  -- stops the scan down.
  abbrev Stopped : (ℕ → Row ip.Ctid) → ℕ → ℕ → ℕ → ℕ → ℕ → Type 0
  Stopped rows pivot bound left u d =
      (u < bound)
      × (left ≤ d)
      × (rank ((rows pivot).ctid) ≤ rank ((rows u).ctid))
      × (rank ((rows d).ctid) ≤ rank ((rows pivot).ctid))

  -- The pivot's row, moved or not, lies between the two rows that were swapped.
  swap-stops :
      (rows : ℕ → Row ip.Ctid) (pivot x y : ℕ)
      → x < y
      → rank ((rows pivot).ctid) ≤ rank ((rows x).ctid)
      → rank ((rows y).ctid) ≤ rank ((rows pivot).ctid)
      → (rank ((swap_rows rows x y pivot).ctid) ≤ rank ((swap_rows rows x y y).ctid))
        × (rank ((swap_rows rows x y x).ctid) ≤ rank ((swap_rows rows x y pivot).ctid))
  unfolding swap_rows
  swap-stops rows pivot x y lt high low =
      let at_y : (y == y) ≡ true = ground arith in
      let at_x : (x == x) ≡ true = ground arith in
      let apart : (x == y) ≡ false = ground arith in
      elim (Bool-cases (pivot == y)) [
        | inl e ↦ rw (e, at_y, apart, at_x) (omega arith, omega arith)
        | inr e ↦ elim (Bool-cases (pivot == x)) [
          | inl e' ↦ rw (e, e', at_y, apart, at_x) (omega arith, omega arith)
          | inr e' ↦ rw (e, e', at_y, apart, at_x) (high, low)
        ]
      ]

  -- Every value fits the temporary of `memswap`.
  abbrev pub AllFit : (ℕ → Row ip.Ctid) → Type 0
  AllFit rows = (j : ℕ) → fits_temp ((rows j).columns) ≡ true

  swap_rows-AllFit : (rows : ℕ → Row ip.Ctid) (x y : ℕ) → AllFit rows → AllFit (swap_rows rows x y)
  unfolding swap_rows
  swap_rows-AllFit rows x y fit j = elim (Bool-cases (j == y)) [
    | inl e ↦ rw e (fit x)
    | inr e ↦ elim (Bool-cases (j == x)) [
      | inl e' ↦ rw (e, e') (fit y)
      | inr e' ↦ rw (e, e') (fit j)
    ]
  ]

  abbrev Parted : ℕ → ℕ → (ℕ → Row ip.Ctid) → (ℕ → Row ip.Ctid) × ℕ × ℕ → Type 0
  Parted left bound rows (rows', li, ri) =
      Arranged left bound rows rows' × (li < bound) × (left ≤ ri) × AllFit rows'

  partition-Parted :
      (fuel : ℕ) (rows : ℕ → Row ip.Ctid) (pivot li ri left bound u d : ℕ)
      → bound ≤ num_rows_per_colstore
      → ri - li < fuel
      → left ≤ li
      → li ≤ u
      → d ≤ ri
      → ri < bound
      → Stopped rows pivot bound left u d
      → AllFit rows
      → Returns (Parted left bound rows) (partition ip fuel rows pivot li ri)
  unfolding partition
  partition-Parted zero rows pivot li ri left bound u d cap enough l1 l2 l3 l4 stop fit =
      absurd (omega arith)
  partition-Parted (suc fuel) rows pivot li ri left bound u d cap enough l1 l2 l3 l4
        (s1, s2, s3, s4) fit =
      elim (Bool-cases (ltb li ri)) [
        | inr e ↦
            rw e (((λ j h. refl), (λ j h. refl), (λ q n h. refl)), omega arith, omega arith, fit)
        | inl e ↦ rw e (
            Returns-bind (scan_up ip num_rows_per_colstore rows pivot li) _ _
              (scan_up-stops ip rank law num_rows_per_colstore rows pivot li u l2 (omega arith)
                (omega arith) s3)
              (λ li' (a1, a2, a3).
                Returns-bind (scan_down ip num_rows_per_colstore rows pivot ri) _ _
                  (scan_down-stops ip rank law num_rows_per_colstore rows pivot ri d l3
                    (omega arith) s4)
                  (λ ri' (b1, b2, b3). go li' ri' a1 a2 a3 b1 b2 b3 (λ rows' u' d'.
                    partition-Parted fuel rows' pivot (suc li') (ri' - 1) left bound u' d' cap))))
      ]
    where
      go :
          (li' ri' : ℕ)
          → li ≤ li'
          → li' ≤ u
          → rank ((rows pivot).ctid) ≤ rank ((rows li').ctid)
          → d ≤ ri'
          → ri' ≤ ri
          → rank ((rows ri').ctid) ≤ rank ((rows pivot).ctid)
          → ((rows' : ℕ → Row ip.Ctid) (u' d' : ℕ)
              → (ri' - 1) - suc li' < fuel
              → left ≤ suc li'
              → suc li' ≤ u'
              → d' ≤ ri' - 1
              → ri' - 1 < bound
              → Stopped rows' pivot bound left u' d'
              → AllFit rows'
              → Returns
                  (Parted left bound rows')
                  (partition ip fuel rows' pivot (suc li') (ri' - 1)))
          → Returns (Parted left bound rows) (elim (ltb li' ri') [
            | true ↦
                check (fits_temp ((rows li').columns) && fits_temp ((rows ri').columns))
                >> partition ip fuel (swap_rows rows li' ri') pivot (suc li') (ri' - 1)
            | false ↦ done (rows, li', ri')
          ])
      go li' ri' a1 a2 a3 b1 b2 b3 again = elim (Bool-cases (ltb li' ri')) [
        | inr e ↦
            rw e (((λ j h. refl), (λ j h. refl), (λ q n h. refl)), omega arith, omega arith, fit)
        | inl e ↦
            let swapped = swap_rows rows li' ri' in
            let stops = swap-stops rows pivot li' ri' (ground arith) a3 b3 in
            rw (e, fit li', fit ri')
              (Returns-mono (partition ip fuel swapped pivot (suc li') (ri' - 1))
                (again swapped ri' li' (ground arith) (omega arith) (ground arith) (ground arith)
                  (omega arith) (omega arith, omega arith, stops.0, stops.1)
                  (swap_rows-AllFit rows li' ri' fit))
                (λ (rows', a, b) (same, c, c', fit'). (
                  Arranged-trans left bound left bound rows swapped rows' (omega arith)
                      (omega arith)
                      (swap_rows-Arranged left bound li' ri' rows (omega arith) (ground arith)
                        (omega arith))
                      same,
                  c,
                  c',
                  fit',
                )))
      ]

  sort_tcnode_internal-Arranged :
      (fuel : ℕ) (rows : ℕ → Row ip.Ctid) (left bound : ℕ)
      → bound ≤ num_rows_per_colstore
      → bound - left < fuel
      → AllFit rows
      → Returns
          (λ sorted. Arranged left bound rows sorted × AllFit sorted)
          (sort_tcnode_internal ip fuel rows left bound)
  unfolding sort_tcnode_internal
  sort_tcnode_internal-Arranged zero rows left bound cap enough fit = absurd (omega arith)
  sort_tcnode_internal-Arranged (suc fuel) rows left bound cap enough fit =
      elim (Bool-cases (ltb (suc left) bound)) [
        | inr e ↦ rw e (((λ j h. refl), (λ j h. refl), (λ q n h. refl)), fit)
        | inl e ↦
            let p = (left + (bound - 1)) / 2 in
            rw e (
              Returns-bind (partition ip num_rows_per_colstore rows p left (bound - 1)) _ _
                (partition-Parted num_rows_per_colstore rows p left (bound - 1) left bound p p cap
                  (ground arith) (omega arith) (ground arith) (ground arith) (ground arith)
                  (ground arith, ground arith, omega arith, omega arith) fit)
                (λ (rows', li, ri) (same, small, large, fit').
                  Returns-bind (sort_tcnode_internal ip fuel rows' left li) _ _
                    (sort_tcnode_internal-Arranged fuel rows' left li (omega arith) (ground arith)
                      fit')
                    (λ rows'' (same', fit'').
                      Returns-mono (sort_tcnode_internal ip fuel rows'' (suc ri) bound)
                        (sort_tcnode_internal-Arranged fuel rows'' (suc ri) bound cap (ground arith)
                          fit'')
                        (λ sorted (same'', fit3). (
                          Arranged-trans left bound (suc ri) bound rows rows'' sorted (omega arith)
                              (omega arith)
                              (Arranged-trans left bound left li rows rows' rows'' (omega arith)
                                (omega arith) same same')
                              same'',
                          fit3,
                        )))))
      ]

  -- Where item pointers are compared by `rank`, the rows fit a column store and every value has fewer
  -- than 32 bytes, the sort ends, within
  -- the rounds given, without a read outside the arrays and without a failed assertion; its column store is marked as sorted, has
  -- the same counters, as many rows of every kind as before, and the same entries behind its rows.
  pub sort_tcnode-Arranged :
      (tcs : ColumnStore ip.Ctid)
      → tcs.nrows ≤ num_rows_per_colstore
      → AllFit tcs.rows
      → Returns
          (λ sorted.
            (sorted ≡ record tcs { rows = sorted.rows; is_sorted = true })
            × Arranged 0 tcs.nrows tcs.rows sorted.rows)
          (sort_tcnode ip tcs)
  unfolding sort_tcnode
  sort_tcnode-Arranged tcs fits fit =
      Returns-bind (sort_tcnode_internal ip (suc num_rows_per_colstore) tcs.rows 0 tcs.nrows) _ _
        (sort_tcnode_internal-Arranged (suc num_rows_per_colstore) tcs.rows 0 tcs.nrows fits
          (omega arith) fit)
        (λ rows (same, fit'). (refl, same))
