-- ===== src/Tcache/Record.antt =====
-- `tcache_find_next_record`: the row of a column store with the least item pointer that is not less
-- than the given one, by binary search where the rows are sorted and by a scan where they are not.
-- The binary search runs on fuel: as many rounds as there are rows, and one more to leave the loop.
pub mod Index
pub mod Least
use pg_strom.Prelude.{
  ℕ, zero, suc, ◌+◌, ◌/◌, Bool, true, false, not, ◌&&◌, ◌==◌, if◌then◌else◌, ltb,
}
use pg_strom.Prelude.Int.{ℤ, pos, negsuc, lt_int}
use pg_strom.Prelude.Run.{Run, done, fault, check, ◌>>=◌, ◌>>◌}
use pg_strom.Tcache.{ItemPointers, Row, ColumnStore}

-- The rounds of the binary search, over the test that a row is not before the item pointer.
unfoldable pub narrow : (ℕ → Bool) → ℕ → ℕ → ℕ → Run (ℕ × ℕ)
narrow reached zero i_min i_max = fault
narrow reached (suc fuel) i_min i_max =
    let i_mid = (i_min + i_max) / 2 in
    let i_min' = if reached i_mid then i_min else suc i_mid in
    let i_max' = if reached i_mid then i_mid else i_max in
    let rest = narrow reached fuel i_min' i_max' in
    if ltb i_min i_max then rest else done (i_min, i_max)

module _ (ip : ItemPointers) where
  -- `ItemPointerCompare(a, b) >= 0`.
  abbrev pub is_not_before : ip.Ctid → ip.Ctid → Bool
  is_not_before a b = not (lt_int (ip.item_pointer_compare a b) (pos 0))

  -- The scan, from the row `i` on, with `ip_cur` and `index` so far; the first argument counts the
  -- rows that are left.
  unfoldable pub scan_least : ℕ → (ℕ → Row ip.Ctid) → ip.Ctid → ℕ → ip.Ctid → ℤ → ℤ
  scan_least zero rows ctid i ip_cur index = index
  scan_least (suc left) rows ctid i ip_cur index =
      let better =
        is_not_before ((rows i).ctid) ctid
        && lt_int (ip.item_pointer_compare ((rows i).ctid) ip_cur) (pos 0) in
      scan_least left rows ctid (suc i) (if better then (rows i).ctid else ip_cur)
        (if better then pos i else index)

  unfoldable pub find_next_record : ColumnStore ip.Ctid → ip.Ctid → Run ℤ
  find_next_record tcs ctid =
      let blkno_cur = ip.block_number ctid in
      if tcs.nrows == 0
      then done (negsuc 0)
      else if ltb (tcs.blkno_max) blkno_cur
      then done (negsuc 0)
      else if tcs.is_sorted
      then (narrow (λ i. is_not_before ((tcs.rows i).ctid) ctid) (suc tcs.nrows) 0 tcs.nrows
          >>= λ (i_min, i_max).
              check (i_min == i_max) >> done (if ltb i_min tcs.nrows then pos i_min else negsuc 0))
      else done (scan_least tcs.nrows tcs.rows ctid 0 ip.max_pointer (negsuc 0))
