-- ===== src/Tcache/Compaction.antt =====
-- `tcache_compaction_tcnode`: the rows of a column store that nobody will see again are dropped, in a
-- fresh column store, which replaces the old one. `fresh` is what `tcache_create_column_store` gives,
-- with its new toast buffers, and `first_normal_xid` is the `FirstNormalTransactionId` of
-- PostgreSQL. Of toast buffers only the references are modelled, not the layout of the data.
pub mod Kept
use pg_strom.Prelude.{
  ℕ, zero, suc, ◌+◌, ◌-◌, ◌%◌, ◌^◌, Bool, true, false, ◌==◌, if◌then◌else◌, ltb, update, Option,
  none, some,
}
use pg_strom.Prelude.Run.{Run, done, fault, check, ◌>>=◌, ◌>>◌}
use pg_strom.Tcache.{ItemPointers, Row, ColumnStore, Heap, Node, put_column_store}

module _ (ip : ItemPointers) where
  -- One row is copied behind the others, item pointer, header and values of fixed length, and the range of blocks grows with it.
  unfoldable pub copy_row : Row ip.Ctid → ColumnStore ip.Ctid → ColumnStore ip.Ctid
  copy_row row tcs_new =
      let blkno_cur = ip.block_number (row.ctid) in
      record tcs_new {
        rows = update tcs_new.rows tcs_new.nrows row;
        nrows = suc tcs_new.nrows;
        blkno_max = if ltb (tcs_new.blkno_max) blkno_cur then blkno_cur else tcs_new.blkno_max;
        blkno_min = if ltb blkno_cur (tcs_new.blkno_min) then blkno_cur else tcs_new.blkno_min;
      }

  -- The loop over the old rows; the first argument counts those that are left.
  unfoldable pub compact_rows :
      ℕ → ℕ → (ℕ → Row ip.Ctid) → ℕ → ColumnStore ip.Ctid → ColumnStore ip.Ctid
  compact_rows first_normal_xid zero rows i tcs_new = tcs_new
  compact_rows first_normal_xid (suc left) rows i tcs_new =
      compact_rows first_normal_xid left rows (suc i)
        (if ltb ((rows i).raw_xmax) first_normal_xid then tcs_new else copy_row (rows i) tcs_new)

  unfoldable pub compact_column_store :
      ℕ → ColumnStore ip.Ctid → ColumnStore ip.Ctid → Run (ColumnStore ip.Ctid)
  compact_column_store first_normal_xid tcs_old fresh =
      let start = record fresh {
        nrows = 0;
        blkno_min = tcs_old.blkno_max;
        blkno_max = tcs_old.blkno_min;
      } in
      let copied = compact_rows first_normal_xid tcs_old.nrows tcs_old.rows 0 start in
      check ((tcs_old.nrows + 2 ^ 32 - tcs_old.njunks) % 2 ^ 32 == copied.nrows)
      >> done (record copied { njunks = 0; is_sorted = tcs_old.is_sorted })

  -- The node gets the column store at `tcs_new`. If a toast buffer cannot be had, there is no `fresh`:
  -- the new column store is given up and the error goes on, which the second part says.
  unfoldable pub compaction_tcnode :
      ℕ
      → Option (ColumnStore ip.Ctid)
      → ℕ
      → Node
      → Heap ip.Ctid
      → Run ((Node × Bool) × Heap ip.Ctid)
  compaction_tcnode first_normal_xid none tcs_new n h =
      put_column_store tcs_new h >>= λ h'. done ((n, true), h')
  compaction_tcnode first_normal_xid (some fresh) tcs_new n h =
      compact_column_store first_normal_xid (h.stores (n.tcs)) fresh >>= λ compacted.
      put_column_store (n.tcs) (record h { stores = update h.stores tcs_new compacted }) >>= λ h'.
      done ((record n { tcs = tcs_new }, false), h')
