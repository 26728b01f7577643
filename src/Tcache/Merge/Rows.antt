-- ===== src/Tcache/Merge/Rows.antt =====
-- What a merge of two column stores does to their rows.
use pg_strom.Prelude.{◌+◌, ◌<◌, ◌≤◌, ◌≡◌, ◌++◌}
use pg_strom.Tcache.{ColumnStore}
use pg_strom.Tcache.Sort.{num_rows_per_colstore}
use pg_strom.Tcache.Compaction.Kept.{rows_of}

module _ {C : Type 0} where
  -- The parent's column store after a merge.
  abbrev pub MergedRows : ColumnStore C → ColumnStore C → ColumnStore C → Type 0
  MergedRows dst src merged =
      (rows_of merged ≡ rows_of dst ++ rows_of src)
      × (merged.nrows < num_rows_per_colstore)
      × (merged.njunks ≡ dst.njunks + src.njunks)
      × (dst.blkno_max ≤ merged.blkno_max)
      × (src.blkno_max ≤ merged.blkno_max)
      × (dst.blkno_min ≤ merged.blkno_min)
      × (src.blkno_min ≤ merged.blkno_min)
