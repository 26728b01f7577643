-- ===== src/Tcache/Split/Blocks.antt =====
-- What a split makes of a sorted column store.
use pg_strom.Prelude.{ℕ, ◌<◌, ◌≤◌, ◌≡◌, ◌++◌}
use pg_strom.Tcache.{ItemPointers, ColumnStore}
use pg_strom.Tcache.Compaction.Kept.{rows_of}

module _ (ip : ItemPointers) where
  -- The rows of two column stores, one behind the other, divide those of a third.
  abbrev pub Divides : ColumnStore ip.Ctid → ColumnStore ip.Ctid × ColumnStore ip.Ctid → Type 0
  Divides tcs (left_over, moved) =
      (rows_of left_over ++ rows_of moved ≡ rows_of tcs)
      × (0 < left_over.nrows)
      × (0 < moved.nrows)
      × ((j : ℕ)
          → j < left_over.nrows
          → ip.block_number ((left_over.rows j).ctid) ≤ left_over.blkno_max)
      × ((j : ℕ) → j < moved.nrows → ip.block_number ((moved.rows j).ctid) ≡ tcs.blkno_max)
      × (left_over.blkno_max < tcs.blkno_max)
      × (moved.blkno_min ≡ tcs.blkno_max)
      × (moved.blkno_max ≡ tcs.blkno_max)
