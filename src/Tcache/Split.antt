-- ===== src/Tcache/Split.antt =====
-- `tcache_split_tcnode`: the rows of the last block of a full column store move to a new node, which
-- becomes the right child; the old column store is compacted then.
pub mod Blocks
use pg_strom.Prelude.{
  ℕ, zero, suc, ◌+◌, ◌-◌, Bool, true, false, not, ◌&&◌, ◌==◌, if◌then◌else◌, ltb, update, Option,
}
use pg_strom.Prelude.Run.{Run, done, fault, check, ◌>>=◌, ◌>>◌}
use pg_strom.Tcache.{ItemPointers, Row, ColumnStore, Heap, Tree, leaf, node, Node}
use pg_strom.Tcache.Sort.{sort_tcnode}
use pg_strom.Tcache.Compaction.{compaction_tcnode}

module _ (ip : ItemPointers) where
  -- How many of the first `n` rows are left when those of the block at their end are taken away.
  unfoldable pub remaining_rows : (ℕ → Row ip.Ctid) → ℕ → ℕ → ℕ
  remaining_rows rows blkno_max zero = 0
  remaining_rows rows blkno_max (suc n) =
      let rest = remaining_rows rows blkno_max n in
      if ip.block_number ((rows n).ctid) == blkno_max then rest else suc n

  -- The rows of a sorted column store, with their values of fixed length, are divided; `fresh` is the column store of the new node.
  unfoldable pub split_column_store :
      ColumnStore ip.Ctid → ColumnStore ip.Ctid → Run (ColumnStore ip.Ctid × ColumnStore ip.Ctid)
  split_column_store tcs_old fresh =
      let block_at : ℕ → ℕ = λ i. ip.block_number ((tcs_old.rows i).ctid) in
      let nremain = remaining_rows tcs_old.rows tcs_old.blkno_max tcs_old.nrows in
      let nmoved = tcs_old.nrows - nremain in
      let blkno_min = block_at (nremain + 0) in
      let blkno_max = block_at (nremain + (nmoved - 1)) in
      check (not (tcs_old.blkno_min == tcs_old.blkno_max))
      >> (check (ltb 0 nremain && ltb 0 nmoved)
          >> (check (blkno_min == blkno_max)
              >> done (
                record tcs_old { nrows = nremain; blkno_max = block_at (nremain - 1) },
                record fresh {
                  rows = λ i. if ltb i nmoved then tcs_old.rows (nremain + i) else fresh.rows i;
                  nrows = nmoved;
                  njunks = 0;
                  is_sorted = true;
                  blkno_min = blkno_min;
                  blkno_max = blkno_max;
                },
              )))

  -- The node with its children, where `tc_node_new` is a cleared node with the column store `fresh`;
  -- the last arguments are those of the compaction that follows.
  unfoldable pub split_tcnode :
      Tree
      → Node
      → Tree
      → Node
      → ColumnStore ip.Ctid
      → ℕ
      → Option (ColumnStore ip.Ctid)
      → ℕ
      → Heap ip.Ctid
      → Run ((Tree × Bool) × Heap ip.Ctid)
  split_tcnode l n r tc_node_new fresh first_normal_xid fresh' tcs_new h =
      let old = h.stores (n.tcs) in
      let right = node leaf (record tc_node_new { r_depth = n.r_depth }) r in
      let n' = record n { r_depth = n.r_depth + 1 } in
      elim (old.is_sorted) [ true ↦ done old | false ↦ sort_tcnode ip old ] >>= λ sorted.
      split_column_store sorted fresh >>= λ (left_over, moved).
      compaction_tcnode ip first_normal_xid fresh' tcs_new n'
        (record h { stores = update (update h.stores (n.tcs) left_over) (tc_node_new.tcs) moved })
      >>= λ ((n'', failed), h'). done ((node l n'' right, failed), h')
