-- ===== src/Tcache/Find.antt =====
-- The search for the column store that a scan reads next, forward and backward, in the tree of nodes:
-- `tcache_find_next_internal` and `tcache_find_prev_internal`, which return a node or, with a
-- reference taken, its column store.
pub mod Order
pub mod Next
pub mod Prev
pub mod Taken
use pg_strom.Prelude.{ℕ, Bool, true, false, ◌||◌, Option, none, some, if◌then◌else◌, ◌==◌, ltb, leb}
use pg_strom.Prelude.Run.{Run, done, ◌>>=◌}
use pg_strom.Tcache.{Heap, Tree, leaf, node, Node, is_leaf, get_column_store}

module _ {C : Type 0} where
  -- What is returned for a node, `column_store` or not.
  unfoldable pub fetch_node : Bool → Node → Heap C → Run (Option ℕ × Heap C)
  fetch_node column_store n h =
      if column_store
      then (get_column_store (n.tcs) h >>= λ h'. done (some (n.tcs), h'))
      else done (some (n.address), h)

  -- The answer of the child, or this node if the child has none.
  unfoldable pub child_or_node : Bool → Node → Run (Option ℕ × Heap C) → Run (Option ℕ × Heap C)
  child_or_node column_store n child = child >>= λ (o, h'). elim o [
    | some found ↦ done (some found, h')
    | none ↦ fetch_node column_store n h'
  ]

  unfoldable pub find_next_internal : Tree → ℕ → Bool → Heap C → Run (Option ℕ × Heap C)
  find_next_internal leaf blkno_cur column_store h = done (none, h)
  find_next_internal (node l n r) blkno_cur column_store h =
      let tcs = h.stores (n.tcs) in
      let in_right = find_next_internal r blkno_cur column_store h in
      let in_left = find_next_internal l blkno_cur column_store h in
      if tcs.nrows == 0
      then done (none, h)
      else if ltb (tcs.blkno_max) blkno_cur
      then in_right
      else if is_leaf l || leb (tcs.blkno_min) blkno_cur
      then fetch_node column_store n h
      else child_or_node column_store n in_left

  unfoldable pub find_prev_internal : Tree → ℕ → Bool → Heap C → Run (Option ℕ × Heap C)
  find_prev_internal leaf blkno_cur column_store h = done (none, h)
  find_prev_internal (node l n r) blkno_cur column_store h =
      let tcs = h.stores (n.tcs) in
      let in_right = find_prev_internal r blkno_cur column_store h in
      let in_left = find_prev_internal l blkno_cur column_store h in
      if tcs.nrows == 0
      then done (none, h)
      else if ltb blkno_cur (tcs.blkno_min)
      then in_left
      else if is_leaf r || leb blkno_cur (tcs.blkno_max)
      then fetch_node column_store n h
      else child_or_node column_store n in_right

  -- The entries of the search at the root of the tree of a relation.
  unfoldable pub find_next_node : Tree → ℕ → Heap C → Run (Option ℕ × Heap C)
  find_next_node tcs_root blkno h =
      if is_leaf tcs_root then done (none, h) else find_next_internal tcs_root blkno false h

  unfoldable pub find_next_column_store : Tree → ℕ → Heap C → Run (Option ℕ × Heap C)
  find_next_column_store tcs_root blkno h =
      if is_leaf tcs_root then done (none, h) else find_next_internal tcs_root blkno true h

  unfoldable pub find_prev_column_store : Tree → ℕ → Heap C → Run (Option ℕ × Heap C)
  find_prev_column_store tcs_root blkno h =
      if is_leaf tcs_root then done (none, h) else find_prev_internal tcs_root blkno true h
