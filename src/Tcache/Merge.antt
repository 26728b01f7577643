-- ===== src/Tcache/Merge.antt =====
-- `tcache_try_merge_tcnode`: the rows of a node go to a neighbour in the order of the tree, if both
-- have few rows, and the node is freed. A node that is removed is one with a free link towards the
-- neighbour. `target` is the node that the merge was called for.
pub mod Rows
use pg_strom.Prelude.{
  ℕ, zero, suc, ◌+◌, ◌-◌, ◌*◌, ◌/◌, Bool, true, false, ◌&&◌, ◌==◌, if◌then◌else◌, ltb, update, max,
  Option, none, some,
}
use pg_strom.Prelude.Run.{Run, done, fault, check, ◌>>=◌, ◌>>◌}
use pg_strom.Tcache.{Row, ColumnStore, Heap, Tree, leaf, node, Node, is_leaf, free_node_nolock}
use pg_strom.Tcache.Sort.{num_rows_per_colstore}
use pg_strom.Tcache.Balance.{rebalance_tree}

abbrev pub child_depth : Tree → ℕ
child_depth leaf = 0
child_depth (node l n r) = max (n.l_depth) (n.r_depth) + 1

abbrev pub rebalance_child : Tree → Run Tree
rebalance_child leaf = done leaf
rebalance_child (node l n r) = rebalance_tree (node l n r)

module _ {C : Type 0} where
  abbrev pub is_mergeable : ColumnStore C → ColumnStore C → Bool
  is_mergeable parent child =
      ltb (parent.nrows) (num_rows_per_colstore / 2)
      && (ltb (child.nrows) (num_rows_per_colstore / 2)
          && ltb (parent.nrows + child.nrows) (2 * num_rows_per_colstore / 3))

  -- The column store with the rows of another one, with their values of fixed length, behind its own.
  unfoldable pub append_store : ColumnStore C → ColumnStore C → ColumnStore C
  append_store dst src = record dst {
    rows = λ i.
        if ltb i (dst.nrows)
        then dst.rows i
        else if ltb i (dst.nrows + src.nrows)
        then src.rows (i - dst.nrows)
        else dst.rows i;
    nrows = dst.nrows + src.nrows;
    njunks = dst.njunks + src.njunks;
    blkno_max = max (dst.blkno_max) (src.blkno_max);
    blkno_min = max (dst.blkno_min) (src.blkno_min);
  }

  unfoldable pub do_try_merge_tcnode : Node → Node → Heap C → Bool × Heap C
  do_try_merge_tcnode tc_parent tc_child h =
      let dst = h.stores (tc_parent.tcs) in
      let src = h.stores (tc_child.tcs) in
      if is_mergeable dst src
      then (true, record h { stores = update h.stores (tc_parent.tcs) (append_store dst src) })
      else (false, h)

  abbrev pub set_sorted : ℕ → Bool → Heap C → Heap C
  set_sorted tcs b h = record h {
    stores = update h.stores tcs (record (h.stores tcs) { is_sorted = b });
  }

  -- The left child of `n` is merged and removed.
  unfoldable pub remove_left : Tree → Node → Tree → Heap C → Run ((Bool × Tree) × Heap C)
  remove_left leaf n r h = fault
  remove_left (node a child b) n r h =
      check (is_leaf a)
      >> (free_node_nolock child (set_sorted (n.tcs) false h) >>= λ h'.
          done ((false, node b (record n { l_depth = child.r_depth + 1 }) r), h'))

  unfoldable pub remove_right : Tree → Node → Tree → Heap C → Run ((Bool × Tree) × Heap C)
  remove_right l n leaf h = fault
  remove_right l n (node a child b) h =
      let sorted = (h.stores (n.tcs)).is_sorted && (h.stores (child.tcs)).is_sorted in
      check (is_leaf b)
      >> (free_node_nolock child (set_sorted (n.tcs) sorted h) >>= λ h'.
          done ((false, node l (record n { r_depth = child.l_depth + 1 }) a), h'))

  -- The merge of a child, where the search in it says that it has a free link.
  unfoldable pub merge_child :
      Bool
      → Node
      → Tree
      → (Heap C → Run ((Bool × Tree) × Heap C))
      → Tree
      → Heap C
      → Run ((Bool × Tree) × Heap C)
  merge_child true target (node a child b) removed kept h =
      let (merged, h') = do_try_merge_tcnode target child h in
      elim merged [ true ↦ removed h' | false ↦ done ((false, kept), h') ]
  merge_child true target leaf removed kept h = fault
  merge_child false target child removed kept h = done ((false, kept), h)

  unfoldable pub try_merge_left_recurse : Tree → Node → Heap C → Run ((Bool × Tree) × Heap C)
  try_merge_left_recurse leaf target h = fault
  try_merge_left_recurse (node l n r) target h =
      if is_leaf l
      then done ((true, node l n r), h)
      else (try_merge_left_recurse l target h >>= λ ((open_node, l'), h').
          merge_child open_node target l' (remove_left l' n r) (node l' n r) h')

  -- Its search in the right child is that of the left links, as the code has it.
  unfoldable pub try_merge_right_recurse : Tree → Node → Heap C → Run ((Bool × Tree) × Heap C)
  try_merge_right_recurse leaf target h = fault
  try_merge_right_recurse (node l n r) target h =
      if is_leaf r
      then done ((true, node l n r), h)
      else (try_merge_left_recurse r target h >>= λ ((open_node, r'), h').
          merge_child open_node target r' (remove_right l n r') (node l n r') h')

  -- The target goes into a node above it, if there is one that has room.
  unfoldable pub merge_upper : Bool → Option Node → Node → Heap C → Bool × Heap C
  merge_upper false candidate target h = (false, h)
  merge_upper true none target h = (false, h)
  merge_upper true (some candidate) target h = do_try_merge_tcnode candidate target h

  -- The steps at the target itself.
  unfoldable pub merge_target :
      Tree → Node → Tree → Option Node → Option Node → Heap C → Run (Tree × Heap C)
  merge_target l n r l_candidate r_candidate h =
      (if is_leaf r then done ((false, r), h) else try_merge_left_recurse r n h)
      >>= λ ((_, r'), h1).
          (if is_leaf l then done ((false, l), h1) else try_merge_right_recurse l n h1)
          >>= λ ((_, l'), h2).
              (let (merged, h3) = merge_upper (is_leaf r') l_candidate n h2 in
                elim merged [
                  | true ↦ free_node_nolock n h3 >>= λ h4. done (l', h4)
                  | false ↦
                      let (merged', h4) = merge_upper (is_leaf l') r_candidate n h3 in
                      elim merged' [
                        | true ↦ free_node_nolock n h4 >>= λ h5. done (r', h5)
                        | false ↦ done (node l' n r', h4)
                      ]
                ])

  -- The result is the tree that the upper link then holds.
  unfoldable pub try_merge_recurse :
      Tree → Option Node → Option Node → Node → Heap C → Run (Tree × Heap C)
  try_merge_recurse leaf l_candidate r_candidate target h = fault
  try_merge_recurse (node l n r) l_candidate r_candidate target h =
      let tcs = h.stores (n.tcs) in
      let wanted = h.stores (target.tcs) in
      if ltb (wanted.blkno_max) (tcs.blkno_min)
      then (try_merge_recurse l (some n) r_candidate target h >>= λ (l', h').
          rebalance_child l' >>= λ l''.
          done (node l'' (record n { l_depth = child_depth l' }) r, h'))
      else if ltb (tcs.blkno_max) (wanted.blkno_min)
      then (try_merge_recurse r l_candidate (some n) target h >>= λ (r', h').
          rebalance_child r' >>= λ r''.
          done (node l (record n { r_depth = child_depth r' }) r'', h'))
      else (check (n.address == target.address) >> merge_target l n r l_candidate r_candidate h)

  unfoldable pub try_merge_tcnode : Tree → Node → Heap C → Run (Tree × Heap C)
  try_merge_tcnode tcs_root tc_node h =
      if ltb ((h.stores (tc_node.tcs)).nrows) (num_rows_per_colstore / 2)
      then (try_merge_recurse tcs_root none none tc_node h >>= λ (t, h').
          rebalance_tree t >>= λ t'. done (t', h'))
      else done (tcs_root, h)
