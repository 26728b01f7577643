-- ===== src/Tcache/Balance.antt =====
-- `tcache_rebalance_tree`: one rotation where the recorded depths of the children differ by more than
-- one. The result is the tree that the upper link then holds.
pub mod Search
use pg_strom.Prelude.{ℕ, ◌+◌, if◌then◌else◌, ltb, max}
use pg_strom.Prelude.Run.{Run, done, fault}
use pg_strom.Tcache.{Tree, leaf, node, Node}

-- `TCACHE_NODE_DEPTH`.
abbrev pub tcache_node_depth : Tree → ℕ
tcache_node_depth leaf = 0
tcache_node_depth (node l n r) = max (n.l_depth) (n.r_depth)

-- The new depth of the upper node is taken from that node itself.
unfoldable pub rotate_anticlockwise : Tree → Node → Tree → Run Tree
rotate_anticlockwise l n leaf = fault
rotate_anticlockwise l n (node a r_node b) =
    let lowered = record n { r_depth = tcache_node_depth a } in
    let raised = record r_node { l_depth = tcache_node_depth (node a r_node b) } in
    done (node (node l lowered a) raised b)

unfoldable pub rotate_clockwise : Tree → Node → Tree → Run Tree
rotate_clockwise leaf n r = fault
rotate_clockwise (node a l_node b) n r =
    let lowered = record n { l_depth = tcache_node_depth b } in
    let raised = record l_node { r_depth = tcache_node_depth (node a l_node b) } in
    done (node a raised (node b lowered r))

unfoldable pub rebalance_tree : Tree → Run Tree
rebalance_tree leaf = fault
rebalance_tree (node l n r) =
    if ltb (n.l_depth + 1) (n.r_depth)
    then rotate_anticlockwise l n r
    else if ltb (n.r_depth + 1) (n.l_depth)
    then rotate_clockwise l n r
    else done (node l n r)
