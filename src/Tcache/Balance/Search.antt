-- ===== src/Tcache/Balance/Search.antt =====
-- Rebalancing keeps the nodes of a tree in order, so that a search finds the same as before.
use pg_strom.Prelude.{
  ℕ, ◌+◌, ◌≡◌, refl, Bool, true, false, List, [], ◌∷◌, ◌++◌, map, leb, if◌then◌else◌, ltb, inl, inr,
  Bool-cases, arith, ap, sym, ◌∙◌, ◌==◌,
}
use pg_strom.Prelude.Run.{Returns, Returns-mono}
use pg_strom.Tcache.{Heap, Tree, leaf, node, Node, is_leaf, nodes_of}
use pg_strom.Tcache.Find.{find_next_internal, find_prev_internal}
use pg_strom.Tcache.Find.Order.{
  first_node, AllNodes-mono, IsOrdered, fetch_found, nodes_back, without_depths,
  first_node-without_depths,
}
use pg_strom.Tcache.Find.Next.{is_reaching, find_next_internal-first_node}
use pg_strom.Tcache.Find.Prev.{is_starting, find_prev_internal-first_node}
use pg_strom.Tcache.Balance.{
  tcache_node_depth, rotate_anticlockwise, rotate_clockwise, rebalance_tree,
}

-- A depth is recorded only where there is a child.
abbrev pub IsLinked : Tree → Type 0
IsLinked leaf = Unit {0}
IsLinked (node l n r) =
    IsLinked l
    × IsLinked r
    × ((if is_leaf l then n.l_depth == 0 else true) ≡ true)
    × ((if is_leaf r then n.r_depth == 0 else true) ≡ true)

no_depth : (a : Tree) → (if is_leaf a then tcache_node_depth a == 0 else true) ≡ true
no_depth leaf = refl
no_depth (node l n r) = refl

relabelled :
    (xs : List Node) (n n' : Node) (ys : List Node)
    → without_depths n ≡ without_depths n'
    → map without_depths (xs ++ n ∷ ys) ≡ map without_depths (xs ++ n' ∷ ys)
relabelled [] n n' ys e = ap (λ x. x ∷ map without_depths ys) e
relabelled (x ∷ xs) n n' ys e = ap (λ l. without_depths x ∷ l) (relabelled xs n n' ys e)

-- A rotation moves the bracket in a list of two nodes and three subtrees.
rotated :
    (xs : List Node) (n n' : Node) (ys : List Node) (m m' : Node) (zs : List Node)
    → without_depths n ≡ without_depths n'
    → without_depths m ≡ without_depths m'
    → map without_depths ((xs ++ n ∷ ys) ++ m ∷ zs)
      ≡ map without_depths (xs ++ n' ∷ (ys ++ m' ∷ zs))
rotated [] n n' ys m m' zs e e' =
    ap (λ x. x ∷ map without_depths (ys ++ m ∷ zs)) e
    ∙ ap (λ l. without_depths n' ∷ l) (relabelled ys m m' zs e')
rotated (x ∷ xs) n n' ys m m' zs e e' =
    ap (λ l. without_depths x ∷ l) (rotated xs n n' ys m m' zs e e')

-- The same nodes in the same order, forward and backward, but for the depths that they record.
abbrev pub SameNodes : Tree → Tree → Type 0
SameNodes t u =
    (map without_depths (nodes_of t) ≡ map without_depths (nodes_of u))
    × (map without_depths (nodes_back t) ≡ map without_depths (nodes_back u))

module _ {C : Type 0} (h : Heap C) where
  abbrev Rotated : Tree → Tree → Type 0
  Rotated t u = IsOrdered h u × IsLinked u × SameNodes u t

  anticlockwise-Rotated :
      (l : Tree) (n : Node) (r : Tree)
      → IsOrdered h (node l n r)
      → IsLinked (node l n r)
      → ltb (n.l_depth + 1) (n.r_depth) ≡ true
      → Returns (Rotated (node l n r)) (rotate_anticlockwise l n r)
  unfolding rotate_anticlockwise
  anticlockwise-Rotated l n leaf ordered (in_l, in_r, at_l, at_r) deep = ground arith
  anticlockwise-Rotated l n (node a m b)
        (in_l, (in_a, in_b, filled', range', below', above'), filled, range, below, above)
        (link_l, (link_a, link_b, link_m, link_m'), link_n, link_n') deep =
      (
        (
          (in_l, in_a, filled, range, below, above.0),
          in_b,
          filled',
          range',
          (AllNodes-mono l (λ x less. omega arith) below, above.1, below'),
          above',
        ),
        ((link_l, link_a, link_n, no_depth a), link_b, refl, link_m'),
        (
          rotated (nodes_of l) _ n (nodes_of a) _ m (nodes_of b) refl refl,
          sym (rotated (nodes_back b) m _ (nodes_back a) n _ (nodes_back l) refl refl),
        ),
      )

  clockwise-Rotated :
      (l : Tree) (n : Node) (r : Tree)
      → IsOrdered h (node l n r)
      → IsLinked (node l n r)
      → ltb (n.r_depth + 1) (n.l_depth) ≡ true
      → Returns (Rotated (node l n r)) (rotate_clockwise l n r)
  unfolding rotate_clockwise
  clockwise-Rotated leaf n r ordered (in_l, in_r, at_l, at_r) deep = ground arith
  clockwise-Rotated (node a m b) n r
        ((in_a, in_b, filled', range', below', above'), in_r, filled, range, below, above)
        ((link_a, link_b, link_m, link_m'), link_r, link_n, link_n') deep =
      (
        (
          in_a,
          (in_b, in_r, filled, range, below.2, above),
          filled',
          range',
          below',
          (above', below.1, AllNodes-mono r (λ x more. omega arith) above),
        ),
        (link_a, (link_b, link_r, no_depth b, link_n'), link_m, refl),
        (
          sym (rotated (nodes_of a) m _ (nodes_of b) n _ (nodes_of r) refl refl),
          rotated (nodes_back r) _ n (nodes_back b) _ m (nodes_back a) refl refl,
        ),
      )

  rebalance_tree-Rotated :
      (t : Tree)
      → is_leaf t ≡ false
      → IsOrdered h t
      → IsLinked t
      → Returns (Rotated t) (rebalance_tree t)
  unfolding rebalance_tree
  rebalance_tree-Rotated leaf e ordered linked = absurd (ground arith)
  rebalance_tree-Rotated (node l n r) e ordered linked =
      elim (Bool-cases (ltb (n.l_depth + 1) (n.r_depth))) [
        | inl deep ↦ rw deep (anticlockwise-Rotated l n r ordered linked deep)
        | inr fine ↦ elim (Bool-cases (ltb (n.r_depth + 1) (n.l_depth))) [
          | inl deep ↦ rw (fine, deep) (clockwise-Rotated l n r ordered linked deep)
          | inr fine' ↦ rw (fine, fine') (ordered, linked, (refl, refl))
        ]
      ]

  -- What a search finds in a tree: the same, whatever the block, whether the node or its column store
  -- is asked for, and in both directions.
  abbrev pub SameSearch : Tree → Tree → Type 0
  SameSearch t u =
      (blkno : ℕ) (column_store : Bool)
      → (find_next_internal t blkno column_store h ≡ find_next_internal u blkno column_store h)
        × (find_prev_internal t blkno column_store h ≡ find_prev_internal u blkno column_store h)

  same_search : (t u : Tree) → IsOrdered h t → IsOrdered h u → SameNodes t u → SameSearch t u
  same_search t u in_t in_u (forward, backward) blkno cs = (
    find_next_internal-first_node t blkno cs h in_t
        ∙ first_node-without_depths (λ s. leb blkno ((h.stores s).blkno_max)) cs (nodes_of t) h
        ∙ ap (λ l. fetch_found cs (first_node (is_reaching h blkno) l) h) forward
        ∙ sym
            (first_node-without_depths (λ s. leb blkno ((h.stores s).blkno_max)) cs (nodes_of u) h)
        ∙ sym (find_next_internal-first_node u blkno cs h in_u),
    find_prev_internal-first_node t blkno cs h in_t
        ∙ first_node-without_depths (λ s. leb ((h.stores s).blkno_min) blkno) cs (nodes_back t) h
        ∙ ap (λ l. fetch_found cs (first_node (is_starting h blkno) l) h) backward
        ∙ sym (
            first_node-without_depths (λ s. leb ((h.stores s).blkno_min) blkno) cs (nodes_back u) h)
        ∙ sym (find_prev_internal-first_node u blkno cs h in_u),
  )

  -- On a tree that is not empty, in order and records depths only where there are children,
  -- rebalancing follows no null link; its result is in order, records depths only where there are
  -- children, and a search finds in it what it found before.
  pub rebalance_tree-SameSearch :
      (t : Tree)
      → is_leaf t ≡ false
      → IsOrdered h t
      → IsLinked t
      → Returns (λ u. IsOrdered h u × IsLinked u × SameSearch u t) (rebalance_tree t)
  rebalance_tree-SameSearch t e ordered linked =
      Returns-mono (rebalance_tree t) (rebalance_tree-Rotated t e ordered linked)
        (λ u done'. (done'.0, done'.1, same_search u t (done'.0) ordered (done'.2)))
