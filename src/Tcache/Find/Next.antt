-- ===== src/Tcache/Find/Next.antt =====
-- The forward search of a tree in order, against a scan over its nodes.
use pg_strom.Prelude.{
  ℕ, ◌<◌, ◌≤◌, ◌≡◌, refl, Bool, true, false, ◌||◌, ◌∷◌, ◌++◌, if◌then◌else◌, ◌==◌, ltb, leb, inl,
  inr, Bool-cases, arith, if_or_true, ap, sym, ◌∙◌,
}
use pg_strom.Tcache.{Heap, Tree, leaf, node, Node, is_leaf, nodes_of}
use pg_strom.Tcache.Find.{fetch_node, child_or_node, find_next_internal}
use pg_strom.Tcache.Find.Order.{
  first_node, first_node-hit, first_node-skip, AllNodes, IsOrdered, fetch_found,
  child_or_node-found, found_node,
}

module _ {C : Type 0} where
  -- The node may have rows of the block or of a later one.
  abbrev pub is_reaching : Heap C → ℕ → Node → Bool
  is_reaching h blkno n = leb blkno ((h.stores (n.tcs)).blkno_max)

  below_skipped :
      (h : Heap C) (blkno bound : ℕ) (t : Tree)
      → bound ≤ blkno
      → AllNodes (λ m. (h.stores (m.tcs)).blkno_max < bound) t
      → AllNodes (λ m. is_reaching h blkno m ≡ false) t
  below_skipped h blkno bound leaf le all = tt
  below_skipped h blkno bound (node l n r) le (in_l, at_n, in_r) =
      (below_skipped h blkno bound l le in_l, ground arith, below_skipped h blkno bound r le in_r)

  -- The step of a node whose left child is asked first.
  asked_left :
      (l : Tree) (n : Node) (r : Tree) (blkno : ℕ) (cs : Bool) (h : Heap C)
      → is_reaching h blkno n ≡ true
      → find_next_internal l blkno cs h
        ≡ fetch_found cs (first_node (is_reaching h blkno) (nodes_of l)) h
      → (if is_leaf l || false
          then fetch_node cs n h
          else child_or_node cs n (find_next_internal l blkno cs h))
        ≡ fetch_found cs (first_node (is_reaching h blkno) (nodes_of l ++ n ∷ nodes_of r)) h
  asked_left leaf n r blkno cs h reached found = rw reached (found_node cs n h)
  asked_left (node a m b) n r blkno cs h reached found =
      let before = nodes_of (node a m b) in
      rw found (child_or_node-found cs n (first_node (is_reaching h blkno) before) h)
      ∙ ap (λ o. fetch_found cs o h)
          (sym (first_node-hit (is_reaching h blkno) before n (nodes_of r) reached))

  -- In a tree whose column stores are in order and not empty, the forward search finds the first node
  -- whose column store reaches the block, and NULL if none does; the heap changes only by the
  -- reference that is taken on the column store found.
  pub find_next_internal-first_node :
      (t : Tree) (blkno : ℕ) (column_store : Bool) (h : Heap C)
      → IsOrdered h t
      → find_next_internal t blkno column_store h
        ≡ fetch_found column_store (first_node (is_reaching h blkno) (nodes_of t)) h
  unfolding find_next_internal fetch_found
  find_next_internal-first_node leaf blkno cs h ordered = refl
  find_next_internal-first_node (node l n r) blkno cs h (in_l, in_r, filled, range, below, above) =
      let size : ((h.stores (n.tcs)).nrows == 0) ≡ false = ground arith in
      elim (Bool-cases (ltb ((h.stores (n.tcs)).blkno_max) blkno)) [
        | inl past ↦
            let fails : is_reaching h blkno n ≡ false = ground arith in
            rw (size, past, skip_left (ground arith), fails)
              (find_next_internal-first_node r blkno cs h in_r)
        | inr here ↦
            let reached : is_reaching h blkno n ≡ true = ground arith in
            elim (Bool-cases (leb ((h.stores (n.tcs)).blkno_min) blkno)) [
              | inl inside ↦
                  rw (size, here, inside, skip_left (ground arith), reached)
                    (if_or_true (is_leaf l) (fetch_node cs n h)
                        (child_or_node cs n (find_next_internal l blkno cs h))
                      ∙ found_node cs n h)
              | inr before ↦
                  rw (size, here, before)
                    (asked_left l n r blkno cs h reached
                      (find_next_internal-first_node l blkno cs h in_l))
            ]
      ]
    where
      skip_left :
          (h.stores (n.tcs)).blkno_min ≤ blkno
          → first_node (is_reaching h blkno) (nodes_of l ++ n ∷ nodes_of r)
            ≡ first_node (is_reaching h blkno) (n ∷ nodes_of r)
      skip_left le =
          first_node-skip (is_reaching h blkno) l (n ∷ nodes_of r)
            (below_skipped h blkno ((h.stores (n.tcs)).blkno_min) l le below)
