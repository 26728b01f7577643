-- ===== src/Tcache/Find/Prev.antt =====
-- The backward search of a tree in order, against a scan over its nodes.
use pg_strom.Prelude.{
  ℕ, ◌<◌, ◌≤◌, ◌≡◌, refl, Bool, true, false, ◌||◌, ◌∷◌, ◌++◌, if◌then◌else◌, ◌==◌, ltb, leb, inl,
  inr, Bool-cases, arith, if_or_true, ap, sym, ◌∙◌,
}
use pg_strom.Tcache.{Heap, Tree, leaf, node, Node, is_leaf}
use pg_strom.Tcache.Find.{fetch_node, child_or_node, find_prev_internal}
use pg_strom.Tcache.Find.Order.{
  first_node, first_node-hit, first_node-skip_back, nodes_back, AllNodes, IsOrdered, fetch_found,
  child_or_node-found, found_node,
}

module _ {C : Type 0} where
  -- The node may have rows of the block or of an earlier one.
  abbrev pub is_starting : Heap C → ℕ → Node → Bool
  is_starting h blkno n = leb ((h.stores (n.tcs)).blkno_min) blkno

  above_skipped :
      (h : Heap C) (blkno bound : ℕ) (t : Tree)
      → blkno ≤ bound
      → AllNodes (λ m. bound < (h.stores (m.tcs)).blkno_min) t
      → AllNodes (λ m. is_starting h blkno m ≡ false) t
  above_skipped h blkno bound leaf le all = tt
  above_skipped h blkno bound (node l n r) le (in_l, at_n, in_r) =
      (above_skipped h blkno bound l le in_l, ground arith, above_skipped h blkno bound r le in_r)

  -- The step of a node whose right child is asked first.
  asked_right :
      (l : Tree) (n : Node) (r : Tree) (blkno : ℕ) (cs : Bool) (h : Heap C)
      → is_starting h blkno n ≡ true
      → find_prev_internal r blkno cs h
        ≡ fetch_found cs (first_node (is_starting h blkno) (nodes_back r)) h
      → (if is_leaf r || false
          then fetch_node cs n h
          else child_or_node cs n (find_prev_internal r blkno cs h))
        ≡ fetch_found cs (first_node (is_starting h blkno) (nodes_back r ++ n ∷ nodes_back l)) h
  asked_right l n leaf blkno cs h reached found = rw reached (found_node cs n h)
  asked_right l n (node a m b) blkno cs h reached found =
      let after = nodes_back (node a m b) in
      rw found (child_or_node-found cs n (first_node (is_starting h blkno) after) h)
      ∙ ap (λ o. fetch_found cs o h)
          (sym (first_node-hit (is_starting h blkno) after n (nodes_back l) reached))

  -- In a tree whose column stores are in order and not empty, the backward search finds the last node
  -- whose column store starts at the block or before it, and NULL if none does; the heap changes only
  -- by the reference that is taken on the column store found.
  pub find_prev_internal-first_node :
      (t : Tree) (blkno : ℕ) (column_store : Bool) (h : Heap C)
      → IsOrdered h t
      → find_prev_internal t blkno column_store h
        ≡ fetch_found column_store (first_node (is_starting h blkno) (nodes_back t)) h
  unfolding find_prev_internal fetch_found
  find_prev_internal-first_node leaf blkno cs h ordered = refl
  find_prev_internal-first_node (node l n r) blkno cs h (in_l, in_r, filled, range, below, above) =
      let size : ((h.stores (n.tcs)).nrows == 0) ≡ false = ground arith in
      elim (Bool-cases (ltb blkno ((h.stores (n.tcs)).blkno_min))) [
        | inl early ↦
            let fails : is_starting h blkno n ≡ false = ground arith in
            rw (size, early, skip_right (ground arith), fails)
              (find_prev_internal-first_node l blkno cs h in_l)
        | inr here ↦
            let reached : is_starting h blkno n ≡ true = ground arith in
            elim (Bool-cases (leb blkno ((h.stores (n.tcs)).blkno_max))) [
              | inl inside ↦
                  rw (size, here, inside, skip_right (ground arith), reached)
                    (if_or_true (is_leaf r) (fetch_node cs n h)
                        (child_or_node cs n (find_prev_internal r blkno cs h))
                      ∙ found_node cs n h)
              | inr past ↦
                  rw (size, here, past)
                    (asked_right l n r blkno cs h reached
                      (find_prev_internal-first_node r blkno cs h in_r))
            ]
      ]
    where
      skip_right :
          blkno ≤ (h.stores (n.tcs)).blkno_max
          → first_node (is_starting h blkno) (nodes_back r ++ n ∷ nodes_back l)
            ≡ first_node (is_starting h blkno) (n ∷ nodes_back l)
      skip_right le =
          first_node-skip_back (is_starting h blkno) r (n ∷ nodes_back l)
            (above_skipped h blkno ((h.stores (n.tcs)).blkno_max) r le above)
