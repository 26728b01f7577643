-- ===== src/Tcache/Find/Taken.antt =====
-- The reference that the forward search takes.
use pg_strom.Prelude.{
  ℕ, ◌≡◌, refl, Bool, true, false, Option, none, some, List, [], ◌∷◌, inl, inr, Bool-cases, ◌∙◌,
}
use pg_strom.Prelude.Int.{pos, lt_int}
use pg_strom.Prelude.Run.{Run, done}
use pg_strom.Tcache.{Heap, Tree, Node, nodes_of}
use pg_strom.Tcache.Find.{find_next_internal, fetch_node}
use pg_strom.Tcache.Find.Order.{first_node, IsOrdered, AllNodes, fetch_found}
use pg_strom.Tcache.Find.Next.{is_reaching, find_next_internal-first_node}
use pg_strom.Tcache.Scan.Columns.{AllOf, AllNodes-AllOf}
use pg_strom.Tcache.Scan.Reference.{held, fetch_node-held}

module _ {C : Type 0} where
  abbrev pub IsReferenced : Heap C → Node → Type 0
  IsReferenced h n = lt_int (pos 0) ((h.stores (n.tcs)).refcnt) ≡ true

  -- The node; or its column store, of which the counter is one more then.
  abbrev pub taken : Bool → Option Node → Heap C → Run (Option ℕ × Heap C)
  taken column_store none h = done (none, h)
  taken true (some n) h = done (some (n.tcs), held (n.tcs) h)
  taken false (some n) h = done (some (n.address), h)

  fetch_found-taken :
      (column_store : Bool) (test : Node → Bool) (l : List Node) (h : Heap C)
      → AllOf (IsReferenced h) l
      → fetch_found column_store (first_node test l) h ≡ taken column_store (first_node test l) h
  unfolding fetch_found fetch_node
  fetch_found-taken cs test [] h all = refl
  fetch_found-taken cs test (n ∷ l) h (positive, rest) = elim (Bool-cases (test n)) [
    | inl hit ↦ rw hit (fetched cs n h positive)
    | inr miss ↦ rw miss (fetch_found-taken cs test l h rest)
  ]
    where
      fetched :
          (cs : Bool) (n : Node) (h : Heap C)
          → IsReferenced h n
          → fetch_node cs n h ≡ taken cs (some n) h
      fetched true n h positive = fetch_node-held n h positive
      fetched false n h positive = refl

  -- In a tree whose column stores are in order, not empty and referenced, the forward search finds the
  -- first node whose column store reaches the block, and NULL if none does. If the column store is asked
  -- for, its reference counter is one more, and nothing else changes; otherwise nothing changes.
  pub find_next_internal-taken :
      (t : Tree) (blkno : ℕ) (column_store : Bool) (h : Heap C)
      → IsOrdered h t
      → AllNodes (IsReferenced h) t
      → find_next_internal t blkno column_store h
        ≡ taken column_store (first_node (is_reaching h blkno) (nodes_of t)) h
  find_next_internal-taken t blkno column_store h ordered positive =
      find_next_internal-first_node t blkno column_store h ordered
      ∙ fetch_found-taken column_store (is_reaching h blkno) (nodes_of t) h
          (AllNodes-AllOf (IsReferenced h) t positive)
