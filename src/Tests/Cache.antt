-- ===== src/Tests/Cache.antt =====
-- A cache of three column stores, with item pointers that are numbers: the block and three digits.
use pg_strom.Prelude.{
  ℕ, zero, suc, ◌+◌, ◌*◌, ◌/◌, ◌<◌, ◌≤◌, ◌≡◌, refl, true, none, [], ◌∷◌, ◌==◌, ltb, if◌then◌else◌,
  arith,
}
use pg_strom.Prelude.Int.{ℤ, pos, negsuc, lt_int}
use pg_strom.Prelude.Run.{Returns}
use pg_strom.Tcache.{
  ItemPointers, IsComparison, Row, ColumnStore, Heap, Tree, leaf, node, Node, nodes_of,
}
use pg_strom.Tcache.Find.{find_next_internal}
use pg_strom.Tcache.Find.Order.{first_node, IsOrdered}
use pg_strom.Tcache.Find.Next.{is_reaching}
use pg_strom.Tcache.Find.Taken.{taken, find_next_internal-taken}
use pg_strom.Tcache.Balance.{rebalance_tree}
use pg_strom.Tcache.Balance.Search.{IsLinked, SameSearch, rebalance_tree-SameSearch}
use pg_strom.Tcache.Record.{find_next_record}
use pg_strom.Tcache.Record.Index.{IsLeastIndex}
use pg_strom.Tcache.Record.Least.{find_next_record-IsLeastIndex}

abbrev compare_numbers : ℕ → ℕ → ℤ
compare_numbers a b = if ltb a b then negsuc 0 else if a == b then pos 0 else pos 1

abbrev pub numbers : ItemPointers
numbers = record {
  Ctid = ℕ;
  item_pointer_compare = compare_numbers;
  block_number = λ a. a / 1000;
  max_pointer = 4294967294291;
}

pub numbers-IsComparison : IsComparison numbers (λ a. a)
numbers-IsComparison a b = (less a b, more a b)
  where
    less : (a b : ℕ) → lt_int (compare_numbers a b) (pos 0) ≡ ltb a b
    less a b = ground arith

    more : (a b : ℕ) → lt_int (pos 0) (compare_numbers a b) ≡ ltb b a
    more a b = ground arith

abbrev pub row : ℕ → Row ℕ
row a = record { ctid = a; raw_xmax = if a == 5001 then 0 else 700; columns = (a ∷ []) ∷ [] }

-- The blocks `k` and `k + 1`, two rows each.
abbrev pub store : ℕ → ColumnStore ℕ
store k = record {
  refcnt = pos 1;
  nrows = 4;
  njunks = 0;
  is_sorted = true;
  blkno_max = suc k;
  blkno_min = k;
  rows = λ i. row (if ltb i 2 then k * 1000 + i else k * 1000 + 998 + i);
  toast = none ∷ [];
}

abbrev pub heap : Heap ℕ
heap = record {
  stores = λ k. store k;
  toasts = λ k. record { refcnt = pos 1; tbuf_length = 100; tbuf_usage = 12; tbuf_junk = 0 };
  freed = [];
  free_list = [];
}

abbrev pub node_at : ℕ → ℕ → ℕ → Node
node_at k l r = record { address = k + 100; tcs = k; l_depth = l; r_depth = r }

abbrev pub tree : Tree
tree =
    node leaf (node_at 2 0 2)
      (node (node leaf (node_at 4 0 0) leaf) (node_at 8 1 1) (node leaf (node_at 10 0 0) leaf))

pub tree-IsOrdered : IsOrdered heap tree
tree-IsOrdered = (
  tt,
  (
    (tt, tt, omega arith, omega arith, tt, tt),
    (tt, tt, omega arith, omega arith, tt, tt),
    omega arith,
    omega arith,
    (tt, omega arith, tt),
    (tt, omega arith, tt),
  ),
  omega arith,
  omega arith,
  tt,
  ((tt, omega arith, tt), omega arith, (tt, omega arith, tt)),
)

find_next_internal-taken_example :
    find_next_internal tree 6 true heap
    ≡ taken true (first_node (is_reaching heap 6) (nodes_of tree)) heap
find_next_internal-taken_example =
    find_next_internal-taken tree 6 true heap tree-IsOrdered
      (tt, refl, ((tt, refl, tt), refl, (tt, refl, tt)))

tree-IsLinked : IsLinked tree
tree-IsLinked = (tt, ((tt, tt, refl, refl), (tt, tt, refl, refl), refl, refl), refl, refl)

rebalance_tree-SameSearch_example :
    Returns (λ u. IsOrdered heap u × IsLinked u × SameSearch heap u tree) (rebalance_tree tree)
rebalance_tree-SameSearch_example =
    rebalance_tree-SameSearch heap tree refl tree-IsOrdered tree-IsLinked

pub blocks_mono : (a b : ℕ) → a ≤ b → a / 1000 ≤ b / 1000
blocks_mono a b h = omega arith

pub four : (P : ℕ → Type 0) → P 0 → P 1 → P 2 → P 3 → (j : ℕ) → j < 4 → P j
four P a b c d zero h = a
four P a b c d (suc zero) h = b
four P a b c d (suc (suc zero)) h = c
four P a b c d (suc (suc (suc zero))) h = d
four P a b c d (suc (suc (suc (suc j)))) h = absurd (omega arith)

pub store-within : (j : ℕ) → j < 4 → ((store 4).rows j).ctid / 1000 ≤ 5
store-within =
    four (λ j. ((store 4).rows j).ctid / 1000 ≤ 5) (omega arith) (omega arith) (omega arith)
      (omega arith)

pub store-IsInOrder : (i j : ℕ) → i ≤ j → j < 4 → ((store 4).rows i).ctid ≤ ((store 4).rows j).ctid
store-IsInOrder i j h h' = ground arith

find_next_record-IsLeastIndex_example :
    Returns
      (IsLeastIndex (λ j. ((store 4).rows j).ctid) 4500 4)
      (find_next_record numbers (store 4) 4500)
find_next_record-IsLeastIndex_example =
    find_next_record-IsLeastIndex numbers (λ a. a) numbers-IsComparison (store 4) 4500 blocks_mono
      store-within (λ e. store-IsInOrder) (λ j h. ground arith)
