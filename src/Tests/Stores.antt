-- ===== src/Tests/Stores.antt =====
-- Operations on the column stores of the cache of three nodes, on row stores, and a whole scan.
use pg_strom.Prelude.{
  ℕ, suc, ◌/◌, ◌≤◌, ◌≡◌, refl, true, false, none, some, List, [], ◌∷◌, map, length, ◌==◌,
  if◌then◌else◌, arith,
}
use pg_strom.Prelude.Int.{pos}
use pg_strom.Prelude.Run.{Run, done, fault, Returns}
use pg_strom.Tcache.{ColumnStore, nodes_of}
use pg_strom.Tcache.Sort.{
  sort_tcnode, sort_tcnode_internal, partition, scan_up, scan_down, swap_rows,
}
use pg_strom.Tcache.Sort.Arranged.{Arranged}
use pg_strom.Tcache.Sort.Total.{sort_tcnode-Arranged}
use pg_strom.Tcache.Scan.{Rowstores}
use pg_strom.Tcache.Scan.Visit.{visit, visit-nodes_of}
use pg_strom.Tcache.Rowstore.{Tuple, RowStore}
use pg_strom.Tcache.Insert.{do_insert_tuple}
use pg_strom.Tcache.Insert.Tuple.{do_insert_tuple-RowInserted, RowInserted}
use pg_strom.Tests.Cache.{
  numbers, numbers-IsComparison, row, store, heap, tree, tree-IsOrdered, blocks_mono, four,
  store-IsInOrder,
}

-- Rows at 1, 2, 9, 3 and 5, which the sort leaves at 1, 2, 5, 3 and 9: the pivot 9 is swapped away.
abbrev jumbled : ColumnStore ℕ
jumbled = record (store 0) {
  nrows = 5;
  is_sorted = false;
  rows = λ i.
      row
        (if i == 0 then 1 else if i == 1 then 2 else if i == 2 then 9 else if i == 3 then 3 else 5);
}

sorted_rows : Run (ColumnStore ℕ) → List ℕ
sorted_rows (done s) = map (λ i. (s.rows i).ctid) (0 ∷ 1 ∷ 2 ∷ 3 ∷ 4 ∷ [])
sorted_rows fault = []

jumbled_sorted : sorted_rows (sort_tcnode numbers jumbled) ≡ 1 ∷ 2 ∷ 5 ∷ 3 ∷ 9 ∷ []
unfolding sorted_rows sort_tcnode sort_tcnode_internal partition scan_up scan_down swap_rows
jumbled_sorted = refl

sort_tcnode-Arranged_example :
    Returns
      (λ sorted.
        (sorted ≡ record jumbled { rows = sorted.rows; is_sorted = true })
        × Arranged 0 5 (jumbled.rows) (sorted.rows))
      (sort_tcnode numbers jumbled)
sort_tcnode-Arranged_example =
    sort_tcnode-Arranged numbers (λ a. a) numbers-IsComparison jumbled (omega arith) (λ j. refl)

visit-nodes_of_example :
    visit (suc (length (nodes_of tree))) tree none heap
    ≡ done (map (λ n. n.tcs) (nodes_of tree), heap)
visit-nodes_of_example =
    visit-nodes_of tree heap tree-IsOrdered
      ((refl, omega arith), ((refl, omega arith), ((refl, omega arith), ((refl, omega arith), tt))))

abbrev rowstores : Rowstores
rowstores = record {
  trs_list = 50 ∷ 60 ∷ [];
  trs_curr = some 70;
  trs_refcnt = λ k. pos 2;
  trs_freed = [];
}

abbrev tuple : Tuple
tuple = record { t_block = 7; t_len = 100; t_data = 5 }

abbrev rowstore : RowStore
rowstore = record {
  usage = 4096;
  blkno_max = 0;
  blkno_min = 4294967294;
  length = 4096;
  ncols = 2;
  nrows = 0;
  tupoffset = λ i. 0;
  tuple_at = λ k. none;
}

do_insert_tuple-RowInserted_example :
    Returns (RowInserted numbers (λ a. a) numbers-IsComparison 4 (row 5002) heap) (
      do_insert_tuple numbers
        (λ i n. none)
        4
        (row 5002)
        (record { is_fixed = true; vsize = 8; bytes = some (1 ∷ []) } ∷ [])
        heap)
do_insert_tuple-RowInserted_example =
    do_insert_tuple-RowInserted numbers (λ a. a) numbers-IsComparison (λ i n. none) 4 (row 5002)
      (record { is_fixed = true; vsize = 8; bytes = some (1 ∷ []) } ∷ []) heap blocks_mono
      (
        four (λ j. (4 ≤ ((store 4).rows j).ctid / 1000) × (((store 4).rows j).ctid / 1000 ≤ 5))
            (omega arith, omega arith) (omega arith, omega arith) (omega arith, omega arith)
            (omega arith, omega arith),
        λ e. store-IsInOrder,
      )
      (refl, tt) (omega arith) refl
