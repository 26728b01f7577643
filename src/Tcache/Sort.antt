-- ===== src/Tcache/Sort.antt =====
-- `tcache_sort_tcnode_internal` and `tcache_sort_tcnode`: the sort of the rows of a column store. The
-- pivot is a pointer into the array that is sorted, so it is an index here, and what it holds changes
-- when its row is swapped. The right end is passed as the index behind it. Each loop runs on fuel.
pub mod Arranged
pub mod Scan
pub mod Total
use pg_strom.Prelude.{
  ℕ, zero, suc, ◌+◌, ◌-◌, ◌/◌, ◌^◌, Bool, true, false, ◌==◌, if◌then◌else◌, ltb, update, Option,
  none, some, List, [], ◌∷◌, length, ◌&&◌,
}
use pg_strom.Prelude.Int.{pos, lt_int}
use pg_strom.Prelude.Run.{Run, done, fault, check, ◌>>=◌, ◌>>◌}
use pg_strom.Tcache.{ItemPointers, Row, ColumnStore, Heap, Node, get_toast_buffer, put_column_store}

abbrev pub num_rows_per_colstore : ℕ
num_rows_per_colstore = 262144

-- The `Assert` of `memswap`, for the values of a row: the temporary has 32 bytes. Item pointers and
-- tuple headers fit it.
abbrev pub fits_temp : List (List ℕ) → Bool
fits_temp [] = true
fits_temp (bytes ∷ columns) = ltb (length bytes) 32 && fits_temp columns

-- `memswap` of the item pointers, headers and values at two indices.
unfoldable pub swap_rows : {C : Type 0} → (ℕ → Row C) → ℕ → ℕ → ℕ → Row C
swap_rows rows x y = update (update rows x (rows y)) y (rows x)

module _ (ip : ItemPointers) where
  -- `while (ItemPointerCompare(&ctids[li], pivot) < 0) li++`, which reads no row behind the array.
  unfoldable pub scan_up : ℕ → (ℕ → Row ip.Ctid) → ℕ → ℕ → Run ℕ
  scan_up zero rows pivot li = fault
  scan_up (suc fuel) rows pivot li =
      let rest = scan_up fuel rows pivot (suc li) in
      if ltb li num_rows_per_colstore
      then (if lt_int (ip.item_pointer_compare ((rows li).ctid) ((rows pivot).ctid)) (pos 0)
          then rest
          else done li)
      else fault

  -- `while (ItemPointerCompare(&ctids[ri], pivot) > 0) ri--`, which reads no row before the array.
  unfoldable pub scan_down : ℕ → (ℕ → Row ip.Ctid) → ℕ → ℕ → Run ℕ
  scan_down zero rows pivot ri = fault
  scan_down (suc fuel) rows pivot ri =
      let rest = scan_down fuel rows pivot (ri - 1) in
      if lt_int (pos 0) (ip.item_pointer_compare ((rows ri).ctid) ((rows pivot).ctid))
      then (if ri == 0 then fault else rest)
      else done ri

  -- The loop that swaps: it returns the rows and the two indices behind it.
  unfoldable pub partition : ℕ → (ℕ → Row ip.Ctid) → ℕ → ℕ → ℕ → Run ((ℕ → Row ip.Ctid) × ℕ × ℕ)
  partition zero rows pivot li ri = fault
  partition (suc fuel) rows pivot li ri =
      if ltb li ri
      then (scan_up num_rows_per_colstore rows pivot li >>= λ li'.
          scan_down num_rows_per_colstore rows pivot ri >>= λ ri'. elim (ltb li' ri') [
            | true ↦
                check (fits_temp ((rows li').columns) && fits_temp ((rows ri').columns))
                >> partition fuel (swap_rows rows li' ri') pivot (suc li') (ri' - 1)
            | false ↦ done (rows, li', ri')
          ])
      else done (rows, li, ri)

  -- `bound` is `right + 1`.
  unfoldable pub sort_tcnode_internal : ℕ → (ℕ → Row ip.Ctid) → ℕ → ℕ → Run (ℕ → Row ip.Ctid)
  sort_tcnode_internal zero rows left bound = fault
  sort_tcnode_internal (suc fuel) rows left bound =
      if ltb (suc left) bound
      then (partition num_rows_per_colstore rows ((left + (bound - 1)) / 2) left (bound - 1)
          >>= λ (rows', li, ri). sort_tcnode_internal fuel rows' left li >>= λ rows''.
              sort_tcnode_internal fuel rows'' (suc ri) bound)
      else done rows

  -- The sort of a column store, with the sign that it is sorted.
  unfoldable pub sort_tcnode : ColumnStore ip.Ctid → Run (ColumnStore ip.Ctid)
  sort_tcnode tcs =
      sort_tcnode_internal (suc num_rows_per_colstore) tcs.rows 0 tcs.nrows >>= λ rows.
      done (record tcs { rows = rows; is_sorted = true })

  -- The references on the toast buffers that two column stores share.
  unfoldable pub get_toasts : List (Option ℕ) → Heap ip.Ctid → Run (Heap ip.Ctid)
  get_toasts [] h = done h
  get_toasts (none ∷ l) h = get_toasts l h
  get_toasts (some tbuf ∷ l) h =
      get_toast_buffer tbuf (h.toasts) >>= λ toasts. get_toasts l (record h { toasts = toasts })

  -- The copy that keeps the toast buffers; `fresh` is what `tcache_create_column_store` gives, whose
  -- number of rows, zero, the code leaves as it is.
  unfoldable pub duplicate_column_store :
      ColumnStore ip.Ctid
      → ColumnStore ip.Ctid
      → Heap ip.Ctid
      → Run (ColumnStore ip.Ctid × Heap ip.Ctid)
  duplicate_column_store tcs_old fresh h = get_toasts tcs_old.toast h >>= λ h'. done (
    record fresh {
      rows = λ i. if ltb i tcs_old.nrows then tcs_old.rows i else fresh.rows i;
      toast = tcs_old.toast;
    },
    h',
  )

  -- The sort of a node, in place or in a copy at `tcs_new`.
  unfoldable pub sort_node :
      Bool → Node → ColumnStore ip.Ctid → ℕ → Heap ip.Ctid → Run (Node × Heap ip.Ctid)
  sort_node true n fresh tcs_new h = sort_tcnode (h.stores n.tcs) >>= λ sorted.
      done (n, record h { stores = update h.stores n.tcs sorted })
  sort_node false n fresh tcs_new h =
      duplicate_column_store (h.stores n.tcs) fresh h >>= λ (copy, h1).
      put_column_store n.tcs h1 >>= λ h2. sort_tcnode copy >>= λ sorted.
      done (record n { tcs = tcs_new }, record h2 { stores = update h2.stores tcs_new sorted })
