-- ===== src/Tcache/Insert.antt =====
-- `do_insert_tuple` and `tcache_insert_tuple`: a tuple of the table goes into the tree, when the cache
-- is built. `row` is the item pointer and the header of the tuple with the bytes that stand at
-- `&values[j]`, which of a column that is passed by reference are those of a pointer; `isnull` is not
-- read. `values` are the cached columns that `heap_deform_tuple` gives, and `alloc`
-- is what `pgstrom_shmem_alloc_alap` gives for a column and a length: an address and the length
-- allocated. A result `none` is the error "out of shared memory", at which the rows stay as they are.
pub mod Range
pub mod Tuple
use pg_strom.Prelude.{
  ℕ, zero, suc, ◌+◌, ◌-◌, ◌*◌, ◌%◌, ◌^◌, Bool, true, false, not, ◌&&◌, ◌||◌, ◌==◌, if◌then◌else◌,
  ltb, leb, update, max, Option, none, some, List, [], ◌∷◌, map,
}
use pg_strom.Prelude.Int.{pos, lt_int}
use pg_strom.Prelude.Run.{Run, done, fault, check, ◌>>=◌, ◌>>◌}
use pg_strom.Tcache.{
  ItemPointers, Row, ColumnStore, Heap, Toastbuf, Tree, leaf, node, Node, is_leaf, put_toast_buffer,
}
use pg_strom.Tcache.Sort.{num_rows_per_colstore}
use pg_strom.Tcache.Balance.{tcache_node_depth, rebalance_tree}
use pg_strom.Tcache.Split.{split_tcnode}
use pg_strom.Tcache.Rowstore.{maxalign}

-- A value of a cached column: of fixed length, or of `vsize` bytes in the toast buffer.
pub record Value : Type 0 where
  pub is_fixed : Bool
  pub vsize : ℕ
  pub bytes : Option (List ℕ)

abbrev pub toastbuf_initsize : ℕ
toastbuf_initsize = 32 * 1024 * 1024 - 4

-- A step that may end in the error, and what follows it.
abbrev pub and_then {ℓ κ} :
    {A : Type ℓ} {B : Type κ} → Run (Option A) → (A → Run (Option B)) → Run (Option B)
and_then (done (some a)) f = f a
and_then (done none) f = done none
and_then fault f = fault

module _ {C : Type 0} where
  -- The larger toast buffer, with the contents of the old one, which is put.
  unfoldable pub expand_toast_buffer : (ℕ → Option (ℕ × ℕ)) → ℕ → Heap C → Run (Option (ℕ × Heap C))
  expand_toast_buffer alloc tbuf h =
      let t = h.toasts tbuf in
      elim (alloc (max (2 * t.tbuf_length % 2 ^ 32) toastbuf_initsize)) [
        | none ↦ done none
        | some r ↦
            let (tbuf_new, allocated) = r in
            let copy = record t { refcnt = pos 1; tbuf_length = allocated % 2 ^ 32 } in
            put_toast_buffer tbuf (record h { toasts = update h.toasts tbuf_new copy }) >>= λ h'.
            done (some (tbuf_new, h'))
      ]

  -- The test of the room, as it is written.
  unfoldable pub put_varlena : (ℕ → Option (ℕ × ℕ)) → ℕ → ℕ → Heap C → Run (Option (ℕ × Heap C))
  put_varlena alloc tbuf vsize h =
      let t = h.toasts tbuf in
      let room : Run (Option (ℕ × Heap C)) =
        if ltb (t.tbuf_usage + maxalign vsize) (t.tbuf_length)
        then expand_toast_buffer alloc tbuf h
        else done (some (tbuf, h)) in
      and_then room (λ (b, h').
        let u = h'.toasts b in
        check (ltb (u.tbuf_usage + maxalign vsize) (u.tbuf_length))
        >> done (
            some (
              b,
              record h' {
                toasts =
                    update h'.toasts b (record u { tbuf_usage = u.tbuf_usage + maxalign vsize });
              },
            )))

  -- One column of the loop.
  unfoldable pub put_value :
      (ℕ → Option (ℕ × ℕ)) → Value → Option ℕ → Heap C → Run (Option (Option ℕ × Heap C))
  put_value alloc v none h = if v.is_fixed then done (some (none, h)) else fault
  put_value alloc v (some tbuf) h =
      if v.is_fixed
      then done (some (some tbuf, h))
      else and_then (put_varlena alloc tbuf (v.vsize) h) (λ (b, h'). done (some (some b, h')))

  -- The loop over the columns, with the toast buffers that the column store has then. A column of
  -- variable length has a toast buffer, or the code follows a null pointer.
  unfoldable pub put_values :
      (ℕ → ℕ → Option (ℕ × ℕ))
      → ℕ
      → List Value
      → List (Option ℕ)
      → Heap C
      → Run (Option (List (Option ℕ) × Heap C))
  put_values alloc i [] toast h = done (some ([], h))
  put_values alloc i (v ∷ values) [] h = fault
  put_values alloc i (v ∷ values) (tbuf ∷ toast) h =
      and_then (put_value (alloc i) v tbuf h) (λ (tbuf', h').
        and_then (put_values alloc (suc i) values toast h')
          (λ (toast', h''). done (some (tbuf' ∷ toast', h''))))

-- What is allocated when a tuple needs a new node or a split.
pub record Fresh (D : Type 0) : Type 0 where
  pub tc_node_new : Node
  pub store : ColumnStore D
  pub compacted : Option (ColumnStore D)
  pub tcs_new : ℕ

module _ (ip : ItemPointers) where
  -- The row behind the others, the bytes of its columns in the arrays of values, with the range of blocks and the sign that the rows are sorted.
  unfoldable pub extend_store : Row ip.Ctid → ColumnStore ip.Ctid → ColumnStore ip.Ctid
  extend_store row tcs =
      let blkno = ip.block_number (row.ctid) in
      let last = (tcs.rows (tcs.nrows - 1)).ctid in
      let put = record tcs { rows = update tcs.rows tcs.nrows row; nrows = suc tcs.nrows } in
      if tcs.nrows == 0
      then record put { blkno_min = blkno; blkno_max = blkno; is_sorted = true }
      else if tcs.is_sorted
      then (if lt_int (pos 0) (ip.item_pointer_compare (row.ctid) last)
          then record put { blkno_max = blkno }
          else record put {
            is_sorted = false;
            blkno_min = if ltb blkno (tcs.blkno_min) then blkno else tcs.blkno_min;
          })
      else record put {
        blkno_max = if ltb (tcs.blkno_max) blkno then blkno else tcs.blkno_max;
        blkno_min = if ltb blkno (tcs.blkno_min) then blkno else tcs.blkno_min;
      }

  unfoldable pub do_insert_tuple :
      (ℕ → ℕ → Option (ℕ × ℕ))
      → ℕ
      → Row ip.Ctid
      → List Value
      → Heap ip.Ctid
      → Run (Option (Heap ip.Ctid))
  do_insert_tuple alloc a row values h =
      let tcs = h.stores a in
      let blkno = ip.block_number (row.ctid) in
      check (ltb (tcs.nrows) num_rows_per_colstore)
      >> (check ((tcs.nrows == 0) || (leb (tcs.blkno_min) blkno && leb blkno (tcs.blkno_max)))
          >> and_then (put_values alloc 0 values (tcs.toast) h) (λ (toast, h'). done (
              some (record h' {
                stores = update h'.stores a (record (extend_store row tcs) { toast = toast });
              }))))

  abbrev pub rebalance_with :
      Tree → (Tree → Tree) → Heap ip.Ctid → Run (Option (Tree × Heap ip.Ctid))
  rebalance_with child rebuilt h = rebalance_tree child >>= λ t. done (some (rebuilt t, h))

  -- The tuple goes to a child, which is a new node where there is none.
  unfoldable pub insert_left :
      (ℕ → ℕ → Option (ℕ × ℕ))
      → Fresh ip.Ctid
      → Row ip.Ctid
      → List Value
      → Tree
      → Node
      → Tree
      → Heap ip.Ctid
      → Run (Option (Tree × Heap ip.Ctid))
  insert_left alloc fresh row values (node a m b) n r h =
      and_then (do_insert_tuple alloc (m.tcs) row values h) (λ h'.
        rebalance_with (node a m b)
          (λ l. node l (record n { l_depth = tcache_node_depth (node a m b) }) r) h')
  insert_left alloc fresh row values leaf n r h =
      let m = fresh.tc_node_new in
      let h1 = record h { stores = update h.stores (m.tcs) fresh.store } in
      and_then (do_insert_tuple alloc (m.tcs) row values h1) (λ h'.
        rebalance_with (node leaf m leaf)
          (λ l. node l (record n { l_depth = tcache_node_depth (node leaf m leaf) }) r) h')

  unfoldable pub insert_right :
      (ℕ → ℕ → Option (ℕ × ℕ))
      → Fresh ip.Ctid
      → Row ip.Ctid
      → List Value
      → Tree
      → Node
      → Tree
      → Heap ip.Ctid
      → Run (Option (Tree × Heap ip.Ctid))
  insert_right alloc fresh row values l n (node a m b) h =
      and_then (do_insert_tuple alloc (m.tcs) row values h) (λ h'.
        rebalance_with (node a m b)
          (λ r. node l (record n { r_depth = tcache_node_depth (node a m b) }) r) h')
  insert_right alloc fresh row values l n leaf h =
      let m = fresh.tc_node_new in
      let h1 = record h { stores = update h.stores (m.tcs) fresh.store } in
      and_then (do_insert_tuple alloc (m.tcs) row values h1) (λ h'.
        rebalance_with (node leaf m leaf)
          (λ r. node l (record n { r_depth = tcache_node_depth (node leaf m leaf) }) r) h')

  unfoldable pub insert_here :
      (ℕ → ℕ → Option (ℕ × ℕ))
      → Row ip.Ctid
      → List Value
      → Tree
      → Node
      → Tree
      → Heap ip.Ctid
      → Run (Option (Tree × Heap ip.Ctid))
  insert_here alloc row values l n r h =
      and_then (do_insert_tuple alloc (n.tcs) row values h) (λ h'. done (some (node l n r, h')))

  -- From `retry` on. `tcs` is the column store that the node had at first, also behind a split, which
  -- gives the node another one; the first argument counts the rounds.
  unfoldable pub insert_retry :
      ℕ
      → (ℕ → ℕ → Option (ℕ × ℕ))
      → Fresh ip.Ctid
      → ℕ
      → Row ip.Ctid
      → List Value
      → ℕ
      → Tree
      → Heap ip.Ctid
      → Run (Option (Tree × Heap ip.Ctid))
  insert_retry zero alloc fresh xid row values tcs t h = fault
  insert_retry (suc rounds) alloc fresh xid row values tcs leaf h = fault
  insert_retry (suc rounds) alloc fresh xid row values tcs (node l n r) h =
      let s = h.stores tcs in
      let blkno_cur = ip.block_number (row.ctid) in
      let room = ltb (s.nrows) num_rows_per_colstore in
      if ltb blkno_cur (s.blkno_min)
      then (if is_leaf l && room
          then insert_here alloc row values l n r h
          else insert_left alloc fresh row values l n r h)
      else if ltb (s.blkno_max) blkno_cur
      then (if is_leaf r && room
          then insert_here alloc row values l n r h
          else insert_right alloc fresh row values l n r h)
      else if room
      then insert_here alloc row values l n r h
      else (split_tcnode ip l n r fresh.tc_node_new fresh.store xid fresh.compacted fresh.tcs_new h
          >>= λ ((t', failed), h'). elim failed [
            | true ↦ done none
            | false ↦ insert_retry rounds alloc fresh xid row values tcs t' h'
          ])

  unfoldable pub insert_tuple :
      (ℕ → ℕ → Option (ℕ × ℕ))
      → Fresh ip.Ctid
      → ℕ
      → Row ip.Ctid
      → List Value
      → Tree
      → Heap ip.Ctid
      → Run (Option (Tree × Heap ip.Ctid))
  insert_tuple alloc fresh xid row values leaf h = fault
  insert_tuple alloc fresh xid row values (node l n r) h =
      if (h.stores (n.tcs)).nrows == 0
      then insert_here alloc row values l n r h
      else insert_retry 2 alloc fresh xid row values (n.tcs) (node l n r) h

  -- The scan of the table, tuple by tuple, with what each insertion finds allocated.
  unfoldable pub build_main :
      (ℕ → ℕ → ℕ → Option (ℕ × ℕ))
      → (ℕ → Fresh ip.Ctid)
      → ℕ
      → ℕ
      → List (Row ip.Ctid × List Value)
      → Tree
      → Heap ip.Ctid
      → Run (Option (Tree × Heap ip.Ctid))
  build_main alloc fresh xid k [] t h = done (some (t, h))
  build_main alloc fresh xid k (p ∷ tuples) t h =
      and_then (insert_tuple (alloc k) (fresh k) xid (p.0) (p.1) t h)
        (λ (t', h'). rebalance_tree t' >>= λ t''. build_main alloc fresh xid (suc k) tuples t'' h')
