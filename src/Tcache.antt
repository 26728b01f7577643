-- ===== src/Tcache.antt =====
-- The columnar cache of tcache.c: column stores, which several holders share by a reference counter,
-- toast buffers, row stores, and the tree of nodes that own the column stores of a relation. Shared
-- objects are known by address. The item pointers of PostgreSQL are a parameter.
pub mod Find
pub mod Balance
pub mod Record
pub mod Sort
pub mod Compaction
pub mod Split
pub mod Scan
pub mod Rowstore
pub mod Current
pub mod Merge
pub mod Insert
pub mod Head
pub mod Store
pub mod Bitmap
use pg_strom.Prelude.{
  ℕ, suc, ◌+◌, ◌≡◌, Bool, true, false, not, Option, none, some, List, [], ◌∷◌, ◌++◌, if◌then◌else◌,
  update, ltb,
}
use pg_strom.Prelude.Int.{ℤ, pos, lt_int, eq_int, suc_int, pred_int}
use pg_strom.Prelude.Run.{Run, done, fault, check, ◌>>=◌, ◌>>◌}

-- What the code uses of item pointers; the last one is what `ItemPointerSet` writes for
-- `MaxBlockNumber` and `MaxOffsetNumber`.
pub record ItemPointers : Type 1 where
  pub Ctid : Type 0
  pub item_pointer_compare : Ctid → Ctid → ℤ
  pub block_number : Ctid → ℕ
  pub max_pointer : Ctid

-- The comparison is three-way, for the order in which `rank` numbers the item pointers.
abbrev pub IsComparison : (ip : ItemPointers) → (ip.Ctid → ℕ) → Type 0
IsComparison ip rank =
    (a b : ip.Ctid)
    → (lt_int (ip.item_pointer_compare a b) (pos 0) ≡ ltb (rank a) (rank b))
      × (lt_int (pos 0) (ip.item_pointer_compare a b) ≡ ltb (rank b) (rank a))

-- What the arrays of a column store hold at one index: the item pointer, the raw xmax of the tuple
-- header, and the bytes in the values array of each cached column of fixed length. Null maps and the
-- data of columns of variable length are no part of a row.
pub record Row (C : Type 0) : Type 0 where
  pub ctid : C
  pub raw_xmax : ℕ
  pub columns : List (List ℕ)

-- `tcache_column_store`, with the arrays as functions of the index; `toast` has the address of the
-- toast buffer of each cached column that has one.
pub record ColumnStore (C : Type 0) : Type 0 where
  pub refcnt : ℤ
  pub nrows : ℕ
  pub njunks : ℕ
  pub is_sorted : Bool
  pub blkno_max : ℕ
  pub blkno_min : ℕ
  pub rows : ℕ → Row C
  pub toast : List (Option ℕ)

-- `tcache_toastbuf`.
pub record Toastbuf : Type 0 where
  pub refcnt : ℤ
  pub tbuf_length : ℕ
  pub tbuf_usage : ℕ
  pub tbuf_junk : ℕ

-- The objects in shared memory, those that were freed, the last one first, and the free nodes of the
-- relation, `free_list` of `tcache_head`.
pub record Heap (C : Type 0) : Type 0 where
  pub stores : ℕ → ColumnStore C
  pub toasts : ℕ → Toastbuf
  pub freed : List ℕ
  pub free_list : List ℕ

-- `tcache_node`, without its links, which the tree holds.
pub record Node : Type 0 where
  pub address : ℕ
  pub tcs : ℕ
  pub l_depth : ℕ
  pub r_depth : ℕ

pub data Tree : Type 0 where
  leaf : Tree
  node : Tree → Node → Tree → Tree

abbrev pub is_leaf : Tree → Bool
is_leaf leaf = true
is_leaf (node l n r) = false

-- The nodes from the least to the greatest blocks.
abbrev pub nodes_of : Tree → List Node
nodes_of leaf = []
nodes_of (node l n r) = nodes_of l ++ n ∷ nodes_of r

-- Signed counters are read as the code reads them: `Assert(refcnt > 0)` and `--refcnt == 0`.
abbrev pub get_toast_buffer : ℕ → (ℕ → Toastbuf) → Run (ℕ → Toastbuf)
get_toast_buffer tbuf toasts =
    check (lt_int (pos 0) ((toasts tbuf).refcnt))
    >> done (update toasts tbuf (record (toasts tbuf) { refcnt = suc_int ((toasts tbuf).refcnt) }))

module _ {C : Type 0} where
  unfoldable pub put_toast_buffer : ℕ → Heap C → Run (Heap C)
  put_toast_buffer tbuf h =
      let t = h.toasts tbuf in
      let rest = record t { refcnt = pred_int (t.refcnt) } in
      check (lt_int (pos 0) (t.refcnt))
      >> done (record h {
        toasts = update h.toasts tbuf rest;
        freed = if eq_int (rest.refcnt) (pos 0) then tbuf ∷ h.freed else h.freed;
      })

  -- The loop over the columns of a column store that is released.
  abbrev pub put_toasts : List (Option ℕ) → Heap C → Run (Heap C)
  put_toasts [] h = done h
  put_toasts (none ∷ l) h = put_toasts l h
  put_toasts (some tbuf ∷ l) h = put_toast_buffer tbuf h >>= λ h'. put_toasts l h'

  unfoldable pub get_column_store : ℕ → Heap C → Run (Heap C)
  get_column_store tcs h =
      let s = h.stores tcs in
      check (lt_int (pos 0) (s.refcnt))
      >> done (record h { stores = update h.stores tcs (record s { refcnt = suc_int (s.refcnt) }) })

  unfoldable pub put_column_store : ℕ → Heap C → Run (Heap C)
  put_column_store tcs h =
      let s = h.stores tcs in
      let rest = record s { refcnt = pred_int (s.refcnt) } in
      let h' = record h { stores = update h.stores tcs rest } in
      check (lt_int (pos 0) (s.refcnt))
      >> (if eq_int (rest.refcnt) (pos 0)
          then (put_toasts (s.toast) h' >>= λ g. done (record g { freed = tcs ∷ g.freed }))
          else done h')

  -- `tcache_free_node_nolock` and `tcache_free_node_recurse`.
  unfoldable pub free_node_nolock : Node → Heap C → Run (Heap C)
  free_node_nolock n h =
      put_column_store (n.tcs) h >>= λ h'. done (record h' { free_list = n.address ∷ h'.free_list })

  unfoldable pub free_node_recurse : Tree → Heap C → Run (Heap C)
  free_node_recurse leaf h = done h
  free_node_recurse (node l n r) h =
      free_node_recurse r h >>= λ h'. free_node_recurse l h' >>= λ h''. free_node_nolock n h''
