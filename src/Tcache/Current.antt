-- ===== src/Tcache/Current.antt =====
-- `tcache_insert_tuple_row`: a tuple goes to the current row store; one that is full goes to the list
-- of the row stores for the columnizer, and a new one is made. The rounds of `retry` run on fuel; in
-- each, `alloc` is the address that `pgstrom_shmem_alloc` gives, if any, and `fresh` its memory.
-- A result `none` is the error "out of shared memory". The columnizer that is woken is not modelled.
pub mod Put
use pg_strom.Prelude.{ℕ, zero, suc, Bool, true, false, Option, none, some, List, ◌∷◌, update}
use pg_strom.Prelude.Int.{pos}
use pg_strom.Prelude.Run.{Run, done, fault, ◌>>=◌}
use pg_strom.Tcache.Scan.{Rowstores, get_row_store, put_row_store}
use pg_strom.Tcache.Rowstore.{Tuple, RowStore, create_row_store, row_store_insert_tuple}

pub record Current : Type 0 where
  pub heads : Rowstores
  pub stores : ℕ → RowStore

-- What a new row store depends on: the offset of its kernel part, the columns of the table and those
-- that are cached, and the memory.
pub record Layout : Type 0 where
  pub kern_offset : ℕ
  pub natts : ℕ
  pub ncols : ℕ
  pub fresh : RowStore

abbrev pub new_row_store : Layout → RowStore
new_row_store y = create_row_store y.kern_offset y.natts y.ncols y.fresh

-- The current row store, a new one if there is none, by its address.
unfoldable pub ensure_current : Layout → Option ℕ → Current → Option (ℕ × Current)
ensure_current y alloc c = elim c.heads.trs_curr [
  | some a ↦ some (a, c)
  | none ↦ elim alloc [
    | none ↦ none
    | some a ↦ some (
      a,
      record {
        heads = record c.heads {
          trs_curr = some a;
          trs_refcnt = update c.heads.trs_refcnt a (pos 1);
        };
        stores = update c.stores a (new_row_store y);
      },
    )
  ]
]

-- One attempt, and what follows where the row store has no room.
unfoldable pub try_current :
    ℕ → Tuple → ℕ → Current → (Current → Run (Option Current)) → Run (Option Current)
try_current size tuple a c retry = get_row_store a c.heads >>= λ s.
    let (trs, inserted) = row_store_insert_tuple size (c.stores a) tuple in
    elim inserted [
      | true ↦ done (some (record { heads = s; stores = update c.stores a trs }))
      | false ↦ put_row_store a (record s { trs_list = a ∷ s.trs_list }) >>= λ s'.
          retry (record c { heads = record s' { trs_curr = none } })
    ]

unfoldable pub insert_tuple_row :
    ℕ → ℕ → Layout → (ℕ → Option ℕ) → Tuple → Current → Run (Option Current)
insert_tuple_row zero size y alloc tuple c = fault
insert_tuple_row (suc rounds) size y alloc tuple c = elim (ensure_current y (alloc rounds) c) [
  | none ↦ done none
  | some p ↦ try_current size tuple (p.0) (p.1) (insert_tuple_row rounds size y alloc tuple)
]
