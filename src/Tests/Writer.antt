-- ===== src/Tests/Writer.antt =====
-- A tuple for which the current row store has no room.
use pg_strom.Prelude.{ℕ, ◌≡◌, refl, none, some, [], ◌∷◌, ◌⊎◌, ◌==◌, if◌then◌else◌, arith}
use pg_strom.Prelude.Int.{pos}
use pg_strom.Prelude.Run.{Returns}
use pg_strom.Tcache.Rowstore.{Tuple, RowStore, create_row_store}
use pg_strom.Tcache.Current.{Current, Layout, insert_tuple_row}
use pg_strom.Tcache.Current.Put.{Put, HasRoom, Usable, insert_tuple_row-Put}

abbrev tuple : Tuple
tuple = record { t_block = 7; t_len = 100; t_data = 5 }

abbrev full : RowStore
full = record {
  usage = 180;
  blkno_max = 0;
  blkno_min = 4294967294;
  length = 4096;
  ncols = 2;
  nrows = 0;
  tupoffset = λ i. 0;
  tuple_at = λ k. none;
}

abbrev layout : Layout
layout = record { kern_offset = 104; natts = 2; ncols = 1; fresh = full }

abbrev current : Current
current = record {
  heads = record { trs_list = []; trs_curr = some 70; trs_refcnt = λ k. pos 1; trs_freed = [] };
  stores = λ a. full;
}

layout-HasRoom : HasRoom 48 tuple layout
unfolding create_row_store
layout-HasRoom = (omega arith, omega arith, omega arith, omega arith)

usable : (a : ℕ) → current.heads.trs_curr ≡ some a → Usable 48 tuple a current
usable a e =
    ((omega arith, omega arith, omega arith, λ i h. absurd (omega arith)), omega arith, refl, e)

insert_tuple_row-Put_example :
    Returns
      (λ o.
        ((a : ℕ) × (current.heads.trs_curr ≡ some a) × Put tuple [] a o)
        ⊎ (((current.heads.trs_curr ≡ none) × Put tuple [] 80 o)
            ⊎ ((a : ℕ) × (current.heads.trs_curr ≡ some a) × Put tuple (a ∷ []) 90 o)))
      (insert_tuple_row 2 48 layout (λ k. some (if k == 0 then 90 else 80)) tuple current)
insert_tuple_row-Put_example =
    insert_tuple_row-Put 48 tuple layout (λ k. some (if k == 0 then 90 else 80)) 80 90 current
      (omega arith) layout-HasRoom refl refl usable
