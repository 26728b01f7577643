-- ===== src/Tcache/Insert/Tuple.antt =====
-- A whole insertion into a column store.
use pg_strom.Prelude.{
  ℕ, suc, ◌<◌, ◌≤◌, ◌≡◌, refl, true, false, ◌&&◌, ◌||◌, ◌==◌, Option, none, some, List, [], ◌∷◌,
  leb, arith, lt→ltb,
}
use pg_strom.Prelude.Run.{done, Returns}
use pg_strom.Tcache.{ItemPointers, IsComparison, Row, Heap}
use pg_strom.Tcache.Sort.{num_rows_per_colstore}
use pg_strom.Tcache.Insert.{Value, put_value, put_values, do_insert_tuple}
use pg_strom.Tcache.Insert.Range.{IsKept, Extends, extend_store-IsKept}

module _ (ip : ItemPointers) (rank : ip.Ctid → ℕ) (law : IsComparison ip rank) where
  -- All cached columns have a fixed length, and each has its place for a toast buffer.
  abbrev pub AreFixed : List Value → List (Option ℕ) → Type 0
  AreFixed [] [] = Unit {0}
  AreFixed [] (tbuf ∷ toast) = ⊥
  AreFixed (v ∷ values) [] = ⊥
  AreFixed (v ∷ values) (tbuf ∷ toast) = (v.is_fixed ≡ true) × AreFixed values toast

  put_value-fixed :
      (alloc : ℕ → Option (ℕ × ℕ)) (v : Value) (tbuf : Option ℕ) (h : Heap ip.Ctid)
      → v.is_fixed ≡ true
      → put_value alloc v tbuf h ≡ done (some (tbuf, h))
  unfolding put_value
  put_value-fixed alloc v none h e = rw e refl
  put_value-fixed alloc v (some tbuf) h e = rw e refl

  put_values-fixed :
      (alloc : ℕ → ℕ → Option (ℕ × ℕ)) (i : ℕ) (values : List Value) (toast : List (Option ℕ))
      (h : Heap ip.Ctid)
      → AreFixed values toast
      → put_values alloc i values toast h ≡ done (some (toast, h))
  unfolding put_values
  put_values-fixed alloc i [] [] h fixed = refl
  put_values-fixed alloc i [] (tbuf ∷ toast) h fixed = absurd fixed
  put_values-fixed alloc i (v ∷ values) [] h fixed = absurd fixed
  put_values-fixed alloc i (v ∷ values) (tbuf ∷ toast) h (at_v, fixed) =
      rw
        (
          put_value-fixed (alloc i) v tbuf h at_v,
          put_values-fixed alloc (suc i) values toast h fixed,
        )
        refl

  abbrev pub RowInserted : ℕ → Row ip.Ctid → Heap ip.Ctid → Option (Heap ip.Ctid) → Type 0
  RowInserted a row h none = ⊥
  RowInserted a row h (some h') =
      Extends ip rank law (h.stores a) row (h'.stores a)
      × IsKept ip rank law (h'.stores a)
      × ((j : ℕ) → (j == a) ≡ false → h'.stores j ≡ h.stores j)

  -- Where item pointers are compared by `rank`, which puts those of later blocks behind, all columns
  -- have a fixed length, the column store has room and is empty or has the block of the tuple in its
  -- range, an insertion fails no assertion and raises no error: the row is put behind the others, which
  -- stay as they are, as all other column stores do. If all rows were in the range of blocks, and in
  -- order if `is_sorted` says so, they are so afterwards. A row is the item pointer and the header of the
  -- tuple and, for each column, the bytes that stand in the array of its values, without the null map.
  pub do_insert_tuple-RowInserted :
      (alloc : ℕ → ℕ → Option (ℕ × ℕ)) (a : ℕ) (row : Row ip.Ctid) (values : List Value)
      (h : Heap ip.Ctid)
      → ((a b : ip.Ctid) → rank a ≤ rank b → ip.block_number a ≤ ip.block_number b)
      → IsKept ip rank law (h.stores a)
      → AreFixed values ((h.stores a).toast)
      → (h.stores a).nrows < num_rows_per_colstore
      → (((h.stores a).nrows == 0)
          || (leb ((h.stores a).blkno_min) (ip.block_number (row.ctid))
              && leb (ip.block_number (row.ctid)) ((h.stores a).blkno_max)))
        ≡ true
      → Returns (RowInserted a row h) (do_insert_tuple ip alloc a row values h)
  unfolding do_insert_tuple
  do_insert_tuple-RowInserted alloc a row values h blocks kept fixed room inside =
      let here : (a == a) ≡ true = ground arith in
      let (ext, kept') = extend_store-IsKept ip rank law row (h.stores a) blocks kept in
      rw
        (
          lt→ltb ((h.stores a).nrows) num_rows_per_colstore room,
          inside,
          put_values-fixed alloc 0 values ((h.stores a).toast) h fixed,
          here,
        )
        (ext, kept', λ j other. rw other refl)
