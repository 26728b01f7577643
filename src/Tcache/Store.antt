-- ===== src/Tcache/Store.antt =====
-- `tcache_create_column_store`: the arrays of a new column store, in one block of the segment. What the
-- compiler makes of the types of PostgreSQL, an item pointer, a tuple header and a lock, are
-- parameters. A `Size` wraps at 2 ^ 64; offsets count from the block.
pub mod Areas
use pg_strom.Prelude.{
  ℕ, suc, ◌+◌, ◌*◌, ◌/◌, ◌%◌, ◌^◌, Bool, Option, none, some, List, [], ◌∷◌, if◌then◌else◌, ◌==◌,
  length,
}
use pg_strom.Prelude.Int.{ℤ, pos}
use pg_strom.Prelude.Run.{Run, done, check, ◌>>◌}
use pg_strom.Tcache.Rowstore.{maxalign}
use pg_strom.Tcache.Sort.{num_rows_per_colstore}

-- `offsetof(tcache_column_store, cdata)`, `sizeof(ItemPointerData)`, `sizeof(HeapTupleHeaderData)`.
pub record Sizes : Type 0 where
  pub cdata_offset : ℕ
  pub item_pointer : ℕ
  pub tuple_header : ℕ

-- The attribute of a cached column, `tc_head->tupdesc->attrs[tc_head->i_cached[i]]`.
pub record Attribute : Type 0 where
  pub attlen : ℤ
  pub attnotnull : Bool

-- The arrays of a column.
pub record Cdata : Type 0 where
  pub isnull : Option ℕ
  pub values : ℕ

-- What the function sets; the other fields are zero, and no column has a toast buffer.
pub record NewStore : Type 0 where
  pub address : ℕ
  pub refcnt : ℤ
  pub ncols : ℕ
  pub ctids : ℕ
  pub theads : ℕ
  pub cdata : List Cdata

abbrev pub add_size : ℕ → ℕ → ℕ
add_size a b = (a + b) % 2 ^ 64

-- `attr->attlen > 0 ? attr->attlen : sizeof(cl_uint)`.
abbrev pub value_size : ℤ → ℕ
value_size (pos (suc n)) = suc n
value_size _ = 4

abbrev pub null_length : ℕ
null_length = maxalign (num_rows_per_colstore / 8)

abbrev pub values_length : Attribute → ℕ
values_length a = maxalign (value_size a.attlen * num_rows_per_colstore)

-- The loop that estimates the length.
abbrev pub add_lengths : ℕ → List Attribute → ℕ
add_lengths size [] = size
add_lengths size (a ∷ attrs) =
    add_lengths
      (add_size (if a.attnotnull then size else add_size size null_length) (values_length a)) attrs

-- The loop that places the arrays of the columns, with the offset that it ends with.
abbrev pub place_columns : ℕ → List Attribute → List Cdata × ℕ
place_columns offset [] = ([], offset)
place_columns offset (a ∷ attrs) =
    let values = if a.attnotnull then offset else add_size offset null_length in
    let rest = place_columns (add_size values (values_length a)) attrs in
    let isnull : Option ℕ = if a.attnotnull then none else some offset in
    (record { isnull = isnull; values = values } ∷ rest.0, rest.1)

module _ (s : Sizes) where
  -- `MAXALIGN(offsetof(tcache_column_store, cdata[ncols]))`, with three pointers for each column.
  abbrev pub head_length : ℕ → ℕ
  head_length ncols = maxalign (s.cdata_offset + 24 * ncols)

  abbrev pub theads_offset : ℕ → ℕ
  theads_offset ncols =
      add_size (head_length ncols) (maxalign (s.item_pointer * num_rows_per_colstore))

  abbrev pub columns_offset : ℕ → ℕ
  columns_offset ncols =
      add_size (theads_offset ncols) (maxalign (s.tuple_header * num_rows_per_colstore))

  abbrev pub estimated_length : List Attribute → ℕ
  estimated_length attrs = add_lengths (columns_offset (length attrs)) attrs

  -- What the segment gives for the length, or else the error of PostgreSQL.
  unfoldable pub create_column_store : List Attribute → (ℕ → Option ℕ) → Run (Option NewStore)
  create_column_store attrs alloc = elim (alloc (estimated_length attrs)) [
    | none ↦ done none
    | some tcs ↦
        let placed = place_columns (columns_offset (length attrs)) attrs in
        check (placed.1 == estimated_length attrs)
        >> done (
            some (record {
              address = tcs;
              refcnt = pos 1;
              ncols = length attrs;
              ctids = head_length (length attrs);
              theads = theads_offset (length attrs);
              cdata = placed.0;
            }))
  ]
