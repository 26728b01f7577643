-- ===== src/Tcache/Store/Areas.antt =====
-- Where the arrays of a new column store lie.
use pg_strom.Prelude.{
  ℕ, ◌+◌, ◌*◌, ◌/◌, ◌%◌, ◌^◌, ◌≡◌, ◌≤◌, ◌<◌, refl, Option, none, some, List, [], ◌∷◌, ◌++◌, length,
  arith, inl, inr, Bool-cases, ==-refl, subst,
}
use pg_strom.Prelude.Run.{Returns}
use pg_strom.Tcache.Rowstore.{maxalign}
use pg_strom.Tcache.Sort.{num_rows_per_colstore}
use pg_strom.Tcache.Store.{
  Sizes, Attribute, Cdata, NewStore, value_size, add_lengths, place_columns, head_length,
  columns_offset, theads_offset, estimated_length, create_column_store, values_length, null_length,
  add_size,
}

-- The areas, each a start and a size, stand one behind the other from `lo` to `hi`, and are aligned.
abbrev pub Consecutive : ℕ → ℕ → List (ℕ × ℕ) → Type 0
Consecutive lo hi [] = lo ≤ hi
Consecutive lo hi ((start, size) ∷ l) =
    (lo ≤ start) × (start % 8 ≡ 0) × Consecutive (start + size) hi l

-- One bit for each row, if there is a null map.
abbrev pub null_area : Option ℕ → List (ℕ × ℕ)
null_area none = []
null_area (some isnull) = (isnull, num_rows_per_colstore / 8) ∷ []

-- The areas of the columns: one value for each row.
abbrev pub column_areas : List Attribute → List Cdata → List (ℕ × ℕ)
column_areas (a ∷ attrs) (c ∷ cdata) =
    null_area c.isnull
    ++ (c.values, value_size a.attlen * num_rows_per_colstore) ∷ column_areas attrs cdata
column_areas _ _ = []

abbrev pub areas : Sizes → List Attribute → NewStore → List (ℕ × ℕ)
areas s attrs t =
    (t.ctids, s.item_pointer * num_rows_per_colstore)
    ∷ (t.theads, s.tuple_header * num_rows_per_colstore)
    ∷ column_areas attrs t.cdata

-- Lengths of attributes have 16 bits.
abbrev pub AreShort : List Attribute → Type 0
AreShort [] = Unit {0}
AreShort (a ∷ attrs) = (value_size a.attlen < 2 ^ 15) × AreShort attrs

Consecutive-mono :
    (lo lo' hi : ℕ) (l : List (ℕ × ℕ)) → lo ≤ lo' → Consecutive lo' hi l → Consecutive lo hi l
Consecutive-mono lo lo' hi [] h c = omega arith
Consecutive-mono lo lo' hi ((start, size) ∷ l) h (le, aligned, rest) = (omega arith, aligned, rest)

pub add_size_small : (a b : ℕ) → a + b < 2 ^ 64 → add_size a b ≡ a + b
add_size_small a b h = omega arith

maxalign_bounds : (x : ℕ) → (x ≤ maxalign x) × (maxalign x ≤ x + 7) × (maxalign x % 8 ≡ 0)
maxalign_bounds x = (omega arith, omega arith, omega arith)

-- What the loop over the columns makes of an aligned offset.
abbrev Placed : ℕ → List Attribute → Type 0
Placed offset attrs =
    let placed = place_columns offset attrs in
    (placed.1 ≡ add_lengths offset attrs)
    × Consecutive offset placed.1 (column_areas attrs placed.0)

values_length_small :
    (a : Attribute)
    → value_size a.attlen < 2 ^ 15
    → (values_length a % 8 ≡ 0)
      × (value_size a.attlen * num_rows_per_colstore ≤ values_length a)
      × (values_length a < 2 ^ 34)
values_length_small a h = (omega arith, omega arith, omega arith)

place_columns-Placed :
    (offset : ℕ) (attrs : List Attribute)
    → offset % 8 ≡ 0
    → AreShort attrs
    → offset + length attrs * 2 ^ 35 < 2 ^ 64
    → Placed offset attrs
place_columns-Placed offset [] aligned short few = (refl, omega arith)
place_columns-Placed offset (a ∷ attrs) aligned (at_a, short) few =
    let (even, fits, small) = values_length_small a at_a in
    elim (Bool-cases a.attnotnull) [
      | inl t ↦
          let grown = add_size_small offset (values_length a) (omega (arith, small)) in
          let (same, rest) =
            place_columns-Placed (offset + values_length a) attrs (omega (arith, even)) short
              (omega (arith, small)) in
          rw (t, grown)
            (
              same,
              (
                omega arith,
                aligned,
                Consecutive-mono _ (offset + values_length a) _ _ (omega (arith, fits)) rest,
              ),
            )
      | inr f ↦
          let map_end = add_size_small offset null_length (omega arith) in
          let grown =
            add_size_small (offset + null_length) (values_length a) (omega (arith, small)) in
          let (same, rest) =
            place_columns-Placed ((offset + null_length) + values_length a) attrs
              (omega (arith, even)) short (omega (arith, small)) in
          rw (f, map_end, grown)
            (
              same,
              (
                omega arith,
                aligned,
                (
                  omega arith,
                  omega arith,
                  Consecutive-mono _ ((offset + null_length) + values_length a) _ _
                      (omega (arith, fits)) rest,
                ),
              ),
            )
    ]

-- What the compiler determines is at most these sizes.
abbrev pub AreUsual : Sizes → Type 0
AreUsual s = (s.cdata_offset ≤ 2 ^ 10) × (s.item_pointer ≤ 2 ^ 6) × (s.tuple_header ≤ 2 ^ 6)

-- The arrays lie behind the structure and within the length that was allocated.
abbrev pub WellPlaced : Sizes → List Attribute → ℕ → Option NewStore → Type 0
WellPlaced s attrs tcs none = ⊥
WellPlaced s attrs tcs (some t) =
    (t.address ≡ tcs)
    × Consecutive (s.cdata_offset + 24 * length attrs) (estimated_length s attrs) (areas s attrs t)

module _ (s : Sizes) (attrs : List Attribute) (usual : AreUsual s) (few : length attrs ≤ 1664) where
  abbrev ncols : ℕ
  ncols = length attrs

  head_length_small :
      (s.cdata_offset + 24 * ncols ≤ head_length s ncols)
      × (head_length s ncols < 2 ^ 16)
      × (head_length s ncols % 8 ≡ 0)
  head_length_small =
      let (above, below, even) = maxalign_bounds (s.cdata_offset + 24 * ncols) in
      (above, omega (arith, usual.0), even)

  theads_offset_small :
      (head_length s ncols + s.item_pointer * num_rows_per_colstore ≤ theads_offset s ncols)
      × (theads_offset s ncols < 2 ^ 25)
      × (theads_offset s ncols % 8 ≡ 0)
  theads_offset_small =
      let (above, below, even) = maxalign_bounds (s.item_pointer * num_rows_per_colstore) in
      let (after, small, aligned) = head_length_small in
      rw
        (add_size_small (head_length s ncols) (maxalign (s.item_pointer * num_rows_per_colstore))
          (omega (arith, usual.1)))
        (omega arith, omega (arith, usual.1), omega arith)

  columns_offset_small :
      (theads_offset s ncols + s.tuple_header * num_rows_per_colstore ≤ columns_offset s ncols)
      × (columns_offset s ncols < 2 ^ 26)
      × (columns_offset s ncols % 8 ≡ 0)
  columns_offset_small =
      let (above, below, even) = maxalign_bounds (s.tuple_header * num_rows_per_colstore) in
      let (after, small, aligned) = theads_offset_small in
      rw
        (add_size_small (theads_offset s ncols) (maxalign (s.tuple_header * num_rows_per_colstore))
          (omega (arith, usual.2)))
        (omega arith, omega (arith, usual.2), omega arith)

  -- For 1664 columns at most, whose lengths fit 16 bits, and where the item pointer, the tuple header and
  -- the fixed part of the structure have usual sizes: if the segment gives a block of the length that is
  -- estimated, the assertion on the final offset holds, and the item pointers, the tuple headers and,
  -- of each column, the null map and the values lie aligned, one behind the other, behind the structure
  -- and within the block.
  pub create_column_store-WellPlaced :
      (alloc : ℕ → Option ℕ) (tcs : ℕ)
      → AreShort attrs
      → alloc (estimated_length s attrs) ≡ some tcs
      → Returns (WellPlaced s attrs tcs) (create_column_store s attrs alloc)
  unfolding create_column_store
  create_column_store-WellPlaced alloc tcs short given =
      let (after_head, head_small, head_even) = head_length_small in
      let (after_ctids, theads_small, theads_even) = theads_offset_small in
      let (after_theads, columns_small, columns_even) = columns_offset_small in
      let (same, columns) =
        place_columns-Placed (columns_offset s ncols) attrs columns_even short (omega arith) in
      rw (create_column_store, given, same, ==-refl (estimated_length s attrs))
        (
          refl,
          (
            after_head,
            head_even,
            (
              after_ctids,
              theads_even,
              Consecutive-mono _ (columns_offset s ncols) _ _ after_theads (
                  subst
                    (λ hi.
                      Consecutive (columns_offset s ncols) hi
                        (column_areas attrs (place_columns (columns_offset s ncols) attrs).0))
                    same columns),
            ),
          ),
        )
