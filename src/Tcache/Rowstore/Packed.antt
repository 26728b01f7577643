-- ===== src/Tcache/Rowstore/Packed.antt =====
-- The bounds of a row store and what is read back from it.
use pg_strom.Prelude.{
  ℕ, suc, ◌+◌, ◌-◌, ◌*◌, ◌%◌, ◌^◌, ◌<◌, ◌≤◌, ◌≡◌, refl, Bool, true, false, some, ◌==◌,
  if◌then◌else◌, ltb, update, leb, ltb→lt, inl, inr, Bool-cases, arith, ◌∙◌, ◌⊎◌,
}
use pg_strom.Tcache.Rowstore.{
  Tuple, RowStore, kern_head, required_of, usage_head, get_tuple, row_store_insert_tuple,
  create_row_store,
}

wrap-sub : (a r : ℕ) → r ≤ a → a < 2 ^ 32 → (a + 2 ^ 64 - r) % 2 ^ 64 ≡ a - r
wrap-sub a r h h' = ground arith

low-sub : (a r : ℕ) → a < 2 ^ 32 → (a - r) % 2 ^ 32 ≡ a - r
low-sub a r h = ground arith

required_pos : (size : ℕ) (tuple : Tuple) → 0 < size → 0 < required_of size tuple
required_pos size tuple h = omega arith

-- A row store with a tuple put at `tail`.
abbrev put_at : RowStore → Tuple → ℕ → RowStore
put_at trs tuple tail = record trs {
  tuple_at = update trs.tuple_at tail (some tuple);
  tupoffset = update trs.tupoffset trs.nrows tail;
  nrows = suc trs.nrows;
  usage = tail;
  blkno_max = if ltb (trs.blkno_max) (tuple.t_block) then tuple.t_block else trs.blkno_max;
  blkno_min = if ltb (tuple.t_block) (trs.blkno_min) then tuple.t_block else trs.blkno_min;
}

-- The offsets and the tuples do not meet: all tuples are at the used end or behind it, and within the
-- row store.
abbrev pub IsPacked : RowStore → Type 0
IsPacked trs =
    (trs.length < 2 ^ 32)
    × (trs.usage ≤ trs.length)
    × (kern_head trs.ncols + 4 * trs.nrows ≤ trs.usage)
    × ((i : ℕ) → i < trs.nrows → (trs.usage ≤ trs.tupoffset i) × (trs.tupoffset i < trs.length))

-- An insertion: refused, with nothing changed, if there is no room; otherwise the tuple is put right
-- before the used end, behind the offsets, and is read back as the last one, while all others are
-- read back as before.
abbrev pub Inserted : ℕ → RowStore → Tuple → RowStore × Bool → Type 0
Inserted size trs tuple (trs', inserted) =
    ((inserted ≡ false) × (trs' ≡ trs) × (trs.usage ≤ usage_head trs + required_of size tuple))
    ⊎ ((inserted ≡ true)
        × IsPacked trs'
        × (trs'.usage + required_of size tuple ≡ trs.usage)
        × (get_tuple trs' trs.nrows ≡ some tuple)
        × ((i : ℕ) → i < trs.nrows → get_tuple trs' i ≡ get_tuple trs i)
        × (trs'.nrows ≡ suc trs.nrows)
        × (usage_head trs + required_of size tuple < trs.usage))

put_at-IsPacked :
    (trs : RowStore) (tuple : Tuple) (tail : ℕ)
    → IsPacked trs
    → tail < trs.usage
    → usage_head trs < tail
    → IsPacked (put_at trs tuple tail)
put_at-IsPacked trs tuple tail (short, bound, head, offsets) below room = (
  short,
  omega arith,
  omega arith,
  λ i h. elim (Bool-cases (i == trs.nrows)) [
    | inl e ↦ rw e (omega arith, omega arith)
    | inr e ↦ let old = offsets i (ground arith) in rw e (omega (arith, old), old.1)
  ],
)

get_tuple-put_at :
    (trs : RowStore) (tuple : Tuple) (tail i : ℕ)
    → IsPacked trs
    → 0 < tail
    → tail < trs.usage
    → i < suc trs.nrows
    → get_tuple (put_at trs tuple tail) i ≡ (if i == trs.nrows then some tuple else get_tuple trs i)
unfolding get_tuple
get_tuple-put_at trs tuple tail i (short, bound, head, offsets) filled below inside =
    let within : leb (suc trs.nrows) i ≡ false = ground arith in
    elim (Bool-cases (i == trs.nrows)) [
      | inl e ↦
          let nonzero : (tail == 0) ≡ false = ground arith in
          let here : (tail == tail) ≡ true = ground arith in rw (within, e, nonzero, here) refl
      | inr e ↦
          let old = offsets i (ground arith) in
          let apart : (trs.tupoffset i == tail) ≡ false = ground (arith, old) in
          let within' : leb trs.nrows i ≡ false = ground arith in
          rw (within, e, apart, within') refl
    ]

pub row_store_insert_tuple-Inserted :
    (size : ℕ) (trs : RowStore) (tuple : Tuple)
    → IsPacked trs
    → 0 < size
    → required_of size tuple ≤ trs.usage
    → Inserted size trs tuple (row_store_insert_tuple size trs tuple)
unfolding row_store_insert_tuple
row_store_insert_tuple-Inserted size trs tuple (short, bound, head, offsets) filled fits =
    let req = required_of size tuple in
    let small : trs.usage < 2 ^ 32 = omega arith in
    let some_bytes = required_pos size tuple filled in
    let packed : IsPacked trs = (short, bound, head, offsets) in
    elim (Bool-cases (ltb (usage_head trs) (trs.usage - req))) [
      | inr e ↦ rw (wrap-sub trs.usage req fits small, e) (inl (refl, refl, short_room req e))
      | inl e ↦
          let room = ltb→lt (usage_head trs) (trs.usage - req) e in
          let below : trs.usage - req < trs.usage = less req some_bytes fits in
          rw (wrap-sub trs.usage req fits small, e, low-sub trs.usage req small)
            (inr (
              refl,
              put_at-IsPacked trs tuple (trs.usage - req) packed below room,
              back req fits,
              get_tuple-put_at trs tuple (trs.usage - req) trs.nrows packed (positive room) below
                    (omega arith)
                  ∙ (let here : (trs.nrows == trs.nrows) ≡ true = ground arith in rw here refl),
              λ i h.
                  get_tuple-put_at trs tuple (trs.usage - req) i packed (positive room) below
                    (omega arith)
                  ∙ (let other : (i == trs.nrows) ≡ false = ground arith in rw other refl),
              refl,
              long_room req e,
            ))
    ]
  where
    short_room :
        (req : ℕ)
        → ltb (usage_head trs) (trs.usage - req) ≡ false
        → trs.usage ≤ usage_head trs + req
    short_room req e = ground arith

    long_room :
        (req : ℕ) → ltb (usage_head trs) (trs.usage - req) ≡ true → usage_head trs + req < trs.usage
    long_room req e = ground arith

    less : (req : ℕ) → 0 < req → req ≤ trs.usage → trs.usage - req < trs.usage
    less req h h' = omega arith

    back : (req : ℕ) → req ≤ trs.usage → trs.usage - req + req ≡ trs.usage
    back req h = omega arith

    positive : {a : ℕ} → usage_head trs < a → 0 < a
    positive h = omega arith

-- A new row store is packed, for a table of at most 1,664 columns, of which some are cached, and a
-- header of at most 4,096 bytes before the kernel part.
pub create_row_store-IsPacked :
    (kern_offset natts ncols : ℕ) (fresh : RowStore)
    → kern_offset ≤ 4096
    → natts ≤ 1664
    → ncols ≤ natts
    → IsPacked (create_row_store kern_offset natts ncols fresh)
unfolding create_row_store
create_row_store-IsPacked kern_offset natts ncols fresh small few some_cached =
    (ground arith, ground arith, ground arith, λ i h. absurd (omega arith))

-- Where the tuple with its header is longer than the used part, the difference of the sizes wraps
-- around: the insertion is not refused, and what is recorded as the offset of the tuple and as the
-- new usage is 2^32 less the missing bytes.
row_store_insert_tuple-wraps :
    (size : ℕ) (trs : RowStore) (tuple : Tuple)
    → trs.usage < required_of size tuple
    → required_of size tuple < 2 ^ 32
    → usage_head trs < 2 ^ 32
    → ((row_store_insert_tuple size trs tuple).1 ≡ true)
      × ((row_store_insert_tuple size trs tuple).0.usage + required_of size tuple
          ≡ trs.usage + 2 ^ 32)
unfolding row_store_insert_tuple
row_store_insert_tuple-wraps size trs tuple long short head =
    rw (large (required_of size tuple) long short)
      (refl, recorded (required_of size tuple) long short)
  where
    large :
        (req : ℕ)
        → trs.usage < req
        → req < 2 ^ 32
        → ltb (usage_head trs) ((trs.usage + 2 ^ 64 - req) % 2 ^ 64) ≡ true
    large req h h' = ground arith

    recorded :
        (req : ℕ)
        → trs.usage < req
        → req < 2 ^ 32
        → (trs.usage + 2 ^ 64 - req) % 2 ^ 64 % 2 ^ 32 + req ≡ trs.usage + 2 ^ 32
    recorded req h h' = ground arith
