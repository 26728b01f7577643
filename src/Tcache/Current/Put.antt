-- ===== src/Tcache/Current/Put.antt =====
-- A tuple is put within two rounds.
use pg_strom.Prelude.{
  ℕ, suc, ◌+◌, ◌-◌, ◌<◌, ◌≤◌, ◌≡◌, refl, true, ◌==◌, Option, none, some, List, ◌∷◌, update, inl,
  inr, Option-cases, arith, ap, sym, subst, ◌⊎◌,
}
use pg_strom.Prelude.Int.{pos, lt_int}
use pg_strom.Prelude.Run.{Run, Returns, Returns-mono}
use pg_strom.Tcache.Scan.{get_row_store, put_row_store}
use pg_strom.Tcache.Scan.Reference.{suc_int-positive}
use pg_strom.Tcache.Rowstore.{
  Tuple, RowStore, required_of, usage_head, get_tuple, row_store_insert_tuple,
}
use pg_strom.Tcache.Rowstore.Packed.{
  IsPacked, row_store_insert_tuple-Inserted, create_row_store-IsPacked,
}
use pg_strom.Tcache.Current.{
  Current, Layout, new_row_store, ensure_current, try_current, insert_tuple_row,
}

-- The tuple is the last one of the row store at `a`, which is the current one and is packed.
abbrev pub Put : Tuple → List ℕ → ℕ → Option Current → Type 0
Put tuple l a none = ⊥
Put tuple l a (some c) =
    (c.heads.trs_curr ≡ some a)
    × (c.heads.trs_list ≡ l)
    × IsPacked (c.stores a)
    × (get_tuple (c.stores a) ((c.stores a).nrows - 1) ≡ some tuple)

abbrev pub Usable : ℕ → Tuple → ℕ → Current → Type 0
Usable size tuple a c =
    IsPacked (c.stores a)
    × (required_of size tuple ≤ (c.stores a).usage)
    × (lt_int (pos 0) (c.heads.trs_refcnt a) ≡ true)
    × (c.heads.trs_curr ≡ some a)

-- An attempt puts the tuple, or it goes on without a current row store and with the old one in the list.
try_current-Put :
    (size : ℕ) (tuple : Tuple) (a : ℕ) (c : Current) (retry : Current → Run (Option Current))
    → 0 < size
    → Usable size tuple a c
    → Returns (Put tuple c.heads.trs_list a) (try_current size tuple a c retry)
      ⊎ ((d : Current) × (try_current size tuple a c retry ≡ retry d)
          × (d.heads.trs_curr ≡ none)
          × (d.heads.trs_list ≡ a ∷ c.heads.trs_list)
          × ((c.stores a).usage ≤ usage_head (c.stores a) + required_of size tuple))
unfolding try_current get_row_store put_row_store
try_current-Put size tuple a c retry filled (packed, fits, positive, curr) =
    let here : (a == a) ≡ true = ground arith in
    elim (row_store_insert_tuple-Inserted size (c.stores a) tuple packed filled fits) [
      | inl (refused, same, short) ↦ inr (
          rw (positive, refused, here, suc_int-positive (c.heads.trs_refcnt a) positive)
            (_, refl, refl, refl, short))
      | inr (inserted, packed', used, last, others, count, room) ↦ inl (
          let index : (row_store_insert_tuple size (c.stores a) tuple).0.nrows - 1
              ≡ (c.stores a).nrows =
            omega (arith, count) in
          rw (positive, inserted, here, index) (curr, refl, packed', last))
    ]

-- A new row store has room for the tuple.
abbrev pub HasRoom : ℕ → Tuple → Layout → Type 0
HasRoom size tuple y =
    (y.kern_offset ≤ 4096)
    × (y.natts ≤ 1664)
    × (y.ncols ≤ y.natts)
    × (usage_head (new_row_store y) + required_of size tuple < (new_row_store y).usage)

abbrev with_new : Layout → ℕ → Current → Current
with_new y a c = record {
  heads = record c.heads { trs_curr = some a; trs_refcnt = update c.heads.trs_refcnt a (pos 1) };
  stores = update c.stores a (new_row_store y);
}

ensure_current-new :
    (y : Layout) (alloc : Option ℕ) (a : ℕ) (c : Current)
    → c.heads.trs_curr ≡ none
    → alloc ≡ some a
    → ensure_current y alloc c ≡ some (a, with_new y a c)
unfolding ensure_current
ensure_current-new y alloc a c curr e = rw (curr, e) refl

ensure_current-old :
    (y : Layout) (alloc : Option ℕ) (a : ℕ) (c : Current)
    → c.heads.trs_curr ≡ some a
    → ensure_current y alloc c ≡ some (a, c)
unfolding ensure_current
ensure_current-old y alloc a c curr =
    ap
      (λ (o : Option ℕ). elim o [
        | some k ↦ some (k, c)
        | none ↦ elim alloc [ none ↦ none | some k ↦ some (k, with_new y k c) ]
      ])
      curr

insert_round :
    (rounds size : ℕ) (y : Layout) (alloc : ℕ → Option ℕ) (tuple : Tuple) (c : Current) (a : ℕ)
    (d : Current)
    → ensure_current y (alloc rounds) c ≡ some (a, d)
    → insert_tuple_row (suc rounds) size y alloc tuple c
      ≡ try_current size tuple a d (insert_tuple_row rounds size y alloc tuple)
unfolding insert_tuple_row
insert_round rounds size y alloc tuple c a d e = rw (e, insert_tuple_row) refl

-- The attempt with a new row store.
new_current-Put :
    (size : ℕ) (tuple : Tuple) (y : Layout) (alloc : ℕ → Option ℕ) (rounds a : ℕ) (c : Current)
    → 0 < size
    → HasRoom size tuple y
    → c.heads.trs_curr ≡ none
    → alloc rounds ≡ some a
    → Returns (Put tuple c.heads.trs_list a) (insert_tuple_row (suc rounds) size y alloc tuple c)
new_current-Put size tuple y alloc rounds a c filled (few, cols, cached, room) curr e =
    let here : (a == a) ≡ true = ground arith in
    let made : update c.stores a (new_row_store y) a ≡ new_row_store y = rw here refl in
    let packed = create_row_store-IsPacked y.kern_offset y.natts y.ncols y.fresh few cols cached in
    let fits : required_of size tuple ≤ (update c.stores a (new_row_store y) a).usage =
      subst (λ (t : RowStore). required_of size tuple ≤ t.usage) (sym made) (omega (arith, room)) in
    let usable : Usable size tuple a (with_new y a c) =
      (subst IsPacked (sym made) packed, fits, rw here refl, refl) in
    subst (Returns (Put tuple c.heads.trs_list a))
      (sym (
        insert_round rounds size y alloc tuple c a (with_new y a c)
          (ensure_current-new y (alloc rounds) a c curr e)))
      (elim (try_current-Put size tuple a (with_new y a c)
        (insert_tuple_row rounds size y alloc tuple) filled usable) [
          | inl put ↦ put
          | inr (d, goes, gone, list, short) ↦
              let short' =
                subst (λ (t : RowStore). t.usage ≤ usage_head t + required_of size tuple) made
                  short in
              absurd (omega (arith, room, short'))
        ])

-- Where the segment gives a row store in both rounds, a new one has room for the tuple, with a head
-- of 4096 bytes at most for at most 1664 attributes and no more cached columns than attributes, and
-- the current one, if there is one, is packed, referenced and not less used than the tuple is long, an insertion
-- ends within two rounds: the tuple is read back as the last one of the current row store. That is the
-- old one, or a new one, while the old one, if there was one, is put at the head of the list.
pub insert_tuple_row-Put :
    (size : ℕ) (tuple : Tuple) (y : Layout) (alloc : ℕ → Option ℕ) (first second : ℕ) (c : Current)
    → 0 < size
    → HasRoom size tuple y
    → alloc 1 ≡ some first
    → alloc 0 ≡ some second
    → ((a : ℕ) → c.heads.trs_curr ≡ some a → Usable size tuple a c)
    → Returns
        (λ o.
          ((a : ℕ) × (c.heads.trs_curr ≡ some a) × Put tuple c.heads.trs_list a o)
          ⊎ (((c.heads.trs_curr ≡ none) × Put tuple c.heads.trs_list first o)
              ⊎ ((a : ℕ) × (c.heads.trs_curr ≡ some a)
                  × Put tuple (a ∷ c.heads.trs_list) second o)))
        (insert_tuple_row 2 size y alloc tuple c)
insert_tuple_row-Put size tuple y alloc first second c filled room e1 e0 usable =
    elim (Option-cases c.heads.trs_curr) [
      | inl curr ↦
          Returns-mono (insert_tuple_row 2 size y alloc tuple c)
            (new_current-Put size tuple y alloc 1 first c filled room curr e1)
            (λ o put. inr (inl (curr, put)))
      | inr (a, curr) ↦
          subst (Returns _)
            (sym
              (insert_round 1 size y alloc tuple c a c (ensure_current-old y (alloc 1) a c curr)))
            (elim (try_current-Put size tuple a c (insert_tuple_row 1 size y alloc tuple) filled
              (usable a curr)) [
                | inl put ↦
                    Returns-mono
                      (try_current size tuple a c (insert_tuple_row 1 size y alloc tuple)) put
                      (λ o done'. inl (a, curr, done'))
                | inr (d, goes, gone, list, short) ↦ subst (Returns _) (sym goes) (
                    Returns-mono (insert_tuple_row 1 size y alloc tuple d)
                      (new_current-Put size tuple y alloc 0 second d filled room gone e0)
                      (λ o put. inr (inr (a, curr, subst (λ l. Put tuple l second o) list put))))
              ])
    ]
