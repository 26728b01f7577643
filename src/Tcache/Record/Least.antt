-- ===== src/Tcache/Record/Least.antt =====
-- What `tcache_find_next_record` returns, sorted or not: an index with the least item pointer from the
-- given one on.
use pg_strom.Prelude.{
  ℕ, zero, suc, ◌+◌, ◌<◌, ◌≤◌, ◌≡◌, refl, true, false, not, ◌&&◌, ◌==◌, if◌then◌else◌, ltb, leb,
  inl, inr, Bool-cases, arith, sym, subst,
}
use pg_strom.Prelude.Int.{ℤ, pos, negsuc, lt_int}
use pg_strom.Prelude.Run.{done, check, Returns, Returns-bind, ◌>>◌}
use pg_strom.Tcache.{ItemPointers, IsComparison, Row, ColumnStore}
use pg_strom.Tcache.Record.{narrow, is_not_before, scan_least, find_next_record}
use pg_strom.Tcache.Record.Index.{
  IsStart, narrow-IsStart, IsLeastIndex, value_at, least_kept, least_replaced,
}

module _ (ip : ItemPointers) (rank : ip.Ctid → ℕ) (law : IsComparison ip rank) where
  better_rank :
      (a c cur : ip.Ctid)
      → (is_not_before ip a c && lt_int (ip.item_pointer_compare a cur) (pos 0))
        ≡ (leb (rank c) (rank a) && ltb (rank a) (rank cur))
  better_rank a c cur = rw ((law a c).0, (law a cur).0) (ground arith)

  scan_least-IsLeastIndex :
      (n left i : ℕ) (rows : ℕ → Row ip.Ctid) (ctid cur last : ip.Ctid) (index : ℤ)
      → i + left ≡ n
      → ((j : ℕ) → j < n → rank ((rows j).ctid) < rank last)
      → rank cur ≡ value_at (λ j. rank ((rows j).ctid)) (rank last) index
      → IsLeastIndex (λ j. rank ((rows j).ctid)) (rank ctid) i index
      → IsLeastIndex
          (λ j. rank ((rows j).ctid))
          (rank ctid)
          n
          (scan_least ip left rows ctid i cur index)
  unfolding scan_least
  scan_least-IsLeastIndex n zero i rows ctid cur last index count under same least =
      let all : i ≡ n = omega arith in
      subst (λ k. IsLeastIndex (λ j. rank ((rows j).ctid)) (rank ctid) k index) all least
  scan_least-IsLeastIndex n (suc left) i rows ctid cur last index count under same least =
      let f : ℕ → ℕ = λ j. rank ((rows j).ctid) in
      let next = better_rank ((rows i).ctid) ctid cur in
      elim (Bool-cases
        (leb (rank ctid) (rank ((rows i).ctid)) && ltb (rank ((rows i).ctid)) (rank cur))) [
          | inl better ↦
              rw (next, better)
                (scan_least-IsLeastIndex n left (suc i) rows ctid ((rows i).ctid) last (pos i)
                  (omega arith) under refl
                  (least_replaced f (rank ctid) i (rank last) index least (rw same at better)))
          | inr worse ↦
              rw (next, worse)
                (scan_least-IsLeastIndex n left (suc i) rows ctid cur last index (omega arith) under
                  same
                  (least_kept f (rank ctid) i (rank last) index least (under i (omega arith))
                    (rw same at worse)))
        ]

  not_before_le : (a c : ip.Ctid) → is_not_before ip a c ≡ true → rank c ≤ rank a
  not_before_le a c e =
      let e' : not (ltb (rank a) (rank c)) ≡ true = subst (λ b. not b ≡ true) ((law a c).0) e in
      ground arith

  before_lt : (a c : ip.Ctid) → is_not_before ip a c ≡ false → rank a < rank c
  before_lt a c e =
      let e' : not (ltb (rank a) (rank c)) ≡ false = subst (λ b. not b ≡ false) ((law a c).0) e in
      ground arith

  not_before-step :
      (a b c : ip.Ctid)
      → rank a ≤ rank b
      → is_not_before ip a c ≡ true
      → is_not_before ip b c ≡ true
  not_before-step a b c le e =
      let reach = not_before_le a c e in
      subst (λ t. not t ≡ true) (sym ((law b c).0)) (ground arith)

  start-IsLeastIndex :
      (rows : ℕ → Row ip.Ctid) (ctid : ip.Ctid) (n lo hi : ℕ)
      → ((i j : ℕ) → i ≤ j → j < n → rank ((rows i).ctid) ≤ rank ((rows j).ctid))
      → IsStart (λ i. is_not_before ip ((rows i).ctid) ctid) n (lo, hi)
      → Returns
          (IsLeastIndex (λ j. rank ((rows j).ctid)) (rank ctid) n)
          (check (lo == hi) >> done (if ltb lo n then pos lo else negsuc 0))
  start-IsLeastIndex rows ctid n lo hi sorted (same, top, before, after) =
      let ends : (lo == hi) ≡ true = ground arith in
      rw ends (elim (Bool-cases (ltb lo n)) [
        | inl e ↦ rw e (
          ground arith,
          not_before_le ((rows lo).ctid) ctid (after lo (ground arith) (ground arith)),
          λ j h reach. elim (Bool-cases (ltb j lo)) [
            | inl e' ↦
                let less = before_lt ((rows j).ctid) ctid (before j (ground arith)) in
                absurd (omega arith)
            | inr e' ↦ sorted lo j (ground arith) h
          ],
        )
        | inr e ↦ rw e (λ j h. before_lt ((rows j).ctid) ctid (before j (ground arith)))
      ])

  -- The search of a record returns, with no failed assertion and with the rounds given, for a column
  -- store whose rows are sorted or are not, an index below `nrows` with the least item pointer from
  -- the given one on, or a negative number if all rows are before it. The conditions: item pointers
  -- are compared by `rank`, which puts those of later blocks behind; no row is in a block behind
  -- `blkno_max`; the rows are in order if `is_sorted` says so, and all are before the last possible
  -- item pointer.
  pub find_next_record-IsLeastIndex :
      (tcs : ColumnStore ip.Ctid) (ctid : ip.Ctid)
      → ((a b : ip.Ctid) → rank a ≤ rank b → ip.block_number a ≤ ip.block_number b)
      → ((j : ℕ) → j < tcs.nrows → ip.block_number ((tcs.rows j).ctid) ≤ tcs.blkno_max)
      → (tcs.is_sorted ≡ true
          → (i j : ℕ) → i ≤ j
          → j < tcs.nrows
          → rank ((tcs.rows i).ctid) ≤ rank ((tcs.rows j).ctid))
      → ((j : ℕ) → j < tcs.nrows → rank ((tcs.rows j).ctid) < rank ip.max_pointer)
      → Returns
          (IsLeastIndex (λ j. rank ((tcs.rows j).ctid)) (rank ctid) tcs.nrows)
          (find_next_record ip tcs ctid)
  unfolding find_next_record
  find_next_record-IsLeastIndex tcs ctid blocks within sorted under =
      elim (Bool-cases (tcs.nrows == 0)) [
        | inl e ↦ rw e (λ j h. absurd (ground arith))
        | inr filled ↦ elim (Bool-cases (ltb (tcs.blkno_max) (ip.block_number ctid))) [
          | inl e ↦ rw (filled, e) (λ j h. all_before j h (ground arith))
          | inr near ↦ elim (Bool-cases tcs.is_sorted) [
            | inl e ↦
                rw (filled, near, e)
                  (Returns-bind
                    (narrow (λ i. is_not_before ip ((tcs.rows i).ctid) ctid) (suc tcs.nrows) 0
                      tcs.nrows)
                    _ _
                    (narrow-IsStart (λ i. is_not_before ip ((tcs.rows i).ctid) ctid) tcs.nrows
                      (suc tcs.nrows) 0 tcs.nrows
                      (λ i j le h.
                        not_before-step ((tcs.rows i).ctid) ((tcs.rows j).ctid) ctid
                          (sorted e i j le h))
                      (omega arith) (omega arith) (omega arith) (λ j h. absurd (omega arith))
                      (λ j h h'. absurd (omega arith)))
                    (λ (lo, hi) found.
                      start-IsLeastIndex tcs.rows ctid tcs.nrows lo hi (sorted e) found))
            | inr e ↦
                rw (filled, near, e)
                  (scan_least-IsLeastIndex tcs.nrows tcs.nrows 0 tcs.rows ctid ip.max_pointer
                    ip.max_pointer (negsuc 0) (omega arith) under refl
                    (λ j h. absurd (omega arith)))
          ]
        ]
      ]
    where
      all_before :
          (j : ℕ)
          → j < tcs.nrows
          → tcs.blkno_max < ip.block_number ctid
          → rank ((tcs.rows j).ctid) < rank ctid
      all_before j h far = elim (Bool-cases (ltb (rank ((tcs.rows j).ctid)) (rank ctid))) [
        | inl e ↦ ground arith
        | inr e ↦
            let later = blocks ctid ((tcs.rows j).ctid) (ground arith) in
            let inside = within j h in absurd (omega arith)
      ]
