-- ===== src/Tcache/Scan/Reference.antt =====
-- References that a scan takes on column stores and puts.
use pg_strom.Prelude.{
  ℕ, ◌≡◌, refl, true, false, some, ◌==◌, update, inl, inr, Bool-cases, arith, ap, ◌∙◌, fun_ext,
}
use pg_strom.Prelude.Int.{ℤ, pos, negsuc, lt_int, eq_int, suc_int, pred_int}
use pg_strom.Prelude.Run.{done}
use pg_strom.Tcache.{Heap, ColumnStore, Tree, leaf, node, Node, get_column_store, put_column_store}
use pg_strom.Tcache.Find.{fetch_node}
use pg_strom.Tcache.Find.Order.{AllNodes-mono, IsOrdered}

pred-suc_int : (r : ℤ) → lt_int (pos 0) r ≡ true → pred_int (suc_int r) ≡ r
pred-suc_int (pos n) h = refl
pred-suc_int (negsuc n) h = absurd (ground arith)

pub suc_int-positive : (r : ℤ) → lt_int (pos 0) r ≡ true → lt_int (pos 0) (suc_int r) ≡ true
suc_int-positive (pos n) h = ground arith
suc_int-positive (negsuc n) h = absurd (ground arith)

positive-nonzero : (r : ℤ) → lt_int (pos 0) r ≡ true → eq_int r (pos 0) ≡ false
positive-nonzero (pos n) h = ground arith
positive-nonzero (negsuc n) h = refl

module _ {C : Type 0} where
  -- One more reference to a column store.
  abbrev pub held : ℕ → Heap C → Heap C
  held k h = record h {
    stores = update h.stores k (record (h.stores k) { refcnt = suc_int ((h.stores k).refcnt) });
  }

  pub fetch_node-held :
      (n : Node) (h : Heap C)
      → lt_int (pos 0) ((h.stores (n.tcs)).refcnt) ≡ true
      → fetch_node true n h ≡ done (some (n.tcs), held (n.tcs) h)
  unfolding fetch_node get_column_store
  fetch_node-held n h e = rw e refl

  put_column_store-shared :
      (k : ℕ) (g : Heap C) (s : ColumnStore C)
      → g.stores k ≡ record s { refcnt = suc_int (s.refcnt) }
      → lt_int (pos 0) (s.refcnt) ≡ true
      → put_column_store k g ≡ done (record g { stores = update g.stores k s })
  unfolding put_column_store
  put_column_store-shared k g s at_k positive =
      rw
        (
          at_k,
          suc_int-positive (s.refcnt) positive,
          pred-suc_int (s.refcnt) positive,
          positive-nonzero (s.refcnt) positive,
        )
        refl

  -- A reference that is put, while another column store has got one.
  pub put-held :
      (k m : ℕ) (h : Heap C)
      → (k == m) ≡ false
      → lt_int (pos 0) ((h.stores k).refcnt) ≡ true
      → put_column_store k (held m (held k h)) ≡ done (held m h)
  put-held k m h other e =
      let here : (k == k) ≡ true = ground arith in
      put_column_store-shared k (held m (held k h)) (h.stores k) (rw (other, here) refl) e
      ∙ ap (λ f. done (record h { stores = f })) (fun_ext (λ j. at_index j))
    where
      at_index :
          (j : ℕ) → update ((held m (held k h)).stores) k (h.stores k) j ≡ (held m h).stores j
      at_index j = elim (Bool-cases (j == k)) [
        | inl a ↦
            let same : j ≡ k = ground arith in
            rw same (let here : (k == k) ≡ true = ground arith in rw (here, other) refl)
        | inr a ↦ elim (Bool-cases (j == m)) [
          | inl b ↦ let apart : (m == k) ≡ false = ground arith in rw (a, b, apart) refl
          | inr b ↦ rw (a, b) refl
        ]
      ]

  pub put-held_alone :
      (k : ℕ) (h : Heap C)
      → lt_int (pos 0) ((h.stores k).refcnt) ≡ true
      → put_column_store k (held k h) ≡ done h
  put-held_alone k h e =
      let here : (k == k) ≡ true = ground arith in
      put_column_store-shared k (held k h) (h.stores k) (rw here refl) e
      ∙ ap (λ f. done (record h { stores = f })) (fun_ext (λ j. at_index j))
    where
      at_index : (j : ℕ) → update ((held k h).stores) k (h.stores k) j ≡ h.stores j
      at_index j = elim (Bool-cases (j == k)) [
        | inl a ↦ let same : j ≡ k = ground arith in rw (a, same) refl
        | inr a ↦ rw a refl
      ]

  -- A reference changes no blocks.
  pub range-held :
      (k j : ℕ) (h : Heap C)
      → (((held k h).stores j).blkno_max ≡ (h.stores j).blkno_max)
        × (((held k h).stores j).blkno_min ≡ (h.stores j).blkno_min)
        × (((held k h).stores j).nrows ≡ (h.stores j).nrows)
  range-held k j h = elim (Bool-cases (j == k)) [
    | inl e ↦ let same : j ≡ k = ground arith in rw (e, same) (refl, refl, refl)
    | inr e ↦ rw e (refl, refl, refl)
  ]

  pub IsOrdered-held : (k : ℕ) (h : Heap C) (t : Tree) → IsOrdered h t → IsOrdered (held k h) t
  IsOrdered-held k h leaf ordered = tt
  IsOrdered-held k h (node l n r) (in_l, in_r, filled, range, below, above) =
      let (n_max, n_min, n_rows) = range-held k (n.tcs) h in
      (
        IsOrdered-held k h l in_l,
        IsOrdered-held k h r in_r,
        omega (arith, n_rows),
        omega (arith, n_max, n_min),
        AllNodes-mono l (λ m less. omega (arith, (range-held k (m.tcs) h).0, n_min)) below,
        AllNodes-mono r (λ m more. omega (arith, (range-held k (m.tcs) h).1, n_max)) above,
      )
