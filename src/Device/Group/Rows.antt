-- ===== src/Device/Group/Rows.antt =====
-- What `gpuscan_writeback_row_error` leaves in the result buffer.
use native.Mathlib.Numerals.{add-one}
use pg_strom.Prelude.{
  ℕ, zero, suc, ◌+◌, ◌-◌, ◌^◌, ◌≤◌, ◌<◌, ◌≡◌, refl, ap, ◌∙◌, ◌⊎◌, inl, inr, true, false, arith,
  ◌==◌, ltb, ◌%◌, if◌then◌else◌, Bool-cases, update,
}
use pg_strom.Prelude.Int.{ℤ, pos, negsuc, eq_int}
use pg_strom.Device.Error.{success}
use pg_strom.Device.Group.{
  ResultBuf, selected, to_cl_int, scan_rounds, write_row, write_rows, writeback_row_error,
}
use pg_strom.Device.Group.Scan.{sum_below, sum_below-add_one, scan_rounds-sum_below}

-- One for each thread whose row goes back.
abbrev pub ones : ResultBuf → (ℕ → ℕ) → (ℕ → ℤ) → ℕ → ℕ
ones buf gid err k = if selected buf gid err k then 1 else 0

-- What the thread of a selected row writes.
unfoldable pub row_value : (ℕ → ℕ) → (ℕ → ℤ) → ℕ → ℤ
row_value gid err k = if eq_int (err k) success then pos (gid k + 1) else negsuc (gid k)

to_cl_int_row : (g : ℕ) → g + 1 < 2 ^ 31 → to_cl_int ((g + 1) % 2 ^ 64) ≡ pos (g + 1)
to_cl_int_row g small =
    let low : ((g + 1) % 2 ^ 64) % 2 ^ 32 ≡ g + 1 = ground arith in
    let positive : ltb (g + 1) (2 ^ 31) ≡ true = ground arith in rw (low, positive) refl

to_cl_int_negated : (g : ℕ) → g + 1 < 2 ^ 31 → to_cl_int (2 ^ 64 - (g + 1) % 2 ^ 64) ≡ negsuc g
to_cl_int_negated g small =
    let low : (2 ^ 64 - (g + 1) % 2 ^ 64) % 2 ^ 32 ≡ 2 ^ 32 - (g + 1) = ground arith in
    let negative : ltb (2 ^ 32 - (g + 1)) (2 ^ 31) ≡ false = ground arith in
    let back : 2 ^ 32 - 1 - (2 ^ 32 - (g + 1)) ≡ g = omega arith in
    rw (low, negative) (ap negsuc back)

module _ (buf : ResultBuf) (gid : ℕ → ℕ) (err : ℕ → ℤ) (results : ℕ → ℤ) (places : ℕ → ℕ) where
  write_row_not :
      (k : ℕ)
      → selected buf gid err k ≡ false
      → write_row gid err buf.nrooms places results k ≡ results
  unfolding write_row selected
  write_row_not k h = ground arith

  write_row_yes :
      (k : ℕ)
      → gid k + 1 < 2 ^ 31
      → selected buf gid err k ≡ true
      → write_row gid err buf.nrooms places results k
        ≡ update results (places k - 1) (row_value gid err k)
  unfolding write_row selected row_value
  write_row_yes k small h =
      ground (arith, to_cl_int_row (gid k) small, to_cl_int_negated (gid k) small)

sum_below_mono : (f : ℕ → ℕ) (j m : ℕ) → j < m → sum_below f j + f j ≤ sum_below f m
sum_below_mono f j zero h = elim h [ ]
sum_below_mono f j (suc m) h = elim (Bool-cases (j == m)) [
  | inl e ↦ let e' : j ≡ m = ground arith in rw e' (omega (arith, sum_below-suc f m))
  | inr e ↦ omega (arith, sum_below-suc f m, sum_below_mono f j m (ground arith))
]
  where
    sum_below-suc : (f : ℕ → ℕ) (m : ℕ) → sum_below f (suc m) ≡ sum_below f m + f m
    sum_below-suc f m = rw (← add-one m) (sum_below-add_one f m)

-- After the first `m` threads: the row of each selected one stands at its place, in the order of the
-- threads, and nothing else is written.
pub record Written (buf : ResultBuf) (gid : ℕ → ℕ) (err : ℕ → ℤ) (offset : ℕ) (old : ℕ → ℤ) (m : ℕ)
    (new : ℕ → ℤ) : Type 0 where
  pub rows :
      (j : ℕ)
      → j < m
      → selected buf gid err j ≡ true
      → new (offset + sum_below (ones buf gid err) j) ≡ row_value gid err j
  pub rest : (a : ℕ) → (a < offset) ⊎ (offset + sum_below (ones buf gid err) m ≤ a) → new a ≡ old a

module _ (buf : ResultBuf) (gid : ℕ → ℕ) (err : ℕ → ℤ) (offset n : ℕ) (places : ℕ → ℕ)
    (placed : (k : ℕ) → k < n → places k ≡ sum_below (ones buf gid err) (k + 1) + offset)
    (small : (k : ℕ) → k < n → gid k + 1 < 2 ^ 31) where
  write_rows-Written :
      (m : ℕ)
      → m ≤ n
      → Written buf gid err offset buf.results m
          (write_rows m gid err buf.nrooms places buf.results)
  unfolding write_rows
  write_rows-Written zero h = record { rows = λ j l. elim l [ ]; rest = λ a o. refl }
  write_rows-Written (suc m) h =
      let ih = write_rows-Written m (omega arith) in
      let before = write_rows m gid err buf.nrooms places buf.results in
      let step : sum_below (ones buf gid err) (suc m)
          ≡ sum_below (ones buf gid err) m + ones buf gid err m =
        rw (← add-one m) (sum_below-add_one _ m) in
      elim (Bool-cases (selected buf gid err m)) [
        | inr not' ↦ rw (write_row_not buf gid err before places m not') (record {
          rows = λ j l s. ih.rows j (ground arith) s;
          rest = λ a o. ih.rest a (ground arith);
        })
        | inl yes' ↦
            let at : places m - 1 ≡ offset + sum_below (ones buf gid err) m =
              ground (arith, placed m (omega arith), sum_below-add_one (ones buf gid err) m) in
            rw (write_row_yes buf gid err before places m (small m (omega arith)) yes', at)
              (record {
                rows = λ j l s. ground (arith, ih.rows j, sum_below_mono (ones buf gid err) j m);
                rest = λ a o. ground (arith, ih.rest a);
              })
      ]

-- A work-group of `n` threads, 0 < n ≤ 2 ^ 31, whose threads have numbers below 2 ^ 31 - 1, appends
-- the rows of its selected threads, in their order, behind the items that the buffer holds, counts
-- them, and changes nothing else.
pub writeback_row_error-Written :
    (n : ℕ) (gid : ℕ → ℕ) (err : ℕ → ℤ) (buf : ResultBuf)
    → 0 < n
    → n ≤ 2 ^ 31
    → ((k : ℕ) → k < n → gid k + 1 < 2 ^ 31)
    → let r = writeback_row_error n gid err buf in
      Written buf gid err buf.nitems buf.results n r.results
      × (r.nitems ≡ buf.nitems + sum_below (ones buf gid err) n)
      × (r.nrooms ≡ buf.nrooms)
      × (r.errcode ≡ buf.errcode)
unfolding writeback_row_error
writeback_row_error-Written n gid err buf some_thread fits small =
    let sums = scan_rounds-sum_below (ones buf gid err) n (omega arith) in
    let last : n - 1 + 1 ≡ n = omega arith in
    (
      write_rows-Written buf gid err buf.nitems n
          (λ k. scan_rounds 32 0 n (ones buf gid err) k + buf.nitems)
          (λ k h. ap (λ t. t + buf.nitems) (sums k h)) small n (omega arith),
      ap (λ t. buf.nitems + t)
          (sums (n - 1) (omega arith) ∙ ap (sum_below (ones buf gid err)) last),
      refl,
      refl,
    )
