-- ===== src/Tcache/Sort/Scan.antt =====
-- The two scans of the sort: where a row stops them, they end there or before.
use pg_strom.Prelude.{
  ℕ, zero, suc, ◌-◌, ◌<◌, ◌≤◌, ◌≡◌, true, false, ◌==◌, ltb, inl, inr, Bool-cases, arith, sym, subst,
}
use pg_strom.Prelude.Run.{Returns, Returns-mono}
use pg_strom.Tcache.{ItemPointers, IsComparison, Row}
use pg_strom.Tcache.Sort.{num_rows_per_colstore, scan_up, scan_down}

module _ (ip : ItemPointers) (rank : ip.Ctid → ℕ) (law : IsComparison ip rank) where
  pub scan_up-stops :
      (fuel : ℕ) (rows : ℕ → Row ip.Ctid) (pivot li u : ℕ)
      → li ≤ u
      → u < num_rows_per_colstore
      → u - li < fuel
      → rank ((rows pivot).ctid) ≤ rank ((rows u).ctid)
      → Returns
          (λ k. (li ≤ k) × (k ≤ u) × (rank ((rows pivot).ctid) ≤ rank ((rows k).ctid)))
          (scan_up ip fuel rows pivot li)
  unfolding scan_up
  scan_up-stops zero rows pivot li u le small enough stop = absurd (omega arith)
  scan_up-stops (suc fuel) rows pivot li u le small enough stop =
      let inside : ltb li num_rows_per_colstore ≡ true = ground arith in
      elim (Bool-cases (ltb (rank ((rows li).ctid)) (rank ((rows pivot).ctid)))) [
        | inr e ↦
            rw (inside, (law ((rows li).ctid) ((rows pivot).ctid)).0, e)
              (omega arith, le, ground arith)
        | inl e ↦
            rw (inside, (law ((rows li).ctid) ((rows pivot).ctid)).0, e)
              (Returns-mono (scan_up ip fuel rows pivot (suc li))
                (scan_up-stops fuel rows pivot (suc li) u (further e) small
                  (omega (arith, further e)) stop)
                (λ k (a, b, c). (omega arith, b, c)))
      ]
    where
      further : ltb (rank ((rows li).ctid)) (rank ((rows pivot).ctid)) ≡ true → li < u
      further e = elim (Bool-cases (li == u)) [
        | inl same ↦
            let at_u : li ≡ u = ground arith in
            let stop' =
              subst (λ k. rank ((rows pivot).ctid) ≤ rank ((rows k).ctid)) (sym at_u) stop in
            absurd (ground arith)
        | inr other ↦ ground arith
      ]

  pub scan_down-stops :
      (fuel : ℕ) (rows : ℕ → Row ip.Ctid) (pivot ri d : ℕ)
      → d ≤ ri
      → ri - d < fuel
      → rank ((rows d).ctid) ≤ rank ((rows pivot).ctid)
      → Returns
          (λ k. (d ≤ k) × (k ≤ ri) × (rank ((rows k).ctid) ≤ rank ((rows pivot).ctid)))
          (scan_down ip fuel rows pivot ri)
  unfolding scan_down
  scan_down-stops zero rows pivot ri d le enough stop = absurd (omega arith)
  scan_down-stops (suc fuel) rows pivot ri d le enough stop =
      elim (Bool-cases (ltb (rank ((rows pivot).ctid)) (rank ((rows ri).ctid)))) [
        | inr e ↦
            rw ((law ((rows ri).ctid) ((rows pivot).ctid)).1, e) (le, omega arith, ground arith)
        | inl e ↦
            let inside : (ri == 0) ≡ false = ground (arith, further e) in
            rw ((law ((rows ri).ctid) ((rows pivot).ctid)).1, e, inside)
              (Returns-mono (scan_down ip fuel rows pivot (ri - 1))
                (scan_down-stops fuel rows pivot (ri - 1) d (omega (arith, further e))
                  (omega (arith, further e)) stop)
                (λ k (a, b, c). (a, omega arith, c)))
      ]
    where
      further : ltb (rank ((rows pivot).ctid)) (rank ((rows ri).ctid)) ≡ true → d < ri
      further e = elim (Bool-cases (ri == d)) [
        | inl same ↦
            let at_d : ri ≡ d = ground arith in
            let stop' =
              subst (λ k. rank ((rows k).ctid) ≤ rank ((rows pivot).ctid)) (sym at_d) stop in
            absurd (ground arith)
        | inr other ↦ ground arith
      ]
