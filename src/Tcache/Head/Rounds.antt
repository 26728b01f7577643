-- ===== src/Tcache/Head/Rounds.antt =====
-- One round of the loop over the required attributes.
use pg_strom.Prelude.{ℕ, suc, ◌-◌, ◌≡◌, none, some, List, ltb, length, refl, if◌then◌else◌}
use pg_strom.Tcache.Head.{Bitmapsets, TupleDesc, take_member, match_columns}

module _ (B : Bitmapsets) (low : ℕ) (d : TupleDesc) where
  pub match_columns-none :
      (fuel ncols : ℕ) (s : B.Set) (ks : List ℕ)
      → B.first_member s ≡ none
      → match_columns B low d (suc fuel) ncols s ks ≡ some ks
  unfolding match_columns
  match_columns-none fuel ncols s ks e = rw (match_columns, e) refl

  pub match_columns-some :
      (fuel ncols : ℕ) (s s' : B.Set) (i : ℕ) (ks : List ℕ)
      → B.first_member s ≡ some (i, s')
      → match_columns B low d (suc fuel) ncols s ks ≡ (
          let next = take_member B low d i s' ks in
          if ltb (ncols - length ks) d.natts
          then match_columns B low d fuel ncols next.0 next.1
          else some ks)
  unfolding match_columns
  match_columns-some fuel ncols s s' i ks e = rw (match_columns, e) refl
