-- ===== src/Tcache/Head/Made.antt =====
-- The columns that a new cache gets.
use pg_strom.Prelude.{
  ℕ, zero, suc, ◌+◌, ◌≡◌, ◌≤◌, ◌<◌, true, false, List, [], length, arith, refl, ◌∙◌, inl, inr,
  Bool-cases, some, ap, not,
}
use pg_strom.Tcache.Head.{Bitmapsets, Documented, TupleDesc, cached_from, cached_columns, serves}
use pg_strom.Tcache.Head.Request.{
  AscendFrom, AscendFrom-mono, all_required, Columns, serves-all_required,
}

module _ (B : Bitmapsets) (law : Documented B) (low : ℕ) (d : TupleDesc) where
  -- The columns from the one at `i` on, all of them required.
  abbrev AllOf : ℕ → ℕ → B.Set → List ℕ → Type 0
  AllOf n i s ks = AscendFrom i ks × (length ks ≤ n) × (all_required B law low d s ks ≡ true)

  cached_from-AllOf :
      (n i : ℕ) (s : B.Set)
      → ((k : ℕ) → d.attnum k ≡ suc k)
      → AllOf n i s (cached_from B low d n i s)
  cached_from-AllOf zero i s numbered = (tt, omega arith, refl)
  cached_from-AllOf (suc n) i s numbered =
      let (asc, few, required) = cached_from-AllOf n (suc i) s numbered in
      elim (Bool-cases (B.is_member (suc i + low) s)) [
        | inl t ↦ rw (numbered i, t) ((omega arith, asc), omega (arith, few), rw t required)
        | inr f ↦
            rw (numbered i, f)
              (
                AscendFrom-mono (suc i) i (cached_from B low d n (suc i) s) (omega arith) asc,
                omega (arith, few),
                required,
              )
      ]

  -- Under the conditions of the request: a cache that is made for it, with no older cache of the
  -- relation, does not serve the same request afterwards.
  cached_columns_refused :
      (fuel bound : ℕ) (required : B.Set)
      → ((k : ℕ) → d.attnum k ≡ suc k)
      → Columns B law low d 0 bound required
      → bound < fuel
      → serves B low d fuel required (cached_columns B low d required []) ≡ some false
  cached_columns_refused fuel bound required numbered cols h =
      let (asc, few, every) = cached_from-AllOf d.natts 0 required numbered in
      serves-all_required B law low d fuel bound required (cached_columns B low d required [])
        numbered asc few cols h
      ∙ ap (λ b. some (not b)) every
