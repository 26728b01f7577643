-- ===== src/Devprog/Reclaim.antt =====
-- The entry that `pgstrom_reclaim_devprog` gives up.
use pg_strom.Prelude.{
  ℕ, ◌≡◌, refl, true, false, ◌⊎◌, inl, inr, Option, none, some, List, [], ◌∷◌, ◌++◌, ◌-◌,
  if◌then◌else◌, ◌==◌, Bool-cases, Option-cases, has, count, count-erase, arith, ltb, ap, subst,
}
use pg_strom.Prelude.Int.{ℤ, pos, negsuc, eq_int, lt_int}
use pg_strom.Prelude.Run.{Returns}
use pg_strom.Devprog.{
  Dprog, Cache, Freed, last_unused, reclaim_devprog, freed_of, reclaimed_length, size_sub,
}

-- All entries of a list are in use.
abbrev pub AreUsed : (ℕ → Dprog) → List ℕ → Type 0
AreUsed f l = (j : ℕ) → has j l ≡ true → lt_int (pos 0) ((f j).refcnt) ≡ true

-- An entry of a list, unused, behind which all are in use.
abbrev pub Oldest : (ℕ → Dprog) → List ℕ → ℕ → Type 0
Oldest f l k =
    (before : List ℕ) × (after : List ℕ) × (l ≡ before ++ k ∷ after)
    × (lt_int (pos 0) ((f k).refcnt) ≡ false)
    × AreUsed f after

abbrev Search : (ℕ → Dprog) → List ℕ → Option ℕ → Type 0
Search f l none = AreUsed f l
Search f l (some k) = Oldest f l k

used_cons :
    (f : ℕ → Dprog) (k : ℕ) (l : List ℕ)
    → lt_int (pos 0) ((f k).refcnt) ≡ true
    → AreUsed f l
    → AreUsed f (k ∷ l)
used_cons f k l h used j in_list = elim (Bool-cases (j == k)) [
  | inl e ↦ let same : k ≡ j = ground arith in rw⁻¹ same h
  | inr e ↦ used j (rw e at in_list)
]

last_unused-Search : (f : ℕ → Dprog) (l : List ℕ) → Search f l (last_unused f l)
unfolding last_unused
last_unused-Search f [] = λ j h. absurd (ground arith)
last_unused-Search f (k ∷ l) = by_rest (last_unused f l) (last_unused-Search f l)
  where
    by_rest :
        (o : Option ℕ)
        → Search f l o
        → Search f (k ∷ l) (elim o [
          | some v ↦ some v
          | none ↦ if lt_int (pos 0) ((f k).refcnt) then none else some k
        ])
    by_rest (some v) (before, after, e, unused, used) =
        (k ∷ before, after, ap (λ l. k ∷ l) e, unused, used)
    by_rest none used = elim (Bool-cases (lt_int (pos 0) ((f k).refcnt))) [
      | inl h ↦ rw h (used_cons f k l h used)
      | inr h ↦ rw h ([], l, refl, h, used)
    ]

zero_of : (r : ℤ) → lt_int r (pos 0) ≡ false → lt_int (pos 0) r ≡ false → eq_int r (pos 0) ≡ true
zero_of (pos n) a b = ground arith
zero_of (negsuc n) a b = absurd (ground arith)

-- What a reclaiming leaves: the old cache, if its usage is below the threshold or all of its entries
-- are in use; or the cache without the least recently used of the entries that are not in use.
abbrev pub Reclaimed : ℕ → ℕ → Cache → Cache × List Freed → Type 0
Reclaimed head threshold c (c', freed) =
    ((c' ≡ c) × (freed ≡ []) × ((ltb c.usage threshold ≡ true) ⊎ AreUsed c.entries c.lru_list))
    ⊎ ((k : ℕ) × Oldest c.entries c.lru_list k
        × (ltb c.usage threshold ≡ false)
        × ((j : ℕ) → count j c'.lru_list ≡ count j c.lru_list - (if j == k then 1 else 0))
        × (c'.entries ≡ c.entries)
        × (c'.usage ≡ size_sub c.usage (reclaimed_length head (c.entries k)))
        × (freed ≡ freed_of (c.entries k)))

-- Where no reference counter is negative, a reclaiming by the server gives up one entry at most, and
-- never one that is in use: of the unused entries it is the one that was used least recently. It is
-- given up only if the usage has reached the threshold.
pub reclaim_devprog-Reclaimed :
    (head threshold : ℕ) (c : Cache)
    → ((k : ℕ) → lt_int ((c.entries k).refcnt) (pos 0) ≡ false)
    → Returns (Reclaimed head threshold c) (reclaim_devprog head threshold true c)
unfolding reclaim_devprog
reclaim_devprog-Reclaimed head threshold c counts = elim (Bool-cases (ltb c.usage threshold)) [
  | inl h ↦ rw (h, reclaim_devprog) (inl (refl, refl, inl h))
  | inr h ↦
      rw (h, reclaim_devprog)
        (elim (Option-cases (last_unused c.entries c.lru_list)) [
          | inl e ↦ rw e (
              inl (
                refl,
                refl,
                inr (
                    subst (λ o. Search c.entries c.lru_list o) e
                      (last_unused-Search c.entries c.lru_list)),
              ))
          | inr (k, e) ↦
              let oldest : Oldest c.entries c.lru_list k =
                subst (λ o. Search c.entries c.lru_list o) e
                  (last_unused-Search c.entries c.lru_list) in
              rw (e, zero_of ((c.entries k).refcnt) (counts k) oldest.3)
                (inr (k, oldest, h, λ j. count-erase j k c.lru_list, refl, refl, refl))
        ])
]
