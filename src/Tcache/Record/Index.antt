-- ===== src/Tcache/Record/Index.antt =====
-- The rounds of the binary search and of the scan, over any numbers.
use pg_strom.Prelude.{
  ℕ, zero, suc, ◌+◌, ◌-◌, ◌/◌, ◌<◌, ◌≤◌, ◌≡◌, Bool, true, false, ◌&&◌, ◌==◌, ltb, leb, inl, inr,
  Bool-cases, arith, subst,
}
use pg_strom.Prelude.Int.{ℤ, pos, negsuc}
use pg_strom.Prelude.Run.{Returns}
use pg_strom.Tcache.Record.{narrow}

-- The index where the test begins to hold, within the bounds.
abbrev pub IsStart : (ℕ → Bool) → ℕ → ℕ × ℕ → Type 0
IsStart p n (lo, hi) =
    (lo ≡ hi)
    × (lo ≤ n)
    × ((j : ℕ) → j < lo → p j ≡ false)
    × ((j : ℕ) → lo ≤ j → j < n → p j ≡ true)

pub narrow-IsStart :
    (p : ℕ → Bool) (n fuel lo hi : ℕ)
    → ((i j : ℕ) → i ≤ j → j < n → p i ≡ true → p j ≡ true)
    → hi - lo < fuel
    → lo ≤ hi
    → hi ≤ n
    → ((j : ℕ) → j < lo → p j ≡ false)
    → ((j : ℕ) → hi ≤ j → j < n → p j ≡ true)
    → Returns (IsStart p n) (narrow p fuel lo hi)
unfolding narrow
narrow-IsStart p n zero lo hi step enough le top below above = absurd (omega arith)
narrow-IsStart p n (suc fuel) lo hi step enough le top below above = elim (Bool-cases (ltb lo hi)) [
  | inr e ↦ rw e ((ground arith), (omega arith), below, λ j h h'. above j (ground arith) h')
  | inl e ↦ elim (Bool-cases (p ((lo + hi) / 2))) [
    | inl hit ↦
        rw (e, hit)
          (narrow-IsStart p n fuel lo ((lo + hi) / 2) step (ground arith) (ground arith)
            (ground arith) below (λ j h h'. step ((lo + hi) / 2) j h h' hit))
    | inr miss ↦
        rw (e, miss)
          (narrow-IsStart p n fuel (suc ((lo + hi) / 2)) hi step (ground arith) (ground arith) top
            (before_miss ((lo + hi) / 2) (ground arith) miss) above)
  ]
]
  where
    before_miss : (m : ℕ) → m < n → p m ≡ false → (j : ℕ) → j < suc m → p j ≡ false
    before_miss m small miss j h = elim (Bool-cases (p j)) [
      | inr e ↦ e
      | inl e ↦ let held : p m ≡ true = step j m (omega arith) small e in absurd (ground arith)
    ]

-- An index below `n` with the least value from `c` on, or a negative one if no value reaches `c`.
abbrev pub IsLeastIndex : (ℕ → ℕ) → ℕ → ℕ → ℤ → Type 0
IsLeastIndex f c n (pos m) = (m < n) × (c ≤ f m) × ((j : ℕ) → j < n → c ≤ f j → f m ≤ f j)
IsLeastIndex f c n (negsuc k) = (j : ℕ) → j < n → f j < c

-- The value at the index, or another one where there is none.
abbrev pub value_at : (ℕ → ℕ) → ℕ → ℤ → ℕ
value_at f last (pos m) = f m
value_at f last (negsuc k) = last

pub least_kept :
    (f : ℕ → ℕ) (c i last : ℕ) (index : ℤ)
    → IsLeastIndex f c i index
    → f i < last
    → (leb c (f i) && ltb (f i) (value_at f last index)) ≡ false
    → IsLeastIndex f c (suc i) index
least_kept f c i last (pos m) (small, reaches, least) under worse = (
  omega arith,
  reaches,
  λ j h reach. elim (Bool-cases (j == i)) [
    | inl e ↦ let same : j ≡ i = ground arith in rw same (no_less (subst (λ x. c ≤ f x) same reach))
    | inr e ↦ least j (ground arith) reach
  ],
)
  where
    no_less : c ≤ f i → f m ≤ f i
    no_less reach = ground arith
least_kept f c i last (negsuc k) none_yet under worse = λ j h. elim (Bool-cases (j == i)) [
  | inl e ↦ let same : j ≡ i = ground arith in rw same (ground arith)
  | inr e ↦ none_yet j (ground arith)
]

pub least_replaced :
    (f : ℕ → ℕ) (c i last : ℕ) (index : ℤ)
    → IsLeastIndex f c i index
    → (leb c (f i) && ltb (f i) (value_at f last index)) ≡ true
    → IsLeastIndex f c (suc i) (pos i)
least_replaced f c i last (pos m) (small, reaches, least) better = (
  omega arith,
  ground arith,
  λ j h reach. elim (Bool-cases (j == i)) [
    | inl e ↦ let same : j ≡ i = ground arith in rw same (omega arith)
    | inr e ↦ let other = least j (ground arith) reach in ground arith
  ],
)
least_replaced f c i last (negsuc k) none_yet better = (
  omega arith,
  ground arith,
  λ j h reach. elim (Bool-cases (j == i)) [
    | inl e ↦ let same : j ≡ i = ground arith in rw same (omega arith)
    | inr e ↦ let other = none_yet j (ground arith) in absurd (omega arith)
  ],
)
