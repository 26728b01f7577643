-- ===== src/Device/Group/Scan.antt =====
-- The rounds of the prefix sum of `gpuscan_writeback_row_error`.
use native.Mathlib.Decide.{dec_lt}
use native.Mathlib.Nat.{mul-le-mul_right, div-eq_of_lt-le, le_trans}
use native.Mathlib.Numerals.{add-one}
use pg_strom.Prelude.{
  ℕ, zero, suc, ◌+◌, ◌-◌, ◌*◌, ◌/◌, ◌%◌, ◌^◌, ◌≤◌, ◌<◌, ◌≡◌, refl, ap, true, false, arith, ◌==◌,
  Bool-cases, inl, inr, two_pow_suc, two_pow_pos,
}
use pg_strom.Device.Group.{scan_round, scan_rounds}

-- The sum of the first `m` values.
unfoldable pub sum_below : (ℕ → ℕ) → ℕ → ℕ
sum_below f zero = 0
sum_below f (suc m) = sum_below f m + f m

-- After `i` rounds each thread holds the sum over its block of 2 ^ i threads, up to itself.
abbrev Summed : (ℕ → ℕ) → ℕ → (ℕ → ℕ) → Type 0
Summed f i temp =
    (q r : ℕ)
    → r < 2 ^ i
    → temp (q * 2 ^ i + r) + sum_below f (q * 2 ^ i) ≡ sum_below f (q * 2 ^ i + r + 1)

quotient_of : (q p r : ℕ) → r < p → (q * p + r) / p ≡ q
quotient_of q p r h = div-eq_of_lt-le _ (omega arith) (omega arith)

round_low :
    (i : ℕ) (temp : ℕ → ℕ) (q r : ℕ)
    → r < 2 ^ i
    → scan_round i temp ((q + q) * 2 ^ i + r) ≡ temp ((q + q) * 2 ^ i + r)
unfolding scan_round
round_low i temp q r h =
    let even : ((q + q) % 2 == 1) ≡ false = ground arith in
    rw (quotient_of (q + q) (2 ^ i) r h, even)

round_high :
    (i : ℕ) (temp : ℕ → ℕ) (q r : ℕ)
    → r < 2 ^ i
    → scan_round i temp ((q + q + 1) * 2 ^ i + r)
      ≡ temp ((q + q + 1) * 2 ^ i + r) + temp ((q + q) * 2 ^ i + (2 ^ i - 1))
unfolding scan_round
round_high i temp q r h =
    let odd : ((q + q + 1) % 2 == 1) ≡ true = ground arith in
    let less : (q + q + 1) * 2 ^ i + r - 2 ^ i ≡ (q + q) * 2 ^ i + r = omega arith in
    rw (quotient_of (q + q + 1) (2 ^ i) r h, odd, less, quotient_of (q + q) (2 ^ i) r h)

scan_round-Summed :
    (f : ℕ → ℕ) (i : ℕ) (temp : ℕ → ℕ) → Summed f i temp → Summed f (suc i) (scan_round i temp)
scan_round-Summed f i temp h q r lt = elim (dec_lt r (2 ^ i)) [
  | yes low ↦
      let e : q * 2 ^ suc i ≡ (q + q) * 2 ^ i =
        omega (arith, ap (λ (t : ℕ). q * t) (two_pow_suc i)) in
      rw (e, round_low i temp q r low) (h (q + q) r low)
  | no high ↦
      let e : q * 2 ^ suc i ≡ (q + q) * 2 ^ i =
        omega (arith, ap (λ (t : ℕ). q * t) (two_pow_suc i)) in
      let lt' : r - 2 ^ i < 2 ^ i = omega (arith, two_pow_suc i) in
      let d : (q + q) * 2 ^ i + r ≡ (q + q + 1) * 2 ^ i + (r - 2 ^ i) = omega arith in
      let last : (q + q) * 2 ^ i + (2 ^ i - 1) + 1 ≡ (q + q + 1) * 2 ^ i =
        omega (arith, two_pow_pos i) in
      rw (e, d, round_high i temp q (r - 2 ^ i) lt')
        (omega (
          arith,
          h (q + q + 1) (r - 2 ^ i) lt',
          h (q + q) (2 ^ i - 1) (omega (arith, two_pow_pos i)),
          ap (sum_below f) last,
        ))
]

pub sum_below-add_one : (f : ℕ → ℕ) (m : ℕ) → sum_below f (m + 1) ≡ sum_below f m + f m
unfolding sum_below
sum_below-add_one f m = rw (add-one m)

pub sum_below-zero : (f : ℕ → ℕ) → sum_below f 0 ≡ 0
unfolding sum_below
sum_below-zero f = refl

-- With one block left the sums are those from the first thread on.
Summed-last :
    (f : ℕ → ℕ) (i : ℕ) (temp : ℕ → ℕ)
    → Summed f i temp
    → (k : ℕ) → k < 2 ^ i
    → temp k ≡ sum_below f (k + 1)
Summed-last f i temp h k b =
    let at : 0 * 2 ^ i + k ≡ k = omega arith in
    let from : 0 * 2 ^ i ≡ 0 = omega arith in
    let to : 0 * 2 ^ i + k + 1 ≡ k + 1 = omega arith in
    omega (arith, h 0 k b, ap temp at, ap (sum_below f) from, ap (sum_below f) to, sum_below-zero f)

one_block : (s n i k : ℕ) → s ≡ 0 → n < (s + 1) * 2 ^ i → k < n → k < 2 ^ i
one_block s n i k z lt b = omega (arith, ap (λ (t : ℕ). (t + 1) * 2 ^ i) z)

half_blocks : (s p : ℕ) → (s + 1) * p ≤ (s / 2 + 1) * (p + p)
half_blocks s p =
    le_trans (mul-le-mul_right p (let t : s + 1 ≤ (s / 2 + 1) + (s / 2 + 1) = omega arith in t))
      (omega arith)

-- The loop runs until a block holds all threads.
scan_rounds-Summed :
    (f : ℕ → ℕ) (fuel i s n : ℕ) (temp : ℕ → ℕ)
    → Summed f i temp
    → s < 2 ^ fuel
    → n < (s + 1) * 2 ^ i
    → (k : ℕ) → k < n
    → scan_rounds fuel i s temp k ≡ sum_below f (k + 1)
unfolding scan_rounds
scan_rounds-Summed f zero i s n temp h fuel lt k b =
    let z : s ≡ 0 = omega arith in Summed-last f i temp h k (one_block s n i k z lt b)
scan_rounds-Summed f (suc m) i s n temp h fuel lt k b = elim (Bool-cases (s == 0)) [
  | inl stop ↦
      let z : s ≡ 0 = ground arith in
      rw (stop, scan_rounds) (Summed-last f i temp h k (one_block s n i k z lt b))
  | inr more ↦
      rw (more, scan_rounds, add-one i)
        (scan_rounds-Summed f m (suc i) (s / 2) n (scan_round i temp) (scan_round-Summed f i temp h)
          (omega (arith, two_pow_suc m)) (le_trans lt (rw (two_pow_suc i) (half_blocks s (2 ^ i))))
          k b)
]

Summed-first : (f : ℕ → ℕ) → Summed f 0 f
Summed-first f q r lt =
    let at : q * 2 ^ 0 + r ≡ q = omega arith in
    let from : q * 2 ^ 0 ≡ q = omega arith in
    let to : q * 2 ^ 0 + r + 1 ≡ q + 1 = omega arith in
    omega (arith, ap f at, ap (sum_below f) from, ap (sum_below f) to, sum_below-add_one f q)

-- In a work-group of any size below 2 ^ 32 each thread ends with the sum of the values of the
-- threads up to itself.
pub scan_rounds-sum_below :
    (f : ℕ → ℕ) (n : ℕ)
    → n < 2 ^ 32
    → (k : ℕ) → k < n
    → scan_rounds 32 0 n f k ≡ sum_below f (k + 1)
scan_rounds-sum_below f n h k b =
    scan_rounds-Summed f 32 0 n n f (Summed-first f) h (omega arith) k b
