-- ===== src/Prelude/Xor.antt =====
-- `^` of a multiple of a power of two with that power: the buddy of a block.
use Prim.Native.Nat.{bit_xor, digits, differ, bit_xor-bitwise}
use pg_strom.Prelude.Tests.{◌==◌, if◌then◌else◌}
use pg_strom.Prelude.Pow.{two_pow_suc}
use Prim.Native.Nat.{ℕ, zero, suc, ◌+◌, ◌-◌, ◌*◌, ◌/◌, ◌%◌, ◌^◌, ◌≤◌, ◌<◌}
use mathlib.Core.Path.{◌≡◌, refl}
use native.Mathlib.Omega.{arith}

abbrev xor_digits : ℕ → ℕ → ℕ → ℕ
xor_digits n a b = digits (λ y. y) differ n a b

-- Any fuel that covers the first number gives the same digits.
xor_digits_fuel : (n m a b : ℕ) → a ≤ n → a ≤ m → xor_digits n a b ≡ xor_digits m a b
xor_digits_fuel zero zero a b p q = refl
xor_digits_fuel zero (suc m) zero b p q = refl
xor_digits_fuel zero (suc m) (suc a) b p q = absurd (omega arith)
xor_digits_fuel (suc n) zero zero b p q = refl
xor_digits_fuel (suc n) zero (suc a) b p q = absurd (omega arith)
xor_digits_fuel (suc n) (suc m) zero b p q = refl
xor_digits_fuel (suc n) (suc m) (suc a) b p q =
    omega (arith, xor_digits_fuel n m (suc a / 2) (b / 2) (omega arith) (omega arith))

zero-xor : (b : ℕ) → bit_xor 0 b ≡ b
zero-xor b = bit_xor-bitwise 0 b

differ-zero : (x : ℕ) → x < 2 → differ x 0 ≡ x
differ-zero zero h = refl
differ-zero (suc zero) h = refl
differ-zero (suc (suc x)) h = absurd (omega arith)

differ-one : (x : ℕ) → x < 2 → differ x 1 ≡ 1 - x
differ-one zero h = refl
differ-one (suc zero) h = refl
differ-one (suc (suc x)) h = absurd (omega arith)

zero-differ : (x : ℕ) → x < 2 → differ 0 x ≡ x
zero-differ zero h = refl
zero-differ (suc zero) h = refl
zero-differ (suc (suc x)) h = absurd (omega arith)

bit_xor_step : (a b : ℕ) → bit_xor a b ≡ bit_xor (a / 2) (b / 2) * 2 + differ (a % 2) (b % 2)
bit_xor_step zero b = omega (arith, zero-xor b, zero-xor (b / 2), zero-differ (b % 2) (omega arith))
bit_xor_step (suc a) b = omega (
  arith,
  bit_xor-bitwise (suc a) b,
  bit_xor-bitwise (suc a / 2) (b / 2),
  xor_digits_fuel a (suc a / 2) (suc a / 2) (b / 2) (omega arith) (omega arith),
)

xor-zero_below : (n a : ℕ) → a ≤ n → bit_xor a 0 ≡ a
xor-zero_below n zero h = refl
xor-zero_below zero (suc a) h = absurd (omega arith)
xor-zero_below (suc n) (suc a) h = omega (
  arith,
  bit_xor_step (suc a) 0,
  xor-zero_below n (suc a / 2) (omega arith),
  differ-zero (suc a % 2) (omega arith),
)

pub xor-zero : (a : ℕ) → bit_xor a 0 ≡ a
xor-zero a = xor-zero_below a a (omega arith)

double : (q p : ℕ) → q * (p + p) ≡ q * p + q * p
double q p = omega arith

halves : (x : ℕ) → (x + x) / 2 ≡ x
halves x = omega arith

evens : (x : ℕ) → (x + x) % 2 ≡ 0
evens x = omega arith

xor_double :
    (k q r : ℕ)
    → bit_xor (q * 2 ^ k) (2 ^ k) ≡ r * 2 ^ k
    → bit_xor (q * 2 ^ suc k) (2 ^ suc k) ≡ r * 2 ^ suc k
xor_double k q r ih =
    rw
      (
        two_pow_suc k,
        double q (2 ^ k),
        double r (2 ^ k),
        bit_xor_step,
        halves (q * 2 ^ k),
        halves (2 ^ k),
        evens (q * 2 ^ k),
        evens (2 ^ k),
      )
      (omega (arith, ih, differ-zero 0 (omega arith)))

pub xor_buddy :
    (k q : ℕ) → bit_xor (q * 2 ^ k) (2 ^ k) ≡ (if q % 2 == 0 then q + 1 else q - 1) * 2 ^ k
xor_buddy zero q = ground (
  arith,
  bit_xor_step (q * 2 ^ zero) (2 ^ zero),
  xor-zero (q / 2),
  differ-one (q % 2) (omega arith),
)
xor_buddy (suc k) q = xor_double k q (if q % 2 == 0 then q + 1 else q - 1) (xor_buddy k q)
