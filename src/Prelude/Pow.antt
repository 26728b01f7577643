-- ===== src/Prelude/Pow.antt =====
-- Powers of two.
use Prim.Native.Nat.{ℕ, zero, suc, ◌+◌, ◌*◌, ◌^◌, ◌<◌, ◌≤◌}
use Prim.Native.Nat.add
use mathlib.Core.Path.{◌≡◌}
use native.Mathlib.Omega.{arith}
use native.Mathlib.Decide.{dec_le}
use native.Mathlib.Nat.{pow-suc}

pub two_pow_suc : (n : ℕ) → 2 ^ suc n ≡ 2 ^ n + 2 ^ n
two_pow_suc n = omega (arith, pow-suc 2 n)

pub two_pow_pos : (n : ℕ) → 0 < 2 ^ n
two_pow_pos zero = omega arith
two_pow_pos (suc n) = omega (arith, two_pow_pos n, two_pow_suc n)

pub two_pow_mono : (m n : ℕ) → m ≤ n → 2 ^ m ≤ 2 ^ n
two_pow_mono m zero h = ground (arith, two_pow_pos 0)
two_pow_mono m (suc n) h = elim (dec_le m n) [
  | yes p ↦ omega (arith, two_pow_mono m n p, two_pow_suc n)
  | no p ↦ let e : m ≡ suc n = omega arith in rw e (omega arith)
]

pub two_pow_add : (m n : ℕ) → 2 ^ (m + n) ≡ 2 ^ m * 2 ^ n
two_pow_add zero n = rw add.zero (omega arith)
two_pow_add (suc m) n =
    rw (add.suc, two_pow_suc (m + n), two_pow_suc m, two_pow_add m n) (omega arith)
