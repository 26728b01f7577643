-- ===== src/Shmem/Size/Least.antt =====
-- The class that `find_least_pot` computes for a size.
use Prim.Native.Nat.{max}
use native.Mathlib.Numerals.{add-one}
use pg_strom.Prelude.{
  ℕ, zero, suc, ◌+◌, ◌-◌, ◌*◌, ◌/◌, ◌%◌, ◌^◌, ◌≤◌, ◌<◌, ◌≡◌, ◌∙◌, inl, inr, true, false, ◌==◌,
  Bool-cases, if◌then◌else◌, arith, two_pow_add, two_pow_pos, two_pow_suc, two_pow_mono,
}
use native.Mathlib.Nat.{
  mod-eq_of_lt, mul_assoc, mul_comm, le_trans, mul-le-mul_right, div-mul-le_self, div-lt_iff_lt-mul,
}
use pg_strom.Shmem.Size.{
  size_mod, shmem_blocksz, shmem_blocksz_bits, narrow, narrow_all, pot_exponent, find_least_pot,
}

-- What is left of `n` after `shift` bits have gone: fewer than `w` bits.
record Narrowed (n w : ℕ) (s : ℕ × ℕ) : Type 0 where
  small : s.0 < 2 ^ w
  above : s.0 * 2 ^ s.1 ≤ n
  below : n < (s.0 + 1) * 2 ^ s.1
  kept : 0 < s.1 → 0 < s.0

module _ (size P T n : ℕ) (pos : 0 < P) (above : size * T ≤ n) (below : n < (size + 1) * T) where
  quotient-above : size / P * (P * T) ≤ n
  quotient-above = le_trans (rw (← mul_assoc) (mul-le-mul_right T (div-mul-le_self size P))) above

  quotient-below : n < (size / P + 1) * (P * T)
  quotient-below =
      let step : size < (size / P + 1) * P = (div-lt_iff_lt-mul pos).0 (omega arith) in
      le_trans below (
        rw (← mul_assoc)
          (mul-le-mul_right T (let t : size + 1 ≤ (size / P + 1) * P = omega arith in t)))

quotient-lt : (size P : ℕ) → 0 < P → size < P * P → size / P < P
quotient-lt size P pos small = (div-lt_iff_lt-mul pos).1 small

low_of_quotient : (size P : ℕ) → 0 < P → size < P * P → (size / P % P == 0) ≡ true → size < P
low_of_quotient size P pos small h =
    let q : size / P % P ≡ size / P = mod-eq_of_lt (quotient-lt size P pos small) in
    let z : size / P < 1 = ground arith in omega (arith, (div-lt_iff_lt-mul pos).0 z)

quotient_pos : (size P : ℕ) → 0 < P → size < P * P → (size / P % P == 0) ≡ false → 0 < size / P
quotient_pos size P pos small h =
    let q : size / P % P ≡ size / P = mod-eq_of_lt (quotient-lt size P pos small) in ground arith

-- A test keeps the invariant, whichever way it goes, and halves the width.
narrow-Narrowed : (k n : ℕ) (s : ℕ × ℕ) → Narrowed n (k + k) s → Narrowed n k (narrow k s)
narrow-Narrowed k n (size, shift) h =
    let pos = two_pow_pos k in
    let small : size < 2 ^ k * 2 ^ k = rw (← two_pow_add) h.small in
    let e : 2 ^ (shift + k) ≡ 2 ^ k * 2 ^ shift = two_pow_add shift k ∙ mul_comm _ _ in
    elim (Bool-cases ((size / 2 ^ k) % 2 ^ k == 0)) [
      | inl z ↦ rw z (record {
        small = low_of_quotient size (2 ^ k) pos small z;
        above = h.above;
        below = h.below;
        kept = h.kept;
      })
      | inr z ↦ rw z (record {
        small = quotient-lt size (2 ^ k) pos small;
        above = rw e (quotient-above size (2 ^ k) (2 ^ shift) n pos h.above h.below);
        below = rw e (quotient-below size (2 ^ k) (2 ^ shift) n pos h.above h.below);
        kept = λ _. quotient_pos size (2 ^ k) pos small z;
      })
    ]

narrow_all-Narrowed : (n : ℕ) → n < size_mod → Narrowed n 1 (narrow_all n)
unfolding narrow_all
narrow_all-Narrowed n h = narrow-Narrowed 1 n _ (
    narrow-Narrowed 2 n _ (
      narrow-Narrowed 4 n _ (
        narrow-Narrowed 8 n _ (
          narrow-Narrowed 16 n _ (
            narrow-Narrowed 32 n _ (record {
              small = h;
              above = omega arith;
              below = omega arith;
              kept = omega arith;
            }))))))

-- The exponent is the number of bits of `n`.
record IsBitLength (n e : ℕ) : Type 0 where
  pub fits : n < 2 ^ e
  pub least : (k : ℕ) → k < e → 2 ^ k ≤ n

last_bit :
    (n : ℕ) (s : ℕ × ℕ)
    → Narrowed n 1 s
    → IsBitLength n (let (rest, shift) = s in if rest % 2 == 0 then shift else shift + 1)
last_bit n (zero, zero) h = record { fits = omega (arith, h.below); least = λ k l. elim l [ ] }
last_bit n (zero, suc shift) h = absurd (omega (arith, h.kept))
last_bit n (suc zero, shift) h = record {
  fits = rw (add-one, two_pow_suc) (omega (arith, h.below));
  least = λ k l. omega (arith, two_pow_mono k shift (omega arith), h.above);
}
last_bit n (suc (suc r), shift) h = absurd (omega (arith, h.small))

pot_exponent-IsBitLength : (n : ℕ) → n < size_mod → IsBitLength n (pot_exponent n)
unfolding pot_exponent
pot_exponent-IsBitLength n h = last_bit n (narrow_all n) (narrow_all-Narrowed n h)

-- What a class of blocks promises for a size: its blocks hold it, and those of no smaller class do.
pub record IsLeastClass (size shift : ℕ) : Type 0 where
  pub holds : size ≤ 2 ^ shift * shmem_blocksz
  pub least : (k : ℕ) → k < shift → 2 ^ k * shmem_blocksz < size

least_of_bits :
    (size e : ℕ)
    → 0 < size
    → IsBitLength (size - 1) e
    → IsLeastClass size (max e shmem_blocksz_bits - shmem_blocksz_bits)
least_of_bits size e pos h =
    let c : ℕ = max e shmem_blocksz_bits - shmem_blocksz_bits in
    record {
      holds = omega (arith, h.fits, two_pow_mono e (c + 13) (omega arith), two_pow_add c 13);
      least = λ k l. omega (arith, h.least (k + 13) (omega arith), two_pow_add k 13);
    }

-- For every size from 1 up to the largest 64-bit word, `find_least_pot` gives the least class whose
-- blocks hold the size.
pub find_least_pot-IsLeastClass :
    (size : ℕ) → 0 < size → size < size_mod → IsLeastClass size (find_least_pot size)
unfolding find_least_pot
find_least_pot-IsLeastClass size pos h =
    let e : (size + size_mod - 1) % size_mod ≡ size - 1 = omega arith in
    rw e (
      least_of_bits size (pot_exponent (size - 1)) pos
        (pot_exponent-IsBitLength (size - 1) (omega arith)))
