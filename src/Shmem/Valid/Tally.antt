-- ===== src/Shmem/Valid/Tally.antt =====
-- Counting what passes a test, and the class of a free block.
use pg_strom.Prelude.{
  ℕ, zero, suc, ◌+◌, ◌*◌, ◌^◌, ◌≤◌, ◌<◌, ◌≡◌, ◌≢◌, refl, Bool, true, false, arith, ◌==◌, ltb,
  lt→ltb, if◌then◌else◌, ==_iff, Bool-cases, inl, inr, two_pow_pos, two_pow_mono, two_pow_suc,
}
use pg_strom.Shmem.Size.{shmem_blocksz, size_mod, find_least_pot}
use pg_strom.Shmem.Size.Least.{find_least_pot-IsLeastClass}
use pg_strom.Shmem.Zone.{Block, class}
use pg_strom.Shmem.Valid.{tally}

pub tally_same : (n : ℕ) (p p' : ℕ → Bool) → ((j : ℕ) → j < n → p' j ≡ p j) → tally n p' ≡ tally n p
unfolding tally
tally_same zero p p' same = refl
tally_same (suc n) p p' same =
    ground (arith, same n, tally_same n p p' (λ j l. same j (omega arith)))

pub tally_none : (n : ℕ) → tally n (λ j. false) ≡ 0
unfolding tally
tally_none zero = refl
tally_none (suc n) = omega (arith, tally_none n)

-- A change at one place counts once.
pub tally_change :
    (n i : ℕ) (p p' : ℕ → Bool)
    → i < n
    → ((j : ℕ) → j ≢ i → p' j ≡ p j)
    → tally n p' + (if p i then 1 else 0) ≡ tally n p + (if p' i then 1 else 0)
unfolding tally
tally_change zero i p p' h same = absurd (omega arith)
tally_change (suc n) i p p' h same = elim (Bool-cases (i == n)) [
  | inl e ↦
      let e' : i ≡ n = (==_iff i n).0 e in
      rw e' (omega (arith, tally_same n p p' (λ j l. same j (omega arith))))
  | inr e ↦ ground (arith, same n, tally_change n i p p' (ground arith) same)
]

-- The size of a free block of class `k` tells the class.
pub find_least_pot_exact : (k : ℕ) → k ≤ 21 → find_least_pot (2 ^ k * shmem_blocksz) ≡ k
find_least_pot_exact k h =
    let size : ℕ = 2 ^ k * shmem_blocksz in
    let f : ℕ = find_least_pot size in
    let pos : 0 < size = omega (arith, two_pow_pos k) in
    let small : size < size_mod = omega (arith, two_pow_mono k 21 h) in
    let l = find_least_pot-IsLeastClass size pos small in
    let up : ¬ (f < k) =
      λ lt. omega (arith, l.holds, two_pow_mono (suc f) k lt, two_pow_suc f, two_pow_pos f) in
    let down : ¬ (k < f) = λ lt. omega (arith, l.least k lt) in omega arith

-- A free block as `pgstrom_shmem_zone_block_free` leaves it.
abbrev pub free_block : ℕ → Block
free_block s = record { chained = true; blocksz = 2 ^ s * shmem_blocksz }

pub class-free_block : (s : ℕ) → s ≤ 21 → class (free_block s) ≡ s
unfolding class
class-free_block s h = find_least_pot_exact s h

pub free_block_pos : (s : ℕ) → ltb 0 (2 ^ s * shmem_blocksz) ≡ true
free_block_pos s = lt→ltb _ _ (omega (arith, two_pow_pos s))
