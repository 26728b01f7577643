-- ===== src/Shmem/Size.antt =====
-- The block sizes of shmem.c: the constants of pg_strom.h and `find_least_pot`.
-- A `Size` is a 64-bit word, kept as a number below 2 ^ 64.
pub mod Least
use Prim.Native.Nat.{max}
use pg_strom.Prelude.{ℕ, ◌+◌, ◌-◌, ◌/◌, ◌%◌, ◌^◌, ◌==◌, if◌then◌else◌}

abbrev pub size_mod : ℕ
size_mod = 2 ^ 64

abbrev pub shmem_blocksz_bits : ℕ
shmem_blocksz_bits = 13

abbrev pub shmem_blocksz_bits_max : ℕ
shmem_blocksz_bits_max = 34

abbrev pub shmem_blocksz_bits_range : ℕ
shmem_blocksz_bits_range = 21

abbrev pub shmem_blocksz : ℕ
shmem_blocksz = 8192

abbrev pub sizeof_cl_uint : ℕ
sizeof_cl_uint = 4

-- One test of `find_least_pot`: are any of the bits k to 2 k - 1 set? If so, the low k bits go.
abbrev narrow : ℕ → ℕ × ℕ → ℕ × ℕ
narrow k (size, shift) =
    if (size / 2 ^ k) % 2 ^ k == 0 then (size, shift) else (size / 2 ^ k, shift + k)

-- The six tests, from 32 bits down to one.
unfoldable pub narrow_all : ℕ → ℕ × ℕ
narrow_all size = narrow 1 (narrow 2 (narrow 4 (narrow 8 (narrow 16 (narrow 32 (size, 0))))))

-- The exponent that the tests leave, with the last bit.
unfoldable pub pot_exponent : ℕ → ℕ
unfolding narrow_all
pot_exponent size =
    let (rest, shift) = narrow_all size in if rest % 2 == 0 then shift else shift + 1

-- `size--` wraps below 0.
unfoldable pub find_least_pot : ℕ → ℕ
unfolding pot_exponent
find_least_pot size =
    max (pot_exponent ((size + size_mod - 1) % size_mod)) shmem_blocksz_bits - shmem_blocksz_bits
