-- ===== src/Shmem/Valid.antt =====
-- What holds of a zone between two operations. `Shape` speaks of the blocks and the lists, `Hole`
-- of the state in which one block has left its list and has yet to be given back or out.
pub mod Tally
pub mod Fill
pub mod Buddies
use pg_strom.Prelude.{
  ℕ, zero, suc, ◌+◌, ◌*◌, ◌^◌, ◌≤◌, ◌<◌, ◌≡◌, Bool, true, false, ◌&&◌, Option, none, some, List,
  ltb, ◌==◌, if◌then◌else◌, update, count, length,
}
use pg_strom.Shmem.Size.{shmem_blocksz, shmem_blocksz_bits_range, sizeof_cl_uint}
use pg_strom.Shmem.Tiling.{Tiling}
use pg_strom.Shmem.Zone.{Block, Zone, is_active, is_free, cleared, class}

abbrev pub tile_of : Block → Option ℕ
tile_of b = if b.blocksz == 0 then none else some (class b)

abbrev pub tile : (ℕ → Block) → ℕ → Option ℕ
tile blocks i = tile_of (blocks i)

abbrev pub active_of : (ℕ → Block) → ℕ → ℕ → Bool
active_of blocks k i = is_active (blocks i) && (class (blocks i) == k)

abbrev pub free_of : (ℕ → Block) → ℕ → ℕ → Bool
free_of blocks k i = is_free (blocks i) && (class (blocks i) == k)

-- How many numbers below `n` pass a test.
unfoldable pub tally : ℕ → (ℕ → Bool) → ℕ
tally zero p = 0
tally (suc n) p = (if p n then 1 else 0) + tally n p

pub record Shape (n : ℕ) (blocks : ℕ → Block) (lists : ℕ → List ℕ) (actives : ℕ → ℕ) : Type 0 where
  pub tiling : Tiling n (tile blocks)
  pub class_le : (i k : ℕ) → tile blocks i ≡ some k → k ≤ shmem_blocksz_bits_range
  pub free_size :
      (i : ℕ)
      → is_free (blocks i) ≡ true
      → (blocks i).blocksz ≡ 2 ^ class (blocks i) * shmem_blocksz
  pub active_size :
      (i : ℕ)
      → is_active (blocks i) ≡ true
      → (blocks i).blocksz + sizeof_cl_uint ≤ 2 ^ class (blocks i) * shmem_blocksz
  pub listed : (i k : ℕ) → count i (lists k) ≡ (if free_of blocks k i then 1 else 0)
  pub tallied : (k : ℕ) → actives k ≡ tally n (active_of blocks k)

pub record Hole (i s n : ℕ) (blocks : ℕ → Block) (lists : ℕ → List ℕ) (actives : ℕ → ℕ)
    : Type 0 where
  pub shape : Shape n blocks lists actives
  pub vacant : (blocks i).blocksz ≡ 0
  pub hole : Tiling n (update (tile blocks) i (some s))
  pub small : s ≤ shmem_blocksz_bits_range

-- A zone is valid: its blocks do not overlap, each free block is on the list of its class once and
-- nothing else is on a list, and the statistics count what there is.
pub record IsValid (z : Zone) : Type 0 where
  pub shape : Shape z.num_blocks z.blocks z.free_list z.num_active
  pub counted : (k : ℕ) → z.num_free k ≡ length (z.free_list k)
