-- ===== src/Shmem/Zone.antt =====
-- The zones of shmem.c: `shmem_block`, `shmem_zone`, the macros over them and the list
-- operations of PostgreSQL that move blocks between the free lists. A block is named by its index
-- in `blocks`, a free list holds indices, and addresses are numbers of an address space that does
-- not wrap. `mem` holds the bytes behind the addresses.
use pg_strom.Prelude.{
  ℕ, zero, suc, ◌+◌, ◌*◌, ◌/◌, ◌%◌, Bool, true, false, not, ◌&&◌, List, [], ◌∷◌, ◌++◌, ltb, leb,
  if◌then◌else◌, update, erase,
}
use pg_strom.Shmem.Size.{shmem_blocksz, size_mod, sizeof_cl_uint, find_least_pot}

-- `chained` is set when `chain.next` or `chain.prev` is no null pointer.
pub record Block : Type 0 where
  pub chained : Bool
  pub blocksz : ℕ

abbrev pub is_active : Block → Bool
is_active b = not b.chained && ltb 0 b.blocksz

abbrev pub is_free : Block → Bool
is_free b = b.chained && ltb 0 b.blocksz

-- `memset(block, 0, sizeof(shmem_block))`
abbrev pub cleared : Block
cleared = record { chained = false; blocksz = 0 }

pub record Zone : Type 0 where
  pub num_blocks : ℕ
  pub num_active : ℕ → ℕ
  pub num_free : ℕ → ℕ
  pub free_list : ℕ → List ℕ
  pub block_baseaddr : ℕ
  pub blocks : ℕ → Block
  pub mem : ℕ → ℕ

-- The end of the range is `(block_baseaddr + num_blocks) * SHMEM_BLOCKSZ`, as the macro has it.
abbrev pub address_in_shmem_zone : Zone → ℕ → Bool
address_in_shmem_zone z address =
    leb z.block_baseaddr address
    && ltb address ((z.block_baseaddr + z.num_blocks) * shmem_blocksz % size_mod)

abbrev pub shmem_block_magic : ℕ
shmem_block_magic = 0xdeadbeaf

-- A `cl_uint` at an address, little end first.
unfoldable pub store_uint : (ℕ → ℕ) → ℕ → ℕ → ℕ → ℕ
store_uint mem address v =
    update
      (update (update (update mem address (v % 256)) (address + 1) (v / 256 % 256)) (address + 2)
        (v / 65536 % 256))
      (address + 3) (v / 16777216 % 256)

unfoldable pub load_uint : (ℕ → ℕ) → ℕ → ℕ
load_uint mem address =
    mem address + mem (address + 1) * 256 + mem (address + 2) * 65536 + mem (address + 3) * 16777216

-- `dlist_push_tail(&zone->free_list[k], &block->chain)` after `block->blocksz = size`.
unfoldable pub push_tail : Zone → ℕ → ℕ → ℕ → Zone
push_tail z k index size = record z {
  free_list = update z.free_list k (z.free_list k ++ index ∷ []);
  blocks = update z.blocks index (record { chained = true; blocksz = size });
}

-- `dlist_push_head(&zone->free_list[k], &block->chain)` after `block->blocksz = size`.
unfoldable pub push_head : Zone → ℕ → ℕ → ℕ → Zone
push_head z k index size = record z {
  free_list = update z.free_list k (index ∷ z.free_list k);
  blocks = update z.blocks index (record { chained = true; blocksz = size });
}

-- `dlist_delete(&block->chain)`: the block leaves the list that it is on, and keeps its pointers.
unfoldable pub delete : Zone → ℕ → Zone
delete z index = record z { free_list = λ k. erase index (z.free_list k) }

-- None of `n` blocks from `index` on is a head.
unfoldable pub no_heads : (ℕ → Block) → ℕ → ℕ → Bool
no_heads blocks index zero = true
no_heads blocks index (suc n) =
    not (is_active (blocks index)) && not (is_free (blocks index)) && no_heads blocks (index + 1) n

-- The class of a head block, as the debugging walk of `collect_shmem_block_info` finds it.
unfoldable pub class : Block → ℕ
class b =
    if b.chained
    then find_least_pot b.blocksz
    else find_least_pot ((b.blocksz + sizeof_cl_uint) % size_mod)
