-- ===== src/Shmem/Buddy.antt =====
-- The buddy allocator of one zone: `pgstrom_shmem_zone_block_split`, `_alloc` and `_free`.
-- The caller holds the zone's lock throughout. An `Assert` that fails and an index outside
-- `free_list` are a `fault`.
pub mod Pop
pub mod Split
pub mod Alloc
pub mod Free
use Prim.Native.Nat.{bit_xor}
use pg_strom.Prelude.{
  ℕ, zero, suc, ◌+◌, ◌-◌, ◌*◌, ◌/◌, ◌%◌, ◌^◌, Bool, true, false, not, ◌&&◌, ◌||◌, Option, none,
  some, [], ◌∷◌, ltb, leb, ◌==◌, if◌then◌else◌, is_empty, update,
}
use pg_strom.Prelude.Run.{Run, done, fault, check, ◌>>=◌, ◌>>◌}
use pg_strom.Shmem.Size.{
  size_mod, shmem_blocksz, shmem_blocksz_bits_range, sizeof_cl_uint, find_least_pot,
}
use pg_strom.Shmem.Zone.{
  Zone, is_active, is_free, cleared, address_in_shmem_zone, shmem_block_magic, store_uint,
  load_uint, push_tail, push_head, delete, no_heads,
}

-- The part of the split behind its test: the first free block of the class becomes two of the
-- class below.
unfoldable pub halve : ℕ → Zone → Run (Bool × Zone)
halve shift z = elim (z.free_list shift) [
  | [] ↦ fault
  | index ∷ rest ↦
      let popped = record z {
        free_list = update z.free_list shift rest;
        num_free = update z.num_free shift (z.num_free shift - 1);
      } in
      let half = 2 ^ (shift - 1) * shmem_blocksz in
      let first = push_tail popped (shift - 1) index half in
      let second = push_tail first (shift - 1) (index + 2 ^ (shift - 1)) half in
      check (index % 2 ^ shift == 0)
      >> check (no_heads first.blocks (index + 1) (2 ^ shift - 1))
      >> done (
        true,
        record second {
          num_free = update second.num_free (shift - 1) (second.num_free (shift - 1) + 2);
        },
      )
]

-- The recursion goes up one class at a time, so `shmem_blocksz_bits_range + 1 - shift` rounds are
-- enough: at the topmost class the test of `shift` ends it.
unfoldable pub split_rounds : ℕ → ℕ → Zone → Run (Bool × Zone)
split_rounds zero shift z = fault
split_rounds (suc n) shift z =
    let refill = split_rounds n (suc shift) z in
    check (ltb 0 shift && leb shift shmem_blocksz_bits_range)
    >> (if is_empty (z.free_list shift)
        then (if shift == shmem_blocksz_bits_range
            then done (false, z)
            else (refill >>= λ r. if r.0 then halve shift r.1 else done (false, r.1)))
        else halve shift z)

unfoldable pub block_split : Zone → ℕ → Run (Bool × Zone)
unfolding split_rounds
block_split z shift = split_rounds (shmem_blocksz_bits_range + 1 - shift) shift z

-- The part of the allocation behind its test.
unfoldable pub take_block : Zone → ℕ → ℕ → Run (Option ℕ × Zone)
take_block z shift size = elim (z.free_list shift) [
  | [] ↦ fault
  | index ∷ rest ↦
      let blocks' = update z.blocks index (record { chained = false; blocksz = size }) in
      let address = z.block_baseaddr + index * shmem_blocksz in
      check ((z.blocks index).blocksz == 2 ^ shift * shmem_blocksz)
      >> check (no_heads blocks' (index + 1) (2 ^ shift - 1))
      >> done (
        some address,
        record z {
          free_list = update z.free_list shift rest;
          blocks = blocks';
          num_free = update z.num_free shift (z.num_free shift - 1);
          num_active = update z.num_active shift (z.num_active shift + 1);
          mem = store_uint z.mem (address + size) shmem_block_magic;
        },
      )
]

-- `none` is the null pointer.
unfoldable pub block_alloc : Zone → ℕ → Run (Option ℕ × Zone)
block_alloc z size =
    let shift = find_least_pot ((size + sizeof_cl_uint) % size_mod) in
    check (leb shift shmem_blocksz_bits_range)
    >> (if is_empty (z.free_list shift)
        then (block_split z (shift + 1) >>= λ r.
            if r.0 then take_block r.1 shift size else done (none, r.1))
        else take_block z shift size)

-- Behind the loop of the release.
pub settle : Zone → ℕ → ℕ → Zone
settle z shift index =
    push_head (record z { num_free = update z.num_free shift (z.num_free shift + 1) }) shift index
      (2 ^ shift * shmem_blocksz)

-- One merge: the buddy leaves its list, and the upper one of the two blocks is cleared.
pub absorb : Zone → ℕ → ℕ → ℕ → Zone
absorb z shift index buddy =
    let z' = delete z buddy in
    record z' {
      blocks = update z'.blocks (if ltb buddy index then index else buddy) cleared;
      num_free = update z'.num_free shift (z'.num_free shift - 1);
    }

-- The `while` loop, with the rounds up to the topmost class.
pub merge : ℕ → ℕ → ℕ → Zone → Run Zone
merge zero shift index z = done (settle z shift index)
merge (suc n) shift index z =
    let buddy = bit_xor index (2 ^ shift) in
    let next =
      check (is_free (z.blocks buddy))
      >> merge n (suc shift) (if ltb buddy index then buddy else index)
          (absorb z shift index buddy) in
    if leb z.num_blocks (buddy + 2 ^ shift)
    then done (settle z shift index)
    else if is_active (z.blocks buddy)
        || not ((z.blocks buddy).blocksz == 2 ^ shift * shmem_blocksz)
    then done (settle z shift index)
    else next

unfoldable pub block_free : Zone → ℕ → Run Zone
unfolding merge
block_free z address =
    let index = (address - z.block_baseaddr) / shmem_blocksz in
    let block = z.blocks index in
    let shift = find_least_pot ((block.blocksz + sizeof_cl_uint) % size_mod) in
    check (address_in_shmem_zone z address)
    >> check (is_active block)
    >> check (load_uint z.mem (address + block.blocksz) == shmem_block_magic)
    >> check (leb shift shmem_blocksz_bits_range)
    >> check (index / 2 ^ shift * 2 ^ shift == index)
    >> merge (shmem_blocksz_bits_range - shift) shift index
        (record z { num_active = update z.num_active shift (z.num_active shift - 1) })
