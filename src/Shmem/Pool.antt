-- ===== src/Shmem/Pool.antt =====
-- The shared memory segment of shmem.c: `shmem_head` and the public calls that pick a zone. The
-- static `zone_index` of `pgstrom_shmem_alloc` is a field here. Each zone's lock is held for the
-- whole call into the zone, so the calls are one after the other.
pub mod Grant
use pg_strom.Prelude.{
  ℕ, zero, suc, ◌+◌, ◌-◌, ◌*◌, ◌/◌, ◌%◌, ◌^◌, Bool, true, false, ◌||◌, Option, none, some, List, [],
  ◌∷◌, ltb, leb, ◌==◌, if◌then◌else◌, update,
}
use pg_strom.Prelude.Run.{Run, done, fault, check, ◌>>=◌, ◌>>◌}
use pg_strom.Shmem.Size.{
  size_mod, shmem_blocksz, shmem_blocksz_bits, shmem_blocksz_bits_max, shmem_blocksz_bits_range,
  sizeof_cl_uint, find_least_pot,
}
use pg_strom.Shmem.Zone.{
  Zone, is_active, is_free, address_in_shmem_zone, shmem_block_magic, load_uint,
}
use pg_strom.Shmem.Buddy.{block_alloc, block_free}

pub record Pool : Type 0 where
  pub is_ready : Bool
  pub num_zones : ℕ
  pub zone_baseaddr : ℕ
  pub zone_length : ℕ
  pub zones : ℕ → Zone
  pub zone_index : ℕ

abbrev pub put_zone : Pool → Zone → Pool
put_zone p z = record p { zones = update p.zones p.zone_index z }

-- The end of a round: the address, if there is one, or the next zone, unless the round was the
-- last.
pub end_round : (Pool → Run (Option ℕ × Pool)) → ℕ → Pool → Option ℕ × Zone → Run (Option ℕ × Pool)
end_round again start p (some address, z) = done (some address, put_zone p z)
end_round again start p (none, z) =
    let next = (p.zone_index + 1) % p.num_zones in
    let p' = record (put_zone p z) { zone_index = next } in
    let rest = again p' in if next == start then done (none, p') else rest

-- The `do ... while (zone_index != start)` loop visits each zone once, so `num_zones` rounds are
-- enough.
pub alloc_rounds : ℕ → ℕ → ℕ → Pool → Run (Option ℕ × Pool)
unfolding end_round
alloc_rounds zero start size p = fault
alloc_rounds (suc n) start size p =
    block_alloc (p.zones p.zone_index) size >>= end_round (alloc_rounds n start size) start p

unfoldable pub shmem_alloc : ℕ → Pool → Run (Option ℕ × Pool)
unfolding alloc_rounds
shmem_alloc size p =
    if p.is_ready
    then if size == 0 || ltb (2 ^ shmem_blocksz_bits_max) size
      then done (none, p)
      else alloc_rounds p.num_zones p.zone_index size p
    else done (none, p)

-- `pgstrom_shmem_alloc_alap`, with the size that goes to `*allocated`.
unfoldable pub shmem_alloc_alap : ℕ → Pool → Run (Option (ℕ × ℕ) × Pool)
shmem_alloc_alap required p =
    let shift = find_least_pot ((required + sizeof_cl_uint) % size_mod) in
    let rounded =
      (2 ^ (shift + shmem_blocksz_bits) % size_mod + size_mod - sizeof_cl_uint) % size_mod in
    shmem_alloc rounded p >>= λ r. elim r.0 [
      | some address ↦ done (some (address, rounded), r.1)
      | none ↦ done (none, r.1)
    ]

unfoldable pub shmem_free : ℕ → Pool → Run Pool
shmem_free address p =
    let k = (address - p.zone_baseaddr) / p.zone_length in
    check (address % shmem_blocksz == 0)
    >> check (ltb k p.num_zones)
    >> (block_free (p.zones k) address >>= λ z. done (record p { zones = update p.zones k z }))

unfoldable pub shmem_sanitycheck : ℕ → Pool → Run Bool
shmem_sanitycheck address p =
    let k = (address - p.zone_baseaddr) / p.zone_length in
    let z = p.zones k in
    let block = z.blocks ((address - z.block_baseaddr) / shmem_blocksz) in
    check (address % shmem_blocksz == 0)
    >> check (ltb k p.num_zones)
    >> check (address_in_shmem_zone z address)
    >> check (is_active block)
    >> done (load_uint z.mem (address + block.blocksz) == shmem_block_magic)

-- The debugging walk of `collect_shmem_block_info`: active and free heads for each class. Each
-- round goes on by one block at least, so `num_blocks` rounds are enough; a block that is no head
-- is the error of the walk.
pub walk : ℕ → ℕ → (ℕ → ℕ) → (ℕ → ℕ) → Zone → Run ((ℕ → ℕ) × (ℕ → ℕ))
walk zero i active free z = if ltb i z.num_blocks then fault else done (active, free)
walk (suc n) i active free z =
    let b = z.blocks i in
    let a = find_least_pot ((b.blocksz + sizeof_cl_uint) % size_mod) in
    let f = find_least_pot b.blocksz in
    let from_active =
      check (leb a shmem_blocksz_bits_range)
      >> walk n (i + 2 ^ a) (update active a (active a + 1)) free z in
    let from_free =
      check (leb f shmem_blocksz_bits_range)
      >> walk n (i + 2 ^ f) active (update free f (free f + 1)) z in
    if ltb i z.num_blocks
    then if is_active b then from_active else if is_free b then from_free else fault
    else done (active, free)

-- One row for each class: the class with its numbers of active and free blocks.
pub rows : ℕ → (ℕ → ℕ) → (ℕ → ℕ) → ℕ → List (ℕ × ℕ × ℕ)
rows zero active free shift = []
rows (suc n) active free shift = (shift, active shift, free shift) ∷ rows n active free (shift + 1)

-- `collect_shmem_block_info` as a release build runs it, and as a debugging build does.
unfoldable pub collect_shmem_block_info : Zone → List (ℕ × ℕ × ℕ)
unfolding rows
collect_shmem_block_info z = rows (shmem_blocksz_bits_range + 1) z.num_active z.num_free 0

unfoldable pub collect_by_walk : Zone → Run (List (ℕ × ℕ × ℕ))
unfolding walk rows
collect_by_walk z = walk z.num_blocks 0 (λ k. 0) (λ k. 0) z >>= λ r.
    done (rows (shmem_blocksz_bits_range + 1) r.0 r.1 0)
