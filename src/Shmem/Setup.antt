-- ===== src/Shmem/Setup.antt =====
-- `pgstrom_setup_shmem`: the segment is cut into zones, and each zone into free blocks. The size
-- of the zone's header and of a block's are those of the platform, and the callback that maps a
-- zone into a device is left out. A division by zero is a `fault`.
pub mod Blocks
use pg_strom.Prelude.{
  ℕ, zero, suc, ◌+◌, ◌-◌, ◌*◌, ◌/◌, ◌%◌, ◌^◌, Bool, true, false, Option, none, some, [], ltb, leb,
  ◌==◌, if◌then◌else◌, update,
}
use pg_strom.Prelude.Run.{Run, done, fault, check, ◌>>=◌, ◌>>◌}
use pg_strom.Shmem.Size.{shmem_blocksz, shmem_blocksz_bits_range}
use pg_strom.Shmem.Zone.{Zone, cleared, push_tail}
use pg_strom.Shmem.Pool.{Pool}

abbrev pub type_align : ℕ → ℕ → ℕ
type_align a n = (n + (a - 1)) / a * a

abbrev pub type_align_down : ℕ → ℕ → ℕ
type_align_down a n = n / a * a

-- The `while` loop over a zone. Each round places a block or goes down a class, and a block of the
-- lowest class always fits: `num_blocks + shmem_blocksz_bits_range` rounds are enough. `none` means
-- that the rounds ran out.
unfoldable pub place_blocks : ℕ → ℕ → ℕ → Zone → Option Zone
place_blocks zero blkno shift z = if ltb blkno z.num_blocks then none else some z
place_blocks (suc n) blkno shift z =
    let placed = push_tail z shift blkno (2 ^ shift * shmem_blocksz) in
    let here =
      place_blocks n (blkno + 2 ^ shift) shift
        (record placed { num_free = update placed.num_free shift (placed.num_free shift + 1) }) in
    let lower = place_blocks n blkno (shift - 1) z in
    let same = place_blocks n blkno shift z in
    if ltb blkno z.num_blocks
    then if leb (blkno + 2 ^ shift) z.num_blocks then here else if ltb 0 shift then lower else same
    else some z

abbrev pub empty_zone : ℕ → ℕ → (ℕ → ℕ) → Zone
empty_zone num_blocks base mem = record {
  num_blocks = num_blocks;
  num_active = λ k. 0;
  num_free = λ k. 0;
  free_list = λ k. [];
  block_baseaddr = base;
  blocks = λ i. cleared;
  mem = mem;
}

unfoldable pub setup_zone : ℕ → ℕ → (ℕ → ℕ) → Option Zone
unfolding place_blocks
setup_zone num_blocks base mem =
    place_blocks (num_blocks + shmem_blocksz_bits_range) 0 shmem_blocksz_bits_range
      (empty_zone num_blocks base mem)

-- `header` is `offsetof(shmem_zone, blocks[0])` and `entry` is `sizeof(shmem_block)`.
module _ (header entry totalsize : ℕ) (mem : ℕ → ℕ) where
  pub setup_zones : ℕ → ℕ → ℕ → Pool → Run Pool
  setup_zones zero k offset p = done (record p { num_zones = k; is_ready = true })
  setup_zones (suc n) k offset p =
      let length =
        if ltb (offset + p.zone_length) totalsize then p.zone_length else totalsize - offset in
      let num_blocks = (length - header) / (entry + shmem_blocksz) in
      let zone = p.zone_baseaddr + offset in
      let base = type_align shmem_blocksz (zone + header + entry * num_blocks) in
      let rest = λ (z : Zone).
        setup_zones n (k + 1) (offset + length) (record p { zones = update p.zones k z }) in
      check (ltb 0 length)
      >> check (length % shmem_blocksz == 0)
      >> (if leb length (p.zone_length / 8)
          then done (record p { num_zones = k; is_ready = true })
          else (check (zone % shmem_blocksz == 0)
              >> check (zone + length == base + shmem_blocksz * num_blocks)
              >> elim (setup_zone num_blocks base mem) [ none ↦ fault | some z ↦ rest z ]))

  -- `zones_end` is the address behind the array of zone pointers with `n` entries.
  unfoldable pub setup_shmem : ℕ → (ℕ → ℕ) → Pool → Run Pool
  unfolding setup_zones
  setup_shmem zone_length zones_end p =
      let length = type_align_down shmem_blocksz zone_length in
      let num_zones = (totalsize + length - 1) / length in
      if p.is_ready
      then done p
      else (check (ltb 0 length)
          >> setup_zones num_zones 0 0 (record p {
            zone_baseaddr = type_align shmem_blocksz (zones_end num_zones);
            zone_length = length;
          }))
