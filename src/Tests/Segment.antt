-- ===== src/Tests/Segment.antt =====
-- The allocator on a zone of four blocks.
use pg_strom.Prelude.{
  ℕ, ◌+◌, ◌*◌, ◌<◌, ◌≡◌, refl, sym, ap, subst, true, Option, none, some, [], arith, inl, inr,
}
use pg_strom.Prelude.Run.{Run, done, fault, Returns}
use pg_strom.Shmem.Size.{
  pot_exponent, narrow_all, find_least_pot, shmem_blocksz, shmem_blocksz_bits_range, size_mod,
}
use pg_strom.Shmem.Zone.{
  Zone, is_active, push_tail, no_heads, store_uint, load_uint, shmem_block_magic,
}
use pg_strom.Shmem.Valid.{IsValid}
use pg_strom.Shmem.Buddy.{split_rounds, halve, take_block, block_split, block_alloc, block_free}
use pg_strom.Shmem.Buddy.Split.{SplitDone, block_split_lem}
use pg_strom.Shmem.Buddy.Alloc.{Granted, AllocDone, block_alloc_lem}
use pg_strom.Shmem.Buddy.Free.{Merged, block_free_lem}
use pg_strom.Shmem.Pool.{Pool, shmem_alloc}
use pg_strom.Shmem.Pool.Grant.{IsReady, PoolDone, shmem_alloc_lem}
use pg_strom.Shmem.Setup.{place_blocks, setup_zone, empty_zone}
use pg_strom.Shmem.Setup.Blocks.{setup_zone-IsValid}

abbrev or_empty : Option Zone → Zone
or_empty none = empty_zone 0 0 (λ a. 0)
or_empty (some z) = z

abbrev four_blocks : Zone
four_blocks = or_empty (setup_zone 4 32768 (λ a. 0))

setup_zone-IsValid_example :
    (z : Zone) × (setup_zone 4 32768 (λ a. 0) ≡ some z)
    × IsValid z
    × (z.num_blocks ≡ 4)
    × (z.block_baseaddr ≡ 32768)
    × ((k : ℕ) → z.num_active k ≡ 0)
setup_zone-IsValid_example = setup_zone-IsValid 4 32768 (λ a. 0)

-- The same zone, with what the other theorems take.
four_blocks-IsValid : IsValid four_blocks
four_blocks-IsValid =
    let (z, e, v, a, b, c) = setup_zone-IsValid 4 32768 (λ a. 0) in
    subst IsValid (sym (ap or_empty e)) v

block_split_lem_example : Returns (SplitDone four_blocks 1) (block_split four_blocks 2)
block_split_lem_example = block_split_lem 1 four_blocks-IsValid (omega arith)

block_alloc_lem_example : Returns (AllocDone four_blocks 100) (block_alloc four_blocks 100)
block_alloc_lem_example = block_alloc_lem four_blocks-IsValid 100 (omega arith) (omega arith)

abbrev result_zone : Run (Option ℕ × Zone) → Zone
result_zone (done (a, z)) = z
result_zone fault = empty_zone 0 0 (λ a. 0)

-- The zone after an allocation of 100 bytes, which takes its first block.
abbrev one_used : Zone
one_used = result_zone (block_alloc four_blocks 100)

run_done : block_alloc four_blocks 100 ≡ done (some 32768, one_used)
unfolding setup_zone place_blocks push_tail block_alloc block_split split_rounds halve take_block
    find_least_pot pot_exponent narrow_all no_heads store_uint
run_done = refl

Granted-of :
    (r : Option ℕ × Zone)
    → AllocDone four_blocks 100 r
    → r ≡ (some 32768, one_used)
    → Granted four_blocks 100 32768 one_used
Granted-of (a, z) (inl (b, got, g)) e =
    let place : b ≡ 32768 = ground (arith, got, ap (λ r. r.0) e) in
    subst (λ z. Granted four_blocks 100 32768 z) (ap (λ r. r.1) e)
      (subst (λ a. Granted four_blocks 100 a z) place g)
Granted-of (a, z) (inr (nothing, same, none')) e = absurd (ground (arith, nothing, ap (λ r. r.0) e))

one_used-Granted : Granted four_blocks 100 32768 one_used
one_used-Granted =
    let d : AllocDone four_blocks 100 (some 32768, one_used) =
      subst (λ r. Returns (AllocDone four_blocks 100) r) run_done block_alloc_lem_example in
    Granted-of (some 32768, one_used) d refl

used : is_active (one_used.blocks 0) ≡ true
unfolding setup_zone place_blocks push_tail block_alloc block_split split_rounds halve take_block
    find_least_pot pot_exponent narrow_all no_heads store_uint
used = refl

low : (one_used.block_baseaddr + one_used.num_blocks) * shmem_blocksz < size_mod
unfolding setup_zone place_blocks push_tail block_alloc block_split split_rounds halve take_block
    find_least_pot pot_exponent narrow_all no_heads store_uint
low = omega arith

guarded :
    load_uint one_used.mem
      (one_used.block_baseaddr + 0 * shmem_blocksz + (one_used.blocks 0).blocksz)
    ≡ shmem_block_magic
unfolding setup_zone place_blocks push_tail block_alloc block_split split_rounds halve take_block
    find_least_pot pot_exponent narrow_all no_heads store_uint load_uint
guarded = refl

block_free_lem_example :
    Returns (Merged one_used 0) (block_free one_used (one_used.block_baseaddr + 0 * shmem_blocksz))
block_free_lem_example = block_free_lem one_used-Granted.valid 0 used low guarded

no_top : four_blocks.free_list shmem_blocksz_bits_range ≡ []
unfolding setup_zone place_blocks push_tail
no_top = refl

-- A segment of two such zones.
abbrev two_zones : Pool
two_zones = record {
  is_ready = true;
  num_zones = 2;
  zone_baseaddr = 0;
  zone_length = 65536;
  zones = λ k. four_blocks;
  zone_index = 1;
}

two_zones-IsReady : IsReady two_zones
two_zones-IsReady = record { ready = refl; index = omega arith; zones = λ k h. four_blocks-IsValid }

shmem_alloc_lem_example : Returns (PoolDone two_zones 100) (shmem_alloc 100 two_zones)
shmem_alloc_lem_example =
    shmem_alloc_lem two_zones 100 (omega arith) (omega arith) two_zones-IsReady
