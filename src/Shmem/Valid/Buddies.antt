-- ===== src/Shmem/Valid/Buddies.antt =====
-- A block off the lists is cut into halves, or joined to its free buddy.
use pg_strom.Prelude.{
  ℕ, suc, ◌+◌, ◌^◌, ◌<◌, ◌≡◌, ◌≢◌, true, none, List, arith, update, two_pow_pos, two_pow_suc,
}
use pg_strom.Shmem.Size.{shmem_blocksz_bits_range}
use pg_strom.Shmem.Tiling.{
  Aligned, Tiling-none, Tiling-relabel, Tiling-drop, Tiling-split, Tiling-merge,
}
use pg_strom.Shmem.Zone.{Block, is_free, cleared, class}
use pg_strom.Shmem.Valid.{tile, tile_of, Hole}
use pg_strom.Shmem.Valid.Tally.{free_block, class-free_block, free_block_pos}
use pg_strom.Shmem.Valid.Fill.{Gains, Loses, fill_free, take_free}

tile_none : (b : Block) → tile_of b ≡ none → b.blocksz ≡ 0
tile_none b h = ground arith

module _ {i s n : ℕ} {blocks : ℕ → Block} {lists : ℕ → List ℕ} {actives : ℕ → ℕ} where
  module _ (h : Hole i (suc s) n blocks lists actives) where
    upper_none : tile blocks (i + 2 ^ s) ≡ none
    upper_none = ground (
      arith,
      two_pow_pos s,
      two_pow_suc s,
      Tiling-none h.hole i (suc s) (i + 2 ^ s) (ground arith) (ground (arith, two_pow_pos s))
          (ground (arith, two_pow_suc s, two_pow_pos s)),
    )

    shrink : Hole i s n blocks lists actives
    shrink = record {
      shape = h.shape;
      vacant = h.vacant;
      hole =
          Tiling-relabel (Tiling-drop (Tiling-split h.hole i s (ground arith)) (i + 2 ^ s)) _
            λ j. ground (arith, upper_none, two_pow_pos s);
      small = omega (arith, h.small);
    }

    -- The lower half goes onto a list, and the upper half is held.
    pub cut :
        (lists' : ℕ → List ℕ)
        → Gains i s lists lists'
        → Hole (i + 2 ^ s) s n (update blocks i (free_block s)) lists' actives
    cut lists' gains = record {
      shape = fill_free shrink lists' gains;
      vacant = ground (arith, tile_none (blocks (i + 2 ^ s)) upper_none, two_pow_pos s);
      hole =
          Tiling-relabel (Tiling-split h.hole i s (ground arith)) _
            λ j. ground (arith, class-free_block s (omega (arith, h.small)), free_block_pos s);
      small = omega (arith, h.small);
    }

  module _ (h : Hole i s n blocks lists actives) (room : s < shmem_blocksz_bits_range) (b : ℕ)
      (free : is_free (blocks b) ≡ true) (size : class (blocks b) ≡ s) (lists' : ℕ → List ℕ)
      (loses : Loses b lists lists') where
    other : b ≢ i
    other e = ground (arith, h.vacant)

    without : Hole b s n (update blocks b cleared) lists' actives
    without = take_free h.shape b s size (ground arith) (ground arith) lists' loses

    -- The buddy above is joined.
    pub join_upper :
        b ≡ i + 2 ^ s
        → Aligned i (suc s)
        → Hole i (suc s) n (update blocks b cleared) lists' actives
    join_upper e up = record {
      shape = without.shape;
      vacant = ground (arith, h.vacant);
      hole =
          Tiling-relabel (Tiling-merge h.hole i s (ground arith) (ground (arith, other)) up) _
            λ j. ground arith;
      small = room;
    }

    -- The buddy below is joined, and heads the block.
    pub join_lower :
        i ≡ b + 2 ^ s
        → Aligned b (suc s)
        → Hole b (suc s) n (update blocks b cleared) lists' actives
    join_lower e up = record {
      shape = without.shape;
      vacant = ground arith;
      hole =
          Tiling-relabel (Tiling-merge h.hole b s (ground (arith, other)) (ground arith) up) _
            λ j. ground (arith, h.vacant);
      small = room;
    }
