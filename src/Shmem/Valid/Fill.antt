-- ===== src/Shmem/Valid/Fill.antt =====
-- The steps of the allocator on the blocks and the lists: a block leaves, is cut or joined to its
-- buddy, and comes back as free or active.
use pg_strom.Prelude.{
  ℕ, ◌+◌, ◌-◌, ◌*◌, ◌^◌, ◌≤◌, ◌<◌, ◌≡◌, sym, ◌∙◌, true, false, ◌&&◌, some, List, arith, ltb, ◌==◌,
  if◌then◌else◌, update, count, two_pow_pos,
}
use pg_strom.Shmem.Size.{shmem_blocksz, shmem_blocksz_bits_range, sizeof_cl_uint}
use pg_strom.Shmem.Tiling.{Tiling, Tiling-relabel, Tiling-drop}
use pg_strom.Shmem.Zone.{Block, cleared, class}
use pg_strom.Shmem.Valid.{tile, active_of, Shape, Hole}
use pg_strom.Shmem.Valid.Tally.{
  tally_same, tally_change, free_block, class-free_block, free_block_pos,
}

-- Lists that differ from others by one occurrence of `i` at class `s`.
abbrev pub Gains : ℕ → ℕ → (ℕ → List ℕ) → (ℕ → List ℕ) → Type 0
Gains i s lists lists' =
    (j k : ℕ) → count j (lists' k) ≡ count j (lists k) + (if (k == s) && (j == i) then 1 else 0)

abbrev pub Loses : ℕ → (ℕ → List ℕ) → (ℕ → List ℕ) → Type 0
Loses i lists lists' =
    (j k : ℕ) → count j (lists' k) ≡ count j (lists k) - (if j == i then 1 else 0)

module _ {i s n : ℕ} {blocks : ℕ → Block} {lists : ℕ → List ℕ} {actives : ℕ → ℕ}
    (h : Hole i s n blocks lists actives) where
  pub hole_fits : i + 2 ^ s ≤ n
  hole_fits = h.hole.inside i s (ground arith)

  pub hole_below : i < n
  hole_below = omega (arith, two_pow_pos s, hole_fits)

  -- The block comes back as a free one.
  pub fill_free :
      (lists' : ℕ → List ℕ)
      → Gains i s lists lists'
      → Shape n (update blocks i (free_block s)) lists' actives
  fill_free lists' gains = record {
    tiling =
        Tiling-relabel h.hole _ λ j. ground (arith, class-free_block s h.small, free_block_pos s);
    class_le = λ j k e. ground (arith, class-free_block s h.small, h.small, h.shape.class_le j k);
    free_size = λ j e. ground (arith, class-free_block s h.small, h.shape.free_size j);
    active_size = λ j e. ground (arith, h.shape.active_size j);
    listed = λ j k. ground (
      arith,
      gains j k,
      h.shape.listed j k,
      h.vacant,
      class-free_block s h.small,
      free_block_pos s,
    );
    tallied = λ k. h.shape.tallied k ∙ sym (tally_same n _ _ λ j l. ground (arith, h.vacant));
  }

  -- The block is given out at its class.
  pub fill_active :
      (size : ℕ)
      → class (record { chained = false; blocksz = size }) ≡ s
      → 0 < size
      → size + sizeof_cl_uint ≤ 2 ^ s * shmem_blocksz
      → Shape n
          (update blocks i (record { chained = false; blocksz = size }))
          lists
          (update actives s (actives s + 1))
  fill_active size at pos fits = record {
    tiling = Tiling-relabel h.hole _ λ j. ground arith;
    class_le = λ j k e. ground (arith, h.small, h.shape.class_le j k);
    free_size = λ j e. ground (arith, h.shape.free_size j);
    active_size = λ j e. ground (arith, h.shape.active_size j);
    listed = λ j k. ground (arith, h.shape.listed j k, h.vacant);
    tallied = λ k. ground (
      arith,
      h.shape.tallied k,
      h.shape.tallied s,
      h.vacant,
      tally_change n i (active_of blocks k)
          (active_of (update blocks i (record { chained = false; blocksz = size })) k) hole_below
          (λ j ne. ground arith),
    );
  }

-- A zone without the block is a hole of its class: a free block leaves its list.
module _ {n : ℕ} {blocks : ℕ → Block} {lists : ℕ → List ℕ} {actives : ℕ → ℕ}
    (h : Shape n blocks lists actives) (i s : ℕ) where
  module _ (is : class (blocks i) ≡ s) (head : ltb 0 (blocks i).blocksz ≡ true) where
    head_tile : tile blocks i ≡ some s
    head_tile = ground arith

    pub head_small : s ≤ shmem_blocksz_bits_range
    head_small = h.class_le i s head_tile

    hole-Tiling : Tiling n (update (tile (update blocks i cleared)) i (some s))
    hole-Tiling = Tiling-relabel h.tiling _ λ j. ground (arith, head_tile)

    clear-Tiling : Tiling n (tile (update blocks i cleared))
    clear-Tiling = Tiling-relabel (Tiling-drop h.tiling i) _ λ j. ground arith

    pub take_free :
        (blocks i).chained ≡ true
        → (lists' : ℕ → List ℕ) → Loses i lists lists'
        → Hole i s n (update blocks i cleared) lists' actives
    take_free free lists' loses = record {
      shape = record {
        tiling = clear-Tiling;
        class_le = λ j k e. ground (arith, h.class_le j k);
        free_size = λ j e. ground (arith, h.free_size j);
        active_size = λ j e. ground (arith, h.active_size j);
        listed = λ j k. ground (arith, loses j k, h.listed j k);
        tallied = λ k. h.tallied k ∙ sym (tally_same n _ _ λ j l. ground arith);
      };
      vacant = ground arith;
      hole = hole-Tiling;
      small = head_small;
    }

    pub take_active :
        (blocks i).chained ≡ false
        → Hole i s n (update blocks i cleared) lists (update actives s (actives s - 1))
    take_active free = record {
      shape = record {
        tiling = clear-Tiling;
        class_le = λ j k e. ground (arith, h.class_le j k);
        free_size = λ j e. ground (arith, h.free_size j);
        active_size = λ j e. ground (arith, h.active_size j);
        listed = λ j k. ground (arith, h.listed j k);
        tallied = λ k. ground (
          arith,
          h.tallied k,
          h.tallied s,
          tally_change n i (active_of blocks k) (active_of (update blocks i cleared) k) below
              (λ j ne. ground arith),
        );
      };
      vacant = ground arith;
      hole = hole-Tiling;
      small = head_small;
    }
      where
        below : i < n
        below = omega (arith, two_pow_pos s, h.tiling.inside i s head_tile)
