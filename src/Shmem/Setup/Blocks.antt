-- ===== src/Shmem/Setup/Blocks.antt =====
-- The zones that `pgstrom_setup_shmem` makes.
use pg_strom.Prelude.{
  ℕ, zero, suc, ◌+◌, ◌-◌, ◌^◌, ◌≤◌, ◌≡◌, refl, sym, true, false, Option, none, some, [], ◌∷◌, ◌++◌,
  List, ltb, leb, leb→le, arith, update, Bool-cases, inl, inr, two_pow_pos, length-append,
}
use pg_strom.Shmem.Size.{shmem_blocksz_bits_range}
use pg_strom.Shmem.Tiling.{Aligned, Aligned-halves, Aligned-next, Tiling-append}
use pg_strom.Shmem.Zone.{Zone, cleared, push_tail}
use pg_strom.Shmem.Valid.{tile, Hole, IsValid}
use pg_strom.Shmem.Valid.Tally.{tally_none, free_block, class-free_block}
use pg_strom.Shmem.Valid.Fill.{fill_free}
use pg_strom.Shmem.Buddy.Split.{push_Gains}
use pg_strom.Shmem.Setup.{place_blocks, setup_zone, empty_zone}

-- Half way: the blocks placed so far lie below `blkno`, which is a multiple of the class at hand.
record Placing (blkno shift : ℕ) (z : Zone) : Type 0 where
  valid : IsValid z
  behind : (i : ℕ) → blkno ≤ i → (z.blocks i) ≡ cleared
  ends : (i k : ℕ) → tile z.blocks i ≡ some k → i + 2 ^ k ≤ blkno
  aligned : Aligned blkno shift
  small : shift ≤ shmem_blocksz_bits_range

module _ {blkno shift : ℕ} {z : Zone} (p : Placing blkno shift z)
    (fits : blkno + 2 ^ shift ≤ z.num_blocks) where
  next-Hole : Hole blkno shift z.num_blocks z.blocks z.free_list z.num_active
  next-Hole = record {
    shape = p.valid.shape;
    vacant = ground (arith, p.behind blkno (omega arith));
    hole = Tiling-append p.valid.shape.tiling blkno shift p.ends p.aligned fits;
    small = p.small;
  }

  abbrev lists' : ℕ → List ℕ
  lists' = update z.free_list shift (z.free_list shift ++ blkno ∷ [])

  abbrev placed : Zone
  placed = record z {
    free_list = lists';
    blocks = update z.blocks blkno (free_block shift);
    num_free = update z.num_free shift (z.num_free shift + 1);
  }

  placed-Placing : Placing (blkno + 2 ^ shift) shift placed
  placed-Placing = record {
    valid = record {
      shape = fill_free next-Hole lists' (push_Gains z.free_list shift blkno);
      counted = λ k. ground (
        arith,
        p.valid.counted k,
        p.valid.counted shift,
        length-append (z.free_list shift) (blkno ∷ []),
      );
    };
    behind = λ i h. ground (arith, p.behind i, two_pow_pos shift);
    ends = λ i k e. ground (arith, p.ends i k, two_pow_pos shift, class-free_block shift p.small);
    aligned = Aligned-next blkno shift p.aligned;
    small = p.small;
  }

lower-Placing : {blkno shift : ℕ} {z : Zone} → Placing blkno (suc shift) z → Placing blkno shift z
lower-Placing {blkno} {shift} p = record {
  valid = p.valid;
  behind = p.behind;
  ends = p.ends;
  aligned = (Aligned-halves blkno shift p.aligned).0;
  small = omega (arith, p.small);
}

-- What the loop leaves: a valid zone of the same size.
abbrev Placed : Zone → Option Zone → Type 0
Placed z none = ⊥
Placed z (some z') =
    IsValid z'
    × (z'.num_blocks ≡ z.num_blocks)
    × (z'.block_baseaddr ≡ z.block_baseaddr)
    × (z'.num_active ≡ z.num_active)

place_blocks-Placed :
    (n blkno shift : ℕ) (z : Zone)
    → Placing blkno shift z
    → (z.num_blocks - blkno) + shift ≤ n
    → Placed z (place_blocks n blkno shift z)
unfolding place_blocks push_tail
place_blocks-Placed zero blkno shift z p fuel =
    let e : ltb blkno z.num_blocks ≡ false = ground arith in rw e (p.valid, refl, refl, refl)
place_blocks-Placed (suc n) blkno zero z p fuel = elim (Bool-cases (ltb blkno z.num_blocks)) [
  | inr over ↦ rw over (p.valid, refl, refl, refl)
  | inl more ↦
      let fits : leb (blkno + 1) z.num_blocks ≡ true = ground arith in
      rw (more, fits)
        (place_blocks-Placed n (blkno + 1) zero _ (placed-Placing p (leb→le _ _ fits))
          (ground arith))
]
place_blocks-Placed (suc n) blkno (suc s) z p fuel = elim (Bool-cases (ltb blkno z.num_blocks)) [
  | inr over ↦ rw over (p.valid, refl, refl, refl)
  | inl more ↦ elim (Bool-cases (leb (blkno + 2 ^ suc s) z.num_blocks)) [
    | inl fits ↦
        rw (more, fits)
          (place_blocks-Placed n (blkno + 2 ^ suc s) (suc s) _ (placed-Placing p (leb→le _ _ fits))
            (ground (arith, two_pow_pos (suc s))))
    | inr large ↦
        let up : ltb 0 (suc s) ≡ true = ground arith in
        let down : suc s - 1 ≡ s = omega arith in
        rw (more, large, up, down) (place_blocks-Placed n blkno s z (lower-Placing p) (omega arith))
  ]
]

empty-IsValid : (n base : ℕ) (mem : ℕ → ℕ) → IsValid (empty_zone n base mem)
empty-IsValid n base mem = record {
  shape = record {
    tiling = record {
      inside = λ i k e. absurd (cc);
      aligned = λ i k e. absurd (cc);
      apart = λ i j k l e f. absurd (cc);
    };
    class_le = λ i k e. absurd (cc);
    free_size = λ i e. absurd (cc);
    active_size = λ i e. absurd (cc);
    listed = λ i k. refl;
    tallied = λ k. sym (tally_none n);
  };
  counted = λ k. refl;
}

-- For every number of blocks the set-up of a zone ends, and leaves a valid zone of that many blocks
-- in which none is active.
pub setup_zone-IsValid :
    (n base : ℕ) (mem : ℕ → ℕ)
    → (z : Zone) × (setup_zone n base mem ≡ some z)
      × IsValid z
      × (z.num_blocks ≡ n)
      × (z.block_baseaddr ≡ base)
      × ((k : ℕ) → z.num_active k ≡ 0)
unfolding setup_zone
setup_zone-IsValid n base mem =
    from_Placed (place_blocks (n + 21) 0 21 (empty_zone n base mem)) (empty_zone n base mem) (
      place_blocks-Placed (n + 21) 0 21 (empty_zone n base mem)
        (record {
          valid = empty-IsValid n base mem;
          behind = λ i h. refl;
          ends = λ i k e. absurd (cc);
          aligned = (0, omega arith);
          small = omega arith;
        })
        (omega arith))
  where
    from_Placed :
        (o : Option Zone) (e : Zone)
        → Placed e o
        → (z : Zone) × (o ≡ some z)
          × IsValid z
          × (z.num_blocks ≡ e.num_blocks)
          × (z.block_baseaddr ≡ e.block_baseaddr)
          × ((k : ℕ) → z.num_active k ≡ e.num_active k)
    from_Placed none e h = absurd h
    from_Placed (some z) e (v, a, b, c) = (z, refl, v, a, b, λ k. ground arith)
