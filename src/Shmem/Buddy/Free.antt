-- ===== src/Shmem/Buddy/Free.antt =====
-- `pgstrom_shmem_zone_block_free` on a valid zone.
use Prim.Native.Nat.{bit_xor}
use mathlib.Core.Path.{fun_ext}
use native.Mathlib.Nat.{mod-eq_of_lt, mul-div_left}
use pg_strom.Prelude.{
  ℕ, zero, suc, ◌+◌, ◌-◌, ◌*◌, ◌/◌, ◌%◌, ◌^◌, ◌≤◌, ◌<◌, ◌≡◌, ◌≢◌, refl, ap, ◌∙◌, ◌⊎◌, ==-refl,
  le→leb, leb, Bool-cases, true, false, not, ◌||◌, some, List, ◌∷◌, arith, ltb, ◌==◌, ==_iff,
  if◌then◌else◌, update, length, erase, count-erase, length-erase, has-count, inl, inr, two_pow_pos,
  two_pow_suc, xor_buddy,
}
use pg_strom.Prelude.Run.{Returns, Returns-mono}
use pg_strom.Shmem.Size.{
  shmem_blocksz, shmem_blocksz_bits_range, size_mod, sizeof_cl_uint, find_least_pot,
}
use pg_strom.Shmem.Tiling.{Aligned}
use pg_strom.Shmem.Zone.{
  Block, Zone, is_active, is_free, cleared, class, load_uint, shmem_block_magic, push_head, delete,
  address_in_shmem_zone,
}
use pg_strom.Shmem.Valid.{tile, Hole, IsValid}
use pg_strom.Shmem.Valid.Tally.{find_least_pot_exact, free_block}
use pg_strom.Shmem.Valid.Fill.{Gains, Loses, fill_free, take_active}
use pg_strom.Shmem.Valid.Buddies.{join_upper, join_lower}
use pg_strom.Shmem.Buddy.{settle, absorb, merge, block_free}
use pg_strom.Shmem.Buddy.Split.{update_twice}

-- A block is at a multiple of its size, and its buddy is the other half of the block above.
BuddyOf : ℕ → ℕ → ℕ → Type 0
BuddyOf i s b = ((b ≡ i + 2 ^ s) × Aligned i (suc s)) ⊎ ((i ≡ b + 2 ^ s) × Aligned b (suc s))

times_pow : (h s : ℕ) → (h + h) * 2 ^ s ≡ h * 2 ^ suc s
times_pow h s = omega (arith, ap (λ (t : ℕ). h * t) (two_pow_suc s))

buddy_even : (h s : ℕ) → BuddyOf ((h + h) * 2 ^ s) s (bit_xor ((h + h) * 2 ^ s) (2 ^ s))
unfolding BuddyOf
buddy_even h s =
    let even : ((h + h) % 2 == 0) ≡ true = ground arith in
    inl (xor_buddy s (h + h) ∙ rw even (omega arith), (h, times_pow h s))

buddy_odd : (h s : ℕ) → BuddyOf ((h + h + 1) * 2 ^ s) s (bit_xor ((h + h + 1) * 2 ^ s) (2 ^ s))
unfolding BuddyOf
buddy_odd h s =
    let odd : ((h + h + 1) % 2 == 0) ≡ false = ground arith in
    let less : h + h + 1 - 1 ≡ h + h = omega arith in
    let e : bit_xor ((h + h + 1) * 2 ^ s) (2 ^ s) ≡ (h + h) * 2 ^ s =
      xor_buddy s (h + h + 1) ∙ rw (odd, less) in
    inr (rw e (omega arith), (h, e ∙ times_pow h s))

buddy_lem : (i s : ℕ) → Aligned i s → BuddyOf i s (bit_xor i (2 ^ s))
buddy_lem i s (q, e) = elim (Bool-cases (q % 2 == 0)) [
  | inl even ↦
      let d : q ≡ q / 2 + q / 2 = ground arith in
      let f : i ≡ (q / 2 + q / 2) * 2 ^ s = e ∙ ap (λ t. t * 2 ^ s) d in rw f (buddy_even (q / 2) s)
  | inr odd ↦
      let d : q ≡ q / 2 + q / 2 + 1 = ground arith in
      let f : i ≡ (q / 2 + q / 2 + 1) * 2 ^ s = e ∙ ap (λ t. t * 2 ^ s) d in
      rw f (buddy_odd (q / 2) s)
]

-- The block at `i` is off the lists, and whatever its header holds, the others are in order.
record Held (i s : ℕ) (z : Zone) : Type 0 where
  hole : Hole i s z.num_blocks (update z.blocks i cleared) z.free_list z.num_active
  counted : (k : ℕ) → z.num_free k ≡ length (z.free_list k)

-- A release ends in a valid zone, in which the block is not active and the other active blocks are
-- as they were.
pub record Merged (z : Zone) (i : ℕ) (z' : Zone) : Type 0 where
  pub valid : IsValid z'
  pub others : (j : ℕ) → j ≢ i → is_active (z.blocks j) ≡ true → z'.blocks j ≡ z.blocks j
  pub no_more : (j : ℕ) → is_active (z'.blocks j) ≡ true → (j ≢ i) × (is_active (z.blocks j) ≡ true)
  pub num_blocks : z'.num_blocks ≡ z.num_blocks
  pub base : z'.block_baseaddr ≡ z.block_baseaddr
  pub mem : z'.mem ≡ z.mem

push_Gains : (lists : ℕ → List ℕ) (s i : ℕ) → Gains i s lists (update lists s (i ∷ lists s))
push_Gains lists s i j k = ground arith

settle-Merged : (z : Zone) (s i : ℕ) → Held i s z → Merged z i (settle z s i)
unfolding settle push_head
settle-Merged z s i h = record {
  valid = record {
    shape =
        rw (← update_twice z.blocks i cleared (free_block s))
          (fill_free h.hole _ (push_Gains z.free_list s i));
    counted = λ k. ground (arith, h.counted k, h.counted s);
  };
  others = λ j ne a. ground arith;
  no_more = λ j a. ground arith;
  num_blocks = refl;
  base = refl;
  mem = refl;
}

-- The buddy that the loop takes in: free, of the class of the block.
record Free (z : Zone) (s b : ℕ) : Type 0 where
  free : is_free (z.blocks b) ≡ true
  at : class (z.blocks b) ≡ s

Free_lem :
    (z : Zone) (s b : ℕ)
    → s ≤ 21
    → is_active (z.blocks b) ≡ false
    → (z.blocks b).blocksz ≡ 2 ^ s * shmem_blocksz
    → Free z s b
unfolding class
Free_lem z s b le idle size =
    let free : is_free (z.blocks b) ≡ true = ground (arith, two_pow_pos s) in
    record { free = free; at = ground (arith, find_least_pot_exact s le) }

delete-Loses : (b : ℕ) (lists : ℕ → List ℕ) → Loses b lists (λ k. erase b (lists k))
delete-Loses b lists j k = count-erase j b (lists k)

swap_cleared :
    (blocks : ℕ → Block) (i b : ℕ)
    → update (update blocks b cleared) i cleared ≡ update (update blocks i cleared) b cleared
swap_cleared blocks i b = fun_ext λ j. ground arith

module _ (z : Zone) (s i b : ℕ) (h : Held i s z) (room : s < shmem_blocksz_bits_range)
    (f : Free z s b) (ne : b ≢ i) where
  free' : is_free (update z.blocks i cleared b) ≡ true
  free' = ground (arith, f.free)

  at' : class (update z.blocks i cleared b) ≡ s
  at' = ground (arith, f.at)

  counted' : (k : ℕ) → update z.num_free s (z.num_free s - 1) k ≡ length (erase b (z.free_list k))
  counted' k = ground (
    arith,
    h.counted k,
    h.counted s,
    length-erase b (z.free_list k),
    has-count b (z.free_list k),
    h.hole.shape.listed b k,
    free',
    at',
  )

  absorb_above : b ≡ i + 2 ^ s → Aligned i (suc s) → Held i (suc s) (absorb z s i b)
  unfolding absorb delete
  absorb_above e up =
      let up' : ltb b i ≡ false = ground arith in
      rw up' (record {
        hole =
            rw (swap_cleared z.blocks i b)
              (join_upper h.hole room b free' at' _ (delete-Loses b z.free_list) e up);
        counted = counted';
      })

  absorb_below : i ≡ b + 2 ^ s → Aligned b (suc s) → Held b (suc s) (absorb z s i b)
  unfolding absorb delete
  absorb_below e up =
      let down : ltb b i ≡ true = ground (arith, two_pow_pos s) in
      rw down (record {
        hole = join_lower h.hole room b free' at' _ (delete-Loses b z.free_list) e up;
        counted = counted';
      })

absorb-Held :
    (z : Zone) (s i b : ℕ)
    → Held i s z
    → s < shmem_blocksz_bits_range
    → Free z s b
    → BuddyOf i s b
    → Held (if ltb b i then b else i) (suc s) (absorb z s i b)
unfolding BuddyOf
absorb-Held z s i b h room f (inl (e, up)) =
    let lower : ltb b i ≡ false = ground arith in
    rw lower (absorb_above z s i b h room f (λ d. omega (arith, two_pow_pos s)) e up)
absorb-Held z s i b h room f (inr (e, up)) =
    let lower : ltb b i ≡ true = ground (arith, two_pow_pos s) in
    rw lower (absorb_below z s i b h room f (λ d. omega (arith, two_pow_pos s)) e up)

-- What the rest of the loop does to the zone with one more buddy taken in, it does to the zone.
absorb-Merged :
    (z z' : Zone) (s i b : ℕ)
    → Free z s b
    → Merged (absorb z s i b) (if ltb b i then b else i) z'
    → Merged z i z'
unfolding absorb delete
absorb-Merged z z' s i b f m = record {
  valid = m.valid;
  others = λ j ne a. ground (arith, f.free, m.others j);
  no_more = λ j a. ground (arith, f.free, m.no_more j a);
  num_blocks = m.num_blocks;
  base = m.base;
  mem = m.mem;
}

module _ (n s : ℕ) where
  -- One round, given that the rounds behind it are right.
  merge_round :
      ((i : ℕ) (z : Zone) → Held i (suc s) z → Returns (Merged z i) (merge n (suc s) i z))
      → s < shmem_blocksz_bits_range
      → (i : ℕ) (z : Zone) → Held i s z
      → Returns (Merged z i) (merge (suc n) s i z)
  unfolding merge
  merge_round ih room i z h =
      let b : ℕ = bit_xor i (2 ^ s) in
      let stop = settle-Merged z s i h in
      elim (Bool-cases (leb z.num_blocks (b + 2 ^ s))) [
        | inl out ↦ rw out stop
        | inr inside ↦
            elim (Bool-cases
              (is_active (z.blocks b) || not ((z.blocks b).blocksz == 2 ^ s * shmem_blocksz))) [
                | inl busy ↦ rw (inside, busy) stop
                | inr apart ↦
                    let f = Free_lem z s b (omega (arith, room)) (ground arith) (ground arith) in
                    rw (inside, apart, f.free)
                      (Returns-mono (merge n (suc s) (if ltb b i then b else i) (absorb z s i b))
                        (ih (if ltb b i then b else i) (absorb z s i b) (
                          absorb-Held z s i b h room f
                            (buddy_lem i s (h.hole.hole.aligned i s (ground arith)))))
                        λ z' m. absorb-Merged z z' s i b f m)
              ]
      ]

merge_lem :
    (n s : ℕ)
    → n + s ≡ shmem_blocksz_bits_range
    → (i : ℕ) (z : Zone) → Held i s z
    → Returns (Merged z i) (merge n s i z)
unfolding merge
merge_lem zero s e i z h = settle-Merged z s i h
merge_lem (suc n) s e i z h =
    merge_round n s (merge_lem n (suc s) (omega arith)) (omega arith) i z h

multiple_of_Aligned : (i s : ℕ) → Aligned i s → (i / 2 ^ s * 2 ^ s == i) ≡ true
multiple_of_Aligned i s (q, e) = rw (e, mul-div_left q (two_pow_pos s)) (==-refl _)

module _ {z : Zone} (v : IsValid z) (i : ℕ) (active : is_active (z.blocks i) ≡ true)
    (placed : (z.block_baseaddr + z.num_blocks) * shmem_blocksz < size_mod)
    (guard : load_uint z.mem (z.block_baseaddr + i * shmem_blocksz + (z.blocks i).blocksz)
      ≡ shmem_block_magic) where
  abbrev s : ℕ
  s = class (z.blocks i)

  tiled : tile z.blocks i ≡ some s
  tiled = ground arith

  small : s ≤ shmem_blocksz_bits_range
  small = v.shape.class_le i s tiled

  class_lem : find_least_pot (((z.blocks i).blocksz + sizeof_cl_uint) % size_mod) ≡ s
  unfolding class
  class_lem = ground arith

  in_zone : address_in_shmem_zone z (z.block_baseaddr + i * shmem_blocksz) ≡ true
  in_zone = ground (arith, v.shape.tiling.inside i s tiled, two_pow_pos s, mod-eq_of_lt placed)

  multiple : (i / 2 ^ s * 2 ^ s == i) ≡ true
  multiple = multiple_of_Aligned i s (v.shape.tiling.aligned i s tiled)

  held : Held i s (record z { num_active = update z.num_active s (z.num_active s - 1) })
  held = record {
    hole = take_active v.shape i s refl (ground arith) (ground arith);
    counted = v.counted;
  }

  -- On a valid zone, the release of an active block whose guard word is intact never faults, where
  -- the sum of the base address and the number of blocks, times the block size, does not wrap: each
  -- assertion on the way holds, and the zone is valid again, with the block not active and the
  -- other active blocks and the bytes as they were.
  pub block_free_lem : Returns (Merged z i) (block_free z (z.block_baseaddr + i * shmem_blocksz))
  unfolding block_free
  block_free_lem =
      let index : (z.block_baseaddr + i * shmem_blocksz - z.block_baseaddr) / shmem_blocksz ≡ i =
        omega arith in
      let magic : (load_uint z.mem (z.block_baseaddr + i * shmem_blocksz + (z.blocks i).blocksz)
            == shmem_block_magic)
          ≡ true =
        (==_iff _ _).1 guard in
      let top : leb s 21 ≡ true = le→leb _ _ small in
      rw (index, in_zone, active, magic, class_lem, top, multiple)
        (Returns-mono
          (merge (21 - s) s i
            (record z { num_active = update z.num_active s (z.num_active s - 1) }))
          (merge_lem (21 - s) s (omega (arith, small)) i _ held)
          λ z' m. record {
            valid = m.valid;
            others = m.others;
            no_more = m.no_more;
            num_blocks = m.num_blocks;
            base = m.base;
            mem = m.mem;
          })
