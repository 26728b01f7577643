-- ===== src/Shmem/Buddy/Alloc.antt =====
-- `pgstrom_shmem_zone_block_alloc` on a valid zone.
use native.Mathlib.Decide.{dec_lt}
use native.Mathlib.Numerals.{add-one}
use pg_strom.Prelude.{
  ℕ, suc, ◌+◌, ◌-◌, ◌*◌, ◌%◌, ◌^◌, ◌≤◌, ◌<◌, ◌≡◌, ◌≢◌, refl, ◌∙◌, ◌⊎◌, le→leb, leb, Bool-cases,
  Bool, true, false, none, some, Option, List, [], ◌∷◌, arith, ltb, ltb→lt, ==_iff, ◌==◌,
  if◌then◌else◌, update, is_empty, List-cases, inl, inr, two_pow_pos, two_pow_mono,
}
use pg_strom.Prelude.Run.{done, fault, Returns, Returns-mono, Returns-bind}
use pg_strom.Shmem.Size.{
  shmem_blocksz, shmem_blocksz_bits_range, size_mod, sizeof_cl_uint, find_least_pot,
}
use pg_strom.Shmem.Size.Least.{IsLeastClass, find_least_pot-IsLeastClass}
use pg_strom.Shmem.Zone.{
  Block, Zone, is_active, cleared, class, no_heads, store_uint, load_uint, shmem_block_magic,
}
use pg_strom.Shmem.Valid.{tile, IsValid}
use pg_strom.Shmem.Valid.Fill.{fill_active}
use pg_strom.Shmem.Buddy.{take_block, block_split, block_alloc}
use pg_strom.Shmem.Buddy.Pop.{Popped, pop_lem, pop_none, no_heads_of_none}
use pg_strom.Shmem.Buddy.Split.{Keeps, SplitDone, block_split_lem, update_twice}

-- The bytes of a request and its guard.
abbrev pub end_of : Zone → ℕ → ℕ
end_of z j = z.block_baseaddr + j * shmem_blocksz + (z.blocks j).blocksz + sizeof_cl_uint

-- What a grant promises: the block that begins at the address was not active and is now, for the
-- size that was asked; it does not meet an active block or its guard; the guard word is set; no
-- other active block and no other byte changes.
pub record Granted (z : Zone) (size address : ℕ) (z' : Zone) : Type 0 where
  pub index : ℕ
  pub place : address ≡ z.block_baseaddr + index * shmem_blocksz
  pub valid : IsValid z'
  pub was_free : is_active (z.blocks index) ≡ false
  pub now_active : z'.blocks index ≡ record { chained = false; blocksz = size }
  pub others : (j : ℕ) → is_active (z.blocks j) ≡ true → z'.blocks j ≡ z.blocks j
  pub no_more : (j : ℕ) → j ≢ index → is_active (z'.blocks j) ≡ true → is_active (z.blocks j) ≡ true
  pub disjoint :
      (j : ℕ)
      → is_active (z.blocks j) ≡ true
      → (end_of z j ≤ address)
        ⊎ (address + size + sizeof_cl_uint ≤ z.block_baseaddr + j * shmem_blocksz)
  pub inside : address + size + sizeof_cl_uint ≤ z.block_baseaddr + z.num_blocks * shmem_blocksz
  pub guard : load_uint z'.mem (address + size) ≡ shmem_block_magic
  pub bytes :
      (a : ℕ) → (a < address + size) ⊎ (address + size + sizeof_cl_uint ≤ a) → z'.mem a ≡ z.mem a
  pub same_place : (z'.num_blocks ≡ z.num_blocks) × (z'.block_baseaddr ≡ z.block_baseaddr)

pub load-store_uint : (mem : ℕ → ℕ) (a v : ℕ) → v < 2 ^ 32 → load_uint (store_uint mem a v) a ≡ v
unfolding load_uint store_uint
load-store_uint mem a v h = ground arith

store_uint-elsewhere :
    (mem : ℕ → ℕ) (a v b : ℕ) → (b < a) ⊎ (a + 4 ≤ b) → store_uint mem a v b ≡ mem b
unfolding store_uint
store_uint-elsewhere mem a v b h = ground arith

module _ {z : Zone} (v : IsValid z) (s size i : ℕ) (rest : List ℕ) (e : z.free_list s ≡ i ∷ rest)
    (at : class (record { chained = false; blocksz = size }) ≡ s) (pos : 0 < size)
    (fits : size + sizeof_cl_uint ≤ 2 ^ s * shmem_blocksz) where
  abbrev p : Popped z s i rest
  p = pop_lem v s i rest e

  abbrev blocks' : ℕ → Block
  blocks' = update z.blocks i (record { chained = false; blocksz = size })

  abbrev address : ℕ
  address = z.block_baseaddr + i * shmem_blocksz

  abbrev taken : Zone
  taken = record z {
    free_list = update z.free_list s rest;
    blocks = blocks';
    num_free = update z.num_free s (z.num_free s - 1);
    num_active = update z.num_active s (z.num_active s + 1);
    mem = store_uint z.mem (address + size) shmem_block_magic;
  }

  taken-IsValid : IsValid taken
  taken-IsValid = record {
    shape =
        rw (← update_twice z.blocks i cleared (record { chained = false; blocksz = size }))
          (fill_active p.hole size at pos fits);
    counted = λ k. ground (arith, v.counted k, v.counted s, e);
  }

  taken_disjoint :
      (j : ℕ)
      → is_active (z.blocks j) ≡ true
      → (end_of z j ≤ address)
        ⊎ (address + size + sizeof_cl_uint ≤ z.block_baseaddr + j * shmem_blocksz)
  taken_disjoint j active =
      let c : ℕ = class (z.blocks j) in
      let tj : tile z.blocks j ≡ some c = ground arith in
      elim (Bool-cases (ltb i j)) [
        | inl lt ↦ inr (omega (arith, v.shape.tiling.apart i j s c p.tiled tj (ltb→lt i j lt)))
        | inr ge ↦
            let below : j < i = ground (arith, p.free) in
            inl (
              omega (
                arith,
                v.shape.tiling.apart j i c s tj p.tiled below,
                v.shape.active_size j active,
              ))
      ]

  taken-Granted : Granted z size address taken
  taken-Granted = record {
    index = i;
    place = refl;
    valid = taken-IsValid;
    was_free = ground (arith, p.free);
    now_active = ground arith;
    others = λ j h. ground (arith, p.free);
    no_more = λ j ne h. ground arith;
    disjoint = taken_disjoint;
    inside = omega (arith, v.shape.tiling.inside i s p.tiled);
    guard = load-store_uint z.mem (address + size) shmem_block_magic (omega arith);
    bytes = λ a h. store_uint-elsewhere z.mem (address + size) shmem_block_magic a h;
    same_place = (refl, refl);
  }

  clear_behind : no_heads blocks' (i + 1) (2 ^ s - 1) ≡ true
  clear_behind = no_heads_of_none blocks' (i + 1) (2 ^ s - 1) λ j lo hi.
      ground (arith, pop_none v s i rest e j (omega arith) (omega (arith, two_pow_pos s)))

  take_block_lem :
      Returns (λ r. (a : ℕ) × (r.0 ≡ some a) × Granted z size a r.1) (take_block z s size)
  unfolding take_block
  take_block_lem =
      let exact : ((z.blocks i).blocksz == 2 ^ s * shmem_blocksz) ≡ true = (==_iff _ _).1 p.size in
      rw (e, take_block) (rw (exact, clear_behind) (address, refl, taken-Granted))

-- The grant after a split is a grant of the zone before it.
Granted-Keeps : {x y z : Zone} {size a : ℕ} → Keeps x y → Granted y size a z → Granted x size a z
Granted-Keeps {x} {y} {z} k g = record {
  index = g.index;
  place = ground (arith, g.place, k.base);
  valid = g.valid;
  was_free = ground (arith, g.was_free, k.blocks g.index);
  now_active = g.now_active;
  others = λ j h. ground (arith, k.blocks j h, g.others j);
  no_more = λ j ne h. k.no_more j (g.no_more j ne h);
  disjoint = λ j h. ground (arith, k.base, k.blocks j h, g.disjoint j);
  inside = ground (arith, g.inside, k.base, k.num_blocks);
  guard = g.guard;
  bytes = λ b h. ground (arith, g.bytes b h, k.mem);
  same_place = (g.same_place.0 ∙ k.num_blocks, g.same_place.1 ∙ k.base);
}

-- A request is granted, or no class from its own up has a free block, and nothing changes.
abbrev pub AllocDone : Zone → ℕ → Option ℕ × Zone → Type 0
AllocDone z size r =
    ((a : ℕ) × (r.0 ≡ some a) × Granted z size a r.1)
    ⊎ ((r.0 ≡ none)
        × (r.1 ≡ z)
        × ((k : ℕ)
            → find_least_pot (size + sizeof_cl_uint) ≤ k
            → k ≤ shmem_blocksz_bits_range
            → z.free_list k ≡ []))

module _ {z : Zone} (v : IsValid z) (size : ℕ) (pos : 0 < size)
    (small : size + sizeof_cl_uint ≤ 2 ^ 33) where
  abbrev shift : ℕ
  shift = find_least_pot (size + sizeof_cl_uint)

  least : IsLeastClass (size + sizeof_cl_uint) shift
  least = find_least_pot-IsLeastClass (size + sizeof_cl_uint) (omega arith) (omega arith)

  shift-lt : shift < shmem_blocksz_bits_range
  shift-lt = elim (dec_lt shift 21) [
    | yes h ↦ h
    | no h ↦ absurd (omega (arith, least.least 20 (omega arith)))
  ]

  size_kept : (size + sizeof_cl_uint) % size_mod ≡ size + sizeof_cl_uint
  size_kept = omega arith

  class_size : class (record { chained = false; blocksz = size }) ≡ shift
  unfolding class
  class_size = rw size_kept

  take_here :
      (y : Zone)
      → IsValid y
      → is_empty (y.free_list shift) ≡ false
      → Returns (λ r. (a : ℕ) × (r.0 ≡ some a) × Granted y size a r.1) (take_block y shift size)
  take_here y w full = elim (List-cases (y.free_list shift)) [
    | inl e ↦ absurd (ground arith)
    | inr (i, rest, e) ↦ take_block_lem w shift size i rest e class_size pos least.holds
  ]

  take_split :
      z.free_list shift ≡ []
      → (r : Bool × Zone) → SplitDone z shift r
      → Returns (AllocDone z size) (if r.0 then take_block r.1 shift size else done (none, r.1))
  take_split e (true, y) (inl (yes', h)) =
      Returns-mono (take_block y shift size) (take_here y h.valid h.below)
        λ r (a, got, g). inl (a, got, Granted-Keeps h.keeps g)
  take_split e (true, y) (inr (no', same, none')) = absurd (cc)
  take_split e (false, y) (inl (yes', h)) = absurd (cc)
  take_split e (false, y) (inr (no', same, none')) =
      inr (refl, same, λ k lo hi. ground (arith, none' k))

  -- On a valid zone a request of 1 to 2 ^ 33 - 4 bytes never faults: it gets a block that meets no
  -- active block and whose guard is set, while no other active block and no other byte changes; or
  -- no class from its own up has a free block, the result is the null pointer and the zone is
  -- unchanged.
  pub block_alloc_lem : Returns (AllocDone z size) (block_alloc z size)
  unfolding block_alloc
  block_alloc_lem =
      let in_range : leb shift 21 ≡ true = le→leb _ _ (omega (arith, shift-lt)) in
      elim (Bool-cases (is_empty (z.free_list shift))) [
        | inl empty ↦
            let e : z.free_list shift ≡ [] = ground arith in
            rw (size_kept, in_range, empty, add-one shift)
              (Returns-bind (block_split z (suc shift)) _ _ (block_split_lem shift v shift-lt)
                (take_split e))
        | inr full ↦
            rw (size_kept, in_range, full)
              (Returns-mono (take_block z shift size) (take_here z v full) λ r h. inl h)
      ]

top_class : (size : ℕ) → 2 ^ 33 < size → size ≤ 2 ^ 34 → find_least_pot size ≡ 21
top_class size lo hi =
    let l = find_least_pot-IsLeastClass size (omega arith) (omega arith) in
    let f : ℕ = find_least_pot size in
    let up : ¬ (f < 21) = λ lt. omega (arith, l.holds, two_pow_mono f 20 (omega arith)) in
    let down : ¬ (21 < f) = λ lt. omega (arith, l.least 21 lt) in omega arith

-- A request for a block of the topmost class faults where no such block is free: the split is asked
-- for a class beyond the last, and its first act is to read the list of that class.
pub block_alloc-fault_top :
    (z : Zone) (size : ℕ)
    → 2 ^ 33 < size + sizeof_cl_uint
    → size + sizeof_cl_uint ≤ 2 ^ 34
    → z.free_list shmem_blocksz_bits_range ≡ []
    → block_alloc z size ≡ fault
unfolding block_alloc block_split
block_alloc-fault_top z size lo hi e =
    let kept : (size + sizeof_cl_uint) % size_mod ≡ size + sizeof_cl_uint = omega arith in
    rw (kept, top_class (size + sizeof_cl_uint) lo hi, e)
