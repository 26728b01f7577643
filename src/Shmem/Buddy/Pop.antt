-- ===== src/Shmem/Buddy/Pop.antt =====
-- The head of a free list, and the facts that the assertions behind a pop ask for.
use native.Mathlib.Nat.{mul-mod_left}
use pg_strom.Prelude.{
  ℕ, zero, suc, ◌+◌, ◌*◌, ◌%◌, ◌^◌, ◌≤◌, ◌<◌, ◌≡◌, refl, true, ◌&&◌, none, some, List, ◌∷◌, arith,
  ◌==◌, if◌then◌else◌, update, count,
}
use pg_strom.Shmem.Size.{shmem_blocksz}
use pg_strom.Shmem.Tiling.{Aligned, Tiling-none}
use pg_strom.Shmem.Zone.{Block, Zone, is_free, cleared, class, no_heads}
use pg_strom.Shmem.Valid.{tile, Hole, IsValid}
use pg_strom.Shmem.Valid.Fill.{Loses, take_free}

pub mod_of_Aligned : (i k : ℕ) → Aligned i k → (i % 2 ^ k == 0) ≡ true
mod_of_Aligned i k (q, e) = rw (e, mul-mod_left)

pub no_heads_of_none :
    (blocks : ℕ → Block) (a n : ℕ)
    → ((j : ℕ) → a ≤ j → j < a + n → tile blocks j ≡ none)
    → no_heads blocks a n ≡ true
unfolding no_heads
no_heads_of_none blocks a zero h = refl
no_heads_of_none blocks a (suc n) h = ground (
  arith,
  h a (omega arith) (omega arith),
  no_heads_of_none blocks (a + 1) n (λ j lo hi. h j (omega arith) (omega arith)),
)

-- The first of a list is free, of the class of the list and of its size.
pub record Popped (z : Zone) (shift i : ℕ) (rest : List ℕ) : Type 0 where
  pub free : is_free (z.blocks i) ≡ true
  pub at : class (z.blocks i) ≡ shift
  pub size : (z.blocks i).blocksz ≡ 2 ^ shift * shmem_blocksz
  pub tiled : tile z.blocks i ≡ some shift
  pub hole :
      Hole i shift z.num_blocks
        (update z.blocks i cleared)
        (update z.free_list shift rest)
        z.num_active

module _ {z : Zone} (v : IsValid z) (shift i : ℕ) (rest : List ℕ)
    (e : z.free_list shift ≡ i ∷ rest) where
  listed_head :
      count i (i ∷ rest) ≡ (if is_free (z.blocks i) && (class (z.blocks i) == shift) then 1 else 0)
  listed_head = rw e at (v.shape.listed i shift)

  pop_free : is_free (z.blocks i) ≡ true
  pop_free = ground (arith, listed_head)

  pop_class : class (z.blocks i) ≡ shift
  pop_class = ground (arith, listed_head)

  pop-Loses : Loses i z.free_list (update z.free_list shift rest)
  pop-Loses j k = ground (arith, v.shape.listed i k, pop_class)

  pub pop_lem : Popped z shift i rest
  pop_lem = record {
    free = pop_free;
    at = pop_class;
    size = ground (arith, v.shape.free_size i pop_free, pop_class);
    tiled = ground (arith, pop_free, pop_class);
    hole =
        take_free v.shape i shift pop_class (ground (arith, pop_free)) (ground (arith, pop_free)) _
          pop-Loses;
  }

  -- The blocks behind the head of a class are no heads, so the assertions hold.
  pub pop_none : (j : ℕ) → i < j → j < i + 2 ^ shift → tile z.blocks j ≡ none
  pop_none j = Tiling-none v.shape.tiling i shift j (pop_lem.tiled)

  pub pop_aligned : (i % 2 ^ shift == 0) ≡ true
  pop_aligned = mod_of_Aligned i shift (v.shape.tiling.aligned i shift (pop_lem.tiled))
