-- ===== src/Shmem/Buddy/Split.antt =====
-- `pgstrom_shmem_zone_block_split` on a valid zone.
use mathlib.Core.Path.{fun_ext}
use pg_strom.Prelude.{
  ℕ, zero, suc, ◌+◌, ◌-◌, ◌^◌, ◌≤◌, ◌<◌, ◌≡◌, refl, ◌∙◌, ◌⊎◌, ==-refl, le→leb, lt→ltb, leb,
  Bool-cases, Bool, true, false, none, List, [], ◌∷◌, ◌++◌, arith, ltb, ◌==◌, if◌then◌else◌, update,
  count-append, length-append, is_empty, List-cases, inl, inr, two_pow_pos, two_pow_suc,
}
use pg_strom.Prelude.Run.{done, Returns, Returns-mono, Returns-bind}
use pg_strom.Shmem.Size.{shmem_blocksz_bits_range}
use pg_strom.Shmem.Zone.{Block, Zone, is_active, cleared, no_heads, push_tail}
use pg_strom.Shmem.Valid.{tile, Hole, IsValid}
use pg_strom.Shmem.Valid.Fill.{Gains, fill_free}
use pg_strom.Shmem.Valid.Tally.{free_block}
use pg_strom.Shmem.Valid.Buddies.{cut}
use pg_strom.Shmem.Buddy.{halve, split_rounds, block_split}
use pg_strom.Shmem.Buddy.Pop.{Popped, pop_lem, pop_none, pop_aligned, no_heads_of_none}

-- What an operation on the free blocks leaves alone: the active blocks, the place of the zone and
-- the bytes.
pub record Keeps (z z' : Zone) : Type 0 where
  pub blocks : (i : ℕ) → is_active (z.blocks i) ≡ true → z'.blocks i ≡ z.blocks i
  pub no_more : (i : ℕ) → is_active (z'.blocks i) ≡ true → is_active (z.blocks i) ≡ true
  pub num_blocks : z'.num_blocks ≡ z.num_blocks
  pub base : z'.block_baseaddr ≡ z.block_baseaddr
  pub mem : z'.mem ≡ z.mem
  pub num_active : z'.num_active ≡ z.num_active

pub update_twice :
    {A : Type 0} (f : ℕ → A) (i : ℕ) (v w : A) → update (update f i v) i w ≡ update f i w
update_twice f i v w = fun_ext λ j. ground arith

-- After a split the class below has a block.
pub record Halved (z : Zone) (shift : ℕ) (z' : Zone) : Type 0 where
  pub valid : IsValid z'
  pub keeps : Keeps z z'
  pub below : is_empty (z'.free_list shift) ≡ false

snoc_full : (l : List ℕ) (x : ℕ) → is_empty (l ++ x ∷ []) ≡ false
snoc_full [] x = refl
snoc_full (y ∷ l) x = refl

pub push_Gains :
    (lists : ℕ → List ℕ) (s i : ℕ) → Gains i s lists (update lists s (lists s ++ i ∷ []))
push_Gains lists s i j k = ground (arith, count-append j (lists s) (i ∷ []))

module _ {z : Zone} (v : IsValid z) (s i : ℕ) (rest : List ℕ)
    (e : z.free_list (suc s) ≡ i ∷ rest) where
  abbrev p : Popped z (suc s) i rest
  p = pop_lem v (suc s) i rest e

  abbrev lists₁ : ℕ → List ℕ
  lists₁ = update z.free_list (suc s) rest

  abbrev lists₂ : ℕ → List ℕ
  lists₂ = update lists₁ s (lists₁ s ++ i ∷ [])

  abbrev blocks₂ : ℕ → Block
  blocks₂ = update z.blocks i (free_block s)

  upper-Hole : Hole (i + 2 ^ s) s z.num_blocks blocks₂ lists₂ z.num_active
  upper-Hole =
      rw (← update_twice z.blocks i cleared (free_block s))
        (cut p.hole lists₂ (push_Gains lists₁ s i))

  abbrev lists₃ : ℕ → List ℕ
  lists₃ = update lists₂ s (lists₂ s ++ (i + 2 ^ s) ∷ [])

  abbrev blocks₃ : ℕ → Block
  blocks₃ = update blocks₂ (i + 2 ^ s) (free_block s)

  abbrev free₁ : ℕ → ℕ
  free₁ = update z.num_free (suc s) (z.num_free (suc s) - 1)

  abbrev halved : Zone
  halved = record z {
    free_list = lists₃;
    blocks = blocks₃;
    num_free = update free₁ s (free₁ s + 2);
  }

  upper_none : tile z.blocks (i + 2 ^ s) ≡ none
  upper_none =
      pop_none v (suc s) i rest e (i + 2 ^ s) (omega (arith, two_pow_pos s))
        (omega (arith, two_pow_suc s, two_pow_pos s))

  halved-Keeps : Keeps z halved
  halved-Keeps = record {
    blocks = λ j h. ground (arith, p.free, upper_none);
    no_more = λ j h. ground (arith, upper_none);
    num_blocks = refl;
    base = refl;
    mem = refl;
    num_active = refl;
  }

  halved-IsValid : IsValid halved
  halved-IsValid = record {
    shape = fill_free upper-Hole lists₃ (push_Gains lists₂ s (i + 2 ^ s));
    counted = λ k. ground (
      arith,
      v.counted k,
      v.counted (suc s),
      length-append (lists₁ s) (i ∷ []),
      length-append (lists₂ s) ((i + 2 ^ s) ∷ []),
    );
  }

  clear_above : no_heads blocks₂ (i + 1) (2 ^ suc s - 1) ≡ true
  clear_above = no_heads_of_none blocks₂ (i + 1) (2 ^ suc s - 1) λ j lo hi.
      ground
        (arith, pop_none v (suc s) i rest e j (omega arith) (omega (arith, two_pow_pos (suc s))))

  below_full : is_empty (lists₃ s) ≡ false
  below_full = rw (==-refl s) (snoc_full (lists₁ s ++ i ∷ []) (i + 2 ^ s))

  halve_lem : Returns (λ r. (r.0 ≡ true) × Halved z s r.1) (halve (suc s) z)
  unfolding halve push_tail
  halve_lem =
      let pred : suc s - 1 ≡ s = omega arith in
      rw (e, halve)
        (rw (pred, pop_aligned v (suc s) i rest e, clear_above)
          (refl, record { valid = halved-IsValid; keeps = halved-Keeps; below = below_full }))

Keeps-trans : {x y z : Zone} → Keeps x y → Keeps y z → Keeps x z
Keeps-trans {x} {y} {z} a b = record {
  blocks = λ i h. ground (arith, a.blocks i, b.blocks i);
  no_more = λ i h. a.no_more i (b.no_more i h);
  num_blocks = b.num_blocks ∙ a.num_blocks;
  base = b.base ∙ a.base;
  mem = b.mem ∙ a.mem;
  num_active = b.num_active ∙ a.num_active;
}

Halved-trans : {x y z : Zone} {s : ℕ} → Keeps x y → Halved y s z → Halved x s z
Halved-trans k h = record { valid = h.valid; keeps = Keeps-trans k h.keeps; below = h.below }

-- A split succeeds, and leaves a block of the class below; or no class from there up has a free
-- block, and nothing changes.
abbrev pub SplitDone : Zone → ℕ → Bool × Zone → Type 0
SplitDone z s r =
    ((r.0 ≡ true) × Halved z s r.1)
    ⊎ ((r.0 ≡ false)
        × (r.1 ≡ z)
        × ((k : ℕ) → s < k → k ≤ shmem_blocksz_bits_range → z.free_list k ≡ []))

halve-SplitDone :
    {z : Zone}
    → IsValid z
    → (s i : ℕ) (rest : List ℕ) → z.free_list (suc s) ≡ i ∷ rest
    → Returns (SplitDone z s) (halve (suc s) z)
halve-SplitDone v s i rest e = Returns-mono (halve _ _) (halve_lem v s i rest e) λ r h. inl h

refilled :
    (z : Zone) (s : ℕ)
    → z.free_list (suc s) ≡ []
    → (r : Bool × Zone) → SplitDone z (suc s) r
    → Returns (SplitDone z s) (if r.0 then halve (suc s) r.1 else done (false, r.1))
refilled z s e (true, z') (inl (yes', h)) = elim (List-cases (z'.free_list (suc s))) [
  | inl empty ↦ absurd (ground (arith, h.below))
  | inr (i, rest, full) ↦
      Returns-mono (halve (suc s) z') (halve_lem h.valid s i rest full)
        λ r g. inl (g.0, Halved-trans h.keeps g.1)
]
refilled z s e (true, z') (inr (no', same, none')) = absurd (cc)
refilled z s e (false, z') (inl (yes', h)) = absurd (cc)
refilled z s e (false, z') (inr (no', same, none')) =
    inr (refl, same, λ k lo hi. ground (arith, none' k))

split_rounds_lem :
    (n s : ℕ) {z : Zone}
    → IsValid z
    → n + suc s ≡ shmem_blocksz_bits_range + 1
    → s < shmem_blocksz_bits_range
    → Returns (SplitDone z s) (split_rounds n (suc s) z)
unfolding split_rounds
split_rounds_lem zero s v fuel le = absurd (omega arith)
split_rounds_lem (suc n) s {z} v fuel le =
    let in_range : leb (suc s) 21 ≡ true = le→leb _ _ le in
    let positive : ltb 0 (suc s) ≡ true = lt→ltb 0 (suc s) (omega arith) in
    elim (List-cases (z.free_list (suc s))) [
      | inr (i, rest, e) ↦ rw (positive, in_range, e) (halve-SplitDone v s i rest e)
      | inl e ↦
          rw (positive, in_range, e)
            (elim (Bool-cases (suc s == shmem_blocksz_bits_range)) [
              | inl top ↦ rw top (inr (refl, refl, λ k lo hi. ground arith))
              | inr more ↦ rw more (
                  Returns-bind (split_rounds n (suc (suc s)) z) _ _
                    (split_rounds_lem n (suc s) v (omega arith) (ground arith)) (refilled z s e))
            ])
    ]

-- On a valid zone a split never faults: it ends as `SplitDone` says, for every class that a caller
-- can ask for.
pub block_split_lem :
    (s : ℕ) {z : Zone}
    → IsValid z
    → s < shmem_blocksz_bits_range
    → Returns (SplitDone z s) (block_split z (suc s))
unfolding block_split
block_split_lem s v le = split_rounds_lem (22 - suc s) s v (omega arith) le
