-- ===== src/Shmem/Tiling.antt =====
-- Blocks as intervals: `c i` is the class of the block that begins at `i`. The tiling says that
-- the blocks lie inside the zone at multiples of their size and do not overlap. Below are the
-- changes that the allocator makes: a split into halves, and the merge of two buddies.
use pg_strom.Prelude.{
  ℕ, suc, ◌+◌, ◌*◌, ◌^◌, ◌≤◌, ◌<◌, ◌≡◌, ◌≢◌, refl, ap, Option, none, some, arith, update, ◌==◌,
  two_pow_suc, two_pow_pos, ◌⊎◌, inl, inr, Bool-cases, ==_iff,
}

-- `i` is a multiple of 2 ^ k.
abbrev pub Aligned : ℕ → ℕ → Type 0
Aligned i k = (q : ℕ) × (i ≡ q * 2 ^ k)

pub record Tiling (n : ℕ) (c : ℕ → Option ℕ) : Type 0 where
  pub inside : (i k : ℕ) → c i ≡ some k → i + 2 ^ k ≤ n
  pub aligned : (i k : ℕ) → c i ≡ some k → Aligned i k
  pub apart : (i j k l : ℕ) → c i ≡ some k → c j ≡ some l → i < j → i + 2 ^ k ≤ j

pub Aligned-halves : (i k : ℕ) → Aligned i (suc k) → Aligned i k × Aligned (i + 2 ^ k) k
Aligned-halves i k (q, e) = (
  (q + q, omega (arith, ap (λ (p : ℕ). q * p) (two_pow_suc k), e)),
  (q + q + 1, omega (arith, ap (λ (p : ℕ). q * p) (two_pow_suc k), e)),
)

pub Aligned-next : (i k : ℕ) → Aligned i k → Aligned (i + 2 ^ k) k
Aligned-next i k (q, e) = (q + 1, omega (arith, e))

-- What a changed map holds is the new value, or what it held.
update_cases :
    {A : Type 0} (f : ℕ → A) (k a : ℕ) {v w : A}
    → update f k v a ≡ w
    → ((a ≡ k) × (v ≡ w)) ⊎ ((a ≢ k) × (f a ≡ w))
update_cases f k a e = elim (Bool-cases (a == k)) [
  | inl h ↦ inl ((==_iff a k).0 h, rw h at e)
  | inr h ↦ inr (ground arith, rw h at e)
]

Aligned-at :
    {a i k x : ℕ} → a ≡ i → ◌≡◌ {A = Option ℕ} (some k) (some x) → Aligned i k → Aligned a x
Aligned-at u v (q, e) = (q, ground arith)

module _ {n : ℕ} {c : ℕ → Option ℕ} (t : Tiling n c) where
  -- No block begins inside another.
  pub Tiling-none : (i k j : ℕ) → c i ≡ some k → i < j → j < i + 2 ^ k → c j ≡ none
  Tiling-none i k j e lo hi =
      none_unless (c j) λ l f. absurd (omega (arith, t.apart i j k l e f lo))
    where
      none_unless : (o : Option ℕ) → ((l : ℕ) → o ≡ some l → ⊥) → o ≡ none
      none_unless none h = refl
      none_unless (some l) h = absurd (h l refl)

  -- Only the pointwise value of the class counts.
  pub Tiling-relabel : (d : ℕ → Option ℕ) → ((i : ℕ) → d i ≡ c i) → Tiling n d
  Tiling-relabel d same = record {
    inside = λ i k e. t.inside i k (cc (same i));
    aligned = λ i k e. t.aligned i k (cc (same i));
    apart = λ i j k l e f. t.apart i j k l (cc (same i)) (cc (same j));
  }

  module _ (i k : ℕ) (e : c i ≡ some (suc k)) where
    split-Aligned :
        (a x : ℕ) → update (update c i (some k)) (i + 2 ^ k) (some k) a ≡ some x → Aligned a x
    split-Aligned a x f = elim (update_cases (update c i (some k)) (i + 2 ^ k) a f) [
      | inl (u, v) ↦ Aligned-at u v (Aligned-halves i k (t.aligned i (suc k) e)).1
      | inr (u, v) ↦ elim (update_cases c i a v) [
        | inl (u', v') ↦ Aligned-at u' v' (Aligned-halves i k (t.aligned i (suc k) e)).0
        | inr (u', v') ↦ t.aligned a x v'
      ]
    ]

    pub Tiling-split : Tiling n (update (update c i (some k)) (i + 2 ^ k) (some k))
    Tiling-split = record {
      inside =
          λ a x f. ground (arith, two_pow_suc k, two_pow_pos k, t.inside i (suc k) e, t.inside a x);
      aligned = λ a x f. split-Aligned a x f;
      apart = λ a b x y f g l. ground (
        arith,
        two_pow_suc k,
        two_pow_pos k,
        two_pow_pos x,
        t.apart i b (suc k) y e,
        t.apart i a (suc k) x e,
        t.apart a i x (suc k),
        t.apart a b x y,
      );
    }

  module _ (i k : ℕ) (e : c i ≡ some k) (f : c (i + 2 ^ k) ≡ some k) (up : Aligned i (suc k)) where
    merge-Aligned :
        (a x : ℕ) → update (update c (i + 2 ^ k) none) i (some (suc k)) a ≡ some x → Aligned a x
    merge-Aligned a x g = elim (update_cases (update c (i + 2 ^ k) none) i a g) [
      | inl (u, v) ↦ Aligned-at u v up
      | inr (u, v) ↦ elim (update_cases c (i + 2 ^ k) a v) [
        | inl (u', v') ↦ absurd (cc)
        | inr (u', v') ↦ t.aligned a x v'
      ]
    ]

    pub Tiling-merge : Tiling n (update (update c (i + 2 ^ k) none) i (some (suc k)))
    Tiling-merge = record {
      inside = λ a x g. ground (arith, two_pow_suc k, t.inside (i + 2 ^ k) k f, t.inside a x);
      aligned = merge-Aligned;
      apart = λ a b x y g h l. ground (
        arith,
        two_pow_suc k,
        two_pow_pos k,
        two_pow_pos x,
        t.apart (i + 2 ^ k) b k y f,
        t.apart i b k y e,
        t.apart a i x k,
        t.apart a b x y,
      );
    }

  -- A block that goes leaves the others as they were.
  pub Tiling-drop : (i : ℕ) → Tiling n (update c i none)
  Tiling-drop i = record {
    inside = λ a x g. ground (arith, t.inside a x);
    aligned = λ a x g. drop_aligned a x (update_cases c i a g);
    apart = λ a b x y g h l. ground (arith, t.apart a b x y);
  }
    where
      drop_aligned :
          (a x : ℕ)
          → ((a ≡ i) × (◌≡◌ {A = Option ℕ} none (some x))) ⊎ ((a ≢ i) × (c a ≡ some x))
          → Aligned a x
      drop_aligned a x (inl (u, v)) = absurd (cc)
      drop_aligned a x (inr (u, v)) = t.aligned a x v

  -- A block behind all others.
  pub Tiling-append :
      (b k : ℕ)
      → ((i l : ℕ) → c i ≡ some l → i + 2 ^ l ≤ b)
      → Aligned b k
      → b + 2 ^ k ≤ n
      → Tiling n (update c b (some k))
  Tiling-append b k ends up fits = record {
    inside = λ a x g. ground (arith, t.inside a x);
    aligned = λ a x g. append_aligned a x (update_cases c b a g);
    apart = λ i j x y g h l. ground (arith, two_pow_pos y, ends i x, ends j y, t.apart i j x y);
  }
    where
      append_aligned :
          (a x : ℕ)
          → ((a ≡ b) × (◌≡◌ {A = Option ℕ} (some k) (some x))) ⊎ ((a ≢ b) × (c a ≡ some x))
          → Aligned a x
      append_aligned a x (inl (u, v)) = Aligned-at u v up
      append_aligned a x (inr (u, v)) = t.aligned a x v
