-- ===== src/Shmem/Pool/Grant.antt =====
-- `pgstrom_shmem_alloc` over valid zones.
use native.Mathlib.Decide.{dec_lt}
use native.Mathlib.Nat.{mod-eq_of_lt, mod-eq-sub-mod}
use pg_strom.Prelude.{
  ℕ, zero, suc, ◌+◌, ◌-◌, ◌%◌, ◌^◌, ◌≤◌, ◌<◌, ◌≡◌, ◌≢◌, refl, ap, subst, ◌∙◌, ◌⊎◌, inl, inr, true,
  false, Option, none, some, [], arith, ltb, ltb→lt, ◌==◌, if◌then◌else◌, update, Bool-cases,
}
use pg_strom.Prelude.Run.{Run, Returns, Returns-bind}
use pg_strom.Shmem.Size.{
  sizeof_cl_uint, shmem_blocksz_bits_range, shmem_blocksz_bits_max, find_least_pot,
}
use pg_strom.Shmem.Zone.{Zone}
use pg_strom.Shmem.Valid.{IsValid}
use pg_strom.Shmem.Buddy.{block_alloc}
use pg_strom.Shmem.Buddy.Alloc.{Granted, AllocDone, block_alloc_lem}
use pg_strom.Shmem.Pool.{Pool, put_zone, end_round, alloc_rounds, shmem_alloc}

pub record IsReady (p : Pool) : Type 0 where
  pub ready : p.is_ready ≡ true
  pub index : p.zone_index < p.num_zones
  pub zones : (k : ℕ) → k < p.num_zones → IsValid (p.zones k)

-- No block of the zone is free at the class of the request or above it.
abbrev pub Exhausted : Zone → ℕ → Type 0
Exhausted z size =
    (k : ℕ)
    → find_least_pot (size + sizeof_cl_uint) ≤ k
    → k ≤ shmem_blocksz_bits_range
    → z.free_list k ≡ []

-- One zone grants the request and the others stay; or every zone is exhausted, and all stay.
pub data PoolDone (p : Pool) (size : ℕ) (r : Option ℕ × Pool) : Type 0 where
  granted :
      (a k : ℕ)
      → r.0 ≡ some a
      → k < p.num_zones
      → Granted (p.zones k) size a (r.1.zones k)
      → ((j : ℕ) → j ≢ k → r.1.zones j ≡ p.zones j)
      → IsReady r.1
      → PoolDone p size r
  refused :
      r.0 ≡ none
      → ((j : ℕ) → r.1.zones j ≡ p.zones j)
      → ((j : ℕ) → j < p.num_zones → Exhausted (p.zones j) size)
      → IsReady r.1
      → PoolDone p size r

-- The zone after `m` rounds that began at `start`.
place : ℕ → ℕ → ℕ → ℕ
place start m n = if ltb (start + m) n then start + m else start + m - n

mod_wrap : (x n : ℕ) → x < n + n → x % n ≡ (if ltb x n then x else x - n)
mod_wrap x n h = elim (Bool-cases (ltb x n)) [
  | inl lt ↦ rw lt (mod-eq_of_lt (ltb→lt x n lt))
  | inr ge ↦
      let le : n ≤ x = ground arith in
      rw ge (mod-eq-sub-mod le ∙ mod-eq_of_lt (let t : x - n < n = omega arith in t))
]

place_next : (start m n : ℕ) → start < n → m < n → (place start m n + 1) % n ≡ place start (m + 1) n
unfolding place
place_next start m n s h = ground (
  arith,
  mod_wrap (start + m + 1) n (omega arith),
  mod_wrap (start + m - n + 1) n (omega arith),
  mod_wrap (0 + n) n (omega arith),
)

-- Each zone is met in some round.
met : (start j n : ℕ) → start < n → j < n → (m : ℕ) × (m < n) × (j ≡ place start m n)
unfolding place
met start j n s h = elim (Bool-cases (ltb j start)) [
  | inl lt ↦ (j + n - start, ground arith, ground arith)
  | inr ge ↦ (j - start, ground arith, ground arith)
]

module _ (p : Pool) (size : ℕ) (pos : 0 < size) (small : size + sizeof_cl_uint ≤ 2 ^ 33)
    (rd : IsReady p) where
  -- The pool in the middle of the loop: the zones met so far are exhausted, and none has changed.
  record Visiting (m : ℕ) (q : Pool) : Type 0 where
    same : (j : ℕ) → q.zones j ≡ p.zones j
    count : q.num_zones ≡ p.num_zones
    ready : q.is_ready ≡ true
    at : q.zone_index ≡ place p.zone_index m p.num_zones
    visited : (i : ℕ) → i < m → Exhausted (p.zones (place p.zone_index i p.num_zones)) size

  place_below : (m : ℕ) → m < p.num_zones → place p.zone_index m p.num_zones < p.num_zones
  unfolding place
  place_below m h = ground (arith, rd.index)

  place_back :
      (m : ℕ)
      → m < p.num_zones
      → (place p.zone_index (m + 1) p.num_zones == p.zone_index) ≡ (m + 1 == p.num_zones)
  unfolding place
  place_back m h = ground (arith, rd.index)

  put_same :
      (m : ℕ) (q : Pool)
      → Visiting m q
      → (z : Zone) → z ≡ q.zones q.zone_index
      → (j : ℕ) → update q.zones q.zone_index z j ≡ p.zones j
  put_same m q v z e j = ground (arith, v.same j)

  after :
      (m : ℕ)
      → m < p.num_zones
      → (q : Pool) → Visiting m q
      → Exhausted (p.zones (place p.zone_index m p.num_zones)) size
      → (z : Zone) → z ≡ q.zones q.zone_index
      → Visiting (m + 1) (record (put_zone q z) { zone_index = (q.zone_index + 1) % q.num_zones })
  after m h q v ex z e = record {
    same = put_same m q v z e;
    count = v.count;
    ready = v.ready;
    at = rw (v.at, v.count) (place_next p.zone_index m p.num_zones rd.index h);
    visited = λ i l. elim (dec_lt i m) [
      | yes b ↦ v.visited i b
      | no b ↦ let d : i ≡ m = omega arith in rw d ex
    ];
  }

  all_met :
      (m : ℕ) (q : Pool)
      → Visiting m q
      → m ≡ p.num_zones
      → (j : ℕ) → j < p.num_zones
      → Exhausted (p.zones j) size
  all_met m q v e j h =
      let (i, lt, at) = met p.zone_index j p.num_zones rd.index h in
      rw at (v.visited i (omega arith))

  Visiting-IsReady : (m : ℕ) (q : Pool) → Visiting m q → q.zone_index < p.num_zones → IsReady q
  Visiting-IsReady m q v lt = record {
    ready = v.ready;
    index = ground (arith, v.count);
    zones = λ k h. rw (v.same k) (rd.zones k (rw v.count at h));
  }

  module _ (m : ℕ) (h : m < p.num_zones) (q : Pool) (v : Visiting m q) where
    abbrev k : ℕ
    k = place p.zone_index m p.num_zones

    here : q.zones q.zone_index ≡ p.zones k
    here = v.same q.zone_index ∙ ap p.zones v.at

    Granted-here :
        (a : ℕ) (z : Zone)
        → Granted (q.zones q.zone_index) size a z
        → PoolDone p size (some a, put_zone q z)
    Granted-here a z g =
        let lt = place_below m h in
        let own : update q.zones q.zone_index z k ≡ z = ground (arith, v.at) in
        granted a k refl lt (rw own (rw here at g)) (λ j ne. ground (arith, v.same j, v.at))
          (record {
            ready = v.ready;
            index = ground (arith, v.at, v.count);
            zones = λ j b. zone_valid j (rw v.count at b) (Bool-cases (j == q.zone_index));
          })
      where
        zone_valid :
            (j : ℕ)
            → j < p.num_zones
            → ((j == q.zone_index) ≡ true) ⊎ ((j == q.zone_index) ≡ false)
            → IsValid (update q.zones q.zone_index z j)
        zone_valid j b (inl e) = rw e g.valid
        zone_valid j b (inr e) = rw (e, v.same j) (rd.zones j b)

  end_round_lem :
      (again : Pool → Run (Option ℕ × Pool)) (m : ℕ) (q : Pool) (v : Visiting m q)
      → m < p.num_zones
      → (r : Option ℕ × Zone) → AllocDone (q.zones q.zone_index) size r
      → ((w : Pool)
          → Visiting (m + 1) w
          → m + 1 < p.num_zones
          → Returns (PoolDone p size) (again w))
      → Returns (PoolDone p size) (end_round again p.zone_index q r)
  unfolding end_round
  end_round_lem again m q v lt (some a, z) (inl (b, e, g)) ih =
      let d : b ≡ a = ground arith in
      Granted-here m lt q v a z (subst (λ t. Granted (q.zones q.zone_index) size t z) d g)
  end_round_lem again m q v lt (some a, z) (inr (e, same, ex)) ih = absurd (cc)
  end_round_lem again m q v lt (none, z) (inl (b, e, g)) ih = absurd (cc)
  end_round_lem again m q v lt (none, z) (inr (e, same, ex)) ih =
      let ex' : Exhausted (p.zones (place p.zone_index m p.num_zones)) size =
        rw (here m lt q v) at ex in
      let w = after m lt q v ex' z same in
      let test : ((q.zone_index + 1) % q.num_zones == p.zone_index) ≡ (m + 1 == p.num_zones) =
        ap (λ t. t == p.zone_index) w.at ∙ place_back m lt in
      elim (Bool-cases (m + 1 == p.num_zones)) [
        | inl last ↦
            let back = test ∙ last in
            let full : m + 1 ≡ p.num_zones = ground arith in
            rw back (
              refused refl w.same (all_met (m + 1) _ w full)
                (Visiting-IsReady (m + 1) _ w (ground (arith, rd.index))))
        | inr more ↦ let on = test ∙ more in rw on (ih _ w (ground arith))
      ]

  rounds_lem :
      (n m : ℕ) (q : Pool)
      → Visiting m q
      → n + m ≡ p.num_zones
      → m < p.num_zones
      → Returns (PoolDone p size) (alloc_rounds n p.zone_index size q)
  unfolding alloc_rounds
  rounds_lem zero m q v fuel lt = absurd (omega arith)
  rounds_lem (suc n) m q v fuel lt =
      let valid : IsValid (q.zones q.zone_index) =
        rw (here m lt q v) (rd.zones (k m lt q v) (place_below m lt)) in
      Returns-bind (block_alloc (q.zones q.zone_index) size) _ _
        (block_alloc_lem valid size pos small)
        λ r d. end_round_lem _ m q v lt r d (λ w l lt'. rounds_lem n (m + 1) w l (omega arith) lt')

  -- Over valid zones a request of 1 to 2 ^ 33 - 4 bytes never faults: some zone grants it, with no
  -- effect on the others, or every zone is exhausted at the class of the request, the result is the
  -- null pointer, and no zone changes.
  pub shmem_alloc_lem : Returns (PoolDone p size) (shmem_alloc size p)
  unfolding shmem_alloc
  shmem_alloc_lem =
      let nonzero : (size == 0) ≡ false = ground arith in
      let bounded : ltb (2 ^ shmem_blocksz_bits_max) size ≡ false = ground arith in
      simp (rd.ready, nonzero, bounded)
        (rounds_lem p.num_zones 0 p
          (record {
            same = λ j. refl;
            count = refl;
            ready = rd.ready;
            at = unfold place in ground (arith, rd.index);
            visited = λ i l. elim l [ ];
          })
          (omega arith) (omega (arith, rd.index)))
