-- ===== src/Restrack/Abort.antt =====
-- What `pgstrom_restrack_callback` does when a transaction is aborted.
use pg_strom.Prelude.{
  ℕ, zero, suc, ◌+◌, ◌≤◌, ◌<◌, ◌≡◌, refl, ap, ◌∙◌, true, false, ◌⊎◌, inl, inr, List, [], ◌∷◌, ◌++◌,
  ◌==◌, if◌then◌else◌, update, arith, length, length-append, Bool-cases,
}
use mathlib.Core.Path.{ap₂}
use pg_strom.Prelude.Run.{done, Returns, Returns-bind}
use pg_strom.Restrack.{
  Tag, dev_program, msg_queue, Entry, Tracker, Release, close_queue, put_devprog_key, put_message,
  is_trackable, restrack_hashsz, release_of, abort_list, abort_slots, restrack_callback,
}

-- The entries of other owners, and the objects of the owner, in the order of the list.
pub others : ℕ → List Entry → List Entry
others owner [] = []
others owner (e ∷ es) = if e.owner == owner then others owner es else e ∷ others owner es

pub owned : ℕ → List Entry → List ℕ
owned owner [] = []
owned owner (e ∷ es) = if e.owner == owner then e.object ∷ owned owner es else owned owner es

-- How an object of a kind is given back: queues are closed, programs and messages lose a reference.
pub give_back : Tag → ℕ → Release
give_back msg_queue o = close_queue o
give_back dev_program o = put_devprog_key o
give_back _ o = put_message o

pub releases : (ℕ → Tag) → List ℕ → List Release
releases tags [] = []
releases tags (o ∷ os) = give_back (tags o) o ∷ releases tags os

releases-append :
    (tags : ℕ → Tag) (xs ys : List ℕ)
    → releases tags (xs ++ ys) ≡ releases tags xs ++ releases tags ys
unfolding releases
releases-append tags [] ys = refl
releases-append tags (x ∷ xs) ys = rw (releases-append tags xs ys)

release_of-give_back :
    (tag : Tag) (o : ℕ) → is_trackable tag ≡ true → release_of tag o ≡ done (give_back tag o)
unfolding give_back
release_of-give_back msg_queue o h = refl
release_of-give_back dev_program o h = refl
release_of-give_back _ o h = ground arith

-- Every tracked object is of a trackable kind.
abbrev pub AllTrackable : (ℕ → Tag) → List Entry → Type 0
AllTrackable tags [] = Unit {0}
AllTrackable tags (e ∷ es) = (is_trackable (tags e.object) ≡ true) × AllTrackable tags es

-- A slot loses the entries of the owner, which become free, and each of their objects is released
-- once, in order.
abbrev Aborted :
    (ℕ → Tag) → ℕ → List Entry → List Entry → List Entry × List Entry × List Release → Type 0
Aborted tags owner es free (kept, free', rs) =
    (kept ≡ others owner es)
    × (rs ≡ releases tags (owned owner es))
    × (length free' ≡ length free + length (owned owner es))

abort_list-Aborted :
    (tags : ℕ → Tag) (owner : ℕ) (es free : List Entry)
    → AllTrackable tags es
    → Returns (Aborted tags owner es free) (abort_list tags owner es free)
unfolding abort_list others owned releases
abort_list-Aborted tags owner [] free h = (refl, refl, omega arith)
abort_list-Aborted tags owner (e ∷ es) free h = elim (Bool-cases (e.owner == owner)) [
  | inl mine ↦
      rw (mine, abort_list, others, owned, release_of-give_back (tags e.object) e.object h.0)
        (Returns-bind (abort_list tags owner es (e ∷ free)) _ _
          (abort_list-Aborted tags owner es (e ∷ free) h.1)
          λ (kept, free', rs) (a, b, c).
            rw mine (a, ap (λ l. give_back (tags e.object) e.object ∷ l) b, omega (arith, c)))
  | inr other ↦
      rw (other, abort_list, others, owned)
        (Returns-bind (abort_list tags owner es free) _ _
          (abort_list-Aborted tags owner es free h.1)
          λ (kept, free', rs) (a, b, c). rw other (ap (λ l. e ∷ l) a, b, c))
]

-- The objects of the owner in the `n` slots from `i` on.
pub owned_from : ℕ → (ℕ → List Entry) → ℕ → ℕ → List ℕ
owned_from owner slots zero i = []
owned_from owner slots (suc n) i = owned owner (slots i) ++ owned_from owner slots n (i + 1)

owned_from-update :
    (owner : ℕ) (slots : ℕ → List Entry) (n i k : ℕ) (l : List Entry)
    → k < i
    → owned_from owner (update slots k l) n i ≡ owned_from owner slots n i
unfolding owned_from
owned_from-update owner slots zero i k l h = refl
owned_from-update owner slots (suc n) i k l h =
    let miss : (i == k) ≡ false = ground arith in
    rw (miss, owned_from-update owner slots n (i + 1) k l (omega arith))

-- The table after the abort: the slots from `i` to `i + n` keep the entries of other owners.
pub record Swept (tags : ℕ → Tag) (owner n i : ℕ) (t t' : Tracker) (rs : List Release)
    : Type 0 where
  pub kept : (j : ℕ) → i ≤ j → j < i + n → t'.slots j ≡ others owner (t.slots j)
  pub beyond : (j : ℕ) → (j < i) ⊎ (i + n ≤ j) → t'.slots j ≡ t.slots j
  pub released : rs ≡ releases tags (owned_from owner t.slots n i)
  pub freed : length t'.free ≡ length t.free + length (owned_from owner t.slots n i)

module _ (tags : ℕ → Tag) (owner : ℕ) where
  sweep_one :
      (n i : ℕ) (t t' : Tracker) (kept free' : List Entry) (rs rs' : List Release)
      → Aborted tags owner (t.slots i) t.free (kept, free', rs)
      → Swept tags owner n (i + 1) (record { free = free'; slots = update t.slots i kept }) t' rs'
      → Swept tags owner (suc n) i t t' (rs ++ rs')
  unfolding owned_from
  sweep_one n i t t' kept free' rs rs' (a, b, c) s =
      let same = owned_from-update owner t.slots n (i + 1) i kept (omega arith) in
      record {
        kept = λ j lo hi. elim (Bool-cases (j == i)) [
          | inl e ↦ let d : j ≡ i = ground arith in ground (arith, s.beyond j, ap t.slots d)
          | inr e ↦ ground (arith, s.kept j)
        ];
        beyond = λ j h. ground (arith, s.beyond j);
        released =
            rw releases-append (ap₂ (λ x y. x ++ y) b (s.released ∙ ap (releases tags) same));
        freed = omega (
          arith,
          c,
          s.freed,
          ap length same,
          length-append (owned owner (t.slots i)) (owned_from owner t.slots n (i + 1)),
        );
      }

  abort_slots-Swept :
      (n i : ℕ) (t : Tracker)
      → ((j : ℕ) → i ≤ j → j < i + n → AllTrackable tags (t.slots j))
      → Returns (λ (t', rs). Swept tags owner n i t t' rs) (abort_slots tags owner n i t)
  unfolding abort_slots owned_from releases
  abort_slots-Swept zero i t h = record {
    kept = λ j lo hi. absurd (omega arith);
    beyond = λ j o. refl;
    released = refl;
    freed = omega arith;
  }
  abort_slots-Swept (suc n) i t h =
      Returns-bind (abort_list tags owner (t.slots i) t.free) _ _
        (abort_list-Aborted tags owner (t.slots i) t.free (h i (omega arith) (omega arith)))
        λ (kept, free', rs) a.
          let next : Tracker = record { free = free'; slots = update t.slots i kept } in
          Returns-bind (abort_slots tags owner n (i + 1) next) _ _
            (abort_slots-Swept n (i + 1) next (λ j lo hi.
              let miss : (j == i) ≡ false = ground arith in
              rw miss (h j (omega arith) (omega arith))))
            λ (t', rs') s. sweep_one n i t t' kept free' rs rs' a s

  -- On abort, with only trackable objects in the table: each object of the owner is released
  -- exactly once for each of its entries, in the way of its kind; these entries become free, and
  -- every slot keeps the entries of other owners.
  pub restrack_callback-Swept :
      (t : Tracker)
      → ((j : ℕ) → AllTrackable tags (t.slots j))
      → Returns
          (λ (t', rs). Swept tags owner restrack_hashsz 0 t t' rs)
          (restrack_callback true false tags owner t)
  unfolding restrack_callback
  restrack_callback-Swept t h = abort_slots-Swept restrack_hashsz 0 t (λ j lo hi. h j)
