-- ===== src/Restrack/Table.antt =====
-- Tracking and untracking as operations on the number of times that each object is tracked.
use pg_strom.Prelude.{
  ℕ, suc, ◌+◌, ◌-◌, ◌≡◌, refl, Bool, true, false, not, Option, none, some, List, [], ◌∷◌, ◌==◌,
  if◌then◌else◌, update, arith, length, Bool-cases, inl, inr, ==-refl, ==_iff, ap,
}
use pg_strom.Prelude.Run.{done, Returns}
use pg_strom.Restrack.{
  Tag, Entry, Tracker, Release, is_trackable, tracker_hash, track_object, untrack_object,
  remove_first, has_object, object_is_tracked,
}

-- How often a list, and the table, track an object.
pub times_in : ℕ → List Entry → ℕ
times_in stag [] = 0
times_in stag (e ∷ es) = (if e.object == stag then 1 else 0) + times_in stag es

unfoldable pub times_tracked : ℕ → Tracker → ℕ
unfolding times_in
times_tracked stag t = times_in stag (t.slots (tracker_hash stag))

has_object-times : (stag : ℕ) (l : List Entry) → has_object stag l ≡ not (times_in stag l == 0)
unfolding has_object times_in
has_object-times stag [] = refl
has_object-times stag (e ∷ l) = ground (arith, has_object-times stag l)

-- A trackable object is found tracked exactly if it is tracked at least once.
pub object_is_tracked-times :
    (tag : Tag) (stag : ℕ) (t : Tracker)
    → is_trackable tag ≡ true
    → object_is_tracked tag stag t ≡ done (not (times_tracked stag t == 0))
unfolding object_is_tracked times_tracked
object_is_tracked-times tag stag t ok =
    rw ok (ap done (has_object-times stag (t.slots (tracker_hash stag))))

-- Removal takes one entry of the object, if there is one, and no entry of another.
abbrev Removed : ℕ → List Entry → Option (Entry × List Entry) → Type 0
Removed stag l none = times_in stag l ≡ 0
Removed stag l (some (e, rest)) =
    (e.object ≡ stag)
    × (length l ≡ suc (length rest))
    × ((j : ℕ) → times_in j l ≡ times_in j rest + (if j == stag then 1 else 0))

remove_first-Removed : (stag : ℕ) (l : List Entry) → Removed stag l (remove_first stag l)
unfolding remove_first times_in
remove_first-Removed stag [] = refl
remove_first-Removed stag (e ∷ l) = elim (Bool-cases (e.object == stag)) [
  | inl hit ↦ rw hit (ground arith, refl, λ j. ground arith)
  | inr miss ↦ rw miss (later (remove_first stag l) (remove_first-Removed stag l) miss)
]
  where
    later :
        (o : Option (Entry × List Entry))
        → Removed stag l o
        → (e.object == stag) ≡ false
        → Removed stag (e ∷ l) (elim o [ none ↦ none | some (f, rest) ↦ some (f, e ∷ rest) ])
    later none h miss = ground arith
    later (some (f, rest)) (a, b, c) miss = (a, omega arith, λ j. ground (arith, c j))

-- What a call of `pgstrom_track_object` leaves: one more entry of the object, from the free list or
-- new; or, after a failed allocation, the old table, and the object released.
abbrev pub Tracked : ℕ → Tracker → Tracker × List Release × Bool → Type 0
Tracked stag t (t', releases, false) =
    ((j : ℕ) → times_tracked j t' ≡ times_tracked j t + (if j == stag then 1 else 0))
    × (length t'.free ≡ length t.free - 1)
    × (releases ≡ [])
Tracked stag t (t', releases, true) = (t' ≡ t) × (t.free ≡ []) × (length releases ≡ 1)

added :
    (stag owner j : ℕ) (slots : ℕ → List Entry)
    → times_in j (
        update slots
          (tracker_hash stag)
          (record { owner = owner; object = stag } ∷ slots (tracker_hash stag))
          (tracker_hash j))
      ≡ times_in j (slots (tracker_hash j)) + (if j == stag then 1 else 0)
unfolding times_in
added stag owner j slots = elim (Bool-cases (j == stag)) [
  | inl e ↦ let d : j ≡ stag = ground arith in rw (d, ==-refl (tracker_hash stag)) (ground arith)
  | inr e ↦ elim (Bool-cases (tracker_hash j == tracker_hash stag)) [
    | inl h ↦
        let d : tracker_hash j ≡ tracker_hash stag = (==_iff _ _).0 h in rw (h, d) (ground arith)
    | inr h ↦ rw (h, e) (omega arith)
  ]
]

track_parts :
    (allocated : Bool) (tag : Tag) (stag owner : ℕ) (f : List Entry) (s : ℕ → List Entry)
    → is_trackable tag ≡ true
    → Returns
        (Tracked stag (record { free = f; slots = s }))
        (track_object allocated tag stag owner (record { free = f; slots = s }))
unfolding track_object times_tracked
track_parts allocated tag stag owner (e ∷ f) s ok =
    rw ok (λ j. added stag owner j s, omega arith, refl)
track_parts true tag stag owner [] s ok = rw ok (λ j. added stag owner j s, omega arith, refl)
track_parts false tag stag owner [] s ok = rw ok (refl, refl, ground arith)

-- A trackable object is tracked once more, and no other object is touched; or no entry can be had,
-- the object is released, and the table is as it was.
pub track_object-Tracked :
    (allocated : Bool) (tag : Tag) (stag owner : ℕ) (t : Tracker)
    → is_trackable tag ≡ true
    → Returns (Tracked stag t) (track_object allocated tag stag owner t)
track_object-Tracked allocated tag stag owner t ok =
    track_parts allocated tag stag owner t.free t.slots ok

-- What a call of `pgstrom_untrack_object` leaves.
abbrev pub Untracked : ℕ → Tracker → Tracker × Bool → Type 0
Untracked stag t (t', true) =
    ((j : ℕ) → times_tracked j t ≡ times_tracked j t' + (if j == stag then 1 else 0))
    × (length t'.free ≡ length t.free + 1)
Untracked stag t (t', false) = (t' ≡ t) × (times_tracked stag t ≡ 0)

removed :
    (stag j : ℕ) (slots : ℕ → List Entry) (rest : List Entry)
    → ((j : ℕ)
        → times_in j (slots (tracker_hash stag)) ≡ times_in j rest + (if j == stag then 1 else 0))
    → times_in j (slots (tracker_hash j))
      ≡ times_in j (update slots (tracker_hash stag) rest (tracker_hash j))
        + (if j == stag then 1 else 0)
removed stag j slots rest h = elim (Bool-cases (tracker_hash j == tracker_hash stag)) [
  | inl e ↦ let d : tracker_hash j ≡ tracker_hash stag = (==_iff _ _).0 e in rw (e, d) (h j)
  | inr e ↦ elim (Bool-cases (j == stag)) [
    | inl f ↦ let d : j ≡ stag = ground arith in absurd (ground (arith, ap tracker_hash d))
    | inr f ↦ rw (e, f) (omega arith)
  ]
]

-- A tracked object is tracked once less, its entry is free again, and no other object is touched;
-- an object that is not tracked is reported, and the table is as it was.
pub untrack_object-Untracked :
    (tag : Tag) (stag : ℕ) (t : Tracker)
    → is_trackable tag ≡ true
    → Returns (Untracked stag t) (untrack_object tag stag t)
unfolding untrack_object times_tracked
untrack_object-Untracked tag stag t ok = rw ok (
    by_removal (remove_first stag (t.slots (tracker_hash stag)))
      (remove_first-Removed stag (t.slots (tracker_hash stag))))
  where
    by_removal :
        (o : Option (Entry × List Entry))
        → Removed stag (t.slots (tracker_hash stag)) o
        → Returns (Untracked stag t) (elim o [
          | none ↦ done (t, false)
          | some (e, rest) ↦ done (
            record {
              free = record e { object = 0 } ∷ t.free;
              slots = update t.slots (tracker_hash stag) rest;
            },
            true,
          )
        ])
    by_removal none h = (refl, h)
    by_removal (some (e, rest)) (a, b, c) = (λ j. removed stag j t.slots rest c, omega arith)
