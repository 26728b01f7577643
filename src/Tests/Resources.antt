-- ===== src/Tests/Resources.antt =====
-- The resource tracker on a table with two entries.
use pg_strom.Prelude.{
  ℕ, refl, true, false, List, [], ◌∷◌, ◌==◌, if◌then◌else◌, Bool-cases, inl, inr,
}
use pg_strom.Prelude.Run.{Returns}
use pg_strom.Restrack.{Tag, msg_queue, gpu_scan, Entry, Tracker, restrack_hashsz, restrack_callback}
use pg_strom.Restrack.Abort.{AllTrackable, Swept, restrack_callback-Swept}

-- The objects at 40 and at 8448 share slot 5.
abbrev slots : ℕ → List Entry
slots i =
    if i == 5
    then record { owner = 7; object = 40 } ∷ record { owner = 9; object = 8448 } ∷ []
    else []

abbrev table : Tracker
table = record { free = []; slots = slots }

abbrev kinds : ℕ → Tag
kinds o = if o == 40 then msg_queue else gpu_scan

slots-AllTrackable : (j : ℕ) → AllTrackable kinds (slots j)
slots-AllTrackable j = elim (Bool-cases (j == 5)) [
  | inl e ↦ rw e (refl, (refl, tt))
  | inr e ↦ rw e tt
]

restrack_callback-Swept_example :
    Returns
      (λ (t', rs). Swept kinds 7 restrack_hashsz 0 table t' rs)
      (restrack_callback true false kinds 7 table)
restrack_callback-Swept_example = restrack_callback-Swept kinds 7 table slots-AllTrackable
