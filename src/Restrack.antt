-- ===== src/Restrack.antt =====
-- The resource tracker of restrack.c: the shared objects that a backend has acquired, in a table
-- hashed by address, with what an aborted transaction does to them. An object is its address, and
-- its tag is what the address holds. The calls into other parts that release an object are events
-- in the order in which they are made.
pub mod Table
pub mod Abort
use pg_strom.Prelude.{
  ℕ, zero, suc, ◌+◌, ◌/◌, ◌%◌, Bool, true, false, not, ◌||◌, Option, none, some, List, [], ◌∷◌,
  ◌++◌, ◌==◌, if◌then◌else◌, update,
}
use pg_strom.Prelude.Run.{Run, done, fault, check, ◌>>=◌, ◌>>◌}

-- `StromTag` of pg_strom.h.
pub data Tag : Type 0 where
  dev_program msg_queue param_buf row_store column_store tcache_head tcache_row_store
        tcache_column_store toast_buf gpu_scan gpu_sort hash_join test_message :
      Tag

abbrev pub is_trackable : Tag → Bool
is_trackable msg_queue = true
is_trackable dev_program = true
is_trackable gpu_scan = true
is_trackable gpu_sort = true
is_trackable hash_join = true
is_trackable test_message = true
is_trackable _ = false

-- `object` is 0 where the entry has none.
pub record Entry : Type 0 where
  pub owner : ℕ
  pub object : ℕ

pub record Tracker : Type 0 where
  pub free : List Entry
  pub slots : ℕ → List Entry

pub data Release : Type 0 where
  close_queue put_devprog_key put_message : ℕ → Release

abbrev pub restrack_hashsz : ℕ
restrack_hashsz = 1051

-- The form for 8-byte pointers.
abbrev pub tracker_hash : ℕ → ℕ
tracker_hash msg = msg / 8 % restrack_hashsz

-- `allocated` says whether `MemoryContextAlloc` gives an entry when the free list has none. If it
-- raises an error, the object is released and the error goes on: the last part is then true.
unfoldable pub track_object : Bool → Tag → ℕ → ℕ → Tracker → Run (Tracker × List Release × Bool)
track_object allocated tag stag owner t =
    let entry : Entry = record { owner = owner; object = stag } in
    let i = tracker_hash stag in
    let slots' = update t.slots i (entry ∷ t.slots i) in
    check (is_trackable tag) >> elim t.free [
      | _ ∷ rest ↦ done (record { free = rest; slots = slots' }, [], false)
      | [] ↦
          if allocated
          then done (record { free = []; slots = slots' }, [], false)
          else done
              (t, elim tag [ msg_queue ↦ close_queue stag ∷ [] | _ ↦ put_message stag ∷ [] ], true)
    ]

-- The first entry of an object goes out of a list.
pub remove_first : ℕ → List Entry → Option (Entry × List Entry)
remove_first stag [] = none
remove_first stag (e ∷ es) =
    if e.object == stag
    then some (e, es)
    else elim (remove_first stag es) [ none ↦ none | some (f, rest) ↦ some (f, e ∷ rest) ]

-- The last part is true if the object was tracked; otherwise the call logs that it was not.
unfoldable pub untrack_object : Tag → ℕ → Tracker → Run (Tracker × Bool)
unfolding remove_first
untrack_object tag stag t =
    let i = tracker_hash stag in
    check (is_trackable tag) >> elim (remove_first stag (t.slots i)) [
      | none ↦ done (t, false)
      | some (e, rest) ↦
          done (
            record { free = record e { object = 0 } ∷ t.free; slots = update t.slots i rest },
            true,
          )
    ]

pub has_object : ℕ → List Entry → Bool
has_object stag [] = false
has_object stag (e ∷ es) = e.object == stag || has_object stag es

unfoldable pub object_is_tracked : Tag → ℕ → Tracker → Run Bool
unfolding has_object
object_is_tracked tag stag t =
    check (is_trackable tag) >> done (has_object stag (t.slots (tracker_hash stag)))

-- How an object is released on abort, by its tag.
abbrev pub release_of : Tag → ℕ → Run Release
release_of msg_queue o = done (close_queue o)
release_of dev_program o = done (put_devprog_key o)
release_of tag o = check (is_trackable tag) >> done (put_message o)

-- One slot on abort: the entries that stay, the free list and the releases.
pub abort_list :
    (ℕ → Tag) → ℕ → List Entry → List Entry → Run (List Entry × List Entry × List Release)
abort_list tags owner [] free = done ([], free, [])
abort_list tags owner (e ∷ es) free =
    let skip = abort_list tags owner es free >>= λ (kept, free', rs). done (e ∷ kept, free', rs) in
    let take = release_of (tags e.object) e.object >>= λ r.
    abort_list tags owner es (e ∷ free) >>= λ (kept, free', rs). done (kept, free', r ∷ rs) in
    if e.owner == owner then take else skip

-- The slots from `i` on, `n` of them.
pub abort_slots : (ℕ → Tag) → ℕ → ℕ → ℕ → Tracker → Run (Tracker × List Release)
abort_slots tags owner zero i t = done (t, [])
abort_slots tags owner (suc n) i t =
    abort_list tags owner (t.slots i) t.free >>= λ (kept, free', rs).
    abort_slots tags owner n (i + 1) (record { free = free'; slots = update t.slots i kept })
    >>= λ (t', rs'). done (t', rs ++ rs')

-- `after_locks` is `phase == RESOURCE_RELEASE_AFTER_LOCKS`. On commit only a debugging build looks
-- at the table, and it changes nothing.
unfoldable pub restrack_callback :
    Bool → Bool → (ℕ → Tag) → ℕ → Tracker → Run (Tracker × List Release)
unfolding abort_slots abort_list
restrack_callback after_locks is_commit tags owner t =
    if not after_locks
    then done (t, [])
    else if is_commit
    then done (t, [])
    else abort_slots tags owner restrack_hashsz 0 t

unfoldable pub init_restrack : Tracker
init_restrack = record { free = []; slots = λ i. [] }
