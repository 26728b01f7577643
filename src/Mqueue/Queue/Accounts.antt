-- ===== src/Mqueue/Queue/Accounts.antt =====
-- The free queues and their count.
use pg_strom.Prelude.{
  ℕ, zero, suc, ◌+◌, ◌*◌, ◌%◌, ◌<◌, ◌≡◌, refl, ap, true, false, List, [], ◌∷◌, ◌++◌, if◌then◌else◌,
  ◌==◌, lt→ltb, arith, length, length-append, Bool-cases, List-cases, inl, inr, update, ==-refl,
}
use pg_strom.Prelude.Int.{pos, eq_int, pred_int}
use pg_strom.Prelude.Run.{done, Returns}
use pg_strom.Mqueue.Store.{mqueues_per_block, Store, serv_mqueue, uint_mod, uint_add, uint_pred}
use pg_strom.Mqueue.Queue.{
  NewBlock, no_memory, failed_block, ready_block, CreateResult, out_of_memory, init_failed, created,
  init_queues, take_queue, create_queue, close_queue, put_queue,
}

-- `num_free` counts the free queues.
abbrev pub IsBalanced : Store → Type 0
IsBalanced s = s.num_free ≡ length s.free_queue_list % uint_mod

-- What `pgstrom_create_queue` leaves: an open, empty queue of the caller with one reference, which
-- is no longer among the free ones, and is counted as active; or, after a failure, the old state.
abbrev pub Created : ℕ → Store → Store × CreateResult → Type 0
Created pid s (t, created q) =
    (t.queues q
      ≡ record { owner = pos pid; refcnt = pos 1; qhead = []; closed = false; linked = false })
    × IsBalanced t
    × (t.num_active ≡ uint_add s.num_active 1)
Created pid s (t, _) = t ≡ s

take_queue-Created :
    (pid : ℕ) (base s : Store)
    → 0 < length s.free_queue_list
    → length s.free_queue_list < uint_mod
    → IsBalanced s
    → s.num_active ≡ base.num_active
    → Returns (Created pid base) (take_queue pid s)
unfolding take_queue
take_queue-Created pid base s some_free small balanced e = elim (List-cases s.free_queue_list) [
  | inl h ↦ absurd (ground arith)
  | inr (q, qs, h) ↦
      let counted : length s.free_queue_list ≡ suc (length qs) = ap length h in
      let some : 0 < s.num_free = omega arith in
      rw h (rw (lt→ltb 0 s.num_free some) (rw (==-refl q) (refl, omega arith, rw e refl)))
]

length-init_queues :
    (start size i n : ℕ) (s : Store)
    → (length (init_queues start size i n s).free_queue_list ≡ length s.free_queue_list + n)
      × ((init_queues start size i n s).num_free ≡ s.num_free)
      × ((init_queues start size i n s).num_active ≡ s.num_active)
unfolding init_queues
length-init_queues start size i zero s = (omega arith, refl, refl)
length-init_queues start size i (suc n) s =
    let (a, b, c) = length-init_queues start size (i + 1) n (record s {
      queues =
          update s.queues (start + i * size)
            (record (s.queues (start + i * size)) { linked = true });
      free_queue_list = s.free_queue_list ++ (start + i * size) ∷ [];
    }) in
    (omega (arith, a, length-append s.free_queue_list ((start + i * size) ∷ [])), b, c)

-- Where a block holds a queue, fewer than 2 ^ 32 queues are free even with a new block, and the
-- count of the free queues is right: a backend that creates a queue gets one, taken from the free queues, or from a new block if none
-- is free; or the creation fails, because there is no memory or the block cannot be initialized,
-- and the state is as it was. The count of the free queues stays right.
pub create_queue-Created :
    (size pid : ℕ) (block : NewBlock) (s : Store)
    → 0 < mqueues_per_block size
    → length s.free_queue_list + mqueues_per_block size < uint_mod
    → IsBalanced s
    → Returns (Created pid s) (create_queue size false pid block s)
unfolding create_queue
create_queue-Created size pid block s many small balanced = by_free s.free_queue_list refl block
  where
    by_free :
        (l : List ℕ)
        → s.free_queue_list ≡ l
        → (block : NewBlock)
        → Returns (Created pid s) (elim l [
          | _ ∷ _ ↦ take_queue pid s
          | [] ↦ elim block [
            | no_memory ↦ done (s, out_of_memory)
            | failed_block b ↦ done (s, init_failed)
            | ready_block b ↦
                let s1 = record s { blocks_list = s.blocks_list ++ b ∷ [] } in
                let s2 = init_queues (b + 16) size 0 (mqueues_per_block size) s1 in
                take_queue pid
                  (record s2 { num_free = uint_add s2.num_free (mqueues_per_block size) })
          ]
        ])
    by_free (q ∷ qs) h block =
        let some : length s.free_queue_list ≡ suc (length qs) = ap length h in
        take_queue-Created pid s s (omega arith) (omega arith) balanced refl
    by_free [] h no_memory = refl
    by_free [] h (failed_block b) = refl
    by_free [] h (ready_block b) =
        let s1 = record s { blocks_list = s.blocks_list ++ b ∷ [] } in
        let (len, free, active) = length-init_queues (b + 16) size 0 (mqueues_per_block size) s1 in
        let empty : length s.free_queue_list ≡ 0 = ap length h in
        take_queue-Created pid s
          (record (init_queues (b + 16) size 0 (mqueues_per_block size) s1) {
            num_free =
                uint_add (init_queues (b + 16) size 0 (mqueues_per_block size) s1).num_free
                  (mqueues_per_block size);
          })
          (omega arith) (omega arith) (rw free (omega arith)) active

-- What `pgstrom_close_queue` leaves of a queue that is no server's: it is closed, with one
-- reference less; if that was the last one, it is free, and the counters say so.
abbrev pub Closed : ℕ → Store → Store → Type 0
Closed q s t =
    ((t.queues q).closed ≡ true)
    × ((t.queues q).refcnt ≡ pred_int (s.queues q).refcnt)
    × ((t.queues q).linked
        ≡ (if eq_int (pred_int (s.queues q).refcnt) (pos 0) then true else (s.queues q).linked))
    × (t.free_queue_list ≡ (
        if eq_int (pred_int (s.queues q).refcnt) (pos 0)
        then s.free_queue_list ++ q ∷ []
        else s.free_queue_list))
    × (t.num_active ≡ (
        if eq_int (pred_int (s.queues q).refcnt) (pos 0)
        then uint_pred s.num_active
        else s.num_active))
    × ((j : ℕ) → (j == q) ≡ false → t.queues j ≡ s.queues j)
    × IsBalanced t

-- Where the count of the free queues is right, closing an open queue of a backend closes it and
-- takes one reference; with the last one the queue joins the end of the free queues and one queue
-- less is active; otherwise neither changes. No other queue changes. The count of the free queues
-- stays right.
pub close_queue-Closed :
    (q : ℕ) (s : Store)
    → (s.queues q).closed ≡ false
    → (q == serv_mqueue) ≡ false
    → IsBalanced s
    → Returns (Closed q s) (close_queue q s)
unfolding close_queue
close_queue-Closed q s is_open client balanced =
    elim (Bool-cases (eq_int (pred_int (s.queues q).refcnt) (pos 0))) [
      | inl e ↦
          rw (is_open, client, e, ==-refl q)
            (rw (e, ==-refl q)
              (
                refl,
                refl,
                refl,
                refl,
                refl,
                λ j h. rw h refl,
                omega (arith, length-append s.free_queue_list (q ∷ [])),
              ))
      | inr e ↦
          rw (is_open, client, e, ==-refl q)
            (rw (e, ==-refl q) (refl, refl, refl, refl, refl, λ j h. rw h refl, balanced))
    ]

-- The last reference to a closed queue, put by `pgstrom_put_queue`, makes the queue free, but
-- neither `num_free` nor `num_active` changes.
pub put_queue-unbalanced :
    (q : ℕ) (s : Store)
    → (s.queues q).closed ≡ true
    → (s.queues q).refcnt ≡ pos 1
    → Returns
        (λ t.
          (t.num_free ≡ s.num_free)
          × (t.num_active ≡ s.num_active)
          × (t.free_queue_list ≡ s.free_queue_list ++ q ∷ []))
        (put_queue q s)
unfolding put_queue
put_queue-unbalanced q s is_closed last = rw (is_closed, last) (refl, refl, refl)
