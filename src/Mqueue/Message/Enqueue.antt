-- ===== src/Mqueue/Message/Enqueue.antt =====
-- What `pgstrom_enqueue_message` does to the queues and to the reference counters.
use pg_strom.Prelude.{
  ℕ, ◌≡◌, refl, Bool, true, false, not, ◌&&◌, [], ◌∷◌, ◌++◌, if◌then◌else◌, ◌==◌, Bool-cases, inl,
  inr, ==-refl, ==_iff, update,
}
use pg_strom.Prelude.Int.{pos, suc_int, lt_int}
use pg_strom.Prelude.Run.{Returns}
use pg_strom.Mqueue.Store.{Message, Store, serv_mqueue, stamped}
use pg_strom.Mqueue.Message.{enqueue_message}

-- What an enqueueing leaves: with true, the message at the end of the server queue, with one holder
-- more if a backend has sent it, and nothing else that changes a queue or a holder; with false, the
-- old state, because the queue is closed.
abbrev pub Enqueued : Bool → ℕ → Store → Store × Bool → Type 0
Enqueued is_server m s (t, true) =
    ((s.queues serv_mqueue).closed ≡ false)
    × ((t.queues serv_mqueue).qhead ≡ (s.queues serv_mqueue).qhead ++ m ∷ [])
    × ((t.queues serv_mqueue).closed ≡ false)
    × ((q : ℕ) → (q == serv_mqueue) ≡ false → t.queues q ≡ s.queues q)
    × ((j : ℕ)
        → (t.messages j).holders ≡ (
            if (j == m) && not is_server
            then suc_int (s.messages j).holders
            else (s.messages j).holders))
Enqueued is_server m s (t, false) = ((s.queues serv_mqueue).closed ≡ true) × (t ≡ s)

holders-stamped : (now : ℕ) (v : Message) → (stamped now v).holders ≡ v.holders
holders-stamped now v = elim (Bool-cases v.perf_enabled) [ inl e ↦ rw e refl | inr e ↦ rw e refl ]

holders-update :
    (is_server : Bool) (now m : ℕ) (f : ℕ → Message) (j : ℕ)
    → (update f m
        (if is_server
          then stamped now (f m)
          else record (stamped now (f m)) { holders = suc_int (f m).holders })
        j).holders
      ≡ (if (j == m) && not is_server then suc_int (f j).holders else (f j).holders)
holders-update is_server now m f j = elim (Bool-cases (j == m)) [
  | inl h ↦ let same : j ≡ m = (==_iff j m).0 h in rw (same, ==-refl m) (at_message is_server)
  | inr h ↦ rw h refl
]
  where
    at_message :
        (b : Bool)
        → (if b
            then stamped now (f m)
            else record (stamped now (f m)) { holders = suc_int (f m).holders }).holders
          ≡ (if not b then suc_int (f m).holders else (f m).holders)
    at_message true = holders-stamped now (f m)
    at_message false = refl

-- A message that has a holder goes to the end of the server queue, and a backend's message has one
-- holder more; or the server queue is closed, and nothing changes.
pub enqueue_message-Enqueued :
    (is_server : Bool) (now m : ℕ) (s : Store)
    → lt_int (pos 0) ((s.messages m).holders) ≡ true
    → Returns (Enqueued is_server m s) (enqueue_message is_server now m s)
unfolding enqueue_message
enqueue_message-Enqueued is_server now m s held =
    elim (Bool-cases ((s.queues serv_mqueue).closed)) [
      | inl e ↦ rw e (e, refl)
      | inr e ↦
          rw (e, holders-stamped now (s.messages m), held)
            (e, refl, refl, λ q h. rw h refl, holders-update is_server now m s.messages)
    ]
