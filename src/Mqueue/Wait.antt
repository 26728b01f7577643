-- ===== src/Mqueue/Wait.antt =====
-- `pgstrom_sync_dequeue_message`: the wait for a message. What other processes do while the lock is
-- released is given from outside: `seen k` is the queue when the lock is held for the k-th time,
-- `pending k` is `pgstrom_clserv_exit_pending` after the k-th wait.
pub mod Timeout
use pg_strom.Prelude.{
  ℕ, zero, suc, ◌+◌, ◌-◌, ◌*◌, ◌/◌, ◌%◌, Bool, true, ◌&&◌, Option, none, some, List, [], ◌∷◌,
  if◌then◌else◌, ◌==◌, ltb, leb,
}

-- A `struct timespec`.
pub record Timespec : Type 0 where
  pub tv_sec : ℕ
  pub tv_nsec : ℕ

abbrev pub pooling_interval : ℕ
pooling_interval = 200000000

abbrev pub nsec : ℕ
nsec = 1000000000

-- The next deadline, `step` nanoseconds after the last one.
abbrev pub advance : ℕ → Timespec → Timespec
advance step t =
    if leb nsec (t.tv_nsec + step)
    then record {
      tv_sec = t.tv_sec + (t.tv_nsec + step) / nsec;
      tv_nsec = (t.tv_nsec + step) % nsec;
    }
    else record { tv_sec = t.tv_sec; tv_nsec = t.tv_nsec + step }

-- What the wait ends with: the message or none, the rounds gone through, the last deadline.
pub record Waited : Type 0 where
  pub message : Option ℕ
  pub rounds : ℕ
  pub deadline : Timespec

-- The loop from round `k` on. A wait may end before its deadline, also without a message: `timeleft` is
-- less by the whole interval all the same, so that rounds count intervals and not time. It is none if the fuel ends first.
pub wait_rounds : ℕ → Bool → (ℕ → Bool) → (ℕ → List ℕ) → ℕ → ℕ → Timespec → Option Waited
wait_rounds zero is_server pending seen k timeleft t = none
wait_rounds (suc fuel) is_server pending seen k timeleft t =
    let step = if ltb pooling_interval timeleft then pooling_interval else timeleft in
    let left = if is_server && pending k then 0 else timeleft - step in
    let rest = wait_rounds fuel is_server pending seen (k + 1) left (advance step t) in
    elim (seen k) [
      | m ∷ _ ↦ some (record { message = some m; rounds = k; deadline = t })
      | [] ↦
          if timeleft == 0 then some (record { message = none; rounds = k; deadline = t }) else rest
    ]

-- `timeout` is `pgstrom_mqueue_timeout`, in milliseconds; `now` is the time of day in microseconds.
unfoldable pub sync_dequeue_message : ℕ → Bool → (ℕ → Bool) → (ℕ → List ℕ) → ℕ → ℕ → Option Waited
unfolding wait_rounds
sync_dequeue_message fuel is_server pending seen timeout now =
    wait_rounds fuel is_server pending seen 0 (timeout * 1000000)
      (record { tv_sec = now / 1000000; tv_nsec = now % 1000000 * 1000 })
