-- ===== src/Mqueue/Wait/Timeout.antt =====
-- The rounds and the deadlines of the wait for a message.
use pg_strom.Prelude.{
  ℕ, zero, suc, ◌+◌, ◌-◌, ◌*◌, ◌/◌, ◌%◌, ◌≤◌, ◌<◌, ◌≡◌, refl, Bool, false, ◌&&◌, Option, none, some,
  List, [], ◌∷◌, if◌then◌else◌, ◌==◌, ltb, leb, arith, Bool-cases, List-cases, inl, inr,
}
use pg_strom.Mqueue.Wait.{
  Timespec, pooling_interval, nsec, advance, Waited, wait_rounds, sync_dequeue_message,
}

abbrev pub first_of : List ℕ → Option ℕ
first_of [] = none
first_of (m ∷ ms) = some m

-- A time in nanoseconds.
abbrev pub nanos : Timespec → ℕ
nanos t = t.tv_sec * nsec + t.tv_nsec

-- What a wait from round `k` on ends with, `timeleft` nanoseconds after `t` at the latest: the
-- first message of the first round in which there is one; none only when the time is over.
abbrev pub InTime : Bool → (ℕ → List ℕ) → ℕ → ℕ → Timespec → Option Waited → Type 0
InTime is_server seen k timeleft t none = ⊥
InTime is_server seen k timeleft t (some w) =
    (k ≤ w.rounds)
    × ((w.rounds - k) * pooling_interval < timeleft + pooling_interval)
    × ((j : ℕ) → k ≤ j → j < w.rounds → seen j ≡ [])
    × (w.message ≡ first_of (seen w.rounds))
    × (nanos w.deadline ≤ nanos t + timeleft)
    × (w.message ≡ none → is_server ≡ false → nanos w.deadline ≡ nanos t + timeleft)

nanos-advance : (step : ℕ) (t : Timespec) → nanos (advance step t) ≡ nanos t + step
nanos-advance step t = elim (Bool-cases (leb nsec (t.tv_nsec + step))) [
  | inl e ↦ rw e (omega arith)
  | inr e ↦ rw e (omega arith)
]

InTime-next :
    (is_server exit : Bool) (seen : ℕ → List ℕ) (k timeleft : ℕ) (t : Timespec) (o : Option Waited)
    → seen k ≡ []
    → 0 < timeleft
    → let step = if ltb pooling_interval timeleft then pooling_interval else timeleft in
      InTime is_server seen
        (k + 1)
        (if is_server && exit then 0 else timeleft - step)
        (advance step t)
        o
      → InTime is_server seen k timeleft t o
InTime-next is_server exit seen k timeleft t none empty more h = h
InTime-next is_server exit seen k timeleft t (some w) empty more (a, b, c, d, e, f) = (
  omega arith,
  ground arith,
  λ j low high. elim (Bool-cases (j == k)) [
    | inl z ↦ let same : j ≡ k = ground arith in rw same empty
    | inr z ↦ c j (ground arith) high
  ],
  d,
  ground (
    arith,
    nanos-advance (if ltb pooling_interval timeleft then pooling_interval else timeleft) t,
  ),
  λ nothing backend. ground (
    arith,
    f nothing backend,
    nanos-advance (if ltb pooling_interval timeleft then pooling_interval else timeleft) t,
  ),
)

wait_rounds-InTime :
    (fuel : ℕ) (is_server : Bool) (pending : ℕ → Bool) (seen : ℕ → List ℕ) (k timeleft : ℕ)
    (t : Timespec)
    → timeleft + pooling_interval ≤ fuel * pooling_interval
    → InTime is_server seen k timeleft t (wait_rounds fuel is_server pending seen k timeleft t)
unfolding wait_rounds
wait_rounds-InTime zero is_server pending seen k timeleft t enough = absurd (omega arith)
wait_rounds-InTime (suc fuel) is_server pending seen k timeleft t enough =
    elim (List-cases (seen k)) [
      | inl e ↦ elim (Bool-cases (timeleft == 0)) [
        | inl z ↦
            rw (e, z, wait_rounds)
              (
                omega arith,
                omega arith,
                λ j low high. absurd (omega arith),
                rw e refl,
                omega arith,
                λ _ _. ground arith,
              )
        | inr z ↦
            rw (e, z, wait_rounds)
              (InTime-next is_server (pending k) seen k timeleft t _ e (ground arith)
                (wait_rounds-InTime fuel is_server pending seen (k + 1) _ _ (ground arith)))
      ]
      | inr (m, ms, e) ↦
          rw (e, wait_rounds)
            (
              omega arith,
              omega arith,
              λ j low high. absurd (omega arith),
              rw e refl,
              omega arith,
              λ n _. ground arith,
            )
    ]

-- With fuel for every 200 milliseconds of the timeout, and one round more, the wait ends with an
-- answer: the first message of the first round in which the queue has one, and none only if no
-- round had one. It goes through as many rounds as the timeout has intervals at most, and one more. The
-- last deadline is not later than the timeout, and for a backend that gets none it is the timeout; a
-- wait may end before its deadline.
pub sync_dequeue_message-InTime :
    (fuel : ℕ) (is_server : Bool) (pending : ℕ → Bool) (seen : ℕ → List ℕ) (timeout now : ℕ)
    → timeout + 200 ≤ fuel * 200
    → InTime is_server seen 0
        (timeout * 1000000)
        (record { tv_sec = now / 1000000; tv_nsec = now % 1000000 * 1000 })
        (sync_dequeue_message fuel is_server pending seen timeout now)
unfolding sync_dequeue_message
sync_dequeue_message-InTime fuel is_server pending seen timeout now enough =
    wait_rounds-InTime fuel is_server pending seen 0 _ _ (omega arith)
