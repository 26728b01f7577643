-- ===== src/Devprog/Build/Wake.antt =====
-- What becomes of the messages that wait for a build.
use pg_strom.Prelude.{
  ℕ, ◌≡◌, refl, Bool, true, false, ◌&&◌, not, ==_iff, Option, none, some, Option-cases, List, [],
  ◌∷◌, ◌++◌, if◌then◌else◌, ◌==◌, has, arith, ==-refl, Bool-cases, inl, inr, ◌∙◌, ap, sym,
}
use mathlib.Core.List.{append_assoc, append-nil}
use pg_strom.Prelude.Int.{pos, lt_int, suc_int}
use pg_strom.Prelude.Run.{Returns, Returns-mono, Returns-bind, ◌>>=◌}
use pg_strom.Mqueue.Store.{Message, Store, serv_mqueue, put_message_at}
use pg_strom.Mqueue.Message.{enqueue_message}
use pg_strom.Mqueue.Message.Enqueue.{Enqueued, enqueue_message-Enqueued}
use pg_strom.Devprog.{bad_program, no_program, program_at, Cache, Freed, release_program, size_add}
use pg_strom.Devprog.Build.{
  BuildStatus, build_success, query_failed, unexpected_status, build_error, not_started,
  check_devices, count_kern_build, wake_all, build_callback, lookup_entry,
}

-- Each of the messages has a holder.
abbrev pub AreHeld : List ℕ → Store → Type 0
AreHeld l s = (m : ℕ) → has m l ≡ true → lt_int (pos 0) ((s.messages m).holders) ≡ true

-- The messages stand behind those of the server queue, in order, and keep their holders.
abbrev pub Woken : List ℕ → Store → Store → Type 0
Woken l s t =
    ((t.queues serv_mqueue).qhead ≡ (s.queues serv_mqueue).qhead ++ l)
    × ((t.queues serv_mqueue).closed ≡ (s.queues serv_mqueue).closed)
    × ((q : ℕ) → (q == serv_mqueue) ≡ false → t.queues q ≡ s.queues q)
    × ((j : ℕ) → (t.messages j).holders ≡ (s.messages j).holders)

holders-count_kern_build : (now : ℕ) (v : Message) → (count_kern_build now v).holders ≡ v.holders
holders-count_kern_build now v = elim (Bool-cases v.perf_enabled) [
  | inl e ↦ rw e refl
  | inr e ↦ rw e refl
]

timed_store-kept :
    (b : Bool) (now m : ℕ) (s : Store)
    → let s1 = if b then put_message_at m (count_kern_build now (s.messages m)) s else s in
      (s1.queues ≡ s.queues) × ((j : ℕ) → (s1.messages j).holders ≡ (s.messages j).holders)
timed_store-kept false now m s = (refl, λ j. refl)
timed_store-kept true now m s = (
  refl,
  λ j. elim (Bool-cases (j == m)) [
    | inl h ↦
        let same : j ≡ m = (==_iff j m).0 h in
        rw (same, ==-refl m) (holders-count_kern_build now (s.messages m))
    | inr h ↦ rw h refl
  ],
)

not_sent :
    (m : ℕ) (s : Store) (j : ℕ)
    → (if (j == m) && not true then suc_int (s.messages j).holders else (s.messages j).holders)
      ≡ (s.messages j).holders
not_sent m s j = elim (Bool-cases (j == m)) [ inl h ↦ rw h refl | inr h ↦ rw h refl ]

Woken-kept :
    (l : List ℕ) (s s1 u : Store)
    → s1.queues ≡ s.queues
    → ((j : ℕ) → (s1.messages j).holders ≡ (s.messages j).holders)
    → Woken l s1 u
    → Woken l s u
Woken-kept l s s1 u queues holders (a, b, c, d) = (
  a ∙ ap (λ f. (f serv_mqueue).qhead ++ l) queues,
  b ∙ ap (λ f. (f serv_mqueue).closed) queues,
  λ q h. c q h ∙ ap (λ f. f q) queues,
  λ j. d j ∙ holders j,
)

Woken-next :
    (m : ℕ) (ms : List ℕ) (s t u : Store)
    → Enqueued true m s (t, true)
    → Woken ms t u
    → Woken (m ∷ ms) s u
Woken-next m ms s t u (is_open, queue, still, others, holders) (queue', still', others', holders') =
    (
      queue' ∙ ap (λ q. q ++ ms) queue ∙ append_assoc ((s.queues serv_mqueue).qhead) (m ∷ []) ms,
      still' ∙ still ∙ sym is_open,
      λ q h. others' q h ∙ others q h,
      λ j. holders' j ∙ holders j ∙ not_sent m s j,
    )

held_later :
    (m : ℕ) (ms : List ℕ) (s t : Store)
    → AreHeld (m ∷ ms) s
    → Enqueued true m s (t, true)
    → AreHeld ms t
held_later m ms s t held e j h = rw (e.4 j ∙ not_sent m s j) (held j (ground (arith, h)))

wake_all-Woken :
    (timed : Bool) (now : ℕ) (l : List ℕ) (s : Store)
    → (s.queues serv_mqueue).closed ≡ false
    → AreHeld l s
    → Returns (Woken l s) (wake_all timed now l s)
unfolding wake_all
wake_all-Woken timed now [] s is_open held = (sym (append-nil _), refl, λ q h. refl, λ j. refl)
wake_all-Woken timed now (m ∷ ms) s is_open held =
    let (queues, holders) = timed_store-kept timed now m s in
    from (λ t. wake_all-Woken timed now ms t)
      (if timed then put_message_at m (count_kern_build now (s.messages m)) s else s) queues holders
  where
    after :
        ((t : Store)
          → (t.queues serv_mqueue).closed ≡ false
          → AreHeld ms t
          → Returns (Woken ms t) (wake_all timed now ms t))
        → (s1 : Store) → s1.queues ≡ s.queues
        → AreHeld (m ∷ ms) s1
        → (a : Store × Bool) → Enqueued true m s1 a
        → Returns (Woken (m ∷ ms) s1) (wake_all timed now ms a.0)
    after later s1 queues held1 (t, false) (is_closed, same) =
        let opened : (s1.queues serv_mqueue).closed ≡ false =
          ap (λ f. (f serv_mqueue).closed) queues ∙ is_open in
        absurd (cc)
    after later s1 queues held1 (t, true) e =
        Returns-mono (wake_all timed now ms t) (later t e.2 (held_later m ms s1 t held1 e))
          (λ u w. Woken-next m ms s1 t u e w)

    from :
        ((t : Store)
          → (t.queues serv_mqueue).closed ≡ false
          → AreHeld ms t
          → Returns (Woken ms t) (wake_all timed now ms t))
        → (s1 : Store) → s1.queues ≡ s.queues
        → ((j : ℕ) → (s1.messages j).holders ≡ (s.messages j).holders)
        → Returns
            (Woken (m ∷ ms) s)
            (enqueue_message true now m s1 >>= λ (t, accepted). wake_all timed now ms t)
    from later s1 queues holders =
        let held1 : AreHeld (m ∷ ms) s1 = λ j h. rw (holders j) (held j h) in
        Returns-mono _
          (Returns-bind (enqueue_message true now m s1) (λ (t, accepted). wake_all timed now ms t)
            (Woken (m ∷ ms) s1)
            (enqueue_message-Enqueued true now m s1 (held1 m (rw (==-refl m) refl)))
            (after later s1 queues held1))
          (λ u w. Woken-kept (m ∷ ms) s s1 u queues holders w)

-- The first device for which the build has not succeeded, if there is one.
abbrev pub first_failure : List BuildStatus → Option BuildStatus
first_failure [] = none
first_failure (build_success ∷ ss) = first_failure ss
first_failure (query_failed ∷ ss) = some query_failed
first_failure (unexpected_status ∷ ss) = some unexpected_status
first_failure (build_error n a ∷ ss) = some (build_error n a)

-- The log of a build error, at its address and with its length; it is lost if nothing was allocated.
abbrev pub kept_log : BuildStatus → Option (ℕ × ℕ)
kept_log (build_error n (some a)) = some (a, n)
kept_log _ = none

abbrev pub with_log : BuildStatus → ℕ → ℕ
with_log (build_error n (some a)) usage = size_add usage n
with_log _ usage = usage

check_devices-first_failure :
    (statuses : List BuildStatus) (usage : ℕ)
    → check_devices statuses usage ≡ elim (first_failure statuses) [
      | none ↦ (true, none, usage)
      | some f ↦ (false, kept_log f, with_log f usage)
    ]
unfolding check_devices
check_devices-first_failure [] usage = refl
check_devices-first_failure (build_success ∷ ss) usage = check_devices-first_failure ss usage
check_devices-first_failure (query_failed ∷ ss) usage = refl
check_devices-first_failure (unexpected_status ∷ ss) usage = refl
check_devices-first_failure (build_error n none ∷ ss) usage = refl
check_devices-first_failure (build_error n (some a) ∷ ss) usage = refl

-- What the callback leaves of the entry `k`, and what it releases.
abbrev pub Ended : ℕ → ℕ → Cache → Option BuildStatus → Cache → List Freed → Type 0
Ended k p c none c' freed =
    ((c'.entries k).program ≡ program_at p)
    × ((c'.entries k).errmsg ≡ (c.entries k).errmsg)
    × (c'.usage ≡ c.usage)
    × (freed ≡ [])
Ended k p c (some f) c' freed =
    ((c'.entries k).program ≡ bad_program)
    × ((c'.entries k).errmsg ≡ kept_log f)
    × (c'.usage ≡ with_log f c.usage)
    × (freed ≡ release_program (program_at p) ∷ [])

-- The callback at the end of a build, for an entry with the program that was built and messages that
-- each have a holder, gives every message that waits for it back to the open server
-- queue, in the order in which they came. None waits after it and no build runs, whether the build
-- has succeeded or not. If it has for every device, the program, the message and the usage are kept;
-- otherwise the program is released and marked as bad, and the first device without success decides:
-- the log of a build error that could be allocated becomes the message and adds to the usage, and
-- otherwise there is no message.
pub build_callback-Woken :
    (statuses : List BuildStatus) (now k p : ℕ) (c : Cache) (s : Store)
    → (c.entries k).program ≡ program_at p
    → (s.queues serv_mqueue).closed ≡ false
    → AreHeld ((c.entries k).waitq) s
    → Returns
        (λ (c', t, freed).
          Woken ((c.entries k).waitq) s t
          × ((c'.entries k).waitq ≡ [])
          × ((c'.entries k).build_running ≡ false)
          × Ended k p c (first_failure statuses) c' freed)
        (build_callback statuses now k p c s)
unfolding build_callback
build_callback-Woken statuses now k p c s e is_open held =
    elim (Option-cases (first_failure statuses)) [
      | inl all_built ↦
          let checked : check_devices statuses c.usage ≡ (true, none, c.usage) =
            check_devices-first_failure statuses c.usage ∙ rw all_built refl in
          rw (all_built, e, ==-refl p, checked, build_callback)
            (Returns-bind (wake_all true now ((c.entries k).waitq) s) _ _
              (wake_all-Woken true now ((c.entries k).waitq) s is_open held)
              (λ t w. rw (==-refl k) (w, refl, refl, (e, refl, refl, refl))))
      | inr (f, failed) ↦
          let checked : check_devices statuses c.usage ≡ (false, kept_log f, with_log f c.usage) =
            check_devices-first_failure statuses c.usage ∙ rw failed refl in
          rw (failed, e, ==-refl p, checked, build_callback)
            (Returns-bind (wake_all false now ((c.entries k).waitq) s) _ _
              (wake_all-Woken false now ((c.entries k).waitq) s is_open held)
              (λ t w. rw (==-refl k) (w, refl, refl, (refl, refl, refl, refl))))
    ]

-- A lookup of an entry that has no program, where the messages each have a holder, and whose build is
-- not started, gives the waiting messages, the one that asks included, back
-- to the open server queue, and marks the program as bad; its own answer is the bad program too.
pub lookup_entry-not_started :
    (p : ℕ) (retained : Bool) (now k m : ℕ) (c : Cache) (s : Store)
    → (c.entries k).program ≡ no_program
    → (s.queues serv_mqueue).closed ≡ false
    → AreHeld ((c.entries k).waitq ++ m ∷ []) s
    → Returns
        (λ (c', t, r, freed).
          (r ≡ bad_program)
          × Woken ((c.entries k).waitq ++ m ∷ []) s t
          × ((c'.entries k).waitq ≡ [])
          × ((c'.entries k).program ≡ bad_program))
        (lookup_entry (some p) not_started retained now k m c s)
unfolding lookup_entry
lookup_entry-not_started p retained now k m c s e is_open held =
    rw (e, ==-refl k, lookup_entry)
      (Returns-bind (wake_all true now ((c.entries k).waitq ++ m ∷ []) s) _ _
        (wake_all-Woken true now ((c.entries k).waitq ++ m ∷ []) s is_open held)
        (λ t w. rw (==-refl k) (refl, w, refl, refl)))
