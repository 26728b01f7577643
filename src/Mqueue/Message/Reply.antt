-- ===== src/Mqueue/Message/Reply.antt =====
-- What `pgstrom_reply_message` does with a message that is waited for.
use pg_strom.Prelude.{
  ℕ, ◌≡◌, refl, true, false, [], ◌∷◌, ◌++◌, ◌==◌, Bool-cases, inl, inr, ==-refl, has, has-append,
  update, subst, ==_iff, arith, sym,
}
use pg_strom.Prelude.Int.{pos, lt_int, pred_int}
use pg_strom.Prelude.Run.{Run, Returns}
use pg_strom.Mqueue.Store.{Queue, Store, serv_mqueue}
use pg_strom.Mqueue.Message.{reply_message}

-- A message that can be replied to: its response queue is an open queue of a backend, and not the
-- server is the only one that holds it.
abbrev pub IsWaitedFor : Store → ℕ → Type 0
IsWaitedFor s m =
    (((s.messages m).respq == serv_mqueue) ≡ false)
    × ((s.queues (s.messages m).respq).closed ≡ false)
    × (lt_int (pos 1) ((s.messages m).holders) ≡ true)

pub closed-update :
    (f : ℕ → Queue) (r : ℕ) (v : Queue) (q : ℕ)
    → v.closed ≡ (f r).closed
    → (update f r v q).closed ≡ (f q).closed
closed-update f r v q h = elim (Bool-cases (q == r)) [
  | inl e ↦ let same : q ≡ r = (==_iff q r).0 e in rw (same, ==-refl r) h
  | inr e ↦ rw e refl
]

has-update :
    (f : ℕ → Queue) (r m : ℕ) (v : Queue) (q j : ℕ)
    → v.qhead ≡ (f r).qhead ++ m ∷ []
    → has j (f q).qhead ≡ true
    → has j (update f r v q).qhead ≡ true
has-update f r m v q j h e = elim (Bool-cases (q == r)) [
  | inl d ↦
      let same : q ≡ r = (==_iff q r).0 d in
      let there : has j (f r).qhead ≡ true = subst (λ i. has j (f i).qhead ≡ true) same e in
      rw (same, ==-refl r, h, has-append j (f r).qhead (m ∷ []), there) refl
  | inr d ↦ rw (d, e) refl
]

-- What a reply leaves: the message behind those of its response queue, with a holder less.
abbrev pub Replied : ℕ → Store → Store → Type 0
Replied m s t =
    ((t.queues serv_mqueue) ≡ (s.queues serv_mqueue))
    × ((q : ℕ) → (t.queues q).closed ≡ (s.queues q).closed)
    × ((q j : ℕ) → has j (s.queues q).qhead ≡ true → has j (t.queues q).qhead ≡ true)
    × ((j : ℕ) → (j == m) ≡ false → t.messages j ≡ s.messages j)
    × ((t.messages m).errcode ≡ (s.messages m).errcode)
    × ((t.messages m).holders ≡ pred_int (s.messages m).holders)
    × (has m (t.queues (s.messages m).respq).qhead ≡ true)

-- A reply by the server to a message that has more than one holder and whose response queue is an open
-- queue of a backend, whatever the release handler is, puts the message into that queue and takes
-- one holder; its error code, every other message, the server queue and the closed flags stay, and
-- no queue loses a message.
pub reply_message-Replied :
    (release : ℕ → Store → Run Store) (now m : ℕ) (s : Store)
    → IsWaitedFor s m
    → Returns (Replied m s) (reply_message release true now m s)
unfolding reply_message
reply_message-Replied release now m s (other, is_open, held) =
    let other' : (serv_mqueue == (s.messages m).respq) ≡ false = ground arith in
    elim (Bool-cases (s.messages m).perf_enabled) [
      | inl p ↦
          rw (p, other, is_open, held, reply_message)
            (
              rw other' refl,
              λ q. closed-update s.queues _ _ q (sym is_open),
              λ q j h. has-update s.queues _ m _ q j refl h,
              λ j h. rw h refl,
              rw (==-refl m) refl,
              rw (==-refl m) refl,
              rw
                  (
                    ==-refl (s.messages m).respq,
                    has-append m (s.queues (s.messages m).respq).qhead (m ∷ []),
                  )
                  (ground arith),
            )
      | inr p ↦
          rw (p, other, is_open, held, reply_message)
            (
              rw other' refl,
              λ q. closed-update s.queues _ _ q (sym is_open),
              λ q j h. has-update s.queues _ m _ q j refl h,
              λ j h. rw h refl,
              rw (==-refl m) refl,
              rw (==-refl m) refl,
              rw
                  (
                    ==-refl (s.messages m).respq,
                    has-append m (s.queues (s.messages m).respq).qhead (m ∷ []),
                  )
                  (ground arith),
            )
    ]
