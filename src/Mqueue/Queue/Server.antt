-- ===== src/Mqueue/Queue/Server.antt =====
-- What becomes of the messages in the server queue when it is closed.
use pg_strom.Prelude.{
  ℕ, zero, suc, ◌<◌, ◌≡◌, refl, Bool, true, false, List, [], ◌∷◌, ◌==◌, none, some, Bool-cases, inl,
  inr, ==-refl, has, is_nodup, subst, ==_iff, length, arith, ap, ◌∙◌,
}
use pg_strom.Prelude.Int.{pos, eq_int, pred_int}
use pg_strom.Prelude.Run.{Run, done, Returns, Returns-mono, Returns-bind}
use pg_strom.Device.Error.{server_not_ready}
use pg_strom.Mqueue.Store.{Queue, Store, serv_mqueue, put_message_at, put_queue_at}
use pg_strom.Mqueue.Message.Reply.{IsWaitedFor, closed-update, Replied, reply_message-Replied}
use pg_strom.Mqueue.Message.{reply_message, try_dequeue_message}
use pg_strom.Mqueue.Queue.{dropped, close_queue, reply_all, close_server_queue}

-- The state when a message has been taken from the server queue and has its error code.
abbrev taken : ℕ → List ℕ → Store → Store
taken m ms s =
    let s' = put_queue_at serv_mqueue (record (s.queues serv_mqueue) { qhead = ms }) s in
    put_message_at m (record (s'.messages m) { errcode = server_not_ready }) s'

taken-closed :
    (m : ℕ) (ms : List ℕ) (s : Store) (q : ℕ)
    → ((taken m ms s).queues q).closed ≡ (s.queues q).closed
taken-closed m ms s q = closed-update s.queues serv_mqueue _ q refl

taken-messages :
    (m : ℕ) (ms : List ℕ) (s : Store) (j : ℕ)
    → (j == m) ≡ false
    → (taken m ms s).messages j ≡ s.messages j
taken-messages m ms s j h = rw h refl

taken-IsWaitedFor :
    (m : ℕ) (ms : List ℕ) (s : Store) → IsWaitedFor s m → IsWaitedFor (taken m ms s) m
taken-IsWaitedFor m ms s (a, b, c) =
    rw (==-refl m) (a, closed-update s.queues serv_mqueue _ _ refl ∙ b, c)

-- What the server queue leaves when its messages `l` have been replied to: it is empty; each of them
-- stands in its response queue, with the error code and a holder less; no other message changes.
abbrev pub Answered : List ℕ → Store → Store × Bool → Type 0
Answered l s (t, finished) =
    (finished ≡ true)
    × ((t.queues serv_mqueue).qhead ≡ [])
    × ((q : ℕ) → (t.queues q).closed ≡ (s.queues q).closed)
    × ((q j : ℕ)
        → (q == serv_mqueue) ≡ false
        → has j (s.queues q).qhead ≡ true
        → has j (t.queues q).qhead ≡ true)
    × ((j : ℕ) → has j l ≡ false → t.messages j ≡ s.messages j)
    × ((j : ℕ)
        → has j l ≡ true
        → ((t.messages j).errcode ≡ server_not_ready)
          × ((t.messages j).holders ≡ pred_int (s.messages j).holders)
          × (has j (t.queues (s.messages j).respq).qhead ≡ true))

module _ (m : ℕ) (ms : List ℕ) (s t : Store) (once : has m ms ≡ false) (waited : IsWaitedFor s m)
    (replied : Replied m (taken m ms s) t) where
  later-same : (j : ℕ) → (j == m) ≡ false → t.messages j ≡ s.messages j
  later-same j h = replied.3 j h ∙ taken-messages m ms s j h

  later-closed : (q : ℕ) → (t.queues q).closed ≡ (s.queues q).closed
  later-closed q = replied.1 q ∙ taken-closed m ms s q

  not_first : (j : ℕ) → has j ms ≡ true → (j == m) ≡ false
  not_first j h = elim (Bool-cases (j == m)) [
    | inr e ↦ e
    | inl e ↦
        let same : j ≡ m = (==_iff j m).0 e in
        absurd (ground (arith, h, once, ap (λ i. has i ms) same))
  ]

  later-IsWaitedFor : (j : ℕ) → has j ms ≡ true → IsWaitedFor s j → IsWaitedFor t j
  later-IsWaitedFor j h (a, b, c) =
      let same : t.messages j ≡ s.messages j = later-same j (not_first j h) in
      rw same (a, later-closed ((s.messages j).respq) ∙ b, c)

  first-Answered :
      (u : Store) (finished : Bool)
      → Answered ms t (u, finished)
      → ((u.messages m).errcode ≡ server_not_ready)
        × ((u.messages m).holders ≡ pred_int (s.messages m).holders)
        × (has m (u.queues (s.messages m).respq).qhead ≡ true)
  first-Answered u finished a =
      let err : ((taken m ms s).messages m).errcode ≡ server_not_ready = rw (==-refl m) refl in
      let hold : ((taken m ms s).messages m).holders ≡ (s.messages m).holders =
        rw (==-refl m) refl in
      let resp : ((taken m ms s).messages m).respq ≡ (s.messages m).respq = rw (==-refl m) refl in
      (
        ap (λ v. v.errcode) (a.4 m once) ∙ replied.4 ∙ err,
        ap (λ v. v.holders) (a.4 m once) ∙ replied.5 ∙ ap pred_int hold,
        a.3 (s.messages m).respq m waited.0
            (subst (λ q. has m (t.queues q).qhead ≡ true) resp replied.6),
      )

  Answered-cons :
      (u : Store) (finished : Bool)
      → Answered ms t (u, finished)
      → Answered (m ∷ ms) s (u, finished)
  Answered-cons u finished a = (
    a.0,
    a.1,
    λ q. a.2 q ∙ later-closed q,
    λ q j h e. a.3 q j h (replied.2 q j (rw h e)),
    λ j h. a.4 j (ground (arith, h)) ∙ later-same j (ground (arith, h)),
    λ j h. elim (Bool-cases (j == m)) [
      | inl e ↦
          let same : m ≡ j = ground arith in
          subst
            (λ i.
              ((u.messages i).errcode ≡ server_not_ready)
              × ((u.messages i).holders ≡ pred_int (s.messages i).holders)
              × (has i (u.queues (s.messages i).respq).qhead ≡ true))
            same (first-Answered u finished a)
      | inr e ↦ rw⁻¹ (later-same j e) (a.5 j (rw e at h))
    ],
  )

abbrev pub AreWaitedFor : Store → List ℕ → Type 0
AreWaitedFor s l = (j : ℕ) → has j l ≡ true → IsWaitedFor s j

try_dequeue_message-nil :
    (q : ℕ) (s : Store) → (s.queues q).qhead ≡ [] → try_dequeue_message q s ≡ (s, none)
unfolding try_dequeue_message
try_dequeue_message-nil q s h = rw (h, try_dequeue_message) refl

try_dequeue_message-cons :
    (q m : ℕ) (ms : List ℕ) (s : Store)
    → (s.queues q).qhead ≡ m ∷ ms
    → try_dequeue_message q s ≡ (put_queue_at q (record (s.queues q) { qhead = ms }) s, some m)
unfolding try_dequeue_message
try_dequeue_message-cons q m ms s h = rw (h, try_dequeue_message) refl

reply_all-Answered :
    (release : ℕ → Store → Run Store) (now fuel : ℕ) (l : List ℕ) (s : Store)
    → length l < fuel
    → (s.queues serv_mqueue).qhead ≡ l
    → is_nodup l ≡ true
    → AreWaitedFor s l
    → Returns (Answered l s) (reply_all release now fuel s)
unfolding reply_all
reply_all-Answered release now zero l s enough e once waited = absurd (omega arith)
reply_all-Answered release now (suc fuel) [] s enough e once waited =
    rw (try_dequeue_message-nil serv_mqueue s e, reply_all)
      (rw (try_dequeue_message-nil serv_mqueue s e)
        (refl, e, λ q. refl, λ q j h i. i, λ j h. refl, λ j h. absurd (ground arith)))
reply_all-Answered release now (suc fuel) (m ∷ ms) s enough e once waited =
    let first : has m ms ≡ false = ground (arith, once) in
    let now_waited : IsWaitedFor s m = waited m (rw (==-refl m) refl) in
    rw (try_dequeue_message-cons serv_mqueue m ms s e, reply_all)
      (rw (try_dequeue_message-cons serv_mqueue m ms s e) (
        Returns-bind (reply_message release true now m (taken m ms s))
          (λ t. reply_all release now fuel t) (Answered (m ∷ ms) s)
          (reply_message-Replied release now m (taken m ms s) (taken-IsWaitedFor m ms s now_waited))
          (λ t r.
            Returns-mono (reply_all release now fuel t)
              (reply_all-Answered release now fuel ms t (omega arith) (ap (λ v. v.qhead) r.0)
                (ground (arith, once))
                (λ j h.
                  later-IsWaitedFor m ms s t first now_waited r j h (waited j (ground (arith, h)))))
              (λ (u, finished) a. Answered-cons m ms s t first now_waited r u finished a))))

dropped-parts : (v : Queue) → ((dropped v).qhead ≡ v.qhead) × ((dropped v).closed ≡ v.closed)
dropped-parts v = elim (Bool-cases (eq_int (pred_int v.refcnt) (pos 0))) [
  | inl e ↦ rw e (refl, refl)
  | inr e ↦ rw e (refl, refl)
]

-- The state after `pgstrom_close_queue` on the server queue.
abbrev pub server_closed : Store → Store
server_closed s =
    put_queue_at serv_mqueue (dropped (record (s.queues serv_mqueue) { closed = true })) s

close_queue-server :
    (s : Store)
    → (s.queues serv_mqueue).closed ≡ false
    → close_queue serv_mqueue s ≡ done (server_closed s)
unfolding close_queue
close_queue-server s is_open =
    elim (Bool-cases (eq_int (pred_int (s.queues serv_mqueue).refcnt) (pos 0))) [
      | inl e ↦ rw (is_open, e) (rw e refl)
      | inr e ↦ rw (is_open, e) (rw e refl)
    ]

-- Closing the server queue, when it is open and each message in it is waited for and in it once: with fuel for one
-- message more than it holds, the queue ends closed and empty, and each of its messages stands in
-- its response queue with the code for a server that is not ready and a holder less. No other
-- message changes, and no backend's queue is closed or loses a message.
pub close_server_queue-Answered :
    (release : ℕ → Store → Run Store) (now fuel : ℕ) (s : Store)
    → (s.queues serv_mqueue).closed ≡ false
    → length (s.queues serv_mqueue).qhead < fuel
    → is_nodup (s.queues serv_mqueue).qhead ≡ true
    → AreWaitedFor s (s.queues serv_mqueue).qhead
    → Returns
        (λ (t, finished).
          ((t.queues serv_mqueue).closed ≡ true)
          × Answered (s.queues serv_mqueue).qhead (server_closed s) (t, finished))
        (close_server_queue release true now fuel s)
unfolding close_server_queue
close_server_queue-Answered release now fuel s is_open enough once waited =
    let (queue, is_closed) = dropped-parts (record (s.queues serv_mqueue) { closed = true }) in
    rw (close_queue-server s is_open, close_server_queue)
      (Returns-mono (reply_all release now fuel (server_closed s))
        (reply_all-Answered release now fuel _ (server_closed s) enough queue once
          (λ j h. let (a, b, c) = waited j h in (a, rw a b, c)))
        (λ (t, finished) a. (a.2 serv_mqueue ∙ is_closed, a)))
