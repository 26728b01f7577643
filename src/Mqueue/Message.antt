-- ===== src/Mqueue/Message.antt =====
-- Messages of mqueue.c: enqueueing to the server, the reply to a backend, dequeueing without a
-- wait, and the reference counter of a message. `release` is the callback `cb_release`.
pub mod Enqueue
pub mod Reply
use pg_strom.Prelude.{
  ℕ, zero, suc, Bool, true, false, not, Option, none, some, List, [], ◌∷◌, ◌++◌, if◌then◌else◌,
  ◌==◌,
}
use pg_strom.Prelude.Int.{ℤ, pos, suc_int, pred_int, lt_int, eq_int}
use pg_strom.Prelude.Run.{Run, done, fault, check, ◌>>=◌, ◌>>◌}
use pg_strom.Mqueue.Store.{
  Queue, Message, Store, serv_mqueue, put_queue_at, put_message_at, stamped, add_timeval_diff,
}

-- `is_server` is `pgstrom_i_am_clserv`, and `now` the time of day.
unfoldable pub enqueue_message : Bool → ℕ → ℕ → Store → Run (Store × Bool)
enqueue_message is_server now m s =
    let q = s.queues serv_mqueue in
    let v = stamped now (s.messages m) in
    let v' = if is_server then v else record v { holders = suc_int v.holders } in
    if q.closed
    then done (s, false)
    else (check (lt_int (pos 0) v.holders)
        >> done (
          put_queue_at serv_mqueue (record q { qhead = q.qhead ++ m ∷ [] }) (put_message_at m v' s),
          true,
        ))

unfoldable pub put_message : (ℕ → Store → Run Store) → ℕ → Store → Run Store
put_message release m s =
    let v = s.messages m in
    let v' = record v { holders = pred_int v.holders } in
    let s' = put_message_at m v' s in
    check (lt_int (pos 0) v.holders)
    >> (if eq_int v'.holders (pos 0) then release m s' else done s')

unfoldable pub reply_message : (ℕ → Store → Run Store) → Bool → ℕ → ℕ → Store → Run Store
unfolding put_message
reply_message release is_server now m s =
    let q = s.queues ((s.messages m).respq) in
    let v = stamped now (s.messages m) in
    let v' = record v { holders = pred_int v.holders } in
    let s' = put_message_at m v' s in
    check is_server
    >> check (not ((s.messages m).respq == serv_mqueue))
    >> (if q.closed
        then put_message release m s
        else if lt_int (pos 1) v.holders
        then done (put_queue_at v.respq (record q { qhead = q.qhead ++ m ∷ [] }) s')
        else (check (eq_int v'.holders (pos 0)) >> release m s'))

-- `pgstrom_try_dequeue_message`, and the branch of the other dequeueing functions that finds one.
unfoldable pub try_dequeue_message : ℕ → Store → Store × Option ℕ
try_dequeue_message q s = elim ((s.queues q).qhead) [
  | [] ↦ (s, none)
  | m ∷ ms ↦ (put_queue_at q (record (s.queues q) { qhead = ms }) s, some m)
]

-- The waiting time that `pgstrom_dequeue_message` and `pgstrom_dequeue_server_message` add to the
-- message that they have got.
unfoldable pub count_recvq : ℕ → ℕ → Store → Store
count_recvq now m s =
    let v = s.messages m in
    if v.perf_enabled
    then put_message_at m
        (record v { time_in_recvq = add_timeval_diff v.time_in_recvq v.stamp now }) s
    else s

unfoldable pub count_sendq : ℕ → ℕ → Store → Store
count_sendq now m s =
    let v = s.messages m in
    if v.perf_enabled
    then put_message_at m
        (record v { time_in_sendq = add_timeval_diff v.time_in_sendq v.stamp now }) s
    else s
