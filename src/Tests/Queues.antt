-- ===== src/Tests/Queues.antt =====
-- The message queues in a state with two messages for the server.
use pg_strom.Prelude.{ℕ, ◌≡◌, refl, true, false, List, [], ◌∷◌, ◌==◌, if◌then◌else◌, arith}
use pg_strom.Prelude.Int.{pos}
use pg_strom.Prelude.Run.{Run, done, Returns}
use pg_strom.Mqueue.Store.{Store, serv_mqueue}
use pg_strom.Mqueue.Queue.{close_queue, close_server_queue}
use pg_strom.Mqueue.Queue.Accounts.{Closed, close_queue-Closed}
use pg_strom.Mqueue.Queue.Server.{Answered, server_closed, close_server_queue-Answered}
use pg_strom.Mqueue.Wait.{sync_dequeue_message}
use pg_strom.Mqueue.Wait.Timeout.{InTime, sync_dequeue_message-InTime}

-- Queue 5 is a backend's, queue 6 is closed and has one reference left.
abbrev busy : Store
busy = record {
  queues = λ q. record {
    owner = pos 100;
    refcnt = pos 1;
    qhead = if q == serv_mqueue then 10 ∷ 11 ∷ [] else [];
    closed = q == 6;
    linked = false;
  };
  messages = λ m. record {
    holders = pos 2;
    errcode = pos 0;
    respq = 5;
    perf_enabled = false;
    stamp = 0;
    time_in_sendq = 0;
    time_kern_build = 0;
    time_in_recvq = 0;
  };
  blocks_list = [];
  free_queue_list = [];
  num_free = 0;
  num_active = 2;
}

-- A release handler that leaves the state to others.
abbrev keep : ℕ → Store → Run Store
keep m s = done s

close_queue-Closed_example : Returns (Closed 5 busy) (close_queue 5 busy)
close_queue-Closed_example = close_queue-Closed 5 busy refl refl refl

close_server_queue-Answered_example :
    Returns
      (λ (t, finished).
        ((t.queues serv_mqueue).closed ≡ true)
        × Answered (10 ∷ 11 ∷ []) (server_closed busy) (t, finished))
      (close_server_queue keep true 77 3 busy)
close_server_queue-Answered_example =
    close_server_queue-Answered keep 77 3 busy refl (omega arith) refl (λ j h. (refl, refl, refl))

-- A message comes in the third round.
abbrev late : ℕ → List ℕ
late k = if k == 2 then 10 ∷ [] else []

sync_dequeue_message-InTime_example :
    InTime false late 0 1000000000
      (record { tv_sec = 5; tv_nsec = 250000000 })
      (sync_dequeue_message 6 false (λ k. false) late 1000 5250000)
sync_dequeue_message-InTime_example =
    sync_dequeue_message-InTime 6 false (λ k. false) late 1000 5250000 (omega arith)
