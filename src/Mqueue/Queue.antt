-- ===== src/Mqueue/Queue.antt =====
-- The life of a queue in mqueue.c: creation from the free queues or from a new block, the
-- reference counter, and closing.
pub mod Accounts
pub mod Server
use pg_strom.Prelude.{
  ℕ, zero, suc, ◌+◌, ◌*◌, Bool, true, false, not, ◌&&◌, Option, none, some, List, [], ◌∷◌, ◌++◌,
  if◌then◌else◌, ◌==◌, ltb, update,
}
use pg_strom.Prelude.Int.{ℤ, pos, suc_int, pred_int, lt_int, eq_int}
use pg_strom.Prelude.Run.{Run, done, fault, check, ◌>>=◌, ◌>>◌}
use pg_strom.Device.Error.{server_not_ready}
use pg_strom.Mqueue.Store.{
  mqueues_per_block, Queue, Message, Store, serv_mqueue, put_queue_at, put_message_at, uint_add,
  uint_pred,
}
use pg_strom.Mqueue.Message.{reply_message, try_dequeue_message}

-- The loop over the queues of a new block: the queues from `i` on, `n` of them, which become free.
-- `size` is `sizeof(pgstrom_queue)` and `start` the address of the first queue.
pub init_queues : ℕ → ℕ → ℕ → ℕ → Store → Store
init_queues start size i zero s = s
init_queues start size i (suc n) s =
    let q = start + i * size in
    init_queues start size (i + 1) n (record s {
      queues = update s.queues q (record (s.queues q) { linked = true });
      free_queue_list = s.free_queue_list ++ q ∷ [];
    })

-- What the allocation of a block gives: none, or a block whose first queue is at `block + 16`. The
-- queues whose mutex and condition variable cannot be initialized are a failure of the block, after
-- which nothing of it is linked.
pub data NewBlock : Type 0 where
  no_memory : NewBlock
  failed_block ready_block : ℕ → NewBlock

pub data CreateResult : Type 0 where
  out_of_memory init_failed : CreateResult
  created : ℕ → CreateResult

-- The part of `pgstrom_create_queue` from `num_free--` on.
unfoldable pub take_queue : ℕ → Store → Run (Store × CreateResult)
take_queue pid s = elim s.free_queue_list [
  | [] ↦ fault
  | q ∷ qs ↦
      check (ltb 0 s.num_free)
      >> done (
        record s {
          queues = update s.queues q (record (s.queues q) {
            owner = pos pid;
            refcnt = pos 1;
            qhead = [];
            closed = false;
            linked = false;
          });
          free_queue_list = qs;
          num_free = uint_pred s.num_free;
          num_active = uint_add s.num_active 1;
        },
        created q,
      )
]

-- `size` is `sizeof(pgstrom_queue)`.
unfoldable pub create_queue : ℕ → Bool → ℕ → NewBlock → Store → Run (Store × CreateResult)
unfolding init_queues take_queue
create_queue size is_server pid block s = check (not is_server) >> elim s.free_queue_list [
  | _ ∷ _ ↦ take_queue pid s
  | [] ↦ elim block [
    | no_memory ↦ done (s, out_of_memory)
    | failed_block b ↦ done (s, init_failed)
    | ready_block b ↦
        let s1 = record s { blocks_list = s.blocks_list ++ b ∷ [] } in
        let s2 = init_queues (b + 16) size 0 (mqueues_per_block size) s1 in
        take_queue pid (record s2 { num_free = uint_add s2.num_free (mqueues_per_block size) })
  ]
]

unfoldable pub get_queue : ℕ → Store → Run Store
get_queue q s =
    check (lt_int (pos 0) (s.queues q).refcnt)
    >> done (put_queue_at q (record (s.queues q) { refcnt = suc_int (s.queues q).refcnt }) s)

-- The queue at the end of `pgstrom_close_queue` and of `pgstrom_put_queue`.
abbrev pub dropped : Queue → Queue
dropped v =
    let r = pred_int v.refcnt in
    if eq_int r (pos 0) then record v { refcnt = r; owner = pos 0 } else record v { refcnt = r }

-- A queue goes back to the free queues, whose links are then set.
abbrev pub link_free : ℕ → Store → Store
link_free q s = record s {
  queues = update s.queues q (record (s.queues q) { linked = true });
  free_queue_list = s.free_queue_list ++ q ∷ [];
}

unfoldable pub put_queue : ℕ → Store → Run Store
put_queue q s =
    let v = dropped (s.queues q) in
    let s' = put_queue_at q v s in
    if eq_int v.refcnt (pos 0)
    then (check (s.queues q).closed >> done (link_free q s'))
    else done s'

unfoldable pub close_queue : ℕ → Store → Run Store
close_queue q s =
    let v = dropped (record (s.queues q) { closed = true }) in
    let s' = put_queue_at q v s in
    check (not (s.queues q).closed)
    >> done (
        if eq_int v.refcnt (pos 0) && not (q == serv_mqueue)
        then link_free q
            (record s' { num_active = uint_pred s'.num_active; num_free = uint_add s'.num_free 1 })
        else s')

-- The loop of `pgstrom_close_server_queue`; the second part is false if the fuel ends first.
pub reply_all : (ℕ → Store → Run Store) → ℕ → ℕ → Store → Run (Store × Bool)
unfolding reply_message try_dequeue_message
reply_all release now zero s = done (s, false)
reply_all release now (suc fuel) s =
    let (s', found) = try_dequeue_message serv_mqueue s in
    elim found [
      | none ↦ done (s', true)
      | some m ↦
          reply_message release true now m
            (put_message_at m (record (s'.messages m) { errcode = server_not_ready }) s')
          >>= λ t. reply_all release now fuel t
    ]

unfoldable pub close_server_queue :
    (ℕ → Store → Run Store) → Bool → ℕ → ℕ → Store → Run (Store × Bool)
unfolding close_queue reply_all
close_server_queue release is_server now fuel s =
    check is_server >> close_queue serv_mqueue s >>= λ t. reply_all release now fuel t
