-- ===== src/Mqueue/Store.antt =====
-- The state of mqueue.c: `pgstrom_queue` and `pgstrom_message` of pg_strom.h, and
-- `mqueue_shm_values`. Lists of queues and of messages are lists of addresses.
use pg_strom.Prelude.{
  ℕ, ◌+◌, ◌-◌, ◌/◌, ◌%◌, ◌^◌, ◌==◌, Bool, false, List, [], if◌then◌else◌, update,
}
use pg_strom.Shmem.Size.{shmem_blocksz}
use pg_strom.Prelude.Int.{ℤ, pos, negsuc}

-- `linked` says whether the links of `chain` are set: they are while the queue is free.
pub record Queue : Type 0 where
  pub owner : ℤ
  pub refcnt : ℤ
  pub qhead : List ℕ
  pub closed : Bool
  pub linked : Bool

-- The times of `pfm` are in microseconds; `stamp` is `pfm.tv`.
pub record Message : Type 0 where
  pub holders : ℤ
  pub errcode : ℤ
  pub respq : ℕ
  pub perf_enabled : Bool
  pub stamp : ℕ
  pub time_in_sendq : ℕ
  pub time_kern_build : ℕ
  pub time_in_recvq : ℕ

pub record Store : Type 0 where
  pub queues : ℕ → Queue
  pub messages : ℕ → Message
  pub blocks_list : List ℕ
  pub free_queue_list : List ℕ
  pub num_free : ℕ
  pub num_active : ℕ

-- The address of the queue to the OpenCL server, which is no address of a block.
abbrev pub serv_mqueue : ℕ
serv_mqueue = 1

abbrev pub uint_mod : ℕ
uint_mod = 2 ^ 32

-- `MQUEUES_PER_BLOCK`, where `size` is `sizeof(pgstrom_queue)`, a `cl_uint` has 4 bytes and a
-- `dlist_node` 16.
abbrev pub mqueues_per_block : ℕ → ℕ
mqueues_per_block size = (shmem_blocksz - 4 - 16) / size

-- `x += n` and `x--` on `uint32`.
abbrev pub uint_add : ℕ → ℕ → ℕ
uint_add x n = (x + n) % uint_mod

abbrev pub uint_pred : ℕ → ℕ
uint_pred x = (x + (uint_mod - 1)) % uint_mod

-- `x += timeval_diff(tv1, tv2)` on `cl_ulong`.
abbrev pub add_timeval_diff : ℕ → ℕ → ℕ → ℕ
add_timeval_diff x tv1 tv2 = (x + (2 ^ 64 - tv1 % 2 ^ 64) + tv2) % 2 ^ 64

abbrev pub put_queue_at : ℕ → Queue → Store → Store
put_queue_at q v s = record s { queues = update s.queues q v }

abbrev pub put_message_at : ℕ → Message → Store → Store
put_message_at m v s = record s { messages = update s.messages m v }

-- `gettimeofday(&message->pfm.tv, NULL)`, if performance is monitored.
abbrev pub stamped : ℕ → Message → Message
stamped now v = if v.perf_enabled then record v { stamp = now } else v

-- `pgstrom_startup_mqueue`: the memory is cleared, so that no queue is linked or referenced.
unfoldable pub startup_mqueue : Store
startup_mqueue = record {
  queues = λ q. record {
    owner = if q == serv_mqueue then negsuc 0 else pos 0;
    refcnt = pos 0;
    qhead = [];
    closed = false;
    linked = false;
  };
  messages = λ m. record {
    holders = pos 0;
    errcode = pos 0;
    respq = 0;
    perf_enabled = false;
    stamp = 0;
    time_in_sendq = 0;
    time_kern_build = 0;
    time_in_recvq = 0;
  };
  blocks_list = [];
  free_queue_list = [];
  num_free = 0;
  num_active = 0;
}
