-- ===== src/Mqueue/Info.antt =====
-- The rows of `pgstrom_mqueue_info`: one for the server queue, one for each queue of each block.
use pg_strom.Prelude.{ℕ, zero, suc, ◌+◌, ◌*◌, List, [], ◌∷◌, ◌++◌, if◌then◌else◌}
use pg_strom.Prelude.Int.{ℤ}
use pg_strom.Mqueue.Store.{mqueues_per_block, Queue, Store, serv_mqueue}

pub data State : Type 0 where
  active closed free : State

pub record QueueInfo : Type 0 where
  pub mqueue : ℕ
  pub holder : ℤ
  pub state : State
  pub references : ℤ

abbrev pub info_of : ℕ → Queue → QueueInfo
info_of q v = record {
  mqueue = q;
  holder = v.owner;
  state = if v.linked then free else if v.closed then closed else active;
  references = v.refcnt;
}

-- The queues of one block, and of all blocks.
pub block_info : ℕ → ℕ → ℕ → ℕ → Store → List QueueInfo
block_info start size i zero s = []
block_info start size i (suc n) s =
    info_of (start + i * size) (s.queues (start + i * size)) ∷ block_info start size (i + 1) n s

pub blocks_info : ℕ → List ℕ → Store → List QueueInfo
unfolding block_info
blocks_info size [] s = []
blocks_info size (b ∷ bs) s =
    block_info (b + 16) size 0 (mqueues_per_block size) s ++ blocks_info size bs s

unfoldable pub mqueue_info : ℕ → Store → List QueueInfo
unfolding blocks_info
mqueue_info size s =
    let v = s.queues serv_mqueue in
    record {
      mqueue = serv_mqueue;
      holder = v.owner;
      state = if v.closed then closed else active;
      references = v.refcnt;
    }
    ∷ blocks_info size s.blocks_list s
