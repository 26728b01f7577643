-- ===== src/Device/Group.antt =====
-- The work-group routines of opencl_gpuscan.h. A work-group has `n` threads, its local memory is a
-- function of the thread, and a barrier ends each round: in a round every thread reads what the
-- round before left, since no thread reads a place that another one writes in the same round.
pub mod Statement
pub mod Scan
pub mod Rows
use pg_strom.Prelude.{
  ℕ, zero, suc, ◌+◌, ◌-◌, ◌*◌, ◌/◌, ◌%◌, ◌^◌, Bool, true, false, not, ◌&&◌, ◌||◌, Option, none,
  some, ltb, leb, ◌==◌, if◌then◌else◌, update,
}
use pg_strom.Prelude.Int.{ℤ, pos, negsuc, eq_int}
use pg_strom.Device.Error.{success, row_recheck, is_significant}

-- The parts of `kern_resultbuf` that the routines use.
pub record ResultBuf : Type 0 where
  pub nrooms : ℕ
  pub nitems : ℕ
  pub errcode : ℤ
  pub results : ℕ → ℤ

-- One round of `gpuscan_writeback_statement_error`.
pub statement_round : ℕ → ℕ → (ℕ → ℤ) → ℕ → ℤ
statement_round n i temp k =
    if k % 2 ^ (i + 1) == 0
    then (let errcode2 = if ltb (k + 2 ^ i) n then temp (k + 2 ^ i) else success in
        if not (is_significant (temp k)) && is_significant errcode2 then errcode2 else temp k)
    else temp k

-- The loop, `wkgrp_sz` being halved in each round until it is 0. A number below 2 ^ 32 is halved at
-- most 32 times.
pub statement_rounds : ℕ → ℕ → ℕ → ℕ → (ℕ → ℤ) → ℕ → ℤ
statement_rounds zero n i wkgrp_sz temp = temp
statement_rounds (suc fuel) n i wkgrp_sz temp =
    let rest = statement_rounds fuel n (i + 1) (wkgrp_sz / 2) (statement_round n i temp) in
    if wkgrp_sz == 0 then temp else rest

-- The code of the work-group goes to the result buffer, unless that holds one: the exchange is
-- atomic.
unfoldable pub writeback_statement_error : ℕ → (ℕ → ℤ) → ResultBuf → ResultBuf
unfolding statement_rounds statement_round
writeback_statement_error n local_error buf =
    let errcode1 = statement_rounds 32 n 0 (n - 1) local_error 0 in
    if is_significant errcode1 && eq_int buf.errcode success
    then record buf { errcode = errcode1 }
    else buf

-- Whether the row of a thread is written back: the item count of its first step.
pub selected : ResultBuf → (ℕ → ℕ) → (ℕ → ℤ) → ℕ → Bool
selected buf global_id local_error k =
    ltb (global_id k) buf.nrooms
    && (eq_int (local_error k) success || eq_int (local_error k) row_recheck)

-- One round of the prefix sum: a thread whose bit `i` is set adds the last sum of the half below, at
-- the index `i_source`, a `cl_int`, which has room for it in work-groups of up to 2 ^ 31 threads.
pub scan_round : ℕ → (ℕ → ℕ) → ℕ → ℕ
scan_round i temp k =
    if (k / 2 ^ i) % 2 == 1
    then temp k + temp ((k - 2 ^ i) / 2 ^ i * 2 ^ i + (2 ^ i - 1))
    else temp k

pub scan_rounds : ℕ → ℕ → ℕ → (ℕ → ℕ) → ℕ → ℕ
scan_rounds zero i wkgrp_sz temp = temp
scan_rounds (suc fuel) i wkgrp_sz temp =
    let rest = scan_rounds fuel (i + 1) (wkgrp_sz / 2) (scan_round i temp) in
    if wkgrp_sz == 0 then temp else rest

-- A number of type `size_t` that is stored in a `cl_int`: its lower 32 bits, with the sign.
abbrev pub low_int : ℕ → ℤ
low_int low = if ltb low (2 ^ 31) then pos low else negsuc (2 ^ 32 - 1 - low)

abbrev pub to_cl_int : ℕ → ℤ
to_cl_int a = low_int (a % 2 ^ 32)

-- The write of one thread. `get_global_id(0) + 1`, negated where the host is to check the row.
pub write_row : (ℕ → ℕ) → (ℕ → ℤ) → ℕ → (ℕ → ℕ) → (ℕ → ℤ) → ℕ → ℕ → ℤ
write_row global_id local_error nrooms temp results k =
    if leb nrooms (global_id k)
    then results
    else if eq_int (local_error k) success
    then update results (temp k - 1) (to_cl_int ((global_id k + 1) % 2 ^ 64))
    else if eq_int (local_error k) row_recheck
    then update results (temp k - 1) (to_cl_int (2 ^ 64 - (global_id k + 1) % 2 ^ 64))
    else results

-- The writes of the first `m` threads; they go to different places, so their order is of no account.
pub write_rows : ℕ → (ℕ → ℕ) → (ℕ → ℤ) → ℕ → (ℕ → ℕ) → (ℕ → ℤ) → ℕ → ℤ
write_rows zero global_id local_error nrooms temp results = results
write_rows (suc m) global_id local_error nrooms temp results =
    write_row global_id local_error nrooms temp
      (write_rows m global_id local_error nrooms temp results) m

-- `offset = atomic_add(&kresbuf->nitems, nitems)` reserves the places of the work-group.
unfoldable pub writeback_row_error : ℕ → (ℕ → ℕ) → (ℕ → ℤ) → ResultBuf → ResultBuf
unfolding selected scan_rounds scan_round write_rows write_row
writeback_row_error n global_id local_error buf =
    let first : ℕ → ℕ = λ k. if selected buf global_id local_error k then 1 else 0 in
    let sums = scan_rounds 32 0 n first in
    let nitems = sums (n - 1) in
    let offset = buf.nitems in
    let places : ℕ → ℕ = λ k. sums k + offset in
    record buf {
      nitems = offset + nitems;
      results = write_rows n global_id local_error buf.nrooms places buf.results;
    }

unfoldable pub writeback_result : ℕ → (ℕ → ℕ) → (ℕ → ℤ) → ResultBuf → ResultBuf
writeback_result n global_id local_error buf =
    writeback_row_error n global_id local_error (writeback_statement_error n local_error buf)
