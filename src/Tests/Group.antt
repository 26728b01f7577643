-- ===== src/Tests/Group.antt =====
-- The device code on small work-groups.
use pg_strom.Prelude.{ℕ, ◌+◌, ◌≡◌, ◌==◌, if◌then◌else◌, none, some}
use pg_strom.Prelude.Int.{ℤ, pos, eq_int}
use pg_strom.Device.Error.{success, division_by_zero, row_recheck, row_filtered}
use pg_strom.Device.Group.{ResultBuf, writeback_row_error, writeback_statement_error}
use pg_strom.Device.Group.Scan.{sum_below}
use pg_strom.Device.Group.Statement.{first_from, writeback_statement_error-first}
use pg_strom.Device.Group.Rows.{Written, ones, writeback_row_error-Written}
use native.Mathlib.Omega.{arith}

abbrev empty_buf : ResultBuf
empty_buf = record { nrooms = 8; nitems = 2; errcode = success; results = λ a. pos 0 }

-- Thread 1 filters its row, thread 2 has its row checked again, thread 4 divides by zero.
abbrev codes : ℕ → ℤ
codes k =
    if k == 1
    then row_filtered
    else if k == 2
    then row_recheck
    else if k == 4
    then division_by_zero
    else success

abbrev two_below : ℕ → ℕ
two_below k = 2

writeback_row_error-Written_example :
    Written empty_buf
      (λ k. k)
      codes
      2
      (λ a. pos 0)
      6
      (writeback_row_error 6 (λ k. k) codes empty_buf).results
    × ((writeback_row_error 6 (λ k. k) codes empty_buf).nitems
        ≡ 2 + sum_below (ones empty_buf (λ k. k) codes) 6)
    × ((writeback_row_error 6 (λ k. k) codes empty_buf).nrooms ≡ 8)
    × ((writeback_row_error 6 (λ k. k) codes empty_buf).errcode ≡ success)
writeback_row_error-Written_example =
    writeback_row_error-Written 6 (λ k. k) codes empty_buf (omega arith) (omega arith)
      (λ k h. omega arith)

writeback_statement_error-first_example :
    writeback_statement_error 6 codes empty_buf ≡ elim (first_from codes 0 6) [
      | none ↦ empty_buf
      | some e ↦
          if eq_int empty_buf.errcode success then record empty_buf { errcode = e } else empty_buf
    ]
writeback_statement_error-first_example =
    writeback_statement_error-first 6 codes empty_buf (omega arith) (omega arith)
