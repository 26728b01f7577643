-- ===== src/Device/Error.antt =====
-- Error codes of the device code, and `gpuscan_set_error`, which keeps one code for each thread.
pub mod Report
use pg_strom.Prelude.{ℕ, Bool, not, ◌||◌, List, [], ◌∷◌, leb, if◌then◌else◌}
use pg_strom.Prelude.Int.{ℤ, pos, negsuc, lt_int}

abbrev pub success : ℤ
success = pos 0

abbrev pub row_filtered : ℤ
row_filtered = pos 1

abbrev pub row_recheck : ℤ
row_recheck = pos 2

abbrev pub server_not_ready : ℤ
server_not_ready = pos 100

abbrev pub division_by_zero : ℤ
division_by_zero = pos 200

-- `StromErrorIsSignificant`
abbrev pub is_significant : ℤ → Bool
is_significant e = not (lt_int e (pos 100)) || lt_int e (pos 0)

-- The code that is kept, given the new one and the one so far.
unfoldable pub set_error : ℤ → ℤ → ℤ
set_error errcode oldcode =
    if is_significant errcode
    then if is_significant oldcode then oldcode else errcode
    else if lt_int oldcode errcode
    then errcode
    else oldcode

-- The code of a thread after it has set a series of codes.
unfoldable pub set_errors : ℤ → List ℤ → ℤ
unfolding set_error
set_errors oldcode [] = oldcode
set_errors oldcode (e ∷ es) = set_errors (set_error e oldcode) es
