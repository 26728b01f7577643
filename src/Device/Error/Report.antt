-- ===== src/Device/Error/Report.antt =====
-- Which of a series of error codes a thread reports.
use Prim.Native.Nat.{max}
use pg_strom.Prelude.{
  ℕ, ◌<◌, ◌≡◌, ap, sym, ◌∙◌, Option, none, some, true, List, [], ◌∷◌, map, arith, leb,
  if◌then◌else◌, Bool-cases, inl, inr,
}
use pg_strom.Prelude.Int.{pos, negsuc}
use pg_strom.Device.Error.{is_significant, set_error, set_errors}

-- The specification: the first significant code of a list, or else the greatest code.
pub first_significant : List ℕ → Option ℕ
first_significant [] = none
first_significant (e ∷ es) = if leb 100 e then some e else first_significant es

pub greatest : List ℕ → ℕ
greatest [] = 0
greatest (e ∷ es) = max e (greatest es)

unfoldable pub reported : List ℕ → ℕ
unfolding first_significant greatest
reported l = elim (first_significant l) [ none ↦ greatest l | some e ↦ e ]

-- The two codes at the head may be replaced by the one that the thread keeps.
reported-set_error :
    (old e : ℕ) (es : List ℕ)
    → (o : ℕ) × (set_error (pos e) (pos old) ≡ pos o)
      × (reported (o ∷ es) ≡ reported (old ∷ e ∷ es))
unfolding set_error reported
reported-set_error old e es = elim (Bool-cases (leb 100 e)) [
  | inl big ↦ elim (Bool-cases (leb 100 old)) [
    | inl older ↦ (old, ground arith, ground arith)
    | inr small ↦ (e, ground arith, ground arith)
  ]
  | inr low ↦ (max old e, ground arith, ground arith)
]

-- A thread that sets no negative code reports the first significant of its codes, the one that it
-- began with included, or, where none is significant, the greatest: so a row to be checked again
-- goes over a filtered row, and that over success.
pub set_errors-reported :
    (old : ℕ) (es : List ℕ) → set_errors (pos old) (map pos es) ≡ pos (reported (old ∷ es))
unfolding set_errors
set_errors-reported old [] = ap pos (sym (unfold reported in ground arith))
set_errors-reported old (e ∷ es) =
    let (o, kept, same) = reported-set_error old e es in
    rw (kept, set_errors) (set_errors-reported o es ∙ ap pos same)

-- A negative code counts as significant, and the next code that is not replaces it.
pub set_error_negative :
    (n e : ℕ)
    → e < 100
    → (is_significant (negsuc n) ≡ true) × (set_error (pos e) (negsuc n) ≡ pos e)
unfolding set_error
set_error_negative n e h = ground arith
