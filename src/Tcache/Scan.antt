-- ===== src/Tcache/Scan.antt =====
-- `tcache_scan_next` and `tcache_scan_prev`, without the building of the cache: the column stores in
-- the order of the tree, then the row stores of the list, then the current one; backward the other
-- way round. The scan holds a reference on what it returned last.
pub mod Columns
pub mod Reference
pub mod Visit
use pg_strom.Prelude.{
  ℕ, suc, ◌+◌, ◌-◌, ◌%◌, ◌^◌, Bool, true, false, not, Option, none, some, List, [], ◌∷◌, ◌==◌,
  if◌then◌else◌, update, has,
}
use pg_strom.Prelude.Int.{ℤ, pos, lt_int, eq_int, suc_int, pred_int}
use pg_strom.Prelude.Run.{Run, done, fault, check, ◌>>=◌, ◌>>◌}
use pg_strom.Tcache.{Heap, Tree, put_column_store}
use pg_strom.Tcache.Find.{find_next_column_store, find_prev_column_store}

-- The row stores of `tcache_head`, their reference counters, and those that were freed.
pub record Rowstores : Type 0 where
  pub trs_list : List ℕ
  pub trs_curr : Option ℕ
  pub trs_refcnt : ℕ → ℤ
  pub trs_freed : List ℕ

pub record Scandesc : Type 0 where
  pub tcs_curr : Option ℕ
  pub trs_curr : Option ℕ

unfoldable pub get_row_store : ℕ → Rowstores → Run Rowstores
get_row_store trs s =
    check (lt_int (pos 0) (s.trs_refcnt trs))
    >> done (record s { trs_refcnt = update s.trs_refcnt trs (suc_int (s.trs_refcnt trs)) })

unfoldable pub put_row_store : ℕ → Rowstores → Run Rowstores
put_row_store trs s =
    let rest = pred_int (s.trs_refcnt trs) in
    check (lt_int (pos 0) (s.trs_refcnt trs))
    >> done (record s {
      trs_refcnt = update s.trs_refcnt trs rest;
      trs_freed = if eq_int rest (pos 0) then trs ∷ s.trs_freed else s.trs_freed;
    })

-- `dnode_is_linked`, as it is written: a node of a list has both links, and any other has none.
abbrev pub dnode_is_linked : ℕ → List ℕ → Bool
dnode_is_linked trs trs_list = not (has trs trs_list)

abbrev pub last_of : List ℕ → Option ℕ
last_of [] = none
last_of (x ∷ l) = let rest = last_of l in elim rest [ some y ↦ some y | none ↦ some x ]

-- The neighbours of a node. A node that is in no list has null links: the address that
-- `dlist_next_node` and `dlist_prev_node` make of them is no row store.
abbrev pub next_of : ℕ → List ℕ → Run (Option ℕ)
next_of trs [] = fault
next_of trs (x ∷ l) =
    let rest = next_of trs l in
    if trs == x then done (elim l [ y ∷ _ ↦ some y | [] ↦ none ]) else rest

abbrev pub get_optional : Option ℕ → Rowstores → Run Rowstores
get_optional none s = done s
get_optional (some trs) s = get_row_store trs s

-- The next row store of the list, if `dnode_is_linked` says that there is one.
abbrev pub next_in_list : ℕ → List ℕ → Run (Option ℕ)
next_in_list trs trs_list = if dnode_is_linked trs trs_list then next_of trs trs_list else done none

-- The row store that follows `trs_prev`, with its reference taken and that of `trs_prev` put.
unfoldable pub next_row_store : Option ℕ → Rowstores → Run (Option ℕ × Rowstores)
next_row_store none s =
    let trs_curr : Option ℕ = elim s.trs_list [ trs ∷ _ ↦ some trs | [] ↦ s.trs_curr ] in
    get_optional trs_curr s >>= λ s'. done (trs_curr, s')
next_row_store (some trs_prev) s = next_in_list trs_prev s.trs_list >>= λ next. elim next [
  | some trs ↦
      get_row_store trs s >>= λ s'. put_row_store trs_prev s' >>= λ s''. done (some trs, s'')
  | none ↦ get_optional s.trs_curr s >>= λ s'.
      put_row_store trs_prev s' >>= λ s''. done (s.trs_curr, s'')
]

module _ {C : Type 0} where
  -- The column store that follows `tcs_prev`, with its reference taken and that of `tcs_prev` put.
  unfoldable pub next_column_store : Tree → Option ℕ → Heap C → Run (Option ℕ × Heap C)
  next_column_store tcs_root none h = find_next_column_store tcs_root 0 h
  next_column_store tcs_root (some tcs_prev) h =
      find_next_column_store tcs_root (((h.stores tcs_prev).blkno_max + 1) % 2 ^ 32) h
      >>= λ (tcs_curr, h'). put_column_store tcs_prev h' >>= λ h''. done (tcs_curr, h'')

  unfoldable pub scan_next :
      Tree → Scandesc → Heap C → Rowstores → Run ((Option ℕ × Scandesc) × Heap C × Rowstores)
  scan_next tcs_root scan h s = elim scan.trs_curr [
    | some trs ↦ next_row_store (some trs) s >>= λ (trs_curr, s').
        done ((trs_curr, record scan { trs_curr = trs_curr }), h, s')
    | none ↦ next_column_store tcs_root scan.tcs_curr h >>= λ (tcs_curr, h'). elim tcs_curr [
      | some tcs ↦ done ((some tcs, record scan { tcs_curr = some tcs }), h', s)
      | none ↦ next_row_store none s >>= λ (trs_curr, s').
          done ((trs_curr, record { tcs_curr = none; trs_curr = trs_curr }), h', s')
    ]
  ]

-- The row store before `trs_prev`, with its reference taken and that of `trs_prev` put. For a node
-- that `dnode_is_linked` takes for linked, `dlist_has_prev` compares a null link with the head of the
-- list, so that the negated test never holds.
unfoldable pub prev_row_store : Option ℕ → Rowstores → Run (Option ℕ × Rowstores)
prev_row_store none s = elim s.trs_curr [
  | some trs ↦ get_row_store trs s >>= λ s'.
      check (not (dnode_is_linked trs s.trs_list)) >> done (some trs, s')
  | none ↦ get_optional (last_of s.trs_list) s >>= λ s'. done (last_of s.trs_list, s')
]
prev_row_store (some trs_prev) s =
    let trs_curr = if dnode_is_linked trs_prev s.trs_list then none else last_of s.trs_list in
    get_optional trs_curr s >>= λ s'. put_row_store trs_prev s' >>= λ s''. done (trs_curr, s'')

module _ {C : Type 0} where
  -- The column store before `tcs_prev`, which the code reads even if it is NULL.
  unfoldable pub prev_column_store : Tree → Option ℕ → Heap C → Run (Option ℕ × Heap C)
  prev_column_store tcs_root none h = fault
  prev_column_store tcs_root (some tcs_prev) h =
      let blkno_min = (h.stores tcs_prev).blkno_min in
      if blkno_min == 0
      then (put_column_store tcs_prev h >>= λ h'. done (none, h'))
      else (find_prev_column_store tcs_root (blkno_min - 1) h >>= λ (tcs_curr, h').
          put_column_store tcs_prev h' >>= λ h''. done (tcs_curr, h''))

  unfoldable pub scan_prev :
      Tree → Scandesc → Heap C → Rowstores → Run ((Option ℕ × Scandesc) × Heap C × Rowstores)
  scan_prev tcs_root scan h s = elim scan.tcs_curr [
    | some tcs ↦ prev_column_store tcs_root (some tcs) h >>= λ (tcs_curr, h').
        done ((tcs_curr, record scan { tcs_curr = tcs_curr }), h', s)
    | none ↦ prev_row_store scan.trs_curr s >>= λ (trs_curr, s'). elim trs_curr [
      | some trs ↦ done ((some trs, record scan { trs_curr = some trs }), h, s')
      | none ↦ prev_column_store tcs_root none h >>= λ (tcs_curr, h').
          done ((tcs_curr, record { tcs_curr = tcs_curr; trs_curr = none }), h', s')
    ]
  ]
