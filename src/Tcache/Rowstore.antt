-- ===== src/Tcache/Rowstore.antt =====
-- The row store of a relation: `tcache_create_row_store`, `tcache_row_store_insert_tuple` and
-- `kern_rowstore_get_tuple` of opencl_common.h. Offsets count from the kernel part of the row store:
-- behind its head and the metadata of the columns stands the array of tuple offsets, which grows
-- upward, and the tuples are put from the end downward. Pointers have 8 bytes; the sizes that
-- PostgreSQL determines, of a tuple header and of a lock, are parameters.
pub mod Packed
use pg_strom.Prelude.{
  ℕ, suc, ◌+◌, ◌-◌, ◌*◌, ◌/◌, ◌%◌, ◌^◌, Bool, true, false, Option, none, some, ◌==◌, if◌then◌else◌,
  ltb, leb, update,
}

-- `TYPEALIGN`, `TYPEALIGN_DOWN`, `STROMALIGN` and `MAXALIGN`.
abbrev pub typealign : ℕ → ℕ → ℕ
typealign alignval len = (len + (alignval - 1)) / alignval * alignval

abbrev pub typealign_down : ℕ → ℕ → ℕ
typealign_down alignval len = len / alignval * alignval

abbrev pub stromalign_len : ℕ
stromalign_len = 16

abbrev pub maxalign : ℕ → ℕ
maxalign = typealign 8

abbrev pub rowstore_default_size : ℕ
rowstore_default_size = 8 * 1024 * 1024 - 4

-- The head of a kernel store with the metadata of its columns, of 8 bytes each.
abbrev pub kern_head : ℕ → ℕ
kern_head ncols = 12 + 8 * ncols

pub record Tuple : Type 0 where
  pub t_block : ℕ
  pub t_len : ℕ
  pub t_data : ℕ

pub record RowStore : Type 0 where
  pub usage : ℕ
  pub blkno_max : ℕ
  pub blkno_min : ℕ
  pub length : ℕ
  pub ncols : ℕ
  pub nrows : ℕ
  pub tupoffset : ℕ → ℕ
  pub tuple_at : ℕ → Option Tuple

-- `natts` columns in the table, of which `ncols` are cached; `kern_offset` is where the kernel part
-- begins. The memory that is not set comes with `fresh`.
unfoldable pub create_row_store : ℕ → ℕ → ℕ → RowStore → RowStore
create_row_store kern_offset natts ncols fresh =
    let usage =
      typealign_down stromalign_len
        (rowstore_default_size - typealign stromalign_len (kern_head ncols) - kern_offset) in
    record fresh {
      usage = usage;
      blkno_max = 0;
      blkno_min = 2 ^ 32 - 2;
      length = usage;
      ncols = natts;
      nrows = 0;
    }

-- `kern_rowstore_get_tuple`.
unfoldable pub get_tuple : RowStore → ℕ → Option Tuple
get_tuple trs rindex =
    if leb (trs.nrows) rindex
    then none
    else if trs.tupoffset rindex == 0
    then none
    else trs.tuple_at (trs.tupoffset rindex)

-- The bytes of a tuple, and the head with one more offset.
abbrev pub required_of : ℕ → Tuple → ℕ
required_of htup_size tuple = maxalign htup_size + maxalign tuple.t_len

abbrev pub usage_head : RowStore → ℕ
usage_head trs = kern_head trs.ncols + 4 * (trs.nrows + 1)

unfoldable pub row_store_insert_tuple : ℕ → RowStore → Tuple → RowStore × Bool
row_store_insert_tuple htup_size trs tuple =
    let usage_tail = (trs.usage + 2 ^ 64 - required_of htup_size tuple) % 2 ^ 64 in
    if ltb (usage_head trs) usage_tail
    then (
      record trs {
        tuple_at = update trs.tuple_at usage_tail (some tuple);
        tupoffset = update trs.tupoffset trs.nrows (usage_tail % 2 ^ 32);
        nrows = suc trs.nrows;
        usage = usage_tail % 2 ^ 32;
        blkno_max = if ltb (trs.blkno_max) (tuple.t_block) then tuple.t_block else trs.blkno_max;
        blkno_min = if ltb (tuple.t_block) (trs.blkno_min) then tuple.t_block else trs.blkno_min;
      },
      true,
    )
    else (trs, false)
