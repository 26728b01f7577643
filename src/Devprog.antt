-- ===== src/Devprog.antt =====
-- The cache of device programs of opencl_devprog.c: its entries, hashed by the checksum of their
-- source and kept in order of use. The builds are in Devprog/Build.antt.
pub mod Key
pub mod Reclaim
pub mod Build
use pg_strom.Prelude.{
  ℕ, zero, suc, ◌+◌, ◌-◌, ◌%◌, ◌^◌, Bool, true, false, ◌&&◌, Option, none, some, List, [], ◌∷◌,
  ◌++◌, ◌==◌, if◌then◌else◌, ltb, leb, update, erase, length,
}
use pg_strom.Prelude.Int.{ℤ, pos, suc_int, pred_int, lt_int, eq_int}
use pg_strom.Prelude.Run.{Run, done, fault, check, ◌>>=◌, ◌>>◌}

-- `cl_program`: `NULL`, `BAD_OPENCL_PROGRAM` or an object of OpenCL.
pub data Program : Type 0 where
  no_program bad_program : Program
  program_at : ℕ → Program

-- `devprog_entry`; `errmsg` is the address and the length of the message.
pub record Dprog : Type 0 where
  pub refcnt : ℤ
  pub waitq : List ℕ
  pub program : Program
  pub build_running : Bool
  pub errmsg : Option (ℕ × ℕ)
  pub crc : ℕ
  pub extra_flags : ℤ
  pub source_len : ℕ
  pub source : List ℕ

pub record Cache : Type 0 where
  pub usage : ℕ
  pub lru_list : List ℕ
  pub slot : ℕ → List ℕ
  pub entries : ℕ → Dprog

abbrev pub devprog_hash_size : ℕ
devprog_hash_size = 2048

abbrev pub size_add : ℕ → ℕ → ℕ
size_add x n = (x + n) % 2 ^ 64

abbrev pub size_sub : ℕ → ℕ → ℕ
size_sub x n = (x + (2 ^ 64 - n % 2 ^ 64)) % 2 ^ 64

abbrev pub put_entry : ℕ → Dprog → Cache → Cache
put_entry k e c = record c { entries = update c.entries k e }

-- What the code gives back.
pub data Freed : Type 0 where
  shmem_free : ℕ → Freed
  release_program : Program → Freed

-- The last entry of a list that no one refers to.
pub last_unused : (ℕ → Dprog) → List ℕ → Option ℕ
last_unused entries [] = none
last_unused entries (k ∷ ks) = elim (last_unused entries ks) [
  | some v ↦ some v
  | none ↦ if lt_int (pos 0) ((entries k).refcnt) then none else some k
]

-- The length that is given back for an entry; `head` is `offsetof(devprog_entry, source)`.
abbrev pub reclaimed_length : ℕ → Dprog → ℕ
reclaimed_length head e = elim e.errmsg [
  | none ↦ head + e.source_len
  | some (a, n) ↦ head + e.source_len + n
]

abbrev pub freed_of : Dprog → List Freed
freed_of e = elim e.errmsg [
  | none ↦ release_program e.program ∷ []
  | some (a, n) ↦ shmem_free a ∷ release_program e.program ∷ []
]

unfoldable pub reclaim_devprog : ℕ → ℕ → Bool → Cache → Run (Cache × List Freed)
unfolding last_unused
reclaim_devprog head reclaim_threshold is_server c =
    check is_server
    >> (if ltb c.usage reclaim_threshold
        then done (c, [])
        else elim (last_unused c.entries c.lru_list) [
          | none ↦ done (c, [])
          | some k ↦
              let e = c.entries k in
              let i = e.crc % devprog_hash_size in
              check (eq_int e.refcnt (pos 0))
              >> done (
                record c {
                  usage = size_sub c.usage (reclaimed_length head e);
                  lru_list = erase k c.lru_list;
                  slot = update c.slot i (erase k (c.slot i));
                },
                freed_of e,
              )
        ])

-- `strcmp(a, b) == 0`
unfoldable pub same_source : List ℕ → List ℕ → Bool
same_source [] [] = true
same_source [] (y ∷ ys) = false
same_source (x ∷ xs) [] = false
same_source (x ∷ xs) (y ∷ ys) = (x == y) && same_source xs ys

unfoldable pub is_program : ℕ → ℤ → List ℕ → Dprog → Bool
unfolding same_source
is_program crc flags source e =
    (e.crc == crc)
    && eq_int e.extra_flags flags
    && (e.source_len == length source)
    && same_source e.source source

-- The first entry of a slot with a source.
unfoldable pub find_program : ℕ → ℤ → List ℕ → (ℕ → Dprog) → List ℕ → Option ℕ
unfolding is_program
find_program crc flags source entries [] = none
find_program crc flags source entries (k ∷ ks) =
    let rest = find_program crc flags source entries ks in
    if is_program crc flags source (entries k) then some k else rest

-- One pass of `pgstrom_get_devprog_key` from `retry` on, with the entry that the caller has made,
-- if it is the second pass. It gives the key, if there is one, and what is freed.
unfoldable pub search_or_insert : ℕ → ℤ → List ℕ → Option ℕ → Cache → Cache × Option ℕ × List Freed
unfolding find_program
search_or_insert crc flags source own c =
    let i = crc % devprog_hash_size in
    elim (find_program crc flags source c.entries (c.slot i)) [
      | some k ↦ (
        record (put_entry k (record (c.entries k) { refcnt = suc_int (c.entries k).refcnt }) c) {
          lru_list = k ∷ erase k c.lru_list;
        },
        some k,
        elim own [ none ↦ [] | some d ↦ shmem_free d ∷ [] ],
      )
      | none ↦ elim own [
        | none ↦ (c, none, [])
        | some d ↦ (
          record c { slot = update c.slot i (c.slot i ++ d ∷ []); lru_list = d ∷ c.lru_list },
          some d,
          [],
        )
      ]
    ]

abbrev pub new_entry : ℕ → ℤ → List ℕ → Dprog
new_entry crc flags source = record {
  refcnt = pos 1;
  waitq = [];
  program = no_program;
  build_running = false;
  errmsg = none;
  crc = crc;
  extra_flags = flags;
  source_len = length source;
  source = source;
}

-- `pgstrom_get_devprog_key`. `crc_of` is the checksum of the flags and the source, `allocated` what
-- `pgstrom_shmem_alloc` gives, and `meanwhile` what other processes do to the cache between the two
-- passes. The key is none after the error for want of memory.
unfoldable pub get_devprog_key :
    ℕ
    → (ℤ → List ℕ → ℕ)
    → (Cache → Cache)
    → Option ℕ
    → List ℕ
    → ℤ
    → Cache
    → Cache × Option ℕ × List Freed
unfolding search_or_insert
get_devprog_key head crc_of meanwhile allocated source flags c =
    let crc = crc_of flags source in
    let (c1, key, freed) = search_or_insert crc flags source none c in
    elim key [
      | some k ↦ (c1, some k, freed)
      | none ↦ elim allocated [
        | none ↦ (c1, none, [])
        | some d ↦
            let c2 = put_entry d (new_entry crc flags source) (meanwhile c1) in
            search_or_insert crc flags source (some d)
              (record c2 { usage = size_add c2.usage (head + length source + 1) })
      ]
    ]

unfoldable pub put_devprog_key : ℕ → Cache → Run Cache
put_devprog_key k c =
    let r = pred_int ((c.entries k).refcnt) in
    if lt_int r (pos 0) then fault else done (put_entry k (record (c.entries k) { refcnt = r }) c)

unfoldable pub retain_devprog_key : ℕ → Cache → Run (Cache × ℕ)
retain_devprog_key k c =
    let r = (c.entries k).refcnt in
    if lt_int r (pos 0)
    then fault
    else done (put_entry k (record (c.entries k) { refcnt = suc_int r }) c, k)

unfoldable pub get_devprog_errmsg : ℕ → Cache → Run (Option (ℕ × ℕ))
get_devprog_errmsg k c =
    if lt_int ((c.entries k).refcnt) (pos 0) then fault else done (c.entries k).errmsg

-- A key of 0 is `NULL`.
unfoldable pub get_devprog_extra_flags : ℕ → Cache → ℤ
get_devprog_extra_flags k c = if k == 0 then pos 0 else (c.entries k).extra_flags

unfoldable pub get_devprog_kernel_source : ℕ → Cache → Option (List ℕ)
get_devprog_kernel_source k c = if k == 0 then none else some (c.entries k).source

-- The state that `pgstrom_opencl_program_info` shows of an entry.
pub data ProgramState : Type 0 where
  not_built build_error build_running_now program_ready : ProgramState

unfoldable pub program_state : Dprog → ProgramState
program_state e = elim e.program [
  | no_program ↦ not_built
  | bad_program ↦ build_error
  | program_at p ↦ if e.build_running then build_running_now else program_ready
]
