-- ===== src/Lib.antt =====
-- Verification of PG-Strom, an extension of PostgreSQL that runs scans on devices through OpenCL. A
-- backend makes a message for a chunk of rows and enqueues it to the OpenCL server, a process of its
-- own, which builds the device program, runs the kernel, and replies through the backend's queue.
-- Messages, queues, programs and rows lie in one shared memory segment with its own allocator, and
-- each backend keeps track of what it holds there, to give it back when its transaction is aborted.
--
-- Prelude: tests, lists, powers and `bit_xor` on the native numbers, C integers, and `Run`, the
--   outcome of code that asserts: a value, or a fault for a failed `Assert` or an access out of
--   bounds.
-- Shmem: shmem.c. A zone is a record of its blocks, its free lists and its statistics, a block is
--   named by its index, and `mem` is the bytes behind the addresses. Size is `find_least_pot`,
--   Zone the macros and list operations, Buddy the functions pgstrom_shmem_zone_block_split, _alloc
--   and _free, Pool the public calls that choose a zone, Setup pgstrom_setup_shmem. Valid is the
--   invariant of a zone, over the geometry of Tiling.
-- Device: the error codes of opencl_common.h and the work-group routines of opencl_gpuscan.h. Local
--   memory is a function of the thread, and a barrier ends each round.
-- Restrack: restrack.c, the hash table of tracked objects and the sweep on abort. A release is an
--   event in a list.
-- Mqueue: mqueue.c. Store is the shared state, Message enqueueing, replies and dequeueing, Queue the
--   life of a queue, Wait pgstrom_sync_dequeue_message, Info the rows of pgstrom_mqueue_info. The
--   callback `cb_release` of a message is an argument.
-- Devprog: opencl_devprog.c, the cache of device programs, with the lookup and the build callback in
--   Build. What OpenCL answers, the checksum, and what other processes do in between are arguments.
-- Tests: runs at concrete inputs.
--
-- A function that takes a lock runs as one step under it. Integers are native numbers: a `Size`
-- wraps at 2 ^ 64 and a `uint32` at 2 ^ 32 where the code adds and subtracts; a reference counter is
-- a signed integer that does not overflow, addresses do not wrap, and neither does the number of
-- items of a result buffer. A row number is cut to a cl_int where it is stored in a result buffer.
--
-- Fuel: the rounds of a split, a merge, an allocation and the set-up of a zone are bounded by the
-- number of classes, zones and blocks, which the definitions pass themselves. The loops of a
-- work-group halve a number below 2 ^ 32, so 32 rounds are enough. The wait for a message takes one
-- round for each 200 milliseconds of its timeout and one more, and the closing of the server queue
-- one for each message and one more: their fuel is an argument.
--
-- tcache.c is Tcache: the columnar cache of a relation. A tree of nodes, each with the address of
-- a column store in a heap of shared objects, stands for the linked nodes; rows are functions of
-- the index, as the arrays are. The item pointers of PostgreSQL are a parameter, a type with a
-- comparison and a block number, of which theorems assume that the comparison is that of an order.
-- Tcache/Find is tcache_find_next_internal and tcache_find_prev_internal, Tcache/Balance
-- tcache_rebalance_tree, Tcache/Record tcache_find_next_record, Tcache/Sort tcache_sort_tcnode,
-- Tcache/Compaction tcache_compaction_tcnode, Tcache/Split tcache_split_tcnode, Tcache/Merge
-- tcache_try_merge_tcnode, Tcache/Insert tcache_insert_tuple and tcache_build_main, Tcache/Scan
-- tcache_scan_next and tcache_scan_prev, and Tcache/Rowstore tcache_row_store_insert_tuple with,
-- in Tcache/Current, tcache_insert_tuple_row, which has two rounds. Tcache/Head is the choice of
-- the columns of a cache in tcache_create_tchead and the test of tcache_get_tchead whether a cache
-- has those of a request, over the sets of PostgreSQL as an interface; its loop takes a round for
-- each member of the set, and has its fuel as an argument, since not every request lets it end.
-- Tcache/Store is tcache_create_column_store, with the offsets of the arrays that it lays out, and
-- Tcache/Bitmap is bitswap. The binary search has a round more than there are rows; the loops of
-- the sort have as many rounds as a column store holds rows, since each shortens its range; an
-- insertion has two rounds, one before and one behind a split. A node that the code allocates, and
-- what an allocation of the segment gives, are arguments; a row is its item pointer, its
-- header and the values of its columns of fixed length, and toast buffers are sizes and reference
-- counters. The null maps of column stores and the values of variable length, with their copies by
-- bitmapcopy and tcache_copy_cs_varlena, are no part of a row.
--
-- datastore.c: Datastore is pgstrom_create_kern_parambuf, over the nodes of an expression list that
-- stand for what PostgreSQL says of them. The length that enlargeStringInfo refuses to reach, with an
-- error, is an argument; PostgreSQL documents 1 GB.
--
-- codegen.c is Codegen, over expression trees whose nodes have the fields that the code reads; what
-- PostgreSQL answers (`equal`, `exprType`, the system caches, the hash functions) are records of
-- functions. Codegen/Catalog holds the catalogues of types and functions, Codegen/Setup the texts of
-- device functions as strings, Codegen/Lookup pgstrom_devtype_lookup and, in its Funcs,
-- pgstrom_devfunc_lookup with the caches that they fill, Codegen/Walker codegen_expression_walker,
-- Codegen/Expression pgstrom_codegen_expression and pgstrom_codegen_available_expression, and
-- Codegen/Declarations pgstrom_codegen_declarations. The walker uses the lookups by the interface
-- `Lookups`, which Codegen/Lookup/Funcs fills, and its theorems the laws `Answering` of Codegen/Reference
-- over any state of the caches, where the two-pass reference stands too; Codegen/Lookup/Answered is about
-- these laws for the lookups of the program, with the catalogues of PostgreSQL as a parameter. An entry
-- of the cache of functions carries the name that a template F: gives it, and a negative one no number
-- of arguments, so that it may be found for another row of pg_proc: `KeysAreUnique` of
-- Codegen/Lookup/Rows asks that the catalogues say the same of both then. A text under construction is the
-- list of what each call of appendStringInfo adds. Assertions are compiled out: where the code goes on
-- with a null pointer, the walker ends with `crash` and a lookup with `raised`. Modelled as `raised` is
-- also the error of PostgreSQL. The invalidation of the caches is not modelled.
--
-- Not modelled: the rest of the cache heads of tcache.c, with their table and their lock, its
-- bitmap copies and its vacuuming; gpuscan.c, exec.c and the loaders of datastore.c, and the parts
-- that only call PostgreSQL, OpenCL or the operating system (opencl_serv.c, opencl_entry.c,
-- opencl_devinfo.c, main.c, debug.c, the SQL functions that print).
pub mod Prelude
pub mod Shmem
pub mod Device
pub mod Restrack
pub mod Mqueue
pub mod Devprog
pub mod Tcache
pub mod Datastore
pub mod Codegen
pub mod Tests
