-- ===== src/Devprog/Build.antt =====
-- The builds of device programs in opencl_devprog.c: `clserv_lookup_device_program` and the
-- callback at the end of a build, which gives the waiting messages back to the server. What OpenCL
-- answers is given from outside.
pub mod Wake
use pg_strom.Prelude.{
  ℕ, zero, suc, Bool, true, false, Option, none, some, List, [], ◌∷◌, ◌++◌, if◌then◌else◌, leb,
  ◌==◌,
}
use pg_strom.Prelude.Int.{ℤ, pos}
use pg_strom.Prelude.Run.{Run, done, fault, check, ◌>>=◌, ◌>>◌}
use pg_strom.Mqueue.Store.{Message, Store, put_message_at, add_timeval_diff}
use pg_strom.Mqueue.Message.{enqueue_message}
use pg_strom.Devprog.{
  Program, no_program, bad_program, program_at, Dprog, Cache, Freed, release_program, put_entry,
  size_add, reclaim_devprog,
}

-- What `clGetProgramBuildInfo` says of a device. A build error comes with the length of its log, and
-- with what the allocation of that length and one byte gives.
pub data BuildStatus : Type 0 where
  build_success query_failed unexpected_status : BuildStatus
  build_error : ℕ → Option ℕ → BuildStatus

-- The loop over the devices: whether all are built, the message that is kept, and the usage.
pub check_devices : List BuildStatus → ℕ → Bool × Option (ℕ × ℕ) × ℕ
check_devices [] usage = (true, none, usage)
check_devices (build_success ∷ ss) usage = check_devices ss usage
check_devices (query_failed ∷ ss) usage = (false, none, usage)
check_devices (unexpected_status ∷ ss) usage = (false, none, usage)
check_devices (build_error n none ∷ ss) usage = (false, none, usage)
check_devices (build_error n (some a) ∷ ss) usage = (false, some (a, n), size_add usage n)

-- `msg->pfm.time_kern_build += timeval_diff(&msg->pfm.tv, &tv)`, if performance is monitored.
abbrev pub count_kern_build : ℕ → Message → Message
count_kern_build now v =
    if v.perf_enabled
    then record v { time_kern_build = add_timeval_diff v.time_kern_build v.stamp now }
    else v

-- The waiting messages go to the server queue, in order. `timed` says whether the time of the build
-- is counted.
pub wake_all : Bool → ℕ → List ℕ → Store → Run Store
unfolding enqueue_message
wake_all timed now [] s = done s
wake_all timed now (m ∷ ms) s =
    enqueue_message true now m
      (if timed then put_message_at m (count_kern_build now (s.messages m)) s else s)
    >>= λ (t, accepted). wake_all timed now ms t

-- `clserv_devprog_build_callback` for the entry `k`, whose program is `p`.
unfoldable pub build_callback :
    List BuildStatus → ℕ → ℕ → ℕ → Cache → Store → Run (Cache × Store × List Freed)
unfolding check_devices wake_all
build_callback statuses now k p c s =
    let (built, message, usage') = check_devices statuses c.usage in
    let e = c.entries k in
    let c' = record c { usage = usage' } in
    elim e.program [
      | no_program ↦ fault
      | bad_program ↦ fault
      | program_at q ↦ check (q == p) >> wake_all built now e.waitq s >>= λ t. done (
          if built
          then (put_entry k (record e { waitq = []; build_running = false }) c', t, [])
          else (
            put_entry k
                (record e {
                  waitq = [];
                  build_running = false;
                  errmsg = message;
                  program = bad_program;
                })
                c',
            t,
            release_program (program_at p) ∷ [],
          ))
    ]

-- How `clBuildProgram` ends: the build goes on, or the callback has run before the return, or the
-- build was not started. The flag says whether the call succeeds.
pub data BuildCall : Type 0 where
  runs_on not_started : BuildCall
  called_back : Bool → List BuildStatus → BuildCall

-- The part of the lookup that follows a failed `clBuildProgram`.
abbrev pub build_failed : ℕ → ℕ → ℕ → Cache → Store → Run (Cache × Store × Program × List Freed)
build_failed now k p c s =
    let e = c.entries k in
    if e.build_running
    then (wake_all true now e.waitq s >>= λ t. done (
      put_entry k (record e { waitq = []; build_running = false; program = bad_program }) c,
      t,
      bad_program,
      release_program (program_at p) ∷ [],
    ))
    else elim e.waitq [ [] ↦ done (c, s, no_program, []) | m ∷ ms ↦ fault ]

-- The lookup from the lock on, for the message `m`. `create` is what `clCreateProgramWithSource`
-- gives, `retained` whether `clRetainProgram` succeeds.
unfoldable pub lookup_entry :
    Option ℕ
    → BuildCall
    → Bool
    → ℕ
    → ℕ
    → ℕ
    → Cache
    → Store
    → Run (Cache × Store × Program × List Freed)
unfolding build_callback
lookup_entry create call retained now k m c s =
    let e = c.entries k in
    elim e.program [
      | no_program ↦ elim create [
        | none ↦ done (put_entry k (record e { program = bad_program }) c, s, bad_program, [])
        | some p ↦
            let c1 =
              put_entry k
                (record e {
                  program = program_at p;
                  build_running = true;
                  waitq = e.waitq ++ m ∷ [];
                })
                c in
            elim call [
              | runs_on ↦ done (c1, s, no_program, [])
              | not_started ↦ build_failed now k p c1 s
              | called_back ok statuses ↦ build_callback statuses now k p c1 s >>= λ (c2, t, freed).
                  if ok
                  then done (c2, t, no_program, freed)
                  else build_failed now k p c2 t >>= λ (c3, u, r, freed').
                      done (c3, u, r, freed ++ freed')
            ]
      ]
      | bad_program ↦ done (c, s, bad_program, [])
      | program_at p ↦
          if e.build_running
          then done (put_entry k (record e { waitq = e.waitq ++ m ∷ [] }) c, s, no_program, [])
          else (let s' = put_message_at m (count_kern_build now (s.messages m)) s in
              done (c, s', if retained then program_at p else bad_program, []))
    ]

-- `clserv_lookup_device_program`. A null program means that the message waits for a build.
unfoldable pub lookup_device_program :
    ℕ
    → ℕ
    → Option ℕ
    → BuildCall
    → Bool
    → ℕ
    → ℕ
    → ℕ
    → Cache
    → Store
    → Run (Cache × Store × Program × List Freed)
unfolding lookup_entry
lookup_device_program head reclaim_threshold create call retained now k m c s =
    let v = s.messages m in
    let s1 = put_message_at m (if v.perf_enabled then record v { stamp = now } else v) s in
    (if leb reclaim_threshold c.usage
      then reclaim_devprog head reclaim_threshold true c
      else done (c, []))
    >>= λ (c1, freed). lookup_entry create call retained now k m c1 s1 >>= λ (c2, t, r, freed').
        done (c2, t, r, freed ++ freed')
