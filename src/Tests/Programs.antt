-- ===== src/Tests/Programs.antt =====
-- The program cache with two entries.
use pg_strom.Prelude.{
  ℕ, ◌≡◌, refl, true, false, none, some, List, [], ◌∷◌, ◌==◌, if◌then◌else◌, Bool-cases, inl, inr,
}
use pg_strom.Prelude.Int.{ℤ, pos, lt_int}
use pg_strom.Prelude.Run.{Returns}
use pg_strom.Mqueue.Store.{Store}
use pg_strom.Devprog.{
  Program, no_program, program_at, Dprog, Cache, get_devprog_key, reclaim_devprog,
}
use pg_strom.Devprog.Reclaim.{Reclaimed, reclaim_devprog-Reclaimed}
use pg_strom.Devprog.Build.{BuildStatus, build_success, build_error, build_callback}
use pg_strom.Devprog.Build.Wake.{Ended, first_failure, Woken, build_callback-Woken}

abbrev entry : ℕ → Program → Dprog
entry k p = record {
  refcnt = if k == 3000 then pos 0 else pos 1;
  waitq = if k == 2000 then 10 ∷ 11 ∷ [] else [];
  program = p;
  build_running = k == 2000;
  errmsg = none;
  crc = 4;
  extra_flags = pos 512;
  source_len = 1;
  source = k ∷ [];
}

-- The entry at 2000 is being built, the one at 3000 is built and unused.
abbrev cache : Cache
cache = record {
  usage = 5000;
  lru_list = 2000 ∷ 3000 ∷ [];
  slot = λ i. if i == 4 then 3000 ∷ 2000 ∷ [] else [];
  entries = λ k. entry k (if k == 4000 then no_program else program_at 9);
}

abbrev idle : Store
idle = record {
  queues =
      λ q. record { owner = pos 100; refcnt = pos 1; qhead = []; closed = false; linked = false };
  messages = λ m. record {
    holders = pos 2;
    errcode = pos 0;
    respq = 5;
    perf_enabled = true;
    stamp = 3;
    time_in_sendq = 0;
    time_kern_build = 0;
    time_in_recvq = 0;
  };
  blocks_list = [];
  free_queue_list = [];
  num_free = 0;
  num_active = 2;
}

abbrev four : ℤ → List ℕ → ℕ
four flags source = 4

abbrev alone : Cache → Cache
alone c = c

-- The cache after a call for a new source.
abbrev after_call : Cache
after_call = (get_devprog_key 100 four alone (some 6000) (66 ∷ []) (pos 512) cache).0

not_negative : (k : ℕ) → lt_int ((cache.entries k).refcnt) (pos 0) ≡ false
not_negative k = elim (Bool-cases (k == 3000)) [ inl e ↦ rw e refl | inr e ↦ rw e refl ]

reclaim_devprog-Reclaimed_example :
    Returns (Reclaimed 100 4096 cache) (reclaim_devprog 100 4096 true cache)
reclaim_devprog-Reclaimed_example = reclaim_devprog-Reclaimed 100 4096 cache not_negative

abbrev statuses : List BuildStatus
statuses = build_success ∷ build_error 30 (some 8192) ∷ []

build_callback-Woken_example :
    Returns
      (λ (c', t, freed).
        Woken (10 ∷ 11 ∷ []) idle t
        × ((c'.entries 2000).waitq ≡ [])
        × ((c'.entries 2000).build_running ≡ false)
        × Ended 2000 9 cache (first_failure statuses) c' freed)
      (build_callback statuses 77 2000 9 cache idle)
build_callback-Woken_example =
    build_callback-Woken statuses 77 2000 9 cache idle refl refl (λ m h. refl)
