-- ===== src/Devprog/Key.antt =====
-- The keys of the program cache and the entries that they name.
use pg_strom.Prelude.{ℕ, ◌≡◌, Option, none, some, List, ◌%◌}
use pg_strom.Prelude.Int.{ℤ}
use pg_strom.Devprog.{Cache, Freed, find_program, devprog_hash_size}

module _ (crc : ℕ) (flags : ℤ) (source : List ℕ) where
  -- After a pass that gives a key, the first entry with the source is the entry of the key.
  abbrev Found : Cache × Option ℕ × List Freed → Type 0
  Found (c', none, freed) = Unit
  Found (c', some k, freed) =
      find_program crc flags source c'.entries (c'.slot (crc % devprog_hash_size)) ≡ some k
