-- ===== src/Tests/Params.antt =====
-- A buffer of three constants, the second of which is NULL.
use pg_strom.Prelude.{ℕ, Bool, true, false, List, [], ◌∷◌, arith}
use pg_strom.Prelude.Run.{Returns}
use pg_strom.Datastore.{Parambuf, create_kern_parambuf}
use pg_strom.Datastore.Params.{consts, Created, create_kern_parambuf-Reads}

abbrev three : List (Bool × List ℕ)
three = (false, 7 ∷ 0 ∷ 0 ∷ 0 ∷ []) ∷ (true, []) ∷ (false, 1 ∷ 2 ∷ []) ∷ []

abbrev memory : Parambuf
memory = record { len = 0; data_at = λ k. 255; poffset = λ j. 255; index = 0 }

create_kern_parambuf-Reads_example :
    Returns (Created three) (create_kern_parambuf 1073741823 (consts three) memory)
create_kern_parambuf-Reads_example =
    create_kern_parambuf-Reads 1073741823 three memory (omega arith) (omega arith)
