-- ===== src/Tests/Areas.antt =====
-- A column store of two columns.
use pg_strom.Prelude.{◌≡◌, refl, true, false, none, some, List, [], ◌∷◌, arith}
use pg_strom.Prelude.Int.{pos, negsuc}
use pg_strom.Prelude.Run.{Returns, done}
use pg_strom.Tcache.Store.{Sizes, Attribute, NewStore, create_column_store}
use pg_strom.Tcache.Store.Areas.{WellPlaced, create_column_store-WellPlaced}

abbrev sizes : Sizes
sizes = record { cdata_offset = 56; item_pointer = 6; tuple_header = 23 }

-- An integer that is not null, and a text.
abbrev attributes : List Attribute
attributes =
    record { attlen = pos 4; attnotnull = true }
    ∷ record { attlen = negsuc 0; attnotnull = false }
    ∷ []

abbrev laid_out : NewStore
laid_out = record {
  address = 4096;
  refcnt = pos 1;
  ncols = 2;
  ctids = 104;
  theads = 1572968;
  cdata =
      record { isnull = none; values = 7602280 }
      ∷ record { isnull = some 8650856; values = 8683624 }
      ∷ [];
}

two_columns : create_column_store sizes attributes (λ size. some 4096) ≡ done (some laid_out)
unfolding create_column_store
two_columns = refl

no_block : create_column_store sizes attributes (λ size. none) ≡ done none
unfolding create_column_store
no_block = refl

create_column_store-WellPlaced_example :
    Returns
      (WellPlaced sizes attributes 4096)
      (create_column_store sizes attributes (λ size. some 4096))
create_column_store-WellPlaced_example =
    create_column_store-WellPlaced sizes attributes (omega arith, omega arith, omega arith)
      (omega arith) (λ size. some 4096) 4096 (omega arith, (omega arith, tt)) refl
