-- ===== src/RoutePolicy/Store/Rows.antt =====
-- About the statements of backend/internal/routepolicy/store.go: the rows that they leave.
use mathlib.Core.List.{append_assoc, append-nil}
use pelican_mc_router.Prelude.{◌≡◌, refl, some, List, [], ◌∷◌, ◌++◌, map, arith, ==-self, ok}
use pelican_mc_router.Prelude.Dict.{lookup}
use pelican_mc_router.Prelude.Int.{int_eq}
use pelican_mc_router.Text.{Text, text_eq, Unicode}
use pelican_mc_router.Text.Sort.{sort_strings}
use pelican_mc_router.Models.{Policy}
use pelican_mc_router.Storage.{Database, called, statement}
use pelican_mc_router.RoutePolicy.Store.{
  PolicyRow, PolicyTables, aliases_of, without_server, list_aliases, policy_of, insert_alias,
  insert_aliases, replace_aliases, get,
}

abbrev pub alias_rows : Text → List Text → List (Text × Text)
alias_rows uuid aliases = map (λ (a : Text). (uuid, a)) aliases

-- The aliases table once a server's aliases are replaced.
abbrev pub replaced : Text → List Text → List (Text × Text) → List (Text × Text)
replaced uuid aliases rows = without_server uuid rows ++ alias_rows uuid aliases

pub aliases_of-append :
    (uuid : Text) (xs ys : List (Text × Text))
    → aliases_of uuid (xs ++ ys) ≡ aliases_of uuid xs ++ aliases_of uuid ys
unfolding aliases_of
aliases_of-append uuid [] ys = refl
aliases_of-append uuid (x ∷ xs) ys = ground (arith, aliases_of-append uuid xs ys)

aliases_of-rows :
    (uuid : Text) (aliases : List Text) → aliases_of uuid (alias_rows uuid aliases) ≡ aliases
unfolding aliases_of
aliases_of-rows uuid [] = refl
aliases_of-rows uuid (a ∷ aliases) = ground (arith, aliases_of-rows uuid aliases, ==-self uuid)

pub aliases_of-without :
    (uuid : Text) (rows : List (Text × Text)) → aliases_of uuid (without_server uuid rows) ≡ []
unfolding aliases_of without_server
aliases_of-without uuid [] = refl
aliases_of-without uuid (r ∷ rows) = ground (arith, aliases_of-without uuid rows)

-- A server's aliases are those that replaced its own.
pub aliases_of-replaced :
    (uuid : Text) (aliases : List Text) (rows : List (Text × Text))
    → aliases_of uuid (replaced uuid aliases rows) ≡ aliases
aliases_of-replaced uuid aliases rows =
    rw
      (
        aliases_of-append uuid (without_server uuid rows) (alias_rows uuid aliases),
        aliases_of-without uuid rows,
      )
      (aliases_of-rows uuid aliases)

insert_aliases-eq-ok :
    (uuid : Text) (aliases : List Text) (db : Database PolicyTables)
    → (insert_aliases uuid aliases db).0 ≡ ok tt
    → (insert_aliases uuid aliases db).1.tables
      ≡ record db.tables { aliases = db.tables.aliases ++ alias_rows uuid aliases }
unfolding insert_aliases insert_alias statement
insert_aliases-eq-ok uuid [] db h = ground (arith, append-nil db.tables.aliases)
insert_aliases-eq-ok uuid (a ∷ aliases) db h =
    let added : PolicyTables = record db.tables { aliases = db.tables.aliases ++ (uuid, a) ∷ [] } in
    ground (
      arith,
      insert_aliases-eq-ok uuid aliases (record (called db) { tables = added }),
      append_assoc db.tables.aliases ((uuid, a) ∷ []) (alias_rows uuid aliases),
    )

pub replace_aliases-eq-ok :
    (uuid : Text) (aliases : List Text) (db : Database PolicyTables)
    → (replace_aliases uuid aliases db).0 ≡ ok tt
    → (replace_aliases uuid aliases db).1.tables
      ≡ record db.tables { aliases = replaced uuid aliases db.tables.aliases }
unfolding replace_aliases statement
replace_aliases-eq-ok uuid aliases db h =
    let cleared : PolicyTables = record db.tables {
      aliases = without_server uuid db.tables.aliases;
    } in
    ground (arith, insert_aliases-eq-ok uuid aliases (record (called db) { tables = cleared }))

-- Reading changes no row, and gives what the rows hold.
pub get-reads :
    ⦃u : Unicode⦄ (uuid : Text) (db : Database PolicyTables)
    → ((get uuid db).1.tables ≡ db.tables)
      × ((q : Policy) (row : PolicyRow)
          → (get uuid db).0 ≡ ok q
          → lookup uuid db.tables.policies ≡ some row
          → q ≡ policy_of uuid row (sort_strings (aliases_of uuid db.tables.aliases)))
unfolding get list_aliases statement
get-reads uuid db = (ground arith, λ q row h there. ground arith)
