-- ===== src/Tests/PolicyTests.antt =====
-- Tests and examples for the store of the route policies and the histories.
use pelican_mc_router.Prelude.{
  ℕ, ◌≡◌, ◌≢◌, refl, none, some, [], ◌∷◌, arith, ok, err, all, any, contains, distinct,
}
use pelican_mc_router.Prelude.Int.{pos, int_eq}
use pelican_mc_router.Prelude.Dict.{lookup, insert, erase, has}
use pelican_mc_router.Text.{text, text_eq, trim_space}
use pelican_mc_router.Text.Sort.{sort_strings}
use pelican_mc_router.Storage.{Database, statement, transaction}
use pelican_mc_router.RoutePolicy.Store.{
  PolicyTables, create, update, delete, validate, aliases_of, without_server, list_aliases,
  insert_alias, insert_aliases, replace_aliases, insert_row, update_row, get, update_rows,
  refuse_update, delete_rows,
}
use pelican_mc_router.RoutePolicy.Store.Update.{IsOptimistic, update-IsOptimistic}
use pelican_mc_router.RoutePolicy.Store.Create.{IsCreated, create-IsCreated, update-conflicts}
use pelican_mc_router.RoutePolicy.Store.Invariant.{
  IsValid, here, next, creates, deletes, facing, Reach-IsValid,
}
use pelican_mc_router.History
use pelican_mc_router.History.Laws.{IsOrdered, KeepsNewest, append_event-IsOrdered}
use pelican_mc_router.Tests.Data.{ascii, alias_policy}

-- Opens what the operations of the store run.
stored_operations : Unit {0}
unfolding create update delete validate aliases_of without_server list_aliases insert_alias
    insert_aliases replace_aliases insert_row update_row get update_rows refuse_update delete_rows
    statement transaction text_eq int_eq trim_space sort_strings contains distinct any all lookup
    insert erase has
stored_operations = tt

abbrev no_policies : PolicyTables
no_policies = record { policies = []; aliases = [] }

abbrev policy_db : Database PolicyTables
policy_db = facing no_policies []

abbrev created_db : Database PolicyTables
created_db = (create alias_policy policy_db).1

create_test : (create alias_policy policy_db).0 ≡ ok alias_policy
unfolding stored_operations
create_test = refl

-- The commit fails.
create_fails :
    (create alias_policy
      (facing no_policies (none ∷ none ∷ none ∷ none ∷ some (text "disk full") ∷ []))).1.tables
    ≡ no_policies
unfolding stored_operations
create_fails = refl

update_test :
    (update alias_policy (pos 1) created_db).0 ≡ ok (record alias_policy { revision = pos 2 })
unfolding stored_operations
update_test = refl

create-IsCreated_example :
    IsCreated alias_policy policy_db.tables
      (create alias_policy policy_db).0
      (create alias_policy policy_db).1.tables
create-IsCreated_example = create-IsCreated alias_policy policy_db

update-IsOptimistic_example :
    IsOptimistic alias_policy
      (pos 1)
      created_db.tables
      (update alias_policy (pos 1) created_db).0
      (update alias_policy (pos 1) created_db).1.tables
update-IsOptimistic_example = update-IsOptimistic alias_policy (pos 1) created_db

update-conflicts_example :
    (update alias_policy (pos 1) (update alias_policy (pos 1) created_db).1).0 ≢ ok alias_policy
update-conflicts_example =
    update-conflicts alias_policy alias_policy (pos 1) created_db
      (record alias_policy { revision = pos 2 }) alias_policy refl update_test

empty-IsValid : IsValid no_policies
unfolding lookup aliases_of
empty-IsValid = record { owned = λ uuid h. refl; positive = λ uuid row h. absurd (ground arith) }

Reach-IsValid_example :
    IsValid
      (delete
        (text "u-1")
        (pos 1)
        (facing (create alias_policy (facing no_policies [])).1.tables [])).1.tables
Reach-IsValid_example =
    Reach-IsValid empty-IsValid
      (next (next here (creates alias_policy [] refl)) (deletes (text "u-1") (pos 1) [] refl))

abbrev one_row : History.Table ℕ
one_row = record { rows = record { id = 4; occurred_at = 70; event = 1 } ∷ []; next_id = 5 }

abbrev history_db : Database (History.Table ℕ)
history_db = record { tables = one_row; faults = [] }

-- An event of an earlier time is sorted behind, and dropped if only one is kept.
append_test : (History.append_event 1 60 2 history_db).1.tables.rows ≡ one_row.rows
unfolding History.append_event History.insert_row History.is_newer History.take statement
    transaction
append_test = refl

one_row-IsOrdered : IsOrdered one_row
one_row-IsOrdered = record { newest = omega arith; keyed = omega arith }

append_event-IsOrdered_example :
    ((e : History.HistoryError)
      → (History.append_event 2 60 2 history_db).0 ≡ err e
      → (History.append_event 2 60 2 history_db).1.tables ≡ one_row)
    × ((key : ℕ)
        → (History.append_event 2 60 2 history_db).0 ≡ ok key
        → (key ≡ 5)
          × KeepsNewest 2 60 2 one_row (History.append_event 2 60 2 history_db).1.tables
          × IsOrdered (History.append_event 2 60 2 history_db).1.tables)
append_event-IsOrdered_example = append_event-IsOrdered 2 60 2 history_db one_row-IsOrdered
