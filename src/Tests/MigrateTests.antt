-- ===== src/Tests/MigrateTests.antt =====
-- Tests and examples for the migrations of the database.
use pelican_mc_router.Prelude.{
  ◌≡◌, ◌⊎◌, true, false, refl, inl, none, some, List, [], ◌∷◌, ◌++◌, Option, Result, ok, err,
  contains, distinct, any,
}
use pelican_mc_router.Prelude.Dict.{lookup, insert, has, keys}
use pelican_mc_router.Text.{Text, text, text_eq, has_prefix, has_suffix}
use pelican_mc_router.Text.Sort.{le_text}
use pelican_mc_router.Storage.{Database, statement, transaction}
use pelican_mc_router.Storage.Migrate.{
  Entry, MigrationTable, Schema, MigrateError, commit_migration_failed, checksum_mismatch,
  known_versions, migrate,
}
use pelican_mc_router.Storage.Migrate.Rejected.{IsRejection, migrate-refuses_newer}
use pelican_mc_router.Storage.Migrate.Scripts.{script_of, replay}
use pelican_mc_router.Storage.Migrate.Replaying.{IsReplayed}
use pelican_mc_router.Storage.Migrate.Replayed.{migrate-IsReplayed}
use pelican_mc_router.Storage.Migrate.Recorded.{recorded_checksum, migrate-records}
use pelican_mc_router.Storage.Migrate.Again.{migrate-again}
use pelican_mc_router.Storage.Connect.{open_database}

-- Opens what a migration runs.
migrating : Unit {0}
unfolding migrate statement transaction text_eq le_text contains any lookup insert has keys
    has_prefix has_suffix script_of replay known_versions distinct open_database
migrating = tt

-- A database that notes the scripts it ran, and a checksum that shows its text.
abbrev run_script : Text → List Text → Result Text (List Text)
run_script script ran = ok (ran ++ script ∷ [])

abbrev checksum : Text → Text
checksum script = b'#' ∷ script

abbrev first_script : Entry
first_script = record { name = text "0001_a.sql"; is_dir = false; contents = ok (text "one") }

abbrev second_script : Entry
second_script = record { name = text "0002_b.sql"; is_dir = false; contents = ok (text "two") }

abbrev release : List Entry
release =
    second_script
    ∷ record { name = text "notes"; is_dir = true; contents = err [] }
    ∷ first_script
    ∷ []

abbrev database_with :
    Option MigrationTable → List Text → List (Option Text) → Database (Schema (List Text))
database_with m ran faults = record {
  tables = record { migrations = m; contents = ran };
  faults = faults;
}

abbrev both_recorded : MigrationTable
both_recorded = record {
  has_checksum = true;
  rows = (text "0001_a.sql", text "#one") ∷ (text "0002_b.sql", text "#two") ∷ [];
}

abbrev fresh : Database (Schema (List Text))
fresh = database_with none [] []

-- The scripts run in the order of their names.
migrate-fresh :
    migrate run_script checksum (ok release) fresh
    ≡ (ok tt, database_with (some both_recorded) (text "one" ∷ text "two" ∷ []) [])
unfolding migrating
migrate-fresh = refl

-- An old table without checksums, of which one script was applied.
abbrev old_table : MigrationTable
old_table = record { has_checksum = false; rows = (text "0001_a.sql", []) ∷ [] }

migrate_old :
    migrate run_script checksum (ok release) (database_with (some old_table) (text "one" ∷ []) [])
    ≡ (ok tt, database_with (some both_recorded) (text "one" ∷ text "two" ∷ []) [])
unfolding migrating
migrate_old = refl

abbrev edited_table : MigrationTable
edited_table = record { has_checksum = true; rows = (text "0001_a.sql", text "#uno") ∷ [] }

migrate_edited :
    migrate run_script checksum
      (ok release)
      (database_with (some edited_table) (text "uno" ∷ []) [])
    ≡ (
      err (checksum_mismatch (text "0001_a.sql")),
      database_with (some edited_table) (text "uno" ∷ []) [],
    )
unfolding migrating
migrate_edited = refl

-- The commit of the second script fails.
abbrev failing : Database (Schema (List Text))
failing = database_with none [] (
    none
    ∷ none
    ∷ none
    ∷ none
    ∷ none
    ∷ none
    ∷ none
    ∷ none
    ∷ none
    ∷ none
    ∷ none
    ∷ none
    ∷ some (text "disk full")
    ∷ [])

migrate-failing : migrate run_script checksum (ok release) failing ≡ (
  err (commit_migration_failed (text "0002_b.sql") (text "disk full")),
  database_with
      (some (record { has_checksum = true; rows = (text "0001_a.sql", text "#one") ∷ [] }))
      (text "one" ∷ [])
      [],
)
unfolding migrating
migrate-failing = refl

migrate-IsReplayed_example :
    IsReplayed run_script
      (script_of release)
      []
      (migrate run_script checksum (ok release) failing).1.tables
unfolding migrating
migrate-IsReplayed_example = migrate-IsReplayed run_script checksum [] release failing refl refl

migrate-records_example :
    (contents : Text) × (second_script.contents ≡ ok contents)
    × (recorded_checksum second_script.name
          (migrate run_script checksum (ok release) fresh).1.tables
        ≡ some (checksum contents))
    × ((recorded_checksum second_script.name fresh.tables ≡ none)
        ⊎ (recorded_checksum second_script.name fresh.tables ≡ some [])
        ⊎ (recorded_checksum second_script.name fresh.tables ≡ some (checksum contents)))
unfolding migrating
migrate-records_example =
    migrate-records run_script checksum release fresh (λ contents. refl) refl second_script
      (inl refl) refl

migrate-again_example :
    migrate run_script checksum
      (ok release)
      (database_with (some both_recorded) (text "one" ∷ text "two" ∷ []) [])
    ≡ (ok tt, database_with (some both_recorded) (text "one" ∷ text "two" ∷ []) [])
unfolding migrating
migrate-again_example =
    migrate-again run_script checksum release fresh
      (database_with (some both_recorded) (text "one" ∷ text "two" ∷ []) []) (λ contents. refl) refl
      refl refl refl

abbrev newer_table : MigrationTable
newer_table = record {
  has_checksum = true;
  rows = (text "0001_a.sql", text "#one") ∷ (text "0009_z.sql", text "#z") ∷ [];
}

migrate-refuses_newer_example :
    (e : MigrateError) × ((migrate run_script checksum
        (ok release)
        (database_with (some newer_table) [] [])).0
      ≡ err e)
    × IsRejection e
    × ((migrate run_script checksum (ok release) (database_with (some newer_table) [] [])).1.tables
        ≡ (database_with (some newer_table) [] []).tables)
unfolding migrating
migrate-refuses_newer_example =
    migrate-refuses_newer run_script checksum release (database_with (some newer_table) [] [])
      newer_table (text "0009_z.sql") refl refl refl

-- A failed migration closes the handle.
open_failing :
    (open_database run_script checksum
      (ok release)
      (text "data/db")
      (record { database = database_with (some edited_table) [] []; handles = 2 })).1.handles
    ≡ 2
unfolding migrating
open_failing = refl
