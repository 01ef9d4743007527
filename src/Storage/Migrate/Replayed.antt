-- ===== src/Storage/Migrate/Replayed.antt =====
-- About what `Migrate` of backend/internal/storage/sqlite/migrate.go leaves in the database.
use pelican_mc_router.Prelude.{
  ◌≡◌, inl, inr, true, Option, List, map, arith, distinct, Result, ok, Result-cases, Option-cases,
}
use pelican_mc_router.Prelude.Dict.{keys}
use pelican_mc_router.Text.{Text, text_eq}
use pelican_mc_router.Storage.{Database, ◌>>=◌, statement}
use pelican_mc_router.Storage.Laws.{Keeps, statement-Keeps, bind-Keeps}
use pelican_mc_router.Storage.Migrate.{
  Entry, MigrationTable, Schema, MigrateError, check_table_failed, list_applied_failed,
  create_table_failed, prepare, create_migrations, has_table, on_table, create_table, add_column,
  ensure_checksum, migrate_entries, sort_entries, known_versions, reject_unknown_migrations,
  migrate,
}
use pelican_mc_router.Storage.Migrate.Scripts.{
  script_of, replay, keys-blank_rows, IsScript, All-IsScript,
}
use pelican_mc_router.Storage.Migrate.Replaying.{
  IsReplayed, on_table-keeps, reading-Keeps, migrate_entries-Keeps,
}
use pelican_mc_router.Storage.Migrate.Sorting.{All-sort_entries}
use pelican_mc_router.Storage.Migrate.Rejected.{reject_rows-keeps}

module _ {S : Type 0} (exec : Text → S → Result Text S) (sha256 : Text → Text)
    (script : Text → Option Text) (base : S) where
  abbrev Held : Schema S → Type 0
  Held = IsReplayed exec script base

  -- A statement on the table that leaves the versions as they are.
  create_table-Held :
      (t t1 : Schema S) (u : Unit {0}) → create_table exec sha256 t ≡ ok (u, t1) → Held t → Held t1
  unfolding create_table replay keys
  create_table-Held t t1 u h held = elim (Option-cases t.migrations) [
    | inl absent ↦ ground arith
    | inr (m, there) ↦ ground arith
  ]

  add_column-keys :
      (m m1 : MigrationTable) (u : Unit {0})
      → add_column m ≡ ok (u, m1)
      → keys m1.rows ≡ keys m.rows
  unfolding add_column
  add_column-keys m m1 u h = ground (arith, keys-blank_rows m.rows)

  ensure_checksum-Keeps : Keeps Held (ensure_checksum exec sha256)
  unfolding ensure_checksum
  ensure_checksum-Keeps db held =
      let altered =
        statement-Keeps {E = Text} Held (λ e. e) (on_table exec sha256 add_column)
          (on_table-keeps exec sha256 script base add_column add_column-keys) db held in
      ground (arith, altered)

  reject_unknown_migrations-Keeps :
      (known : List Text) → Keeps Held (reject_unknown_migrations exec sha256 known)
  unfolding reject_unknown_migrations statement
  reject_unknown_migrations-Keeps known db held =
      let db1 : Database (Schema S) =
        (statement {E = MigrateError} check_table_failed
          (λ (t : Schema S). ok (has_table exec sha256 t, t)) db).1 in
      let unread : db1.tables ≡ db.tables = ground arith in
      let held1 : Held db1.tables = rw unread held in
      let listed =
        reading-Keeps exec sha256 script base list_applied_failed (λ m. keys m.rows) db1 held1 in
      elim (Result-cases
        (statement list_applied_failed (on_table exec sha256 (λ m. ok (keys m.rows, m))) db1).0) [
          | inr (e, bad) ↦ ground arith
          | inl (versions, good) ↦ ground (
            arith,
            reject_rows-keeps exec sha256 known versions
                (statement list_applied_failed (on_table exec sha256 (λ m. ok (keys m.rows, m)))
                  db1).1,
          )
        ]

  prepare-Keeps : (known : List Text) → Keeps Held (prepare exec sha256 known)
  unfolding prepare create_migrations
  prepare-Keeps known =
      bind-Keeps Held (reject_unknown_migrations exec sha256 known)
        (λ _. create_migrations exec sha256 >>= (λ _. ensure_checksum exec sha256))
        (reject_unknown_migrations-Keeps known)
        (λ _.
          bind-Keeps Held (create_migrations exec sha256) (λ _. ensure_checksum exec sha256)
            (statement-Keeps Held create_table_failed (create_table exec sha256) create_table-Held)
            (λ _. ensure_checksum-Keeps))

-- The entries have one name each. If the database is what the scripts of its recorded versions make of
-- `base`, then it is so after the migration too, whether that succeeds or stops at a script, a checksum or
-- a failed call of the driver: no script is left half done, or done without its record.
pub migrate-IsReplayed :
    {S : Type 0} (exec : Text → S → Result Text S) (sha256 : Text → Text) (base : S)
    (entries : List Entry) (db : Database (Schema S))
    → distinct (map (λ (e : Entry). e.name) entries) ≡ true
    → IsReplayed exec (script_of entries) base db.tables
    → IsReplayed exec (script_of entries) base (migrate exec sha256 (ok entries) db).1.tables
unfolding migrate
migrate-IsReplayed {S} exec sha256 base entries db named =
    let script : Text → Option Text = script_of entries in
    bind-Keeps (IsReplayed exec script base) (prepare exec sha256 (known_versions entries))
      (λ _. migrate_entries exec sha256 (sort_entries entries))
      (prepare-Keeps exec sha256 script base (known_versions entries))
      (λ _.
        migrate_entries-Keeps exec sha256 script base (sort_entries entries)
          (All-sort_entries (IsScript script) entries (All-IsScript entries named)))
      db
