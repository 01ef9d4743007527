-- ===== src/Storage/Migrate/Rejected.antt =====
-- About `rejectUnknownMigrations` of backend/internal/storage/sqlite/migrate.go.
use pelican_mc_router.Prelude.{
  ◌≡◌, inl, inr, true, false, some, List, [], ◌∷◌, arith, contains, Result, ok, err, Option-cases,
  Bool-cases,
}
use pelican_mc_router.Prelude.Dict.{keys}
use pelican_mc_router.Text.{Text, text_eq}
use pelican_mc_router.Storage.{Database, statement, called, next_fault}
use pelican_mc_router.Storage.Migrate.{
  Entry, MigrationTable, Schema, MigrateError, check_table_failed, list_applied_failed,
  next_row_failed, schema_is_newer, known_versions, on_table, reject_rows,
  reject_unknown_migrations, migrate,
}

-- The schema is newer, or the table could not be read.
abbrev pub IsRejection : MigrateError → Type 0
IsRejection schema_is_newer = Unit
IsRejection (check_table_failed _) = Unit
IsRejection (list_applied_failed _) = Unit
IsRejection (next_row_failed _) = Unit
IsRejection _ = ⊥

module _ {S : Type 0} (exec : Text → S → Result Text S) (sha256 : Text → Text) where
  pub reject_rows-keeps :
      (known versions : List Text) (db : Database (Schema S))
      → (reject_rows exec sha256 known versions db).1.tables ≡ db.tables
  unfolding reject_rows statement
  reject_rows-keeps known [] db = ground arith
  reject_rows-keeps known (v ∷ versions) db =
      ground (arith, reject_rows-keeps known versions (called db))

  reject_rows-refuses :
      (known versions : List Text) (db : Database (Schema S)) (v : Text)
      → contains versions v ≡ true
      → contains known v ≡ false
      → (e : MigrateError) × ((reject_rows exec sha256 known versions db).0 ≡ err e) × IsRejection e
  unfolding reject_rows statement contains
  reject_rows-refuses known [] db v here unknown = absurd (ground arith)
  reject_rows-refuses known (u ∷ versions) db v here unknown =
      elim (Option-cases (next_fault db.faults)) [
        | inr (e, fault) ↦ (next_row_failed e, ground arith, tt)
        | inl fine ↦ elim (Bool-cases (contains known u)) [
          | inr other ↦ (schema_is_newer, ground arith, tt)
          | inl old ↦
              let (e, refused, rejection) =
                reject_rows-refuses known versions (called db) v (ground arith) unknown in
              (e, ground arith, rejection)
        ]
      ]

  -- The database holds a version that this release does not know: whatever calls of the driver fail, the
  -- migration ends with an error, which says that the schema is newer or that the table could not be
  -- read, and no table is changed, neither by a script nor by the record of migrations.
  pub migrate-refuses_newer :
      (entries : List Entry) (db : Database (Schema S)) (m : MigrationTable) (v : Text)
      → db.tables.migrations ≡ some m
      → contains (keys m.rows) v ≡ true
      → contains (known_versions entries) v ≡ false
      → (e : MigrateError) × ((migrate exec sha256 (ok entries) db).0 ≡ err e)
        × IsRejection e
        × ((migrate exec sha256 (ok entries) db).1.tables ≡ db.tables)
  unfolding migrate reject_unknown_migrations statement on_table
  migrate-refuses_newer entries db m v there here unknown =
      elim (Option-cases (next_fault db.faults)) [
        | inr (e, fault) ↦ (check_table_failed e, ground arith, tt, ground arith)
        | inl fine ↦ elim (Option-cases (next_fault (called db).faults)) [
          | inr (e, fault) ↦ (list_applied_failed e, ground arith, tt, ground arith)
          | inl still_fine ↦
              let db1 : Database (Schema S) = called (called db) in
              let (e, refused, rejection) =
                reject_rows-refuses (known_versions entries) (keys m.rows) db1 v here unknown in
              let kept = reject_rows-keeps (known_versions entries) (keys m.rows) db1 in
              (e, ground arith, rejection, ground arith)
        ]
      ]
