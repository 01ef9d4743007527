-- ===== src/Storage/Migrate/Again.antt =====
-- About a second run of `Migrate` of backend/internal/storage/sqlite/migrate.go.
use mathlib.Core.Path.{subst}
use pelican_mc_router.Prelude.{
  ◌≡◌, refl, sym, ◌∙◌, inl, inr, true, false, some, List, [], ◌∷◌, All, arith, is_empty, contains,
  Result, ok, Option-cases, Bool-cases, ==-self,
}
use pelican_mc_router.Prelude.Dict.{keys, has, lookup, contains-keys}
use pelican_mc_router.Text.{Text, text, text_eq, has_prefix}
use pelican_mc_router.Storage.{Database, statement, called}
use pelican_mc_router.Storage.Migrate.{
  Entry, MigrationTable, Schema, is_migration, on_table, add_column, create_table, ensure_checksum,
  migration_applied, settle_migration, migrate_entry, migrate_entries, sort_entries, known_versions,
  reject_rows, reject_unknown_migrations, create_migrations, prepare, migrate, contains_text,
}
use pelican_mc_router.Storage.Migrate.Known.{IsKnown, migrate-knows}
use pelican_mc_router.Storage.Migrate.Sorting.{All-sort_entries}
use pelican_mc_router.Storage.Migrate.Recorded.{WhereMigration, every_migration_recorded}

module _ {S : Type 0} (exec : Text → S → Result Text S) (sha256 : Text → Text) where
  -- With no fault to come, and a table that has all that the release would record.
  record IsSettled (entries : List Entry) (db : Database (Schema S)) (m : MigrationTable)
      : Type 0 where
    fine : db.faults ≡ []
    there : db.tables.migrations ≡ some m
    column : m.has_checksum ≡ true
    full : (contents : Text) → is_empty (sha256 contents) ≡ false
    recorded : All (WhereMigration exec sha256 db.tables) entries
    knows : (v : Text) → has v m.rows ≡ true → contains (known_versions entries) v ≡ true

  called_idle : (db : Database (Schema S)) → db.faults ≡ [] → called db ≡ db
  called_idle db h = ground arith

  reject_rows-idle :
      (known versions : List Text) (db : Database (Schema S))
      → db.faults ≡ []
      → ((v : Text) → contains versions v ≡ true → contains known v ≡ true)
      → reject_rows exec sha256 known versions db ≡ (ok tt, db)
  unfolding reject_rows statement contains
  reject_rows-idle known [] db fine knows = ground (arith)
  reject_rows-idle known (u ∷ versions) db fine knows = ground (
    arith,
    called_idle db fine,
    reject_rows-idle known versions db fine (λ v h. knows v (ground arith)),
    knows u (ground (arith, ==-self u)),
  )

  duplicate_is_tolerated :
      contains_text (text "duplicate column name: checksum") (text "duplicate column") ≡ true
  unfolding contains_text has_prefix
  duplicate_is_tolerated = refl

  module _ (entries : List Entry) (db : Database (Schema S)) (m : MigrationTable)
      (settled : IsSettled entries db m) where
    open settled use {fine, there, column, full, recorded, knows}

    prepare-idle : prepare exec sha256 (known_versions entries) db ≡ (ok tt, db)
    unfolding prepare reject_unknown_migrations create_migrations create_table ensure_checksum
        statement on_table add_column
    prepare-idle =
        let same = called_idle db fine in
        let kept =
          reject_rows-idle (known_versions entries) (keys m.rows) db fine
            (λ v h. knows v (sym (contains-keys v m.rows) ∙ h)) in
        ground (arith, same, kept, duplicate_is_tolerated, there, column, fine)

    migrate_entry-idle :
        (e : Entry)
        → WhereMigration exec sha256 db.tables e
        → migrate_entry exec sha256 e db ≡ (ok tt, db)
    unfolding migrate_entry migration_applied settle_migration statement on_table has
    migrate_entry-idle e is_recorded = elim (Bool-cases (is_migration e)) [
      | inr other ↦ ground arith
      | inl migration ↦
          let (contents, good, set) = is_recorded migration in
          let row : lookup e.name m.rows ≡ some (sha256 contents) = ground (arith, there, column) in
          ground (
            arith,
            called_idle db fine,
            there,
            column,
            fine,
            full contents,
            ==-self (sha256 contents),
          )
    ]

    migrate_entries-idle :
        (later : List Entry)
        → All (WhereMigration exec sha256 db.tables) later
        → migrate_entries exec sha256 later db ≡ (ok tt, db)
    unfolding migrate_entries
    migrate_entries-idle [] h = refl
    migrate_entries-idle (e ∷ later) h =
        ground (arith, migrate_entry-idle e h.0, migrate_entries-idle later h.1)

module _ {S : Type 0} (exec : Text → S → Result Text S) (sha256 : Text → Text) where
  some_recorded :
      (entries : List Entry) (t : Schema S)
      → is_empty (known_versions entries) ≡ false
      → All (WhereMigration exec sha256 t) entries
      → (m : MigrationTable) × (t.migrations ≡ some m) × (m.has_checksum ≡ true)
  unfolding known_versions
  some_recorded [] t some_entry h = absurd (ground arith)
  some_recorded (e ∷ entries) t some_entry h = elim (Bool-cases (is_migration e)) [
    | inr other ↦ some_recorded entries t (ground arith) h.1
    | inl migration ↦
        let (contents, good, set) = h.0 migration in
        elim (Option-cases t.migrations) [
          | inl absent ↦ absurd (ground arith)
          | inr (m, there) ↦ elim (Bool-cases m.has_checksum) [
            | inl column ↦ (m, there, column)
            | inr bare ↦ absurd (ground arith)
          ]
        ]
  ]

  -- The release has a script, and what SHA-256 gives is never empty. Once a migration has succeeded, the
  -- next start on the tables that it left, with no call of the driver failing, succeeds too and changes
  -- nothing: no script is run a second time.
  pub migrate-again :
      (entries : List Entry) (db next : Database (Schema S))
      → ((contents : Text) → is_empty (sha256 contents) ≡ false)
      → is_empty (known_versions entries) ≡ false
      → (migrate exec sha256 (ok entries) db).0 ≡ ok tt
      → next.tables ≡ (migrate exec sha256 (ok entries) db).1.tables
      → next.faults ≡ []
      → migrate exec sha256 (ok entries) next ≡ (ok tt, next)
  unfolding migrate
  migrate-again entries db next full some_entry good same fine =
      let known = known_versions entries in
      let recorded : All (WhereMigration exec sha256 next.tables) entries =
        subst (λ (t : Schema S). All (WhereMigration exec sha256 t) entries) (sym same)
          (every_migration_recorded exec sha256 entries db full good) in
      let (m, there, column) = some_recorded entries next.tables some_entry recorded in
      let knows : IsKnown known next.tables =
        subst (λ (t : Schema S). IsKnown known t) (sym same)
          (migrate-knows exec sha256 entries db good) in
      let settled : IsSettled exec sha256 entries next m = record {
        fine = fine;
        there = there;
        column = column;
        full = full;
        recorded = recorded;
        knows = λ v here. knows m v there here;
      } in
      ground (
        arith,
        prepare-idle exec sha256 entries next m settled,
        migrate_entries-idle exec sha256 entries next m settled (sort_entries entries)
            (All-sort_entries (WhereMigration exec sha256 next.tables) entries recorded),
      )
