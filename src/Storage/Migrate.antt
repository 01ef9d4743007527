-- ===== src/Storage/Migrate.antt =====
-- `Migrate` of backend/internal/storage/sqlite/migrate.go. The table `schema_migrations` is a list of
-- versions with their checksums, in the order in which they were recorded; the rest of the database is
-- what the scripts act on (the first one would create the table, which is there by then). Running a
-- script is SQLite's work and SHA-256 the standard library's: both are parameters. Each call of the
-- driver may fail, the steps from one row of a listing to the next included.
pub mod Sorting
pub mod Rejected
pub mod Scripts
pub mod Replaying
pub mod Replayed
pub mod Reads
pub mod OneEntry
pub mod Recorded
pub mod Known
pub mod Again
use pelican_mc_router.Prelude.{
  Bool, true, false, not, ◌&&◌, ◌||◌, Option, none, some, List, [], ◌∷◌, ◌++◌, is_empty, any,
  contains, ◌==◌, if◌then◌else◌, Result, ok, err,
}
use pelican_mc_router.Prelude.Dict.{Dict, lookup, insert, has, keys}
use pelican_mc_router.Text.{Text, text, text_eq, has_prefix, has_suffix}
use pelican_mc_router.Text.Sort.{le_text}
use pelican_mc_router.Storage.{Database, Query, pure, fail, ◌>>=◌, statement, transaction}

-- An entry of the embedded directory; `contents` is what `ReadFile` of its name gives.
pub record Entry : Type 0 where
  pub name : Text
  pub is_dir : Bool
  pub contents : Result Text Text

-- The table `schema_migrations`: one that an old release created has no column for the checksum.
pub record MigrationTable : Type 0 where
  pub has_checksum : Bool
  pub rows : Dict Text Text

pub record Schema (S : Type 0) : Type 0 where
  pub migrations : Option MigrationTable
  pub contents : S

pub data MigrateError : Type 0 where
  read_entries_failed check_table_failed list_applied_failed next_row_failed create_table_failed
        add_column_failed :
      Text → MigrateError
  schema_is_newer : MigrateError
  checksum_mismatch : Text → MigrateError
  read_migration_failed check_migration_failed read_checksum_failed record_checksum_failed
        begin_migration_failed apply_migration_failed record_migration_failed
        commit_migration_failed :
      Text → Text → MigrateError

-- `strings.Contains(s, part)`
unfoldable pub contains_text : Text → Text → Bool
contains_text [] part = is_empty part
contains_text (c ∷ s) part = has_prefix (c ∷ s) part || contains_text s part

-- `!entry.IsDir() && strings.HasSuffix(entry.Name(), ".sql")`
unfoldable pub is_migration : Entry → Bool
is_migration e = not e.is_dir && has_suffix e.name (text ".sql")

unfoldable pub known_versions : List Entry → List Text
known_versions [] = []
known_versions (e ∷ entries) =
    let rest = known_versions entries in if is_migration e then e.name ∷ rest else rest

-- `sort.Slice` by the names, which a directory has once each.
unfoldable pub insert_entry : Entry → List Entry → List Entry
unfolding le_text
insert_entry e [] = e ∷ []
insert_entry e (d ∷ entries) =
    if le_text e.name d.name then e ∷ d ∷ entries else d ∷ insert_entry e entries

unfoldable pub sort_entries : List Entry → List Entry
unfolding insert_entry
sort_entries [] = []
sort_entries (e ∷ entries) = insert_entry e (sort_entries entries)

-- `ALTER TABLE ... ADD COLUMN`: the rows get the default, an empty checksum.
abbrev pub blank_rows : Dict Text Text → Dict Text Text
blank_rows [] = []
blank_rows ((version, checksum) ∷ rows) = (version, []) ∷ blank_rows rows

unfoldable pub add_column : MigrationTable → Result Text ((Unit {0}) × MigrationTable)
add_column m =
    if m.has_checksum
    then err (text "duplicate column name: checksum")
    else ok (tt, record { has_checksum = true; rows = blank_rows m.rows })

abbrev pub checksum_of : Text → MigrationTable → Text
checksum_of version m = elim (lookup version m.rows) [ none ↦ [] | some c ↦ c ]

unfoldable pub record_version :
    Text → Text → MigrationTable → Result Text ((Unit {0}) × MigrationTable)
record_version version checksum m =
    if has version m.rows
    then err (text "UNIQUE constraint failed")
    else ok (tt, record m { rows = insert version checksum m.rows })

-- `UPDATE ... WHERE version = ?`, which changes no row where there is none of the version.
unfoldable pub record_checksum :
    Text → Text → MigrationTable → Result Text ((Unit {0}) × MigrationTable)
record_checksum version checksum m =
    ok (tt, if has version m.rows then record m { rows = insert version checksum m.rows } else m)

module _ {S : Type 0} (exec : Text → S → Result Text S) (sha256 : Text → Text) where
  abbrev pub Migration : Type 0 → Type 0
  Migration A = Query MigrateError (Schema S) A

  -- A statement on `schema_migrations`; without the table SQLite refuses it.
  unfoldable pub on_table :
      {A : Type 0}
      → (MigrationTable → Result Text (A × MigrationTable))
      → Schema S
      → Result Text (A × Schema S)
  on_table run t = elim t.migrations [
    | none ↦ err (text "no such table: schema_migrations")
    | some m ↦ elim (run m) [
      | err e ↦ err e
      | ok (a, m1) ↦ ok (a, record t { migrations = some m1 })
    ]
  ]

  -- A statement that names the column of the checksum.
  abbrev pub on_checksum :
      {A : Type 0}
      → (MigrationTable → Result Text (A × MigrationTable))
      → Schema S
      → Result Text (A × Schema S)
  on_checksum run =
      on_table (λ m. if m.has_checksum then run m else err (text "no such column: checksum"))

  abbrev pub has_table : Schema S → Bool
  has_table t = elim t.migrations [ none ↦ false | some m ↦ true ]

  -- The loop of `rejectUnknownMigrations` over the rows.
  unfoldable pub reject_rows : List Text → List Text → Migration (Unit {0})
  reject_rows known [] = statement next_row_failed (λ t. ok (tt, t))
  reject_rows known (version ∷ versions) =
      statement next_row_failed (λ t. ok (tt, t))
      >>= (λ _. if contains known version then reject_rows known versions else fail schema_is_newer)

  unfoldable pub reject_unknown_migrations : List Text → Migration (Unit {0})
  unfolding on_table reject_rows
  reject_unknown_migrations known =
      statement check_table_failed (λ t. ok (has_table t, t)) >>= (λ exists.
        if exists
        then statement list_applied_failed (on_table (λ m. ok (keys m.rows, m)))
          >>= (λ versions. reject_rows known versions)
        else pure tt)

  -- `CREATE TABLE IF NOT EXISTS`
  unfoldable pub create_table : Schema S → Result Text ((Unit {0}) × Schema S)
  create_table t = elim t.migrations [
    | some m ↦ ok (tt, t)
    | none ↦ ok (tt, record t { migrations = some (record { has_checksum = true; rows = [] }) })
  ]

  -- An error that tells of a duplicate column is dropped.
  unfoldable pub ensure_checksum : Migration (Unit {0})
  unfolding on_table add_column contains_text
  ensure_checksum db =
      let (r, db1) = statement (λ e. e) (on_table add_column) db in
      elim r [
        | ok _ ↦ (ok tt, db1)
        | err e ↦ (
          if contains_text e (text "duplicate column") then ok tt else err (add_column_failed e),
          db1,
        )
      ]

  -- The version's recorded checksum, if it is applied.
  unfoldable pub migration_applied : Text → Migration (Option Text)
  unfolding on_table
  migration_applied version =
      statement (check_migration_failed version) (on_table (λ m. ok (has version m.rows, m)))
      >>= (λ exists.
          if exists
          then statement (read_checksum_failed version)
              (on_checksum (λ m. ok (some (checksum_of version m), m)))
          else pure none)

  -- The script as one call of the transaction: an error part way leaves what the script did so far to the
  -- roll back.
  unfoldable pub exec_script : Text → Schema S → Result Text ((Unit {0}) × Schema S)
  exec_script contents t = elim (exec contents t.contents) [
    | err e ↦ err e
    | ok s ↦ ok (tt, record t { contents = s })
  ]

  unfoldable pub apply_migration : Text → Text → Text → Migration (Unit {0})
  unfolding on_table exec_script record_version
  apply_migration version contents checksum =
      transaction (begin_migration_failed version) (commit_migration_failed version) (
        statement (apply_migration_failed version) (exec_script contents) >>= (λ _.
          statement (record_migration_failed version)
            (on_checksum (record_version version checksum))))

  -- What the loop does for an applied version, and for one that is not.
  unfoldable pub settle_migration : Text → Text → Option Text → Migration (Unit {0})
  unfolding on_table record_checksum apply_migration
  settle_migration version contents (some recorded) =
      if is_empty recorded
      then statement (record_checksum_failed version)
          (on_checksum (record_checksum version (sha256 contents)))
      else if recorded == sha256 contents
      then pure tt
      else fail (checksum_mismatch version)
  settle_migration version contents none = apply_migration version contents (sha256 contents)

  unfoldable pub migrate_entry : Entry → Migration (Unit {0})
  unfolding migration_applied settle_migration is_migration
  migrate_entry e =
      if is_migration e
      then elim e.contents [
        | err failed ↦ fail (read_migration_failed e.name failed)
        | ok contents ↦
            migration_applied e.name >>= (λ applied. settle_migration e.name contents applied)
      ]
      else pure tt

  unfoldable pub migrate_entries : List Entry → Migration (Unit {0})
  unfolding migrate_entry
  migrate_entries [] = pure tt
  migrate_entries (e ∷ entries) = migrate_entry e >>= (λ _. migrate_entries entries)

  unfoldable pub create_migrations : Migration (Unit {0})
  unfolding create_table
  create_migrations = statement create_table_failed create_table

  -- What `Migrate` does before its loop.
  unfoldable pub prepare : List Text → Migration (Unit {0})
  unfolding reject_unknown_migrations create_migrations ensure_checksum
  prepare known =
      reject_unknown_migrations known >>= (λ _. create_migrations >>= (λ _. ensure_checksum))

  unfoldable pub migrate : Result Text (List Entry) → Migration (Unit {0})
  unfolding prepare sort_entries migrate_entries known_versions
  migrate (err e) = fail (read_entries_failed e)
  migrate (ok entries) =
      prepare (known_versions entries) >>= (λ _. migrate_entries (sort_entries entries))
