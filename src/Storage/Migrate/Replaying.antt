-- ===== src/Storage/Migrate/Replaying.antt =====
-- About the database under the loop of `Migrate` of backend/internal/storage/sqlite/migrate.go.
use pelican_mc_router.Prelude.{
  ◌≡◌, inl, inr, true, false, Option, none, some, List, [], ◌∷◌, All, arith, if◌then◌else◌, Result,
  ok, err, Result-cases, Option-cases, Bool-cases,
}
use pelican_mc_router.Prelude.Dict.{keys, has}
use pelican_mc_router.Text.{Text, text, text_eq}
use pelican_mc_router.Storage.{statement}
use pelican_mc_router.Storage.Laws.{Keeps, statement-Keeps, bind-Keeps}
use pelican_mc_router.Storage.Migrate.{
  Entry, MigrationTable, Schema, MigrateError, check_migration_failed, read_checksum_failed,
  on_checksum, record_checksum_failed, checksum_of, is_migration, on_table, migration_applied,
  apply_migration, record_checksum, settle_migration, migrate_entry, migrate_entries,
}
use pelican_mc_router.Storage.Migrate.Reads.{apply_migration-AppliedNow, apply_migration-eq-err}
use pelican_mc_router.Storage.Migrate.Scripts.{
  replay, replay-append, keys-insert_new, keys-insert_old, IsScript,
}

-- The rest of the database is what the scripts of the recorded versions make of `base`, in the order in
-- which they were recorded.
abbrev pub IsReplayed :
    {S : Type 0} → (Text → S → Result Text S) → (Text → Option Text) → S → Schema S → Type 0
IsReplayed exec script base t = elim t.migrations [
  | none ↦ t.contents ≡ base
  | some m ↦ replay exec script (keys m.rows) base ≡ some t.contents
]

module _ {S : Type 0} (exec : Text → S → Result Text S) (sha256 : Text → Text)
    (script : Text → Option Text) (base : S) where
  abbrev pub Held : Schema S → Type 0
  Held = IsReplayed exec script base

  -- A statement on the table that leaves the versions as they are.
  pub on_table-keeps :
      {A : Type 0} (run : MigrationTable → Result Text (A × MigrationTable))
      → ((m m1 : MigrationTable) (a : A) → run m ≡ ok (a, m1) → keys m1.rows ≡ keys m.rows)
      → (t t1 : Schema S) (a : A) → on_table exec sha256 run t ≡ ok (a, t1)
      → Held t
      → Held t1
  unfolding on_table
  on_table-keeps run same t t1 a h held = elim (Option-cases t.migrations) [
    | inl absent ↦ absurd (ground arith)
    | inr (m, there) ↦ elim (Result-cases (run m)) [
      | inr (e, bad) ↦ absurd (ground arith)
      | inl ((b, m1), good) ↦ ground (arith, same m m1 b good)
    ]
  ]

  apply_migration-Keeps :
      (version contents : Text)
      → script version ≡ some contents
      → Keeps Held (apply_migration exec sha256 version contents (sha256 contents))
  apply_migration-Keeps version contents is_script db held =
      let sum : Text = sha256 contents in
      elim (Result-cases (apply_migration exec sha256 version contents sum db).0) [
        | inr (e, bad) ↦ rw (apply_migration-eq-err exec sha256 version contents sum db e bad) held
        | inl (_, good) ↦
            let applied = apply_migration-AppliedNow exec sha256 version contents sum db good in
            let longer =
              replay-append exec script (keys applied.table.rows) version contents base
                db.tables.contents applied.ran in
            ground (
              arith,
              longer,
              applied.runs,
              applied.there,
              applied.leaves,
              keys-insert_new version sum applied.table.rows applied.unapplied,
            )
      ]

  pub reading-Keeps :
      {A : Type 0} (wrap : Text → MigrateError) (f : MigrationTable → A)
      → Keeps Held (statement wrap (on_table exec sha256 (λ m. ok (f m, m))))
  reading-Keeps wrap f =
      statement-Keeps Held _ _
        (on_table-keeps (λ m. ok (f m, m)) (λ m m1 a (h : ok (f m, m) ≡ ok (a, m1)). ground arith))

  checksum-Keeps :
      {A : Type 0} (wrap : Text → MigrateError)
      (run : MigrationTable → Result Text (A × MigrationTable))
      → ((m m1 : MigrationTable) (a : A) → run m ≡ ok (a, m1) → keys m1.rows ≡ keys m.rows)
      → Keeps Held (statement wrap (on_checksum exec sha256 run))
  checksum-Keeps {A} wrap run same =
      statement-Keeps Held _ _ (on_table-keeps _ (λ m m1 a. guarded m m1 a))
    where
      guarded :
          (m m1 : MigrationTable) (a : A)
          → (if m.has_checksum then run m else err (text "no such column: checksum")) ≡ ok (a, m1)
          → keys m1.rows ≡ keys m.rows
      guarded m m1 a h = elim (Bool-cases m.has_checksum) [
        | inr bare ↦ absurd (ground arith)
        | inl full ↦ same m m1 a (ground arith)
      ]

  record_checksum-keys :
      (version checksum : Text) (m m1 : MigrationTable) (u : Unit {0})
      → record_checksum version checksum m ≡ ok (u, m1)
      → keys m1.rows ≡ keys m.rows
  unfolding record_checksum
  record_checksum-keys version checksum m m1 u h =
      ground (arith, keys-insert_old version checksum m.rows)

  read_same :
      (v : Text) (m m1 : MigrationTable) (a : Option Text)
      → ◌≡◌ {A = Result Text (Option Text × MigrationTable)}
          (ok (some (checksum_of v m), m))
          (ok (a, m1))
      → keys m1.rows ≡ keys m.rows
  read_same v m m1 a h = ground arith

  migration_applied-Keeps : (version : Text) → Keeps Held (migration_applied exec sha256 version)
  unfolding migration_applied
  migration_applied-Keeps version db held =
      let looked =
        reading-Keeps (check_migration_failed version) (λ m. has version m.rows) db held in
      let read =
        checksum-Keeps {A = Option Text} (read_checksum_failed version)
          (λ m. ok (some (checksum_of version m), m)) (read_same version) in
      elim (Result-cases
        (statement (check_migration_failed version)
          (on_table exec sha256 (λ m. ok (has version m.rows, m))) db).0) [
            | inr (e, bad) ↦ ground arith
            | inl (true, there) ↦ ground (
              arith,
              read
                  (statement (check_migration_failed version)
                    (on_table exec sha256 (λ m. ok (has version m.rows, m))) db).1,
            )
            | inl (false, absent) ↦ ground arith
          ]

  settle_migration-Keeps :
      (version contents : Text) (applied : Option Text)
      → script version ≡ some contents
      → Keeps Held (settle_migration exec sha256 version contents applied)
  unfolding settle_migration
  settle_migration-Keeps version contents none is_script db held =
      apply_migration-Keeps version contents is_script db held
  settle_migration-Keeps version contents (some recorded) is_script db held =
      let updated =
        checksum-Keeps (record_checksum_failed version) (record_checksum version (sha256 contents))
          (record_checksum-keys version (sha256 contents)) db held in
      ground arith

  migrate_entry-Keeps : (e : Entry) → IsScript script e → Keeps Held (migrate_entry exec sha256 e)
  unfolding migrate_entry
  migrate_entry-Keeps e is_script db held = elim (Bool-cases (is_migration e)) [
    | inr other ↦ ground arith
    | inl migration ↦ elim (Result-cases e.contents) [
      | inr (failed, bad) ↦ ground arith
      | inl (contents, good) ↦
          let applied =
            bind-Keeps Held (migration_applied exec sha256 e.name)
              (settle_migration exec sha256 e.name contents) (migration_applied-Keeps e.name)
              (λ a. settle_migration-Keeps e.name contents a (is_script contents migration good)) db
              held in
          ground (arith, applied)
    ]
  ]

  pub migrate_entries-Keeps :
      (entries : List Entry)
      → All (IsScript script) entries
      → Keeps Held (migrate_entries exec sha256 entries)
  unfolding migrate_entries
  migrate_entries-Keeps [] scripts db held = held
  migrate_entries-Keeps (e ∷ entries) scripts db held =
      bind-Keeps Held (migrate_entry exec sha256 e) (λ _. migrate_entries exec sha256 entries)
        (migrate_entry-Keeps e scripts.0) (λ _. migrate_entries-Keeps entries scripts.1) db held
