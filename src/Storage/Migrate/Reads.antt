-- ===== src/Storage/Migrate/Reads.antt =====
-- About the statements that `Migrate` makes, of backend/internal/storage/sqlite/migrate.go.
use pelican_mc_router.Prelude.{
  ◌≡◌, inl, inr, true, false, Option, some, arith, Result, ok, err, Result-cases, Option-cases,
  Bool-cases,
}
use pelican_mc_router.Prelude.Dict.{has, lookup, insert}
use pelican_mc_router.Text.{Text, text_eq}
use pelican_mc_router.Storage.{Database, called, statement}
use pelican_mc_router.Storage.Laws.{statement-eq-ok, transaction-eq-ok, transaction-eq-err}
use pelican_mc_router.Storage.Migrate.{
  MigrationTable, Schema, MigrateError, check_migration_failed, read_checksum_failed, on_table,
  on_checksum, checksum_of, migration_applied, exec_script, record_version, apply_migration,
  apply_migration_failed, record_migration_failed,
}

module _ {S : Type 0} (exec : Text → S → Result Text S) (sha256 : Text → Text) where
  -- A statement on the checksums that succeeds.
  pub on_checksum-eq-ok :
      {A : Type 0} (run : MigrationTable → Result Text (A × MigrationTable)) (t t1 : Schema S)
      (a : A)
      → on_checksum exec sha256 run t ≡ ok (a, t1)
      → (m : MigrationTable) × (m1 : MigrationTable) × (t.migrations ≡ some m)
        × (m.has_checksum ≡ true)
        × (run m ≡ ok (a, m1))
        × (t1.migrations ≡ some m1)
  unfolding on_table
  on_checksum-eq-ok run t t1 a h = elim (Option-cases t.migrations) [
    | inl absent ↦ absurd (ground arith)
    | inr (m, there) ↦ elim (Bool-cases m.has_checksum) [
      | inr bare ↦ absurd (ground arith)
      | inl full ↦ elim (Result-cases (run m)) [
        | inr (e, bad) ↦ absurd (ground arith)
        | inl ((b, m1), good) ↦ (m, m1, there, full, ground arith, ground arith)
      ]
    ]
  ]

  -- A script that was applied: it ran, and its version, which had no row, is recorded.
  pub record AppliedNow (v contents sum : Text) (t t1 : Schema S) : Type 0 where
    pub ran : S
    pub table : MigrationTable
    pub runs : exec contents t.contents ≡ ok ran
    pub there : t.migrations ≡ some table
    pub column : table.has_checksum ≡ true
    pub unapplied : has v table.rows ≡ false
    pub leaves : t1 ≡ record {
      migrations = some (record table { rows = insert v sum table.rows });
      contents = ran;
    }

  recorded-AppliedNow :
      (v contents sum : Text) (t t1 t2 : Schema S)
      → exec_script exec sha256 contents t ≡ ok (tt, t1)
      → on_checksum exec sha256 (record_version v sum) t1 ≡ ok (tt, t2)
      → AppliedNow v contents sum t t2
  unfolding exec_script on_table record_version
  recorded-AppliedNow v contents sum t t1 t2 done noted =
      elim (Result-cases (exec contents t.contents)) [
        | inr (e, bad) ↦ absurd (ground arith)
        | inl (s, good) ↦ elim (Option-cases t.migrations) [
          | inl absent ↦ absurd (ground arith)
          | inr (m, there) ↦ elim (Bool-cases m.has_checksum) [
            | inr bare ↦ absurd (ground arith)
            | inl full ↦ elim (Bool-cases (has v m.rows)) [
              | inl twice ↦ absurd (ground arith)
              | inr fresh ↦ record {
                ran = s;
                table = m;
                runs = good;
                there = there;
                column = full;
                unapplied = fresh;
                leaves = ground arith;
              }
            ]
          ]
        ]
      ]

  pub apply_migration-AppliedNow :
      (v contents sum : Text) (db : Database (Schema S))
      → (apply_migration exec sha256 v contents sum db).0 ≡ ok tt
      → AppliedNow v contents sum db.tables (apply_migration exec sha256 v contents sum db).1.tables
  unfolding apply_migration
  apply_migration-AppliedNow v contents sum db good =
      let (inside, same) = transaction-eq-ok _ _ _ db tt good in
      let run = statement (apply_migration_failed v) (exec_script exec sha256 contents) in
      let note =
        statement (record_migration_failed v) (on_checksum exec sha256 (record_version v sum)) in
      rw same (elim (Result-cases (run (called db)).0) [
        | inr (e, bad) ↦ absurd (ground arith)
        | inl (_, ran) ↦
            recorded-AppliedNow v contents sum db.tables (run (called db)).1.tables _
              (statement-eq-ok _ _ (called db) tt ran)
              (ground (
                arith,
                statement-eq-ok (record_migration_failed v)
                    (on_checksum exec sha256 (record_version v sum)) (run (called db)).1 tt
                    (ground arith),
              ))
      ])

  pub apply_migration-eq-err :
      (v contents sum : Text) (db : Database (Schema S)) (e : MigrateError)
      → (apply_migration exec sha256 v contents sum db).0 ≡ err e
      → (apply_migration exec sha256 v contents sum db).1.tables ≡ db.tables
  unfolding apply_migration
  apply_migration-eq-err v contents sum db e bad = transaction-eq-err _ _ _ db e bad

  -- A statement that reads a table which is there.
  on_table-reads :
      {A : Type 0} (f : MigrationTable → A) (t t1 : Schema S) (a : A)
      → on_table exec sha256 (λ m. ok (f m, m)) t ≡ ok (a, t1)
      → (m : MigrationTable) × (t.migrations ≡ some m) × (a ≡ f m) × (t1 ≡ t)
  unfolding on_table
  on_table-reads f t t1 a h = elim (Option-cases t.migrations) [
    | inl absent ↦ absurd (ground arith)
    | inr (m, there) ↦ (m, there, ground arith, ground arith)
  ]

  on_checksum-reads :
      {A : Type 0} (f : MigrationTable → A) (t t1 : Schema S) (a : A)
      → on_checksum exec sha256 (λ m. ok (f m, m)) t ≡ ok (a, t1)
      → (m : MigrationTable) × (t.migrations ≡ some m)
        × (m.has_checksum ≡ true)
        × (a ≡ f m)
        × (t1 ≡ t)
  unfolding on_table
  on_checksum-reads f t t1 a h = elim (Option-cases t.migrations) [
    | inl absent ↦ absurd (ground arith)
    | inr (m, there) ↦ elim (Bool-cases m.has_checksum) [
      | inl full ↦ (m, there, full, ground arith, ground arith)
      | inr bare ↦ absurd (ground arith)
    ]
  ]

  -- What `migrationApplied` reads, where it succeeds.
  abbrev pub Applied : Text → Database (Schema S) → Option Text → Type 0
  Applied v db a =
      ((migration_applied exec sha256 v db).1.tables ≡ db.tables)
      × (m : MigrationTable) × (db.tables.migrations ≡ some m)
      × (a ≡ lookup v m.rows)
      × ((c : Text) → a ≡ some c → m.has_checksum ≡ true)

  pub migration_applied-reads :
      (v : Text) (db : Database (Schema S)) (a : Option Text)
      → (migration_applied exec sha256 v db).0 ≡ ok a
      → Applied v db a
  unfolding migration_applied has
  migration_applied-reads v db a h =
      let q =
        statement (check_migration_failed v) (on_table exec sha256 (λ m. ok (has v m.rows, m))) in
      let q2 =
        statement {E = MigrateError} (read_checksum_failed v)
          (on_checksum exec sha256 {A = Option Text} (λ m. ok (some (checksum_of v m), m))) in
      elim (Result-cases (q db).0) [
        | inr (e, bad) ↦ absurd (ground arith)
        | inl (there, good) ↦
            let (m, is_table, is_there, same) =
              on_table-reads (λ m. has v m.rows) db.tables (q db).1.tables there
                (statement-eq-ok _ _ db there good) in
            elim (Bool-cases there) [
              | inr absent ↦ elim (Option-cases (lookup v m.rows)) [
                | inl no_row ↦ (
                  ground (arith, same),
                  m,
                  is_table,
                  ground arith,
                  λ c found. absurd (ground arith),
                )
                | inr (c, row) ↦ absurd (ground arith)
              ]
              | inl present ↦
                  let (m2, is_table2, full, is_a, same2) =
                    on_checksum-reads (λ m. some (checksum_of v m)) (q db).1.tables
                      (q2 (q db).1).1.tables a (statement-eq-ok _ _ (q db).1 a (ground arith)) in
                  let one : m2 ≡ m = ground (arith, same) in
                  elim (Option-cases (lookup v m.rows)) [
                    | inl no_row ↦ absurd (ground arith)
                    | inr (c, row) ↦ (
                      ground (arith, same, same2),
                      m,
                      is_table,
                      ground (arith, is_a, one),
                      λ d found. ground (arith, one),
                    )
                  ]
            ]
      ]
