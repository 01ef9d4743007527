-- ===== src/Storage/Migrate/OneEntry.antt =====
-- About one round of the loop of `Migrate` of backend/internal/storage/sqlite/migrate.go.
use pelican_mc_router.Prelude.{
  ◌≡◌, refl, sym, ap, ◌∙◌, inl, inr, true, false, Option, none, some, arith, is_empty, ◌==◌,
  if◌then◌else◌, Result, ok, Result-cases, Bool-cases,
}
use pelican_mc_router.Prelude.Dict.{insert, has, lookup, lookup-insert}
use pelican_mc_router.Text.{Text, text_eq}
use pelican_mc_router.Storage.{Database, statement}
use pelican_mc_router.Storage.Laws.{statement-eq-ok}
use pelican_mc_router.Storage.Migrate.{
  Entry, MigrationTable, Schema, MigrateError, record_checksum_failed, is_migration, on_checksum,
  migration_applied, apply_migration, record_checksum, settle_migration, migrate_entry,
}
use pelican_mc_router.Storage.Migrate.Reads.{
  apply_migration-AppliedNow, on_checksum-eq-ok, migration_applied-reads,
}

-- One entry is settled: its version has its checksum, no other row is changed, and a checksum that was
-- recorded before agrees.
pub record Settled {S : Type 0} (v sum : Text) (t t1 : Schema S) : Type 0 where
  pub before : MigrationTable
  pub after : MigrationTable
  pub there : t.migrations ≡ some before
  pub now : t1.migrations ≡ some after
  pub full : before.has_checksum ≡ true
  pub still_full : after.has_checksum ≡ true
  pub rows : (j : Text) → lookup j after.rows ≡ (if j == v then some sum else lookup j before.rows)
  pub agrees : (old : Text) → lookup v before.rows ≡ some old → is_empty old ≡ false → old ≡ sum

Settled-transport :
    {S : Type 0} {v sum : Text} {t t' t1 t1' : Schema S}
    → t ≡ t'
    → t1' ≡ t1
    → Settled v sum t t1
    → Settled v sum t' t1'
Settled-transport before after settled = rw (sym before, after) settled

module _ {S : Type 0} (exec : Text → S → Result Text S) (sha256 : Text → Text) where
  apply_migration-Settled :
      (v contents : Text) (db : Database (Schema S))
      → (apply_migration exec sha256 v contents (sha256 contents) db).0 ≡ ok tt
      → Settled v
          (sha256 contents)
          db.tables
          (apply_migration exec sha256 v contents (sha256 contents) db).1.tables
  unfolding has
  apply_migration-Settled v contents db good =
      let applied = apply_migration-AppliedNow exec sha256 v contents (sha256 contents) db good in
      record {
        before = applied.table;
        after = record applied.table { rows = insert v (sha256 contents) applied.table.rows };
        there = applied.there;
        now = ap (λ (t : Schema S). t.migrations) applied.leaves;
        full = applied.column;
        still_full = applied.column;
        rows = λ j. lookup-insert j v (sha256 contents) applied.table.rows;
        agrees = λ old found some_old. absurd (ground (arith, applied.unapplied));
      }

  settle_migration-Settled :
      (v contents : Text) (a : Option Text) (db : Database (Schema S)) (m : MigrationTable)
      → db.tables.migrations ≡ some m
      → a ≡ lookup v m.rows
      → ((c : Text) → a ≡ some c → m.has_checksum ≡ true)
      → (settle_migration exec sha256 v contents a db).0 ≡ ok tt
      → Settled v
          (sha256 contents)
          db.tables
          (settle_migration exec sha256 v contents a db).1.tables
  unfolding settle_migration record_checksum has
  settle_migration-Settled v contents none db m there is_a full h =
      apply_migration-Settled v contents db h
  settle_migration-Settled v contents (some c) db m there is_a full h =
      elim (Bool-cases (is_empty c)) [
        | inl blank ↦
            let q =
              statement {E = MigrateError} (record_checksum_failed v)
                (on_checksum exec sha256 (record_checksum v (sha256 contents))) in
            let (m0, m1, there0, _, noted, now) =
              on_checksum-eq-ok exec sha256 (record_checksum v (sha256 contents)) db.tables
                (q db).1.tables tt (statement-eq-ok _ _ db tt (ground arith)) in
            let one : m0 ≡ m = ground arith in
            record {
              before = m;
              after = m1;
              there = there;
              now = ground (arith, now);
              full = full c refl;
              still_full = ground (arith, one, full c refl);
              rows = λ j. ground (arith, one, lookup-insert j v (sha256 contents) m.rows);
              agrees = λ old found some_old. absurd (ground arith);
            }
        | inr checked ↦ elim (Bool-cases (c == sha256 contents)) [
          | inr other ↦ absurd (ground arith)
          | inl same ↦ record {
            before = m;
            after = m;
            there = there;
            now = ground arith;
            full = full c refl;
            still_full = full c refl;
            rows = λ j. ground (arith);
            agrees = λ old found some_old. ground arith;
          }
        ]
      ]

  pub migrate_entry-Settled :
      (e : Entry) (contents : Text) (db : Database (Schema S))
      → is_migration e ≡ true
      → e.contents ≡ ok contents
      → (migrate_entry exec sha256 e db).0 ≡ ok tt
      → Settled e.name (sha256 contents) db.tables (migrate_entry exec sha256 e db).1.tables
  unfolding migrate_entry
  migrate_entry-Settled e contents db migration good h =
      elim (Result-cases (migration_applied exec sha256 e.name db).0) [
        | inr (failed, bad) ↦ absurd (ground arith)
        | inl (a, looked) ↦
            let (same, m, there, is_a, full) =
              migration_applied-reads exec sha256 e.name db a looked in
            let db1 : Database (Schema S) = (migration_applied exec sha256 e.name db).1 in
            let settled =
              settle_migration-Settled e.name contents a db1 m
                (ap (λ (t : Schema S). t.migrations) same ∙ there) is_a full (ground arith) in
            let step : (migrate_entry exec sha256 e db).1.tables
                ≡ (settle_migration exec sha256 e.name contents a db1).1.tables =
              ground arith in
            Settled-transport same step settled
      ]
