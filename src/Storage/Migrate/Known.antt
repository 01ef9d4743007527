-- ===== src/Storage/Migrate/Known.antt =====
-- About the versions that `Migrate` records, of backend/internal/storage/sqlite/migrate.go.
use mathlib.Core.Path.{subst}
use pelican_mc_router.Prelude.{
  ◌≡◌, refl, sym, ap, ◌∙◌, inl, inr, true, some, List, [], ◌∷◌, All, arith, contains, ◌==◌, Result,
  ok, Result-cases, Option-cases, Bool-cases, ==-self, eq_of_==,
}
use pelican_mc_router.Prelude.Dict.{Dict, keys, has, lookup, contains-keys}
use pelican_mc_router.Text.{Text, text_eq}
use pelican_mc_router.Storage.{Database, statement, called}
use pelican_mc_router.Storage.Migrate.{
  Entry, MigrationTable, Schema, is_migration, on_table, blank_rows, add_column, create_table,
  ensure_checksum, migrate_entry, migrate_entries, sort_entries, known_versions, reject_rows,
  reject_unknown_migrations, create_migrations, prepare, migrate,
}
use pelican_mc_router.Storage.Migrate.Sorting.{All-sort_entries}
use pelican_mc_router.Storage.Migrate.Rejected.{reject_rows-keeps}
use pelican_mc_router.Storage.Migrate.OneEntry.{migrate_entry-Settled}

-- Every recorded version is one of some.
abbrev pub IsKnown : {S : Type 0} → List Text → Schema S → Type 0
IsKnown known t =
    (m : MigrationTable) (v : Text)
    → t.migrations ≡ some m
    → has v m.rows ≡ true
    → contains known v ≡ true

has-blank_rows : (v : Text) (rows : Dict Text Text) → has v (blank_rows rows) ≡ has v rows
unfolding has lookup
has-blank_rows v [] = refl
has-blank_rows v (r ∷ rows) = ground (arith, has-blank_rows v rows)

module _ {S : Type 0} (exec : Text → S → Result Text S) (sha256 : Text → Text) where
  reject_rows-knows :
      (known versions : List Text) (db : Database (Schema S)) (v : Text)
      → (reject_rows exec sha256 known versions db).0 ≡ ok tt
      → contains versions v ≡ true
      → contains known v ≡ true
  unfolding reject_rows statement contains
  reject_rows-knows known [] db v h here = absurd (ground arith)
  reject_rows-knows known (u ∷ versions) db v h here =
      ground (arith, reject_rows-knows known versions (called db) v)

  reject_unknown_migrations-knows :
      (known : List Text) (db : Database (Schema S))
      → (reject_unknown_migrations exec sha256 known db).0 ≡ ok tt
      → IsKnown known (reject_unknown_migrations exec sha256 known db).1.tables
  unfolding reject_unknown_migrations statement on_table
  reject_unknown_migrations-knows known db h m v there here =
      elim (Option-cases db.tables.migrations) [
        | inl absent ↦ absurd (ground arith)
        | inr (m0, there0) ↦
            let db1 : Database (Schema S) = called (called db) in
            let same = reject_rows-keeps exec sha256 known (keys m0.rows) db1 in
            let one : m0 ≡ m = ground (arith, same) in
            let in_keys : contains (keys m0.rows) v ≡ true =
              contains-keys v m0.rows ∙ ap (λ (t : MigrationTable). has v t.rows) one ∙ here in
            reject_rows-knows known (keys m0.rows) db1 v (ground arith) in_keys
      ]

  create_migrations-knows :
      (known : List Text) (db : Database (Schema S))
      → IsKnown known db.tables
      → IsKnown known (create_migrations exec sha256 db).1.tables
  unfolding create_migrations create_table statement has lookup
  create_migrations-knows known db knows m v there here = elim (Option-cases db.tables.migrations) [
    | inl absent ↦ absurd (ground arith)
    | inr (m0, there0) ↦ ground (arith, knows m v)
  ]

  ensure_checksum-knows :
      (known : List Text) (db : Database (Schema S))
      → IsKnown known db.tables
      → IsKnown known (ensure_checksum exec sha256 db).1.tables
  unfolding ensure_checksum statement on_table add_column
  ensure_checksum-knows known db knows m v there here = elim (Option-cases db.tables.migrations) [
    | inl absent ↦ absurd (ground arith)
    | inr (m0, there0) ↦ ground (arith, knows m0 v, has-blank_rows v m0.rows)
  ]

  prepare-knows :
      (known : List Text) (db : Database (Schema S))
      → (prepare exec sha256 known db).0 ≡ ok tt
      → IsKnown known (prepare exec sha256 known db).1.tables
  unfolding prepare
  prepare-knows known db h =
      elim (Result-cases (reject_unknown_migrations exec sha256 known db).0) [
        | inr (e, bad) ↦ absurd (ground arith)
        | inl (_, good) ↦
            let db1 : Database (Schema S) = (reject_unknown_migrations exec sha256 known db).1 in
            let knows1 = reject_unknown_migrations-knows known db good in
            elim (Result-cases (create_migrations exec sha256 db1).0) [
              | inr (e, bad) ↦ absurd (ground arith)
              | inl (_, created) ↦
                  let db2 : Database (Schema S) = (create_migrations exec sha256 db1).1 in
                  let knows3 =
                    ensure_checksum-knows known db2 (create_migrations-knows known db1 knows1) in
                  λ m v there here. knows3 m v (ground arith) here
            ]
      ]

  migrate_entry-knows :
      (known : List Text) (e : Entry) (db : Database (Schema S))
      → (is_migration e ≡ true → contains known e.name ≡ true)
      → (migrate_entry exec sha256 e db).0 ≡ ok tt
      → IsKnown known db.tables
      → IsKnown known (migrate_entry exec sha256 e db).1.tables
  unfolding migrate_entry has
  migrate_entry-knows known e db named h knows m v there here = elim (Bool-cases (is_migration e)) [
    | inr other ↦ ground (arith, knows m v)
    | inl migration ↦ elim (Result-cases e.contents) [
      | inr (failed, bad) ↦ absurd (ground arith)
      | inl (contents, good) ↦
          let settled = migrate_entry-Settled exec sha256 e contents db migration good h in
          let one : settled.after ≡ m = ground (arith, settled.now) in
          elim (Bool-cases (v == e.name)) [
            | inl same ↦ rw (eq_of_== v e.name same) (named migration)
            | inr other ↦ knows settled.before v settled.there (ground (arith, one, settled.rows v))
          ]
    ]
  ]

  migrate_entries-knows :
      (known : List Text) (entries : List Entry) (db : Database (Schema S))
      → All (λ e. is_migration e ≡ true → contains known e.name ≡ true) entries
      → (migrate_entries exec sha256 entries db).0 ≡ ok tt
      → IsKnown known db.tables
      → IsKnown known (migrate_entries exec sha256 entries db).1.tables
  unfolding migrate_entries
  migrate_entries-knows known [] db named h knows m v there here = knows m v there here
  migrate_entries-knows known (e ∷ entries) db named h knows m v there here =
      elim (Result-cases (migrate_entry exec sha256 e db).0) [
        | inr (failed, bad) ↦ absurd (ground arith)
        | inl (_, done) ↦
            let db1 : Database (Schema S) = (migrate_entry exec sha256 e db).1 in
            migrate_entries-knows known entries db1 named.1 (ground arith)
              (migrate_entry-knows known e db named.0 done knows) m v (ground arith) here
      ]

abbrev IsNamed : List Text → Entry → Type 0
IsNamed known e = is_migration e ≡ true → contains known e.name ≡ true

later-IsNamed :
    (known : List Text) (v : Text) (later : List Entry)
    → All (IsNamed known) later
    → All (IsNamed (v ∷ known)) later
unfolding contains
later-IsNamed known v [] h = tt
later-IsNamed known v (e ∷ later) h =
    (λ migration. ground (arith, h.0 migration), later-IsNamed known v later h.1)

All-IsNamed : (entries : List Entry) → All (IsNamed (known_versions entries)) entries
unfolding known_versions contains
All-IsNamed [] = tt
All-IsNamed (e ∷ entries) = elim (Bool-cases (is_migration e)) [
  | inl migration ↦
      let step : known_versions (e ∷ entries) ≡ e.name ∷ known_versions entries = ground arith in
      subst (λ known. All (IsNamed known) (e ∷ entries)) (sym step)
        (
          λ _. ground (arith, ==-self e.name),
          later-IsNamed (known_versions entries) e.name entries (All-IsNamed entries),
        )
  | inr other ↦
      let step : known_versions (e ∷ entries) ≡ known_versions entries = ground arith in
      subst (λ known. All (IsNamed known) (e ∷ entries)) (sym step)
        (λ migration. absurd (cc), All-IsNamed entries)
]

module _ {S : Type 0} (exec : Text → S → Result Text S) (sha256 : Text → Text) where
  pub migrate-knows :
      (entries : List Entry) (db : Database (Schema S))
      → (migrate exec sha256 (ok entries) db).0 ≡ ok tt
      → IsKnown (known_versions entries) (migrate exec sha256 (ok entries) db).1.tables
  unfolding migrate
  migrate-knows entries db good =
      elim (Result-cases (prepare exec sha256 (known_versions entries) db).0) [
        | inr (e, bad) ↦ absurd (ground arith)
        | inl (_, ready) ↦
            let known : List Text = known_versions entries in
            let db1 : Database (Schema S) = (prepare exec sha256 known db).1 in
            let knows =
              migrate_entries-knows exec sha256 known (sort_entries entries) db1
                (All-sort_entries (IsNamed known) entries (All-IsNamed entries)) (ground arith)
                (prepare-knows exec sha256 known db ready) in
            λ m v there here. knows m v (ground arith) here
      ]
