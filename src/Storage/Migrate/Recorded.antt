-- ===== src/Storage/Migrate/Recorded.antt =====
-- About what `Migrate` of backend/internal/storage/sqlite/migrate.go records, where it succeeds.
use mathlib.Core.Path.{subst}
use pelican_mc_router.Prelude.{
  ◌≡◌, ◌⊎◌, sym, inl, inr, true, false, Option, none, some, List, [], ◌∷◌, All, arith, is_empty,
  ◌==◌, if◌then◌else◌, Result, ok, Result-cases, Option-cases, ap, ◌∙◌, refl, Bool-cases, ==-self,
}
use pelican_mc_router.Prelude.Dict.{lookup, keys}
use pelican_mc_router.Text.{Text, text_eq}
use pelican_mc_router.Storage.{Database, called, statement}
use pelican_mc_router.Storage.Migrate.{
  Entry, Schema, is_migration, migrate_entry, migrate_entries, sort_entries, known_versions,
  prepare, migrate, reject_unknown_migrations, create_migrations, create_table, ensure_checksum,
  on_table, add_column,
}
use pelican_mc_router.Storage.Migrate.Rejected.{reject_rows-keeps}
use pelican_mc_router.Storage.Migrate.OneEntry.{migrate_entry-Settled}
use pelican_mc_router.Storage.Migrate.Sorting.{All-sort_entries_back}

-- The recorded checksum of a version, where the table has the column.
abbrev pub recorded_checksum : {S : Type 0} → Text → Schema S → Option Text
recorded_checksum v t = elim t.migrations [
  | none ↦ none
  | some m ↦ if m.has_checksum then lookup v m.rows else none
]

module _ {S : Type 0} (exec : Text → S → Result Text S) (sha256 : Text → Text) where
  migrate_entry-keeps :
      (e : Entry) (db : Database (Schema S)) (v c : Text)
      → is_empty c ≡ false
      → recorded_checksum v db.tables ≡ some c
      → (migrate_entry exec sha256 e db).0 ≡ ok tt
      → recorded_checksum v (migrate_entry exec sha256 e db).1.tables ≡ some c
  unfolding migrate_entry
  migrate_entry-keeps e db v c full found h = elim (Bool-cases (is_migration e)) [
    | inr other ↦ ground arith
    | inl migration ↦ elim (Result-cases e.contents) [
      | inr (failed, bad) ↦ absurd (ground arith)
      | inl (contents, good) ↦
          let settled = migrate_entry-Settled exec sha256 e contents db migration good h in
          let row : lookup v settled.before.rows ≡ some c =
            ground (arith, settled.there, settled.full) in
          let now : recorded_checksum v (migrate_entry exec sha256 e db).1.tables
              ≡ (if v == e.name then some (sha256 contents) else lookup v settled.before.rows) =
            ground (arith, settled.now, settled.still_full, settled.rows v) in
          elim (Bool-cases (v == e.name)) [
            | inr other ↦ ground (arith, now)
            | inl same ↦
                let old : lookup e.name settled.before.rows ≡ some c = ground arith in
                ground (arith, now, settled.agrees c old full)
          ]
    ]
  ]

  -- The entries are settled one after another: a checksum that was recorded stays.
  migrate_entries-keeps :
      (entries : List Entry) (db : Database (Schema S)) (v c : Text)
      → is_empty c ≡ false
      → recorded_checksum v db.tables ≡ some c
      → (migrate_entries exec sha256 entries db).0 ≡ ok tt
      → recorded_checksum v (migrate_entries exec sha256 entries db).1.tables ≡ some c
  unfolding migrate_entries
  migrate_entries-keeps [] db v c full found h = found
  migrate_entries-keeps (e ∷ entries) db v c full found h =
      elim (Result-cases (migrate_entry exec sha256 e db).0) [
        | inr (failed, bad) ↦ absurd (ground arith)
        | inl (_, done) ↦
            let db1 : Database (Schema S) = (migrate_entry exec sha256 e db).1 in
            let later =
              migrate_entries-keeps entries db1 v c full
                (migrate_entry-keeps e db v c full found done) in
            ground (arith, later)
      ]

  -- A migration could be read, and its checksum is recorded.
  abbrev pub IsRecorded : Schema S → Entry → Type 0
  IsRecorded t e =
      (contents : Text) × (e.contents ≡ ok contents)
      × (recorded_checksum e.name t ≡ some (sha256 contents))

  abbrev pub WhereMigration : Schema S → Entry → Type 0
  WhereMigration t e = is_migration e ≡ true → IsRecorded t e

  migrate_entry-records :
      (e : Entry) (db : Database (Schema S))
      → is_migration e ≡ true
      → (migrate_entry exec sha256 e db).0 ≡ ok tt
      → IsRecorded (migrate_entry exec sha256 e db).1.tables e
  unfolding migrate_entry
  migrate_entry-records e db migration h = elim (Result-cases e.contents) [
    | inr (failed, bad) ↦ absurd (ground arith)
    | inl (contents, good) ↦
        let settled = migrate_entry-Settled exec sha256 e contents db migration good h in
        (
          contents,
          good,
          ground (arith, settled.now, settled.still_full, settled.rows e.name, ==-self e.name),
        )
  ]

  migrate_entries-records :
      (entries : List Entry) (db : Database (Schema S))
      → ((contents : Text) → is_empty (sha256 contents) ≡ false)
      → (migrate_entries exec sha256 entries db).0 ≡ ok tt
      → All (WhereMigration (migrate_entries exec sha256 entries db).1.tables) entries
  unfolding migrate_entries
  migrate_entries-records [] db full h = tt
  migrate_entries-records (e ∷ entries) db full h =
      elim (Result-cases (migrate_entry exec sha256 e db).0) [
        | inr (failed, bad) ↦ absurd (ground arith)
        | inl (_, done) ↦
            let db1 : Database (Schema S) = (migrate_entry exec sha256 e db).1 in
            let step : (migrate_entries exec sha256 (e ∷ entries) db).1.tables
                ≡ (migrate_entries exec sha256 entries db1).1.tables =
              ground arith in
            subst (λ (t : Schema S). All (WhereMigration t) (e ∷ entries)) (sym step)
              (
                λ migration.
                    let (contents, good, set) = migrate_entry-records e db migration done in
                    (
                      contents,
                      good,
                      migrate_entries-keeps entries db1 e.name (sha256 contents) (full contents) set
                          (ground arith),
                    ),
                migrate_entries-records entries db1 full (ground arith),
              )
      ]

-- What stands before the loop leaves a table that has the checksums as it is.
prepare-keeps :
    {S : Type 0} (exec : Text → S → Result Text S) (sha256 : Text → Text) (known : List Text)
    (db : Database (Schema S)) (v c : Text)
    → recorded_checksum v db.tables ≡ some c
    → (prepare exec sha256 known db).1.tables ≡ db.tables
unfolding prepare reject_unknown_migrations create_migrations create_table ensure_checksum statement
    on_table add_column
prepare-keeps {S} exec sha256 known db v c found = elim (Option-cases db.tables.migrations) [
  | inl absent ↦ absurd (ground arith)
  | inr (m, there) ↦ elim (Bool-cases m.has_checksum) [
    | inr bare ↦ absurd (ground arith)
    | inl column ↦
        let db1 : Database (Schema S) = called (called db) in
        let rejected = reject_rows-keeps exec sha256 known (keys m.rows) db1 in
        ground (arith, rejected)
  ]
]

abbrev pub Among : Entry → List Entry → Type 0
Among e [] = ⊥
Among e (d ∷ entries) = (e ≡ d) ⊎ Among e entries

All-Among :
    (P : Entry → Type 0) (e : Entry) (entries : List Entry) → All P entries → Among e entries → P e
All-Among P e [] h member = elim member [ ]
All-Among P e (d ∷ entries) h (inl same) = rw same h.0
All-Among P e (d ∷ entries) h (inr later) = All-Among P e entries h.1 later

module _ {S : Type 0} (exec : Text → S → Result Text S) (sha256 : Text → Text)
    (entries : List Entry) (db : Database (Schema S))
    (full : (contents : Text) → is_empty (sha256 contents) ≡ false)
    (succeeds : (migrate exec sha256 (ok entries) db).0 ≡ ok tt) where
  pub every_migration_recorded :
      All (WhereMigration exec sha256 (migrate exec sha256 (ok entries) db).1.tables) entries
  unfolding migrate
  every_migration_recorded =
      elim (Result-cases (prepare exec sha256 (known_versions entries) db).0) [
        | inr (failed, bad) ↦ absurd (ground arith)
        | inl (_, ready) ↦
            let db1 : Database (Schema S) = (prepare exec sha256 (known_versions entries) db).1 in
            let t : Schema S = (migrate_entries exec sha256 (sort_entries entries) db1).1.tables in
            let same : (migrate exec sha256 (ok entries) db).1.tables ≡ t = ground arith in
            subst (λ (u : Schema S). All (WhereMigration exec sha256 u) entries) (sym same)
              (All-sort_entries_back (WhereMigration exec sha256 t) entries (
                migrate_entries-records exec sha256 (sort_entries entries) db1 full (ground arith)))
      ]

  -- A checksum that was recorded before is the script's.
  recorded_before :
      (e : Entry) (contents : Text)
      → recorded_checksum e.name (migrate exec sha256 (ok entries) db).1.tables
        ≡ some (sha256 contents)
      → (recorded_checksum e.name db.tables ≡ none)
        ⊎ (recorded_checksum e.name db.tables ≡ some [])
        ⊎ (recorded_checksum e.name db.tables ≡ some (sha256 contents))
  unfolding migrate
  recorded_before e contents now = elim (Option-cases (recorded_checksum e.name db.tables)) [
    | inl absent ↦ inl absent
    | inr ([], blank) ↦ inr (inl blank)
    | inr (c ∷ cs, found) ↦
        let db1 : Database (Schema S) = (prepare exec sha256 (known_versions entries) db).1 in
        let same = prepare-keeps exec sha256 (known_versions entries) db e.name (c ∷ cs) found in
        let still : recorded_checksum e.name db1.tables ≡ some (c ∷ cs) =
          ap (λ (t : Schema S). recorded_checksum e.name t) same ∙ found in
        elim (Result-cases (prepare exec sha256 (known_versions entries) db).0) [
          | inr (failed, bad) ↦ absurd (ground arith)
          | inl (_, ready) ↦
              let kept =
                migrate_entries-keeps exec sha256 (sort_entries entries) db1 e.name (c ∷ cs) refl
                  still (ground arith) in
              inr (inr (ground (arith, kept)))
        ]
  ]

  -- What SHA-256 gives is never empty. After a migration that succeeds, each script of this release could
  -- be read and is recorded under its name with the checksum of its contents, and the table held no
  -- checksum for it before (none, or an empty one) or this very one: so where another checksum was
  -- recorded, of a script that was changed since, the migration does not succeed.
  pub migrate-records :
      (e : Entry)
      → Among e entries
      → is_migration e ≡ true
      → (contents : Text) × (e.contents ≡ ok contents)
        × (recorded_checksum e.name (migrate exec sha256 (ok entries) db).1.tables
            ≡ some (sha256 contents))
        × ((recorded_checksum e.name db.tables ≡ none)
            ⊎ (recorded_checksum e.name db.tables ≡ some [])
            ⊎ (recorded_checksum e.name db.tables ≡ some (sha256 contents)))
  migrate-records e member migration =
      let (contents, good, now) = All-Among _ e entries every_migration_recorded member migration in
      (contents, good, now, recorded_before e contents now)
