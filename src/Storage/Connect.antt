-- ===== src/Storage/Connect.antt =====
-- `Open` of backend/internal/storage/sqlite/db.go, with a count of the handles that are open.
use pelican_mc_router.Prelude.{
  ℕ, ◌+◌, ◌-◌, ◌≡◌, refl, Option-cases, inl, inr, List, arith, is_empty, if◌then◌else◌, Result, ok,
  err, Result-cases, Bool-cases,
}
use pelican_mc_router.Text.{Text}
use pelican_mc_router.Storage.{Database, Query, called, next_fault, ◌>>=◌, statement}
use pelican_mc_router.Storage.Migrate.{Entry, Schema, MigrateError, migrate}

pub data OpenError : Type 0 where
  path_required : OpenError
  directory_failed open_failed ping_failed : Text → OpenError
  migrate_failed : MigrateError → OpenError

pub record Connections (S : Type 0) : Type 0 where
  pub database : Database (Schema S)
  pub handles : ℕ

module _ {S : Type 0} (exec : Text → S → Result Text S) (sha256 : Text → Text)
    (entries : Result Text (List Entry)) where
  -- A call that changes no table and may fail.
  unfoldable pub attempt : (Text → OpenError) → Query OpenError (Schema S) (Unit {0})
  attempt wrap = statement wrap (λ t. ok (tt, t))

  unfoldable pub migrated : Query OpenError (Schema S) (Unit {0})
  migrated db =
      let (r, db1) = migrate exec sha256 entries db in
      (elim r [ err e ↦ err (migrate_failed e) | ok _ ↦ ok tt ], db1)

  -- What follows `sql.Open`: its handle is closed where a later step fails.
  unfoldable pub check_opened : Connections S → Result OpenError (Unit {0}) × Connections S
  unfolding attempt migrated
  check_opened c =
      let (r, db) = (attempt ping_failed >>= (λ _. migrated)) c.database in
      elim r [
        | err e ↦ (err e, record { database = db; handles = c.handles - 1 })
        | ok _ ↦ (ok tt, record { database = db; handles = c.handles })
      ]

  unfoldable pub open_database : Text → Connections S → Result OpenError (Unit {0}) × Connections S
  unfolding attempt check_opened
  open_database path c =
      if is_empty path
      then (err path_required, c)
      else let (r, db) = (attempt directory_failed >>= (λ _. attempt open_failed)) c.database in
        elim r [
          | err e ↦ (err e, record c { database = db })
          | ok _ ↦ check_opened (record { database = db; handles = c.handles + 1 })
        ]

  -- Opening that fails leaves no handle behind.
  pub open_database-closes :
      (path : Text) (c : Connections S) (e : OpenError)
      → (open_database path c).0 ≡ err e
      → (open_database path c).1.handles ≡ c.handles
  unfolding open_database check_opened
  open_database-closes path c e h = elim (Bool-cases (is_empty path)) [
    | inl none_given ↦ ground arith
    | inr given ↦
        let made = (attempt directory_failed >>= (λ _. attempt open_failed)) c.database in
        elim (Result-cases made.0) [
          | inr (_, bad) ↦ ground arith
          | inl (_, good) ↦
              elim (Result-cases ((attempt ping_failed >>= (λ _. migrated)) made.1).0) [
                | inr (_, bad) ↦ ground arith
                | inl (_, fine) ↦ absurd (ground arith)
              ]
        ]
  ]

  -- Opening that succeeds leaves one more handle, on a database whose migration succeeded from the tables
  -- that were there.
  pub open_database-migrates :
      (path : Text) (c : Connections S)
      → (open_database path c).0 ≡ ok tt
      → ((open_database path c).1.handles ≡ c.handles + 1)
        × (db : Database (Schema S)) × (db.tables ≡ c.database.tables)
        × (migrate exec sha256 entries db ≡ (ok tt, (open_database path c).1.database))
  unfolding open_database check_opened attempt migrated statement
  open_database-migrates path c h =
      let db1 : Database (Schema S) = called c.database in
      let db2 : Database (Schema S) = called db1 in
      let db3 : Database (Schema S) = called db2 in
      elim (Bool-cases (is_empty path)) [
        | inl none_given ↦ absurd (ground arith)
        | inr given ↦ elim (Option-cases (next_fault c.database.faults)) [
          | inr (_, fault) ↦ absurd (ground arith)
          | inl fine1 ↦ elim (Option-cases (next_fault db1.faults)) [
            | inr (_, fault) ↦ absurd (ground arith)
            | inl fine2 ↦ elim (Option-cases (next_fault db2.faults)) [
              | inr (_, fault) ↦ absurd (ground arith)
              | inl fine3 ↦ elim (Result-cases (migrate exec sha256 entries db3).0) [
                | inr (_, bad) ↦ absurd (ground arith)
                | inl (_, good) ↦ (ground arith, db3, refl, ground arith)
              ]
            ]
          ]
        ]
      ]
