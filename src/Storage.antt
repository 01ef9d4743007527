-- ===== src/Storage.antt =====
-- The database under the stores of backend/internal: SQLite through database/sql. A table is a value,
-- a statement is a function on the tables, as SQL documents it, and any call of the driver may fail:
-- `faults` says what happens to the calls to come, and all succeed once it is empty.
pub mod Laws
pub mod Migrate
pub mod Connect
use pelican_mc_router.Prelude.{Option, none, some, List, [], ◌∷◌, Result, ok, err}
use pelican_mc_router.Text.{Text}

pub record Database {ℓ} (T : Type ℓ) : Type ℓ where
  pub tables : T
  pub faults : List (Option Text)

abbrev pub Query {ℓ κ ν} : Type ℓ → Type κ → Type ν → Type (ℓ ⊔ κ ⊔ ν)
Query E T A = Database T → Result E A × Database T

module _ {E T : Type 0} where
  abbrev pub pure : {A : Type 0} → A → Query E T A
  pure a db = (ok a, db)

  abbrev pub fail : {A : Type 0} → E → Query E T A
  fail e db = (err e, db)

infixl 5 ◌>>=◌
abbrev pub ◌>>=◌ : {E T A B : Type 0} → Query E T A → (A → Query E T B) → Query E T B
◌>>=◌ m f db = let (r, db1) = m db in elim r [ err e ↦ (err e, db1) | ok a ↦ f a db1 ]

abbrev pub next_fault : List (Option Text) → Option Text
next_fault [] = none
next_fault (f ∷ fs) = f

abbrev pub later_faults : List (Option Text) → List (Option Text)
later_faults [] = []
later_faults (f ∷ fs) = fs

-- One call of the driver.
abbrev pub called {ℓ} : {T : Type ℓ} → Database T → Database T
called db = record db { faults = later_faults db.faults }

abbrev pub rolled_back {ℓ} : {T : Type ℓ} → T → Database T → Database T
rolled_back t db = record db { tables = t }

module _ {E T A : Type 0} where
  unfoldable pub statement : (Text → E) → (T → Result Text (A × T)) → Query E T A
  statement wrap run db = elim (next_fault db.faults) [
    | some e ↦ (err (wrap e), called db)
    | none ↦ elim (run db.tables) [
      | err e ↦ (err (wrap e), called db)
      | ok (a, t) ↦ (ok a, record (called db) { tables = t })
    ]
  ]

  -- `Begin`, a body, and `Commit`; the deferred `Rollback` undoes what was not committed, and its own
  -- error is dropped.
  unfoldable pub transaction : (Text → E) → (Text → E) → Query E T A → Query E T A
  transaction begin_failed commit_failed body db = elim (next_fault db.faults) [
    | some e ↦ (err (begin_failed e), called db)
    | none ↦
        let (r, db1) = body (called db) in
        elim r [
          | err e ↦ (err e, rolled_back db.tables db1)
          | ok a ↦ elim (next_fault db1.faults) [
            | some e ↦ (err (commit_failed e), rolled_back db.tables (called db1))
            | none ↦ (ok a, called db1)
          ]
        ]
  ]
