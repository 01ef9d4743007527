-- ===== src/Storage/Laws.antt =====
-- About transactions: what is left by one that fails, and by one that does not.
use pelican_mc_router.Prelude.{◌≡◌, inl, inr, arith, Result, ok, err, Result-cases, Option-cases}
use pelican_mc_router.Text.{Text}
use pelican_mc_router.Storage.{Database, Query, called, next_fault, ◌>>=◌, statement, transaction}

module _ {E T A : Type 0} where
  module _ (begin_failed commit_failed : Text → E) (body : Query E T A) (db : Database T) where
    pub transaction-eq-err :
        (e : E)
        → (transaction begin_failed commit_failed body db).0 ≡ err e
        → (transaction begin_failed commit_failed body db).1.tables ≡ db.tables
    unfolding transaction
    transaction-eq-err e h = ground arith

    pub transaction-eq-ok :
        (a : A)
        → (transaction begin_failed commit_failed body db).0 ≡ ok a
        → ((body (called db)).0 ≡ ok a)
          × ((transaction begin_failed commit_failed body db).1.tables
              ≡ (body (called db)).1.tables)
    unfolding transaction
    transaction-eq-ok a h = (ground arith, ground arith)

  pub statement-eq-ok :
      (wrap : Text → E) (run : T → Result Text (A × T)) (db : Database T) (a : A)
      → (statement wrap run db).0 ≡ ok a
      → run db.tables ≡ ok (a, (statement wrap run db).1.tables)
  unfolding statement
  statement-eq-ok wrap run db a h = ground arith

-- A predicate on the tables that a query keeps, whatever its outcome.
abbrev pub Keeps : {E T A : Type 0} → (T → Type 0) → Query E T A → Type 0
Keeps {T = T} P q = (db : Database T) → P db.tables → P (q db).1.tables

module _ {E T : Type 0} (P : T → Type 0) where
  pub statement-Keeps :
      {A : Type 0} (wrap : Text → E) (run : T → Result Text (A × T))
      → ((t t1 : T) (a : A) → run t ≡ ok (a, t1) → P t → P t1)
      → Keeps P (statement wrap run)
  unfolding statement
  statement-Keeps wrap run keeps db h = elim (Option-cases (next_fault db.faults)) [
    | inr (e, fault) ↦ ground arith
    | inl fine ↦ elim (Result-cases (run db.tables)) [
      | inr (e, bad) ↦ ground arith
      | inl ((a, t1), good) ↦ ground (arith, keeps db.tables t1 a)
    ]
  ]

  pub bind-Keeps :
      {A B : Type 0} (q : Query E T A) (next : A → Query E T B)
      → Keeps P q
      → ((a : A) → Keeps P (next a))
      → Keeps P (q >>= next)
  bind-Keeps q next first later db h = elim (Result-cases (q db).0) [
    | inr (e, bad) ↦ ground (arith, first db)
    | inl (a, good) ↦ ground (arith, first db, later a (q db).1)
  ]

  pub transaction-Keeps :
      {A : Type 0} (begin_failed commit_failed : Text → E) (body : Query E T A)
      → Keeps P body
      → Keeps P (transaction begin_failed commit_failed body)
  transaction-Keeps begin_failed commit_failed body keeps db h =
      elim (Result-cases (transaction begin_failed commit_failed body db).0) [
        | inr (e, bad) ↦ rw (transaction-eq-err begin_failed commit_failed body db e bad) h
        | inl (a, good) ↦
            rw ((transaction-eq-ok begin_failed commit_failed body db a good).1)
              (keeps (called db) h)
      ]
