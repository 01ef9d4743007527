-- ===== src/RoutePolicy/Store/Create.antt =====
-- About `Create` and `Update` of backend/internal/routepolicy/store.go: what is read back, and two
-- updates from one revision.
use pelican_mc_router.Prelude.{
  ◌≡◌, ◌≢◌, ◌⊎◌, inl, inr, none, some, arith, Result, ok, err, Result-cases, Option-cases,
}
use pelican_mc_router.Prelude.Dict.{lookup, insert, has}
use pelican_mc_router.Prelude.Int.{ℤ, int_eq}
use pelican_mc_router.Text.{text_eq, Unicode}
use pelican_mc_router.Models.{Policy}
use pelican_mc_router.Storage.{Database, called, statement, transaction}
use pelican_mc_router.Storage.Laws.{transaction-eq-err}
use pelican_mc_router.RoutePolicy.Store.{
  PolicyTables, PolicyError, Action, replace_aliases, new_row, insert_row, changed_row, validate,
  create, update,
}
use pelican_mc_router.RoutePolicy.Store.Rows.{replace_aliases-eq-ok, get-reads}
use pelican_mc_router.RoutePolicy.Store.Update.{
  stored, read_back, lookup-stored, get-stored, update-IsOptimistic,
}

module _ ⦃u : Unicode⦄ where
  -- Two updates from one revision of a policy never both return a policy, whatever faults there are.
  pub update-conflicts :
      (first second : Policy) (expected : ℤ) (db : Database PolicyTables) (p q : Policy)
      → first.server_uuid ≡ second.server_uuid
      → (update first expected db).0 ≡ ok p
      → (update second expected (update first expected db).1).0 ≢ ok q
  update-conflicts first second expected db p q one done again =
      let db1 : Database PolicyTables = (update first expected db).1 in
      elim (update-IsOptimistic first expected db) [
        | inl (_, refused) ↦ refused p done
        | inr (row, there, same, after, _) ↦ elim (update-IsOptimistic second expected db1) [
          | inl (_, refused) ↦ refused q again
          | inr (row2, there2, same2, _, _) ↦
              let held : lookup first.server_uuid db1.tables.policies
                  ≡ some (changed_row first row) =
                rw after (lookup-stored first (changed_row first row) db.tables) in
              ground (arith, held, there2, same, same2, one)
        ]
      ]

  module _ (policy : Policy) where
    abbrev body : Action (Unit {0})
    body db =
        let (r, db1) = statement PolicyError.insert_failed (insert_row policy) db in
        elim r [
          | err e ↦ (err e, db1)
          | ok _ ↦ replace_aliases policy.server_uuid policy.aliases db1
        ]

    abbrev creation : Action (Unit {0})
    creation = transaction PolicyError.begin_failed PolicyError.commit_failed body

    -- What a creation did: nothing, and it failed; or it stored a policy that was not there, and if it
    -- returns a policy, it is that one.
    abbrev pub IsCreated : PolicyTables → Result PolicyError Policy → PolicyTables → Type 0
    IsCreated before out after =
        ((after ≡ before) × ((q : Policy) → out ≢ ok q))
        ⊎ ((lookup policy.server_uuid before.policies ≡ none)
            × (after ≡ stored policy (new_row policy) before)
            × ((q : Policy) → out ≡ ok q → q ≡ read_back policy (new_row policy)))

    created :
        (db : Database PolicyTables)
        → (creation db).0 ≡ ok tt
        → (lookup policy.server_uuid db.tables.policies ≡ none)
          × ((creation db).1.tables ≡ stored policy (new_row policy) db.tables)
    unfolding transaction statement insert_row has
    created db h =
        let t : PolicyTables = record db.tables {
          policies = insert policy.server_uuid (new_row policy) db.tables.policies;
        } in
        elim (Option-cases (lookup policy.server_uuid db.tables.policies)) [
          | inr (row, there) ↦ absurd (ground arith)
          | inl absent ↦ (
            absent,
            ground (
              arith,
              replace_aliases-eq-ok policy.server_uuid policy.aliases
                  (record (called (called db)) { tables = t }),
            ),
          )
        ]

    -- A creation stores a policy that was not there, at revision 1, completely or not at all, and
    -- returns what is then stored; it may fail after it was committed, while it reads.
    pub create-IsCreated :
        (db : Database PolicyTables)
        → IsCreated db.tables (create policy db).0 (create policy db).1.tables
    unfolding create
    create-IsCreated db = elim (Result-cases (validate policy)) [
      | inr (e, bad) ↦ inl (ground arith, λ q h. ground arith)
      | inl (_, fine) ↦ elim (Result-cases (creation db).0) [
        | inr (e, bad) ↦ inl (
          ground (
            arith,
            bad,
            transaction-eq-err PolicyError.begin_failed PolicyError.commit_failed body db e bad,
          ),
          λ q h. ground (arith, bad),
        )
        | inl (_, done) ↦
            let (absent, after) = created db done in
            inr (
              absent,
              ground (arith, after, (get-reads policy.server_uuid (creation db).1).0),
              λ q h.
                  get-stored policy (new_row policy) db.tables (creation db).1 q after
                    (ground arith),
            )
      ]
    ]
