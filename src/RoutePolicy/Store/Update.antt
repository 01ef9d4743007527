-- ===== src/RoutePolicy/Store/Update.antt =====
-- About `Create` and `Update` of backend/internal/routepolicy/store.go: revisions and conflicts.
use pelican_mc_router.Prelude.{
  ◌≡◌, ◌≢◌, ◌⊎◌, ap, ◌∙◌, inl, inr, some, arith, ◌==◌, ==-self, eq_of_==, Result, ok, Result-cases,
  Option-cases, Bool-cases,
}
use pelican_mc_router.Prelude.Dict.{lookup, insert, lookup-insert}
use pelican_mc_router.Prelude.Int.{ℤ, pos, le_int, int_eq}
use pelican_mc_router.Text.{Text, text_eq, Unicode}
use pelican_mc_router.Text.Sort.{sort_strings}
use pelican_mc_router.Models.{Policy}
use pelican_mc_router.Storage.{Database, called, statement, transaction}
use pelican_mc_router.Storage.Laws.{transaction-eq-err, transaction-eq-ok}
use pelican_mc_router.RoutePolicy.Store.{
  PolicyRow, PolicyTables, PolicyError, policy_of, changed_row, update_row, update_rows,
  refuse_update, validate, get, update,
}
use pelican_mc_router.RoutePolicy.Store.Rows.{
  replaced, aliases_of-replaced, replace_aliases-eq-ok, get-reads,
}

-- The tables with another row and other aliases for a policy's server.
abbrev pub stored : Policy → PolicyRow → PolicyTables → PolicyTables
stored policy row t = record {
  policies = insert policy.server_uuid row t.policies;
  aliases = replaced policy.server_uuid policy.aliases t.aliases;
}

-- The policy as it is read back, with its aliases sorted.
abbrev pub read_back : Policy → PolicyRow → Policy
read_back policy row = policy_of policy.server_uuid row (sort_strings policy.aliases)

module _ ⦃u : Unicode⦄ (policy : Policy) where
  pub lookup-stored :
      (row : PolicyRow) (t : PolicyTables)
      → lookup policy.server_uuid (stored policy row t).policies ≡ some row
  lookup-stored row t = ground (
    arith,
    lookup-insert policy.server_uuid policy.server_uuid row t.policies,
    ==-self policy.server_uuid,
  )

  -- Reading a policy that was just stored.
  pub get-stored :
      (row : PolicyRow) (t : PolicyTables) (db : Database PolicyTables) (q : Policy)
      → db.tables ≡ stored policy row t
      → (get policy.server_uuid db).0 ≡ ok q
      → q ≡ read_back policy row
  get-stored row t db q same h =
      let (_, reads) = get-reads policy.server_uuid db in
      let there : lookup policy.server_uuid db.tables.policies ≡ some row =
        rw same (lookup-stored row t) in
      reads q row h there
      ∙ ap (λ s. policy_of policy.server_uuid row (sort_strings s))
          (rw same (aliases_of-replaced policy.server_uuid policy.aliases t.aliases))

  refuse_update-fails :
      (uuid : Text) (db : Database PolicyTables) → (refuse_update uuid db).0 ≢ ok tt
  unfolding refuse_update statement
  refuse_update-fails uuid db h = ground arith

  module _ (expected : ℤ) where
    update_rows-eq-ok :
        (db : Database PolicyTables)
        → (update_rows policy expected db).0 ≡ ok tt
        → (row : PolicyRow) × (lookup policy.server_uuid db.tables.policies ≡ some row)
          × (pos row.revision ≡ expected)
          × ((update_rows policy expected db).1.tables
              ≡ stored policy (changed_row policy row) db.tables)
    unfolding update_rows update_row statement
    update_rows-eq-ok db h = elim (Option-cases (lookup policy.server_uuid db.tables.policies)) [
      | inl absent ↦ absurd (ground (arith, refuse_update-fails policy.server_uuid (called db)))
      | inr (row, there) ↦ elim (Bool-cases (pos row.revision == expected)) [
        | inr differs ↦ absurd (ground (arith, refuse_update-fails policy.server_uuid (called db)))
        | inl same ↦
            let t : PolicyTables = record db.tables {
              policies = insert policy.server_uuid (changed_row policy row) db.tables.policies;
            } in
            (
              row,
              there,
              eq_of_== (pos row.revision) expected same,
              ground (
                arith,
                replace_aliases-eq-ok policy.server_uuid policy.aliases
                    (record (called db) { tables = t }),
              ),
            )
      ]
    ]

    -- What an update did: nothing, and it failed; or it replaced the row that had the expected revision
    -- by one with the next, with the policy's aliases, and if it returns a policy, it is that one.
    abbrev pub IsOptimistic : PolicyTables → Result PolicyError Policy → PolicyTables → Type 0
    IsOptimistic before out after =
        ((after ≡ before) × ((q : Policy) → out ≢ ok q))
        ⊎ ((row : PolicyRow) × (lookup policy.server_uuid before.policies ≡ some row)
            × (pos row.revision ≡ expected)
            × (after ≡ stored policy (changed_row policy row) before)
            × ((q : Policy) → out ≡ ok q → q ≡ read_back policy (changed_row policy row)))

    -- An update changes a policy only from the expected revision to the next, completely or not at
    -- all, and returns what is then stored; it may fail after it was committed, while it reads.
    pub update-IsOptimistic :
        (db : Database PolicyTables)
        → IsOptimistic db.tables (update policy expected db).0 (update policy expected db).1.tables
    unfolding update
    update-IsOptimistic db =
        let ran =
          transaction PolicyError.begin_failed PolicyError.commit_failed
            (update_rows policy expected) db in
        elim (Result-cases (validate policy)) [
          | inr (e, bad) ↦ inl (ground arith, λ q h. ground arith)
          | inl (_, fine) ↦ elim (Bool-cases (le_int expected (pos 0))) [
            | inl low ↦ inl (ground arith, λ q h. ground arith)
            | inr high ↦ elim (Result-cases ran.0) [
              | inr (e, bad) ↦ inl (
                ground (
                  arith,
                  transaction-eq-err PolicyError.begin_failed PolicyError.commit_failed
                      (update_rows policy expected) db e bad,
                ),
                λ q h. ground arith,
              )
              | inl (_, done) ↦
                  let (inside, left) =
                    transaction-eq-ok PolicyError.begin_failed PolicyError.commit_failed
                      (update_rows policy expected) db tt done in
                  let (row, there, same, rows) = update_rows-eq-ok (called db) inside in
                  let after : ran.1.tables ≡ stored policy (changed_row policy row) db.tables =
                    left ∙ rows in
                  inr (
                    row,
                    there,
                    same,
                    ground (arith, after, (get-reads policy.server_uuid ran.1).0),
                    λ q h.
                        get-stored (changed_row policy row) db.tables ran.1 q after (ground arith),
                  )
            ]
          ]
        ]
