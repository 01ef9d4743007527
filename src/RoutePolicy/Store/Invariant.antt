-- ===== src/RoutePolicy/Store/Invariant.antt =====
-- About the tables of backend/internal/routepolicy/store.go under any operations and faults.
use pelican_mc_router.Prelude.{
  ◌<◌, ◌≡◌, ◌≢◌, ◌⊎◌, refl, ◌∙◌, inl, inr, false, Option, none, some, List, [], ◌∷◌, arith, ◌==◌,
  ok, Result-cases, Option-cases, Bool-cases,
}
use pelican_mc_router.Prelude.Dict.{lookup, lookup-insert, lookup-erase}
use pelican_mc_router.Prelude.Int.{ℤ, pos, int_eq}
use pelican_mc_router.Text.{Text, text_eq, Unicode}
use pelican_mc_router.Models.{Policy}
use pelican_mc_router.Storage.{Database, statement, transaction}
use pelican_mc_router.RoutePolicy.Store.{
  PolicyRow, PolicyTables, aliases_of, without_server, new_row, changed_row, remove_policy, create,
  update, delete, delete_rows,
}
use pelican_mc_router.RoutePolicy.Store.Rows.{alias_rows, aliases_of-append, aliases_of-without}
use pelican_mc_router.RoutePolicy.Store.Update.{stored, update-IsOptimistic}
use pelican_mc_router.RoutePolicy.Store.Create.{create-IsCreated}

-- Aliases belong to policies that are there, and revisions are positive.
pub record IsValid (t : PolicyTables) : Type 0 where
  pub owned : (uuid : Text) → lookup uuid t.policies ≡ none → aliases_of uuid t.aliases ≡ []
  pub positive :
      (uuid : Text) (row : PolicyRow) → lookup uuid t.policies ≡ some row → 0 < row.revision

aliases_of-rows_other :
    (uuid v : Text) (aliases : List Text)
    → (uuid == v) ≡ false
    → aliases_of v (alias_rows uuid aliases) ≡ []
unfolding aliases_of
aliases_of-rows_other uuid v [] h = refl
aliases_of-rows_other uuid v (a ∷ aliases) h =
    ground (arith, aliases_of-rows_other uuid v aliases h)

aliases_of-without_other :
    (uuid v : Text) (rows : List (Text × Text))
    → (uuid == v) ≡ false
    → aliases_of v (without_server uuid rows) ≡ aliases_of v rows
unfolding aliases_of without_server
aliases_of-without_other uuid v [] h = refl
aliases_of-without_other uuid v (r ∷ rows) h =
    ground (arith, aliases_of-without_other uuid v rows h)

stored-IsValid :
    (policy : Policy) (row : PolicyRow) (t : PolicyTables)
    → 0 < row.revision
    → IsValid t
    → IsValid (stored policy row t)
stored-IsValid policy row t some_revision valid = record {
  owned = λ v absent.
      let uuid : Text = policy.server_uuid in
      let found = lookup-insert v uuid row t.policies in
      elim (Bool-cases (uuid == v)) [
        | inl same ↦ absurd (ground (arith, found))
        | inr other ↦
            let before : aliases_of v t.aliases ≡ [] = valid.owned v (ground (arith, found)) in
            rw
              (
                aliases_of-append v (without_server uuid t.aliases)
                    (alias_rows uuid policy.aliases),
                aliases_of-rows_other uuid v policy.aliases other,
                aliases_of-without_other uuid v t.aliases other,
                before,
              )
              refl
      ];
  positive = λ v r there.
      ground (arith, lookup-insert v policy.server_uuid row t.policies, valid.positive v r);
}

remove_policy-IsValid :
    (uuid : Text) (t : PolicyTables) → IsValid t → IsValid (remove_policy uuid t)
remove_policy-IsValid uuid t valid = record {
  owned = λ v absent.
      let found = lookup-erase v uuid t.policies in
      elim (Bool-cases (uuid == v)) [
        | inl same ↦ ground (arith, aliases_of-without uuid t.aliases)
        | inr other ↦
            ground (arith, found, aliases_of-without_other uuid v t.aliases other, valid.owned v)
      ];
  positive = λ v r there. ground (arith, lookup-erase v uuid t.policies, valid.positive v r);
}

-- A deletion removes the policy that had the expected revision with its aliases, or does nothing.
pub delete-IsOptimistic :
    ⦃u : Unicode⦄ (uuid : Text) (expected : ℤ) (db : Database PolicyTables)
    → (((delete uuid expected db).1.tables ≡ db.tables) × ((delete uuid expected db).0 ≢ ok tt))
      ⊎ ((row : PolicyRow) × (lookup uuid db.tables.policies ≡ some row)
          × (pos row.revision ≡ expected)
          × ((delete uuid expected db).1.tables ≡ remove_policy uuid db.tables)
          × ((delete uuid expected db).0 ≡ ok tt))
unfolding delete delete_rows transaction statement
delete-IsOptimistic uuid expected db = elim (Result-cases (delete uuid expected db).0) [
  | inr (e, failed) ↦ inl (ground arith, λ done. ground arith)
  | inl (_, done) ↦ elim (Option-cases (lookup uuid db.tables.policies)) [
    | inl absent ↦ absurd (ground arith)
    | inr (row, there) ↦ inr (row, there, ground arith, ground arith, ground arith)
  ]
]

-- The tables with any faults to come.
abbrev pub facing : PolicyTables → List (Option Text) → Database PolicyTables
facing t faults = record { tables = t; faults = faults }

-- One operation that writes, with any faults.
pub data Step ⦃u : Unicode⦄ (t t' : PolicyTables) : Type 0 where
  creates :
      (policy : Policy) (faults : List (Option Text))
      → t' ≡ (create policy (facing t faults)).1.tables
      → Step t t'
  updates :
      (policy : Policy) (expected : ℤ) (faults : List (Option Text))
      → t' ≡ (update policy expected (facing t faults)).1.tables
      → Step t t'
  deletes :
      (uuid : Text) (expected : ℤ) (faults : List (Option Text))
      → t' ≡ (delete uuid expected (facing t faults)).1.tables
      → Step t t'

pub data Reach ⦃u : Unicode⦄ (t : PolicyTables) : PolicyTables → Type 0 where
  here : Reach t t
  next : {t' t'' : PolicyTables} → Reach t t' → Step t' t'' → Reach t t''

module _ ⦃u : Unicode⦄ where
  Step-IsValid : (t t' : PolicyTables) → Step t t' → IsValid t → IsValid t'
  Step-IsValid t t' (creates policy faults e) valid =
      elim (create-IsCreated policy (facing t faults)) [
        | inl (same, _) ↦ rw (e ∙ same) valid
        | inr (_, after, _) ↦
            rw (e ∙ after) (stored-IsValid policy (new_row policy) t (omega arith) valid)
      ]
  Step-IsValid t t' (updates policy expected faults e) valid =
      elim (update-IsOptimistic policy expected (facing t faults)) [
        | inl (same, _) ↦ rw (e ∙ same) valid
        | inr (row, _, _, after, _) ↦
            rw (e ∙ after) (stored-IsValid policy (changed_row policy row) t (omega arith) valid)
      ]
  Step-IsValid t t' (deletes uuid expected faults e) valid =
      elim (delete-IsOptimistic uuid expected (facing t faults)) [
        | inl (same, _) ↦ rw (e ∙ same) valid
        | inr (row, _, _, after, _) ↦ rw (e ∙ after) (remove_policy-IsValid uuid t valid)
      ]

  -- Whatever is created, updated and deleted, in any order and with any faults, aliases belong to
  -- policies that are there, and revisions are positive.
  pub Reach-IsValid : {t t' : PolicyTables} → IsValid t → Reach t t' → IsValid t'
  Reach-IsValid valid here = valid
  Reach-IsValid valid (next {t' = t'} {t'' = t''} r step) =
      Step-IsValid t' t'' step (Reach-IsValid valid r)
