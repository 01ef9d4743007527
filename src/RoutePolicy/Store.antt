-- ===== src/RoutePolicy/Store.antt =====
-- backend/internal/routepolicy/store.go, over the tables `route_policies` and `route_policy_aliases`.
-- The time stamps of the rows are left out: nothing reads them. SQLite enforces foreign keys only where
-- a connection asks for it, which this program does not.
pub mod Rows
pub mod Update
pub mod Create
pub mod Invariant
use pelican_mc_router.Prelude.{
  ℕ, suc, ◌+◌, Bool, true, false, not, ◌||◌, ◌&&◌, Option, none, some, List, [], ◌∷◌, ◌++◌, map,
  is_empty, any, contains, select, distinct, ◌==◌, if◌then◌else◌, Result, ok, err,
}
use pelican_mc_router.Prelude.Dict.{Dict, lookup, insert, erase, has, keys}
use pelican_mc_router.Prelude.Int.{ℤ, pos, le_int, int_eq}
use pelican_mc_router.Text.{Text, text, text_eq, Unicode, trim_space}
use pelican_mc_router.Text.Sort.{sort_strings}
use pelican_mc_router.Models.{Policy}
use pelican_mc_router.Storage.{Database, Query, pure, fail, ◌>>=◌, statement, transaction}

pub record PolicyRow : Type 0 where
  pub primary_hostname : Option Text
  pub excluded : Bool
  pub revision : ℕ

-- A row of the aliases is a server and a host name.
pub record PolicyTables : Type 0 where
  pub policies : Dict Text PolicyRow
  pub aliases : List (Text × Text)

pub data PolicyError : Type 0 where
  invalid policy_not_found conflict : PolicyError
  begin_failed commit_failed insert_failed update_failed delete_failed get_failed list_failed
        remove_aliases_failed insert_alias_failed list_aliases_failed exists_failed :
      Text → PolicyError

abbrev pub Action : Type 0 → Type 0
Action A = Query PolicyError PolicyTables A

-- `nullableString`, and a nullable column read back.
abbrev pub nullable_string : Text → Option Text
nullable_string [] = none
nullable_string (c ∷ s) = some (c ∷ s)

abbrev pub column_text : Option Text → Text
column_text none = []
column_text (some s) = s

unfoldable pub validate : ⦃u : Unicode⦄ → Policy → Result PolicyError (Unit {0})
validate policy =
    if is_empty (trim_space policy.server_uuid)
      || (any (λ (a : Text). is_empty (trim_space a)) policy.aliases
          || not (distinct policy.aliases))
    then err invalid
    else ok tt

-- The aliases of a server, as they stand in the table.
unfoldable pub aliases_of : Text → List (Text × Text) → List Text
aliases_of uuid [] = []
aliases_of uuid ((server, hostname) ∷ rows) =
    let rest = aliases_of uuid rows in if server == uuid then hostname ∷ rest else rest

unfoldable pub without_server : Text → List (Text × Text) → List (Text × Text)
without_server uuid [] = []
without_server uuid ((server, hostname) ∷ rows) =
    let rest = without_server uuid rows in
    if server == uuid then rest else (server, hostname) ∷ rest

-- `SELECT hostname ... WHERE server_uuid = ? ORDER BY hostname`
unfoldable pub list_aliases : Text → Action (List Text)
list_aliases uuid =
    statement list_aliases_failed (λ t. ok (sort_strings (aliases_of uuid t.aliases), t))

abbrev pub policy_of : Text → PolicyRow → List Text → Policy
policy_of uuid row aliases = record {
  server_uuid = uuid;
  primary_hostname = column_text row.primary_hostname;
  aliases = aliases;
  excluded = row.excluded;
  revision = pos row.revision;
}

abbrev pub or_policy_not_found : {A : Type 0} → Option A → Action A
or_policy_not_found none = fail policy_not_found
or_policy_not_found (some a) = pure a

-- The row of an alias: its key is the pair.
unfoldable pub insert_alias : Text → Text → PolicyTables → Result Text ((Unit {0}) × PolicyTables)
insert_alias uuid alias t =
    if contains (aliases_of uuid t.aliases) alias
    then err (text "UNIQUE constraint failed")
    else if is_empty alias
    then err (text "CHECK constraint failed")
    else ok (tt, record t { aliases = t.aliases ++ (uuid, alias) ∷ [] })

unfoldable pub insert_aliases : Text → List Text → Action (Unit {0})
insert_aliases uuid [] = pure tt
insert_aliases uuid (alias ∷ aliases) =
    statement insert_alias_failed (insert_alias uuid alias) >>= (λ _. insert_aliases uuid aliases)

unfoldable pub replace_aliases : Text → List Text → Action (Unit {0})
replace_aliases uuid aliases =
    statement remove_aliases_failed
      (λ t. ok (tt, record t { aliases = without_server uuid t.aliases }))
    >>= (λ _. insert_aliases uuid aliases)

abbrev pub new_row : Policy → PolicyRow
new_row policy = record {
  primary_hostname = nullable_string policy.primary_hostname;
  excluded = policy.excluded;
  revision = 1;
}

unfoldable pub insert_row : Policy → PolicyTables → Result Text ((Unit {0}) × PolicyTables)
insert_row policy t =
    if has policy.server_uuid t.policies
    then err (text "UNIQUE constraint failed")
    else ok (tt, record t { policies = insert policy.server_uuid (new_row policy) t.policies })

abbrev pub changed_row : Policy → PolicyRow → PolicyRow
changed_row policy row = record {
  primary_hostname = nullable_string policy.primary_hostname;
  excluded = policy.excluded;
  revision = suc row.revision;
}

-- `UPDATE ... WHERE server_uuid = ? AND revision = ?`, and whether a row was affected.
unfoldable pub update_row : Policy → ℤ → PolicyTables → Result Text (Bool × PolicyTables)
update_row policy expected t = elim (lookup policy.server_uuid t.policies) [
  | none ↦ ok (false, t)
  | some row ↦
      if pos row.revision == expected
      then ok (
        true,
        record t { policies = insert policy.server_uuid (changed_row policy row) t.policies },
      )
      else ok (false, t)
]

abbrev pub remove_policy : Text → PolicyTables → PolicyTables
remove_policy uuid t = record {
  policies = erase uuid t.policies;
  aliases = without_server uuid t.aliases;
}

module _ ⦃u : Unicode⦄ where
  unfoldable pub get : Text → Action Policy
  get uuid = if is_empty (trim_space uuid) then fail invalid else do
    found ← statement get_failed (λ t. ok (lookup uuid t.policies, t))
    row ← or_policy_not_found found
    aliases ← list_aliases uuid
    pure (policy_of uuid row aliases)

  abbrev pub when_valid : Policy → Action Policy → Action Policy
  when_valid policy action = elim (validate policy) [ err e ↦ fail e | ok _ ↦ action ]

  unfoldable pub create : Policy → Action Policy
  create policy = when_valid policy (
      transaction begin_failed commit_failed (
        statement insert_failed (insert_row policy)
        >>= (λ _. replace_aliases policy.server_uuid policy.aliases))
      >>= (λ _. get policy.server_uuid))

  -- No row was affected: the policy is missing, or has another revision.
  unfoldable pub refuse_update : Text → Action (Unit {0})
  refuse_update uuid =
      statement exists_failed (λ t. ok (has uuid t.policies, t))
      >>= (λ exists. fail (if exists then conflict else policy_not_found))

  unfoldable pub update_rows : Policy → ℤ → Action (Unit {0})
  update_rows policy expected = statement update_failed (update_row policy expected) >>= (λ updated.
      if updated
      then replace_aliases policy.server_uuid policy.aliases
      else refuse_update policy.server_uuid)

  unfoldable pub update : Policy → ℤ → Action Policy
  update policy expected = when_valid policy (
      if le_int expected (pos 0)
      then fail invalid
      else transaction begin_failed commit_failed (update_rows policy expected)
        >>= (λ _. get policy.server_uuid))

  -- The two DELETE statements, once the revision is compared.
  unfoldable pub delete_rows : Text → ℤ → Action (Unit {0})
  delete_rows uuid expected = do
    found ← statement get_failed (λ t. ok (lookup uuid t.policies, t))
    row ← or_policy_not_found found
    if pos row.revision == expected
        then statement remove_aliases_failed
            (λ t. ok (tt, record t { aliases = without_server uuid t.aliases }))
          >>= (λ _.
              statement delete_failed (λ t. ok (tt, record t { policies = erase uuid t.policies })))
        else fail conflict

  unfoldable pub delete : Text → ℤ → Action (Unit {0})
  delete uuid expected =
      if is_empty (trim_space uuid) || le_int expected (pos 0)
      then fail invalid
      else transaction begin_failed commit_failed (delete_rows uuid expected)

-- The loop of `List` over the rows, in the order of their servers.
unfoldable pub list_rows : List Text → Action (List Policy)
list_rows [] = pure []
list_rows (uuid ∷ uuids) = do
  found ← statement list_failed (λ t. ok (lookup uuid t.policies, t))
  row ← or_policy_not_found found
  aliases ← list_aliases uuid
  policies ← list_rows uuids
  pure (policy_of uuid row aliases ∷ policies)

unfoldable pub list : Action (List Policy)
list = statement list_failed (λ t. ok (sort_strings (keys t.policies), t)) >>= list_rows
