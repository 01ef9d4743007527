-- ===== src/Settings/Store.antt =====
-- backend/internal/settings/store.go, over the tables `settings` and `pending_setup`. The time stamps
-- of the rows are left out: nothing reads them.
pub mod Laws
pub mod Staging
use pelican_mc_router.Prelude.{
  Bool, true, false, ◌||◌, Option, none, some, List, [], ◌∷◌, ◌++◌, is_empty, contains, ◌==◌,
  if◌then◌else◌, Result, ok, err,
}
use pelican_mc_router.Prelude.Dict.{Dict, lookup, insert, erase}
use pelican_mc_router.Text.{Text, text, text_eq}
use pelican_mc_router.Storage.{Database, Query, pure, fail, ◌>>=◌, statement, transaction}
use pelican_mc_router.Runtime.Build.{Settings}
use pelican_mc_router.Settings.{
  key_pelican_url, key_pelican_api_key, key_pelican_secret_name, key_router_domain,
  key_setup_completed,
}

-- The row of `pending_setup`, of which there is at most one: its key is CHECKed to be 1.
pub record Pending : Type 0 where
  pub pelican_url : Text
  pub pelican_secret_name : Text
  pub router_domain : Text
  pub generation : Text

pub record Tables : Type 0 where
  pub settings : Dict Text Text
  pub pending : Option Pending

pub data StoreError : Type 0 where
  not_found secret_name_required : StoreError
  query_failed generate_failed begin_failed commit_failed stage_failed load_pending_failed
        clear_failed remove_legacy_failed :
      Text → StoreError
  parse_failed : Text → StoreError
  save_failed load_failed : Text → StoreError → StoreError

abbrev pub Action : Type 0 → Type 0
Action A = Query StoreError Tables A

unfoldable pub set_value : Text → Text → Action (Unit {0})
set_value key value =
    statement query_failed (λ t. ok (tt, record t { settings = insert key value t.settings }))

abbrev pub or_not_found : {A : Type 0} → Option A → Action A
or_not_found none = fail not_found
or_not_found (some a) = pure a

unfoldable pub get : Text → Action Text
get key = statement query_failed (λ t. ok (lookup key t.settings, t)) >>= or_not_found

-- `strconv.ParseBool`
unfoldable pub parse_bool : Text → Option Bool
parse_bool s =
    if contains (text "1" ∷ text "t" ∷ text "T" ∷ text "TRUE" ∷ text "true" ∷ text "True" ∷ []) s
    then some true
    else if contains
        (text "0" ∷ text "f" ∷ text "F" ∷ text "FALSE" ∷ text "false" ∷ text "False" ∷ []) s
    then some false
    else none

-- `strconv.FormatBool`
unfoldable pub format_bool : Bool → Text
format_bool true = text "true"
format_bool false = text "false"

abbrev pub or_parse_failed : Text → Option Bool → Action Bool
or_parse_failed value none = fail (parse_failed value)
or_parse_failed value (some b) = pure b

unfoldable pub is_setup_complete : Action Bool
is_setup_complete db =
    let (found, db1) = get key_setup_completed db in
    elim found [
      | ok value ↦ or_parse_failed value (parse_bool value) db1
      | err e ↦ elim e as (λ _. Result StoreError Bool × Database Tables) [
        | not_found ↦ (ok false, db1)
        | _ ↦ (err e, db1)
      ]
    ]

unfoldable pub set_setup_complete : Bool → Action (Unit {0})
set_setup_complete complete = set_value key_setup_completed (format_bool complete)

-- The loop of `saveValues`.
unfoldable pub save_each : List (Text × Text) → Action (Unit {0})
save_each [] db = (ok tt, db)
save_each ((key, value) ∷ values) db =
    let (saved, db1) = set_value key value db in
    elim saved [ err e ↦ (err (save_failed key e), db1) | ok _ ↦ save_each values db1 ]

abbrev pub completion : Bool → List (Text × Text)
completion true = (key_setup_completed, format_bool true) ∷ []
completion false = []

-- The rows that `saveValues` writes.
unfoldable pub values_to_save : Settings → Bool → List (Text × Text)
values_to_save value complete =
    (key_pelican_url, value.pelican_url) ∷ (key_router_domain, value.router_domain) ∷ []
    ++ completion complete
    ++ (if is_empty value.pelican_secret_name
        then (key_pelican_api_key, value.pelican_api_key)
        else (key_pelican_secret_name, value.pelican_secret_name))
      ∷ []

unfoldable pub remove_api_key : Action (Unit {0})
remove_api_key =
    statement remove_legacy_failed
      (λ t. ok (tt, record t { settings = erase key_pelican_api_key t.settings }))

unfoldable pub save_values : Settings → Bool → Action (Unit {0})
save_values value complete =
    save_each (values_to_save value complete)
    >>= (λ _. if is_empty value.pelican_secret_name then pure tt else remove_api_key)

-- The unexported `save`, with `Save` and `SaveSetup`.
unfoldable pub save_with : Bool → Settings → Action (Unit {0})
save_with complete value = transaction begin_failed commit_failed (save_values value complete)

abbrev pub save : Settings → Action (Unit {0})
save = save_with false

abbrev pub save_setup : Settings → Action (Unit {0})
save_setup = save_with true

-- The CHECKs of the table `pending_setup`.
unfoldable pub stage_row : Settings → Text → Tables → Result Text ((Unit {0}) × Tables)
stage_row value generation t =
    if is_empty value.pelican_url
      || (is_empty value.pelican_secret_name || is_empty value.router_domain)
    then err (text "CHECK constraint failed")
    else ok (
      tt,
      record t {
        pending = some (record {
          pelican_url = value.pelican_url;
          pelican_secret_name = value.pelican_secret_name;
          router_domain = value.router_domain;
          generation = generation;
        });
      },
    )

-- `StageSetup`; `random` is the hexadecimal text of the bytes that `rand.Read` gives, or its error.
unfoldable pub stage_setup : Result Text Text → Settings → Action Text
stage_setup random value db =
    if is_empty value.pelican_secret_name then (err secret_name_required, db) else elim random [
      | err e ↦ (err (generate_failed e), db)
      | ok generation ↦
          transaction begin_failed commit_failed
            (statement stage_failed (stage_row value generation) >>= (λ _. pure generation)) db
    ]

-- The row that the promotion reads.
unfoldable pub pending_with : Text → Option Pending → Option Pending
pending_with generation none = none
pending_with generation (some p) = if p.generation == generation then some p else none

abbrev pub settings_of : Pending → Settings
settings_of p = record {
  pelican_url = p.pelican_url;
  pelican_api_key = [];
  pelican_secret_name = p.pelican_secret_name;
  router_domain = p.router_domain;
}

unfoldable pub promote_pending_setup : Text → Action (Unit {0})
promote_pending_setup generation = transaction begin_failed commit_failed (
    statement load_pending_failed (λ t. ok (pending_with generation t.pending, t))
    >>= or_not_found
    >>= (λ p. save_values (settings_of p) true)
    >>= (λ _. statement clear_failed (λ t. ok (tt, record t { pending = none }))))

-- `Get` for a setting that may be missing.
unfoldable pub get_optional : Text → Action Text
get_optional key db =
    let (found, db1) = get key db in
    elim found [
      | ok value ↦ (ok value, db1)
      | err e ↦ elim e as (λ _. Result StoreError Text × Database Tables) [
        | not_found ↦ (ok [], db1)
        | _ ↦ (err (load_failed key e), db1)
      ]
    ]

unfoldable pub get_required : Text → Action Text
get_required key db =
    let (found, db1) = get key db in
    elim found [ ok value ↦ (ok value, db1) | err e ↦ (err (load_failed key e), db1) ]

unfoldable pub load : Action Settings
load = do
  url ← get_required key_pelican_url
  api_key ← get_optional key_pelican_api_key
  secret_name ← get_optional key_pelican_secret_name
  domain ← get_required key_router_domain
  pure (record {
    pelican_url = url;
    pelican_api_key = api_key;
    pelican_secret_name = secret_name;
    router_domain = domain;
  })
