-- ===== src/Http/Policies.antt =====
-- The route policy handlers of backend/internal/http/server.go.
use pelican_mc_router.Prelude.{◌||◌, Option, none, some, if◌then◌else◌, Result, ok, err}
use pelican_mc_router.Prelude.Int.{ℤ, pos}
use pelican_mc_router.Text.{Text, text}
use pelican_mc_router.Text.Decimal.{parse_int}
use pelican_mc_router.Models.{Policy}
use pelican_mc_router.Http.{
  Error, policy_not_found, policy_conflict, policy_invalid, is_error, no_body, policy_body,
  policies_body, Reply, write_json, write_json_error, PolicyCreateRequest, PolicyUpdateRequest,
  Json,
}
use pelican_mc_router.Http.Server.{
  Server, RoutePolicyStore, Handler, outcome_for_error, decode_json, record_action,
}

infixl 5 ◌>>=◌
abbrev ◌>>=◌ : {A B : Type 0} → Option A → (A → Option B) → Option B
step >>= next = elim step [ none ↦ none | some a ↦ next a ]

-- The values that a `valid` request states.
unfoldable pub policy_to_create : PolicyCreateRequest → Option Policy
policy_to_create request = do
  server_uuid ← request.server_uuid
  primary_hostname ← request.primary_hostname
  aliases ← request.aliases
  excluded ← request.excluded
  some (record {
    server_uuid = server_uuid;
    primary_hostname = primary_hostname;
    aliases = aliases;
    excluded = excluded;
    revision = pos 0;
  })

unfoldable pub policy_to_update : Text → PolicyUpdateRequest → Option (Policy × ℤ)
policy_to_update server_uuid request = do
  primary_hostname ← request.primary_hostname
  aliases ← request.aliases
  excluded ← request.excluded
  revision ← request.revision
  some (
    record {
      server_uuid = server_uuid;
      primary_hostname = primary_hostname;
      aliases = aliases;
      excluded = excluded;
      revision = pos 0;
    },
    revision,
  )

-- The chain of `errors.Is` tests of the policy handlers.
unfoldable pub policy_error_reply : Error → Reply
policy_error_reply e =
    if is_error e policy_not_found
    then write_json_error 404 (text "route policy not found")
    else if is_error e policy_conflict
    then write_json_error 409 (text "route policy conflict")
    else if is_error e policy_invalid
    then write_json_error 400 (text "invalid route policy")
    else write_json_error 503 (text "route policy unavailable")

unfoldable pub write_route_policy_result : Result Error Policy → Reply
write_route_policy_result (ok policy) = write_json 200 (policy_body policy)
write_route_policy_result (err e) = policy_error_reply e

unfoldable pub outcome_of : {A : Type 0} → Result Error A → Text
outcome_of (ok a) = text "success"
outcome_of (err e) = outcome_for_error e

module _ {W : Type 0} (s : Server W) where
  abbrev policy_action : Text → W → W
  policy_action outcome w = record_action s (text "route_policy_mutation") outcome w

  abbrev failed : Reply → W → Reply × W
  failed reply w = (reply, policy_action (text "failure") w)

  abbrev not_available : Reply
  not_available = write_json_error 404 (text "route policies not found")

  abbrev invalid_body : Reply
  invalid_body = write_json_error 400 (text "invalid request body")

  unfoldable pub list_route_policies : Handler W
  list_route_policies r w = elim s.route_policies [
    | none ↦ (not_available, w)
    | some store ↦
        let (listed, w1) = store.list w in
        elim listed [
          | err e ↦ (write_json_error 503 (text "route policies unavailable"), w1)
          | ok policies ↦ (write_json 200 (policies_body policies), w1)
        ]
  ]

  -- `createRoutePolicy` from the call of the store on.
  unfoldable pub create_with : RoutePolicyStore W → Policy → W → Reply × W
  create_with store policy w =
      let (created, w1) = store.create policy w in
      elim created [
        | err e ↦
            if is_error e policy_invalid
            then failed (write_json_error 400 (text "invalid route policy")) w1
            else (
              write_json_error 503 (text "route policy unavailable"),
              policy_action (outcome_for_error e) w1,
            )
        | ok stored ↦ (write_json 201 (policy_body stored), policy_action (text "success") w1)
      ]

  unfoldable pub create_route_policy : Json → Handler W
  create_route_policy json r w = elim s.route_policies [
    | none ↦ failed not_available w
    | some store ↦ elim (decode_json json.policy_create r.body) [
      | none ↦ failed invalid_body w
      | some request ↦ elim (policy_to_create request) [
        | none ↦ failed (write_json_error 400 (text "invalid route policy")) w
        | some policy ↦ create_with store policy w
      ]
    ]
  ]

  unfoldable pub update_with : RoutePolicyStore W → Policy → ℤ → W → Reply × W
  update_with store policy revision w =
      let (updated, w1) = store.update policy revision w in
      (write_route_policy_result updated, policy_action (outcome_of updated) w1)

  unfoldable pub update_route_policy : Json → Handler W
  update_route_policy json r w = elim s.route_policies [
    | none ↦ failed not_available w
    | some store ↦ elim (decode_json json.policy_update r.body) [
      | none ↦ failed invalid_body w
      | some request ↦ elim (policy_to_update r.server_uuid request) [
        | none ↦ failed (write_json_error 400 (text "invalid route policy")) w
        | some (policy, revision) ↦ update_with store policy revision w
      ]
    ]
  ]

  -- An error that the tests know is recorded as a failure, any other as `outcomeForError` says.
  unfoldable pub delete_outcome : Error → Text
  delete_outcome e =
      if is_error e policy_not_found || (is_error e policy_conflict || is_error e policy_invalid)
      then text "failure"
      else outcome_for_error e

  unfoldable pub delete_with : RoutePolicyStore W → Text → ℤ → W → Reply × W
  delete_with store server_uuid revision w =
      let (deleted, w1) = store.delete server_uuid revision w in
      elim deleted [
        | err e ↦ (policy_error_reply e, policy_action (delete_outcome e) w1)
        | ok _ ↦ (write_json 204 no_body, policy_action (text "success") w1)
      ]

  unfoldable pub delete_route_policy : Handler W
  delete_route_policy r w = elim s.route_policies [
    | none ↦ failed not_available w
    | some store ↦ elim (parse_int r.revision) [
      | none ↦ failed (write_json_error 400 (text "invalid route policy revision")) w
      | some revision ↦ delete_with store r.server_uuid revision w
    ]
  ]
