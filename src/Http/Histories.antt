-- ===== src/Http/Histories.antt =====
-- The handlers of the two histories in backend/internal/http/server.go.
use pelican_mc_router.Prelude.{
  not, ◌||◌, Option, none, some, is_empty, if◌then◌else◌, Result, ok, err,
}
use pelican_mc_router.Prelude.Int.{ℤ, pos, le_int}
use pelican_mc_router.Text.{Text, text}
use pelican_mc_router.Text.Decimal.{parse_int}
use pelican_mc_router.Http.{
  Error, Payload, actions_body, operations_body, write_json, write_json_error,
}
use pelican_mc_router.Http.Server.{Server, Handler}

-- The parameter `limit` of the query: none for a value that is refused.
unfoldable pub history_limit : Text → Option ℤ
history_limit raw = if is_empty raw then some (pos 100) else elim (parse_int raw) [
  | none ↦ none
  | some value ↦
      if not (le_int (pos 1) value) || not (le_int value (pos 100)) then none else some value
]

-- What `listActionHistory` and `listOperationalHistory` both do.
unfoldable pub list_history :
    {W A : Type 0} → Option (ℤ → W → Result Error A × W) → (A → Payload) → Text → Text → Handler W
list_history store body missing unavailable r w = elim store [
  | none ↦ (write_json_error 404 missing, w)
  | some list ↦ elim (history_limit r.limit) [
    | none ↦ (write_json_error 400 (text "invalid history limit"), w)
    | some limit ↦
        let (listed, w1) = list limit w in
        elim listed [
          | err e ↦ (write_json_error 503 unavailable, w1)
          | ok events ↦ (write_json 200 (body events), w1)
        ]
  ]
]

module _ {W : Type 0} (s : Server W) where
  unfoldable pub list_action_history : Handler W
  unfolding list_history
  list_action_history r w =
      list_history s.action_history_reader actions_body (text "action history not found")
        (text "action history unavailable") r w

  unfoldable pub list_operational_history : Handler W
  unfolding list_history
  list_operational_history r w =
      list_history s.operational_history operations_body (text "operational history not found")
        (text "operational history unavailable") r w
