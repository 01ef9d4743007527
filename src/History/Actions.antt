-- ===== src/History/Actions.antt =====
-- backend/internal/actionhistory/store.go: the sensitive actions.
use pelican_mc_router.Prelude.{ℕ, Bool, List, [], ◌∷◌, contains, ◌&&◌, if◌then◌else◌}
use pelican_mc_router.Prelude.Int.{ℤ}
use pelican_mc_router.Text.{Text, text, text_eq}
use pelican_mc_router.Storage.{fail, ◌>>=◌, pure}
use pelican_mc_router.History.{Row, invalid_event, Action, append_event, list_events, time_of}

pub record ActionEvent : Type 0 where
  pub action : Text
  pub outcome : Text

unfoldable pub valid_action : Text → Bool
valid_action a =
    contains
      (text "bootstrap_authorization"
        ∷ text "setup"
        ∷ text "settings_update"
        ∷ text "manual_reconciliation"
        ∷ text "route_policy_mutation"
        ∷ text "rate_limit_rejection"
        ∷ [])
      a

unfoldable pub valid_outcome : Text → Bool
valid_outcome o =
    contains (text "success" ∷ text "failure" ∷ text "denied" ∷ text "canceled" ∷ []) o

-- `Append`; `now` is the clock, and an event without a time has the time 0.
unfoldable pub append_action : ℕ → ℕ → ℕ → ActionEvent → Action ActionEvent (Unit {0})
append_action kept now occurred_at e =
    if valid_action e.action && valid_outcome e.outcome
    then append_event kept (time_of occurred_at now) e >>= (λ key. pure tt)
    else fail invalid_event

unfoldable pub list_actions : ℤ → Action ActionEvent (List (Row ActionEvent))
list_actions limit = list_events limit
