-- ===== src/Http/Routes/Events.antt =====
-- The sensitive actions that the handlers of backend/internal/http/server.go record. `log` is the view of the world that lists the recorded events.
use pelican_mc_router.Prelude.{
  ℕ, ◌≡◌, ap, ◌⊎◌, inl, inr, Bool, true, ◌||◌, some, List, [], ◌∷◌, ◌++◌, arith, leb, ltb, Result,
  Bool-cases,
}
use pelican_mc_router.Prelude.Int.{ℤ}
use pelican_mc_router.Text.{Text, text}
use pelican_mc_router.Models.{Policy}
use pelican_mc_router.Runtime.Build.{Settings}
use pelican_mc_router.History.Actions.{ActionEvent}
use pelican_mc_router.Http.{Error, Reply, Request, canceled, deadline_exceeded, is_error}
use pelican_mc_router.Http.Server.{
  Server, RoutePolicyStore, Authorizer, LimitedAction, record_action, outcome_for_error,
}
use pelican_mc_router.Http.Policies.{policy_error_reply}
use pelican_mc_router.Http.Settings.{setup_error_reply}

abbrev pub event : Text → Text → ActionEvent
event action outcome = record { action = action; outcome = outcome }

-- One event is added: of the action, a success with a reply below 300, or a failure or cancellation with
-- a reply from 400 on; or of a rejection by the limiter, with the reply 429.
pub data Audit (action : Text) (before after : List ActionEvent) (status : ℕ) : Type 0 where
  succeeded :
      after ≡ before ++ event action (text "success") ∷ []
      → ltb status 300 ≡ true
      → Audit action before after status
  failed :
      (outcome : Text)
      → (outcome ≡ text "failure") ⊎ (outcome ≡ text "canceled")
      → after ≡ before ++ event action outcome ∷ []
      → leb 400 status ≡ true
      → Audit action before after status
  limited :
      after ≡ before ++ event (text "rate_limit_rejection") (text "denied") ∷ []
      → status ≡ 429
      → Audit action before after status

-- The history that the server records to adds an event, and no other call does.
pub record Logs {W : Type 0} (log : W → List ActionEvent) (s : Server W) : Type 0 where
  pub append : ActionEvent → W → Result Error (Unit {0}) × W
  pub action_history : s.action_history ≡ some append
  pub adds : (e : ActionEvent) (w : W) → log (append e w).1 ≡ log w ++ e ∷ []
  pub create :
      (store : RoutePolicyStore W)
      → s.route_policies ≡ some store
      → (p : Policy) (w : W) → log (store.create p w).1 ≡ log w
  pub update :
      (store : RoutePolicyStore W)
      → s.route_policies ≡ some store
      → (p : Policy) (n : ℤ) (w : W) → log (store.update p n w).1 ≡ log w
  pub delete :
      (store : RoutePolicyStore W)
      → s.route_policies ≡ some store
      → (uuid : Text) (n : ℤ) (w : W) → log (store.delete uuid n w).1 ≡ log w
  pub update_settings : (value : Settings) (w : W) → log (s.setup.update value w).1 ≡ log w
  pub limiter :
      (allow : LimitedAction → W → Bool × W)
      → s.action_limiter ≡ some allow
      → (a : LimitedAction) (w : W) → log (allow a w).1 ≡ log w
  pub management_auth :
      (auth : Authorizer W)
      → s.management_auth ≡ some auth
      → (r : Request) (w : W) → log (auth.authorize_operator r w).1 ≡ log w

pub outcome_for_error-fails :
    (e : Error) → (outcome_for_error e ≡ text "failure") ⊎ (outcome_for_error e ≡ text "canceled")
unfolding outcome_for_error
outcome_for_error-fails e =
    elim (Bool-cases (is_error e canceled || is_error e deadline_exceeded)) [
      | inl yes_ ↦ inr (ground arith)
      | inr no_ ↦ inl (ground arith)
    ]

pub policy_error_reply-fails : (e : Error) → leb 400 (policy_error_reply e).status ≡ true
unfolding policy_error_reply
policy_error_reply-fails e = ground arith

pub setup_error_reply-fails :
    (otherwise : Text) (e : Error) → leb 400 (setup_error_reply otherwise e).status ≡ true
unfolding setup_error_reply
setup_error_reply-fails otherwise e = ground arith

module _ {W : Type 0} (log : W → List ActionEvent) (s : Server W) (logs : Logs log s) where
  abbrev pub Audits : Text → W → Reply × W → Type 0
  Audits action w result = Audit action (log w) (log result.1) result.0.status

  pub record_action-adds :
      (action outcome : Text) (v w : W)
      → log v ≡ log w
      → log (record_action s action outcome v) ≡ log w ++ event action outcome ∷ []
  unfolding record_action
  record_action-adds action outcome v w same =
      let added : log (logs.append (event action outcome) v).1
          ≡ log v ++ event action outcome ∷ [] =
        logs.adds (event action outcome) v in
      ground (
        arith,
        logs.action_history,
        ap (λ (l : List ActionEvent). l ++ event action outcome ∷ []) same,
      )
