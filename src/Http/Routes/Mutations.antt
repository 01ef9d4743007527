-- ===== src/Http/Routes/Mutations.antt =====
-- About the handlers of backend/internal/http/server.go that record their action: each by itself.
use pelican_mc_router.Prelude.{
  ℕ, ◌≡◌, refl, ◌∙◌, ◌⊎◌, inl, inr, true, ◌||◌, none, some, List, [], ◌∷◌, ◌++◌, arith, leb, ltb,
  Result-cases, Option-cases, Bool-cases,
}
use pelican_mc_router.Prelude.Int.{ℤ}
use pelican_mc_router.Text.{Text, text, Unicode, trim_space}
use pelican_mc_router.Text.Decimal.{parse_int}
use pelican_mc_router.Models.{Policy}
use pelican_mc_router.Runtime.Build.{Settings}
use pelican_mc_router.Secrets.{valid_name}
use pelican_mc_router.History.Actions.{ActionEvent}
use pelican_mc_router.Http.{
  Error, Json, Reply, Request, write_json_error, policy_not_found, policy_conflict, policy_invalid,
  is_error,
}
use pelican_mc_router.Http.Server.{
  Server, RoutePolicyStore, LimitedAction, limited_settings, record_action, allow_action,
  decode_json,
}
use pelican_mc_router.Http.Policies.{
  policy_to_create, policy_to_update, write_route_policy_result, outcome_of, create_with,
  create_route_policy, update_with, update_route_policy, delete_outcome, delete_with,
  delete_route_policy,
}
use pelican_mc_router.Http.Settings.{requested_settings, apply_settings, update_settings}
use pelican_mc_router.Http.Routes.Events.{
  event, Audit, succeeded, failed, limited, Logs, outcome_for_error-fails, policy_error_reply-fails,
  setup_error_reply-fails, Audits, record_action-adds,
}

abbrev pub route_policy_action : Text
route_policy_action = text "route_policy_mutation"

module _ {W : Type 0} (log : W → List ActionEvent) (s : Server W) (logs : Logs log s) where
  -- A handler that records a failure or a cancellation, or a success.
  fails :
      (action outcome : Text) (v w : W) (status : ℕ)
      → (outcome ≡ text "failure") ⊎ (outcome ≡ text "canceled")
      → log v ≡ log w
      → leb 400 status ≡ true
      → Audit action (log w) (log (record_action s action outcome v)) status
  fails action outcome v w status kind same bad =
      failed outcome kind (record_action-adds log s logs action outcome v w same) bad

  succeeds :
      (action : Text) (v w : W) (status : ℕ)
      → log v ≡ log w
      → ltb status 300 ≡ true
      → Audit action (log w) (log (record_action s action (text "success") v)) status
  succeeds action v w status same good =
      succeeded (record_action-adds log s logs action (text "success") v w same) good

  delete_outcome-fails :
      (e : Error) → (delete_outcome s e ≡ text "failure") ⊎ (delete_outcome s e ≡ text "canceled")
  unfolding delete_outcome
  delete_outcome-fails e =
      elim (Bool-cases (
        is_error e policy_not_found || (is_error e policy_conflict || is_error e policy_invalid))) [
          | inl known ↦ inl (ground arith)
          | inr unknown ↦ elim (outcome_for_error-fails e) [
            | inl f ↦ inl (ground arith)
            | inr c ↦ inr (ground arith)
          ]
        ]

  create_with-Audits :
      (store : RoutePolicyStore W)
      → s.route_policies ≡ some store
      → (p : Policy) (w : W) → Audits log s logs route_policy_action w (create_with s store p w)
  unfolding create_with
  create_with-Audits store here p w =
      let same : log (store.create p w).1 ≡ log w = logs.create store here p w in
      elim (Result-cases (store.create p w).0) [
        | inl (stored, good) ↦ rw (good, create_with) (succeeds _ _ w _ same refl)
        | inr (e, bad) ↦
            rw (bad, create_with)
              (elim (Bool-cases (is_error e policy_invalid)) [
                | inl invalid_ ↦ rw invalid_ (fails _ _ _ w _ (inl refl) same refl)
                | inr other_ ↦ rw other_ (fails _ _ _ w _ (outcome_for_error-fails e) same refl)
              ])
      ]

  update_with-Audits :
      (store : RoutePolicyStore W)
      → s.route_policies ≡ some store
      → (p : Policy) (n : ℤ) (w : W)
      → Audits log s logs route_policy_action w (update_with s store p n w)
  unfolding update_with outcome_of write_route_policy_result
  update_with-Audits store here p n w =
      let same : log (store.update p n w).1 ≡ log w = logs.update store here p n w in
      elim (Result-cases (store.update p n w).0) [
        | inl (stored, good) ↦
            rw (good, update_with, outcome_of, write_route_policy_result)
              (succeeds _ _ w _ same refl)
        | inr (e, bad) ↦
            rw (bad, update_with, outcome_of, write_route_policy_result)
              (fails _ _ _ w _ (outcome_for_error-fails e) same (policy_error_reply-fails e))
      ]

  delete_with-Audits :
      (store : RoutePolicyStore W)
      → s.route_policies ≡ some store
      → (uuid : Text) (n : ℤ) (w : W)
      → Audits log s logs route_policy_action w (delete_with s store uuid n w)
  unfolding delete_with
  delete_with-Audits store here uuid n w =
      let same : log (store.delete uuid n w).1 ≡ log w = logs.delete store here uuid n w in
      elim (Result-cases (store.delete uuid n w).0) [
        | inl (_, good) ↦ rw (good, delete_with) (succeeds _ _ w _ same refl)
        | inr (e, bad) ↦
            rw (bad, delete_with)
              (fails _ _ _ w _ (delete_outcome-fails e) same (policy_error_reply-fails e))
      ]

  pub create-Audits :
      (json : Json) (r : Request) (w : W)
      → Audits log s logs route_policy_action w (create_route_policy s json r w)
  unfolding create_route_policy
  create-Audits json r w = elim (Option-cases s.route_policies) [
    | inl missing ↦ rw (missing, create_route_policy) (fails _ _ w w _ (inl refl) refl refl)
    | inr (store, here) ↦ elim (Option-cases (decode_json json.policy_create r.body)) [
      | inl bad ↦ rw (here, bad, create_route_policy) (fails _ _ w w _ (inl refl) refl refl)
      | inr (request, decoded) ↦ elim (Option-cases (policy_to_create request)) [
        | inl bad ↦
            rw (here, decoded, bad, create_route_policy) (fails _ _ w w _ (inl refl) refl refl)
        | inr (policy, good) ↦
            rw (here, decoded, good, create_route_policy) (create_with-Audits store here policy w)
      ]
    ]
  ]

  pub update-Audits :
      (json : Json) (r : Request) (w : W)
      → Audits log s logs route_policy_action w (update_route_policy s json r w)
  unfolding update_route_policy
  update-Audits json r w = elim (Option-cases s.route_policies) [
    | inl missing ↦ rw (missing, update_route_policy) (fails _ _ w w _ (inl refl) refl refl)
    | inr (store, here) ↦ elim (Option-cases (decode_json json.policy_update r.body)) [
      | inl bad ↦ rw (here, bad, update_route_policy) (fails _ _ w w _ (inl refl) refl refl)
      | inr (request, decoded) ↦ elim (Option-cases (policy_to_update r.server_uuid request)) [
        | inl bad ↦
            rw (here, decoded, bad, update_route_policy) (fails _ _ w w _ (inl refl) refl refl)
        | inr ((policy, n), good) ↦
            rw (here, decoded, good, update_route_policy) (update_with-Audits store here policy n w)
      ]
    ]
  ]

  pub delete-Audits :
      (r : Request) (w : W) → Audits log s logs route_policy_action w (delete_route_policy s r w)
  unfolding delete_route_policy
  delete-Audits r w = elim (Option-cases s.route_policies) [
    | inl missing ↦ rw (missing, delete_route_policy) (fails _ _ w w _ (inl refl) refl refl)
    | inr (store, here) ↦ elim (Option-cases (parse_int r.revision)) [
      | inl bad ↦ rw (here, bad, delete_route_policy) (fails _ _ w w _ (inl refl) refl refl)
      | inr (n, good) ↦
          rw (here, good, delete_route_policy) (delete_with-Audits store here r.server_uuid n w)
    ]
  ]

  -- `v` is the world after the limiter.
  apply_settings-Audits :
      ⦃u : Unicode⦄
      → (action failure : Text) (json : Json) (r : Request) (v w : W) → log v ≡ log w
      → Audits log s logs action w (apply_settings s action failure s.setup.update json r v)
  unfolding apply_settings
  apply_settings-Audits action failure json r v w same =
      elim (Option-cases (decode_json json.setup_request r.body)) [
        | inl bad ↦ rw (bad, apply_settings) (fails action _ v w _ (inl refl) same refl)
        | inr (request, decoded) ↦
            elim (Bool-cases (valid_name (trim_space request.pelican_secret_name))) [
              | inr bad ↦
                  rw (decoded, bad, apply_settings) (fails action _ v w _ (inl refl) same refl)
              | inl valid ↦
                  let value : Settings = requested_settings request in
                  let after : log (s.setup.update value v).1 ≡ log w =
                    logs.update_settings value v ∙ same in
                  elim (Result-cases (s.setup.update value v).0) [
                    | inl (_, good) ↦
                        rw (decoded, valid, good, apply_settings) (succeeds action _ w _ after refl)
                    | inr (e, bad) ↦
                        rw (decoded, valid, bad, apply_settings)
                          (fails action _ _ w _ (outcome_for_error-fails e) after
                            (setup_error_reply-fails failure e))
                  ]
            ]
      ]

  allow_action-Audits :
      (a : LimitedAction) (w : W)
      → (((allow_action s a w).0 ≡ none) × (log (allow_action s a w).1 ≡ log w))
        ⊎ ((reply : Reply) × ((allow_action s a w).0 ≡ some reply)
            × (reply.status ≡ 429)
            × (log (allow_action s a w).1
                ≡ log w ++ event (text "rate_limit_rejection") (text "denied") ∷ []))
  unfolding allow_action
  allow_action-Audits a w = elim (Option-cases s.action_limiter) [
    | inl missing ↦ inl (ground arith, ground arith)
    | inr (allow, here) ↦
        let same : log (allow a w).1 ≡ log w = logs.limiter allow here a w in
        elim (Bool-cases (allow a w).0) [
          | inl allowed ↦ inl (ground arith, ground arith)
          | inr refused ↦
              let added =
                record_action-adds log s logs (text "rate_limit_rejection") (text "denied")
                  (allow a w).1 w same in
              inr (
                write_json_error 429 (text "action temporarily unavailable"),
                ground arith,
                refl,
                ground (arith, added),
              )
        ]
  ]

  pub settings-Audits :
      ⦃u : Unicode⦄
      → (json : Json) (r : Request) (w : W)
      → Audits log s logs (text "settings_update") w (update_settings s json r w)
  unfolding update_settings
  settings-Audits json r w =
      let w1 : W = (allow_action s limited_settings w).1 in
      elim (allow_action-Audits limited_settings w) [
        | inl (allowed, same) ↦
            let failure : Text = text "failed to update settings" in
            let next : update_settings s json r w
                ≡ apply_settings s (text "settings_update") failure s.setup.update json r w1 =
              ground arith in
            rw next (apply_settings-Audits (text "settings_update") failure json r w1 w same)
        | inr (reply, refused, status, added) ↦
            let ended : update_settings s json r w ≡ (reply, w1) = ground arith in
            rw ended (limited added status)
      ]
