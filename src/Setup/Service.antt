-- ===== src/Setup/Service.antt =====
-- backend/internal/setup/service.go. The store, the validator, the secret resolver and the activator
-- are interfaces of the source: actions on a world. A refresher is an activator of both kinds, as the
-- runtime's refresh task is: the type assertions on it succeed.
use pelican_mc_router.Prelude.{
  Bool, true, false, Option, none, some, is_empty, if◌then◌else◌, Result, ok, err,
}
use pelican_mc_router.Text.{Text, text, Unicode, trim_space}
use pelican_mc_router.Runtime.Build.{Settings}

pub record SettingsStore (W : Type 0) : Type 0 where
  pub is_setup_complete : W → Result Text Bool × W
  pub save : Settings → W → Result Text (Unit {0}) × W
  pub stage_setup : Settings → W → Result Text Text × W
  pub promote_pending_setup : Text → W → Result Text (Unit {0}) × W

-- `CandidateRuntimeActivator` and `SetupRuntimeActivator`
pub record Activator (W : Type 0) : Type 0 where
  pub activate : Settings → (W → Result Text (Unit {0}) × W) → W → Result Text (Unit {0}) × W
  pub activate_setup :
      Settings
      → (W → Result Text Text × W)
      → (Text → W → Result Text (Unit {0}) × W)
      → W
      → Result Text (Unit {0}) × W

pub record Service (W : Type 0) : Type 0 where
  pub store : SettingsStore W
  pub validator : Text → Text → W → Result Text (Unit {0}) × W
  pub refresher : Option (Activator W)
  pub resolver : Option (Text → W → Result Text Text × W)

pub data SetupError : Type 0 where
  already_configured setup_not_active missing_router_domain resolver_unavailable
        credential_unavailable :
      SetupError
  status_failed invalid_credentials save_failed stage_failed promote_failed activate_failed :
      Text → SetupError

abbrev pub trimmed : ⦃u : Unicode⦄ → Settings → Settings
trimmed input = record {
  pelican_url = trim_space input.pelican_url;
  pelican_api_key = trim_space input.pelican_api_key;
  pelican_secret_name = trim_space input.pelican_secret_name;
  router_domain = trim_space input.router_domain;
}

-- An error of a call, under the text it is wrapped in.
abbrev pub wrapped :
    {W A : Type 0} → (Text → SetupError) → Result Text A × W → Result SetupError A × W
wrapped wrap (r, w) = (elim r [ err e ↦ err (wrap e) | ok a ↦ ok a ], w)

module _ ⦃u : Unicode⦄ {W : Type 0} (s : Service W) where
  -- The key that is validated: the API key, or the secret that is named.
  unfoldable pub credential : Settings → W → Result SetupError Text × W
  credential input w =
      if is_empty input.pelican_secret_name
      then (ok input.pelican_api_key, w)
      else elim s.resolver [
        | none ↦ (err resolver_unavailable, w)
        | some resolve ↦
            let (secret, w1) = resolve input.pelican_secret_name w in
            elim secret [ err e ↦ (err credential_unavailable, w1) | ok key ↦ (ok key, w1) ]
      ]

  -- `validate`, which also trims its input.
  unfoldable pub validate : Settings → W → Result SetupError Settings × W
  validate raw w =
      let input : Settings = trimmed raw in
      if is_empty input.router_domain
      then (err missing_router_domain, w)
      else let (key, w1) = credential input w in
        elim key [
          | err e ↦ (err e, w1)
          | ok k ↦
              let (valid, w2) = s.validator input.pelican_url k w1 in
              elim valid [ err e ↦ (err (invalid_credentials e), w2) | ok _ ↦ (ok input, w2) ]
        ]

  -- The closure `stage` of `Setup`.
  unfoldable pub stage : Settings → W → Result Text Text × W
  stage input w =
      let (complete, w1) = s.store.is_setup_complete w in
      elim complete [
        | err e ↦ (err e, w1)
        | ok true ↦ (err (text "setup: setup has already been completed"), w1)
        | ok false ↦ s.store.stage_setup input w1
      ]

  -- `Setup` without a refresher.
  unfoldable pub stage_and_promote : Settings → W → Result SetupError (Unit {0}) × W
  stage_and_promote input w =
      let (staged, w1) = s.store.stage_setup input w in
      elim staged [
        | err e ↦ (err (stage_failed e), w1)
        | ok generation ↦ wrapped promote_failed (s.store.promote_pending_setup generation w1)
      ]

  unfoldable pub setup : Settings → W → Result SetupError (Unit {0}) × W
  setup raw w =
      let (complete, w1) = s.store.is_setup_complete w in
      elim complete [
        | err e ↦ (err (status_failed e), w1)
        | ok true ↦ (err already_configured, w1)
        | ok false ↦
            let (valid, w2) = validate raw w1 in
            elim valid [
              | err e ↦ (err e, w2)
              | ok input ↦ elim s.refresher [
                | none ↦ stage_and_promote input w2
                | some activator ↦
                    wrapped activate_failed (
                      activator.activate_setup input (stage input) s.store.promote_pending_setup w2)
              ]
            ]
      ]

  unfoldable pub prepare_and_publish : Settings → W → Result SetupError (Unit {0}) × W
  prepare_and_publish raw w =
      let (valid, w1) = validate raw w in
      elim valid [
        | err e ↦ (err e, w1)
        | ok input ↦ elim s.refresher [
          | none ↦ wrapped save_failed (s.store.save input w1)
          | some activator ↦
              wrapped activate_failed (activator.activate input (s.store.save input) w1)
        ]
      ]

  unfoldable pub update : Settings → W → Result SetupError (Unit {0}) × W
  update raw w =
      let (complete, w1) = s.store.is_setup_complete w in
      elim complete [
        | err e ↦ (err (status_failed e), w1)
        | ok false ↦ (err setup_not_active, w1)
        | ok true ↦ prepare_and_publish raw w1
      ]
