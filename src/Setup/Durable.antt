-- ===== src/Setup/Durable.antt =====
-- About `Setup` of backend/internal/setup/service.go, together with the store and the refresh task.
use pelican_mc_router.Prelude.{
  ◌≡◌, ◌≢◌, refl, ap, ◌∙◌, inl, inr, true, false, Option, none, some, [], arith, is_empty, Result,
  ok, err, Result-cases, Option-cases, Bool-cases,
}
use pelican_mc_router.Text.{Text, Unicode}
use pelican_mc_router.Storage.{Database, statement}
use pelican_mc_router.Runtime.Build.{Environment, Settings}
use pelican_mc_router.Runtime.Refresh.{Task}
use pelican_mc_router.Runtime.Activate.{Activation, activate_setup}
use pelican_mc_router.Runtime.Activate.Views.{Keeps, KeepsResolve}
use pelican_mc_router.Runtime.Activate.Staged.{activate_setup-IsStaged}
use pelican_mc_router.Settings.Store.{
  Tables, Pending, StoreError, get, is_setup_complete, stage_setup, promote_pending_setup,
}
use pelican_mc_router.Settings.Store.Laws.{saved}
use pelican_mc_router.Settings.Store.Staging.{
  candidate, promoted, promote-IsAtomic, stage_setup-IsAtomic,
}
use pelican_mc_router.Setup.Service.{
  Service, SetupError, trimmed, credential, validate, stage, setup,
}
use pelican_mc_router.Setup.Stored.{World, Running, without, database_store, runtime_activator}

abbrev pub tables_of : {X : Type 0} → World X → Tables
tables_of w = w.database.tables

abbrev pub running_tables : {X S : Type 0} → Running X S → Tables
running_tables (task, w) = w.database.tables

abbrev pub error_of : {E A : Type 0} → Result E A → Option E
error_of (ok a) = none
error_of (err e) = some e

is_setup_complete-tables : (db : Database Tables) → (is_setup_complete db).1.tables ≡ db.tables
unfolding is_setup_complete get statement
is_setup_complete-tables db = ground arith

module _ ⦃u : Unicode⦄ {X S : Type 0} (message : StoreError → Text) (random : X → Result Text Text)
    (validator : Text → Text → Running X S → Result Text (Unit {0}) × Running X S)
    (resolver : Option (Text → Running X S → Result Text Text × Running X S))
    (env : Environment (World X) S) where
  -- The service, put together.
  abbrev pub service : Service (Running X S)
  service = record {
    store = database_store message random;
    validator = validator;
    refresher = some (runtime_activator env);
    resolver = resolver;
  }

  module _ (keeps : Keeps env tables_of)
      (validator_keeps : (url key : Text) (w : Running X S)
        → running_tables (validator url key w).1 ≡ running_tables w)
      (resolver_keeps : KeepsResolve running_tables resolver) where
    credential-tables :
        (input : Settings) (w : Running X S)
        → running_tables (credential service input w).1 ≡ running_tables w
    unfolding credential
    credential-tables input w = go resolver refl resolver_keeps
      where
        go :
            (r : Option (Text → Running X S → Result Text Text × Running X S))
            → resolver ≡ r
            → KeepsResolve running_tables r
            → running_tables (credential service input w).1 ≡ running_tables w
        go none e k = ground arith
        go (some resolve) e k = ground (arith, k input.pelican_secret_name w)

    -- Validation leaves the tables, and gives the trimmed input or an error.
    validated :
        (raw : Settings) (w : Running X S)
        → (running_tables (validate service raw w).1 ≡ running_tables w)
          × ((input : Settings) → (validate service raw w).0 ≡ ok input → input ≡ trimmed raw)
    unfolding validate
    validated raw w =
        let input : Settings = trimmed raw in
        let w1 : Running X S = (credential service input w).1 in
        let same : running_tables w1 ≡ running_tables w = credential-tables input w in
        elim (Bool-cases (is_empty input.router_domain)) [
          | inl missing ↦ (ground arith, λ i h. ground arith)
          | inr named ↦ elim (Result-cases (credential service input w).0) [
            | inr (e, bad) ↦ (ground (arith, same), λ i h. ground arith)
            | inl (key, good) ↦ (
              ground (arith, same, validator_keeps input.pelican_url key w1),
              λ i h. ground arith,
            )
          ]
        ]

    module _ (input : Settings) (task : Task S) where
      abbrev staging : World X → Result Text Text × World X
      staging = without task (stage service input)

      abbrev promotion : Text → World X → Result Text (Unit {0}) × World X
      promotion g = without task (service.store.promote_pending_setup g)

      staging-settings : (w : World X) → (tables_of (staging w).1).settings ≡ (tables_of w).settings
      unfolding stage
      staging-settings w =
          let db1 : Database Tables = (is_setup_complete w.database).1 in
          ground (
            arith,
            is_setup_complete-tables w.database,
            (stage_setup-IsAtomic (random w.outside) input db1).0,
          )

      staging-pending :
          (w : World X) (g : Text)
          → (staging w).0 ≡ ok g
          → (tables_of (staging w).1).pending ≡ some (candidate input g)
      unfolding stage
      staging-pending w g staged =
          let db1 : Database Tables = (is_setup_complete w.database).1 in
          let (_, _, stages) = stage_setup-IsAtomic (random w.outside) input db1 in
          elim (Result-cases (stage_setup (random w.outside) input db1).0) [
            | inr (e, bad) ↦ absurd (ground arith)
            | inl (g', good) ↦ ground (arith, (stages g' good).1)
          ]

      promotion-undone :
          (g : Text) (w : World X) (e : Text)
          → (promotion g w).0 ≡ err e
          → tables_of (promotion g w).1 ≡ tables_of w
      promotion-undone g w e failed = elim (Result-cases (promote_pending_setup g w.database).0) [
        | inl (_, good) ↦ absurd (ground arith)
        | inr (e', bad) ↦ (promote-IsAtomic g w.database).0 e' bad
      ]

      promotion-promotes :
          (g : Text) (w : World X)
          → (promotion g w).0 ≡ ok tt
          → (p : Pending) × ((tables_of w).pending ≡ some p)
            × (tables_of (promotion g w).1 ≡ promoted p (tables_of w))
      promotion-promotes g w done = elim (Result-cases (promote_pending_setup g w.database).0) [
        | inr (e, bad) ↦ absurd (ground arith)
        | inl (_, good) ↦
            let (p, there, _, left) = (promote-IsAtomic g w.database).1 good in (p, there, left)
      ]

    -- The settings are as they were, or are the input and setup is complete.
    abbrev pub IsDurable : Settings → Tables → Option SetupError → Tables → Type 0
    IsDurable input before error after =
        (error ≢ none → after.settings ≡ before.settings)
        × (error ≡ none
            → (after.settings ≡ saved (record input { pelican_api_key = [] }) true before.settings)
              × (after.pending ≡ none))

    activation-IsDurable :
        (input : Settings) (task : Task S) (w : World X)
        → let a = activate_setup env (staging input task) (promotion input task) input task w in
          (a.error ≢ none → (tables_of a.world).settings ≡ (tables_of w).settings)
          × (a.error ≡ none
              → ((tables_of a.world).settings
                  ≡ saved (record input { pelican_api_key = [] }) true (tables_of w).settings)
                × ((tables_of a.world).pending ≡ none))
    activation-IsDurable input task w =
        let (failing, persisting) =
          activate_setup-IsStaged env tables_of keeps (staging input task) (promotion input task)
            (promotion-undone input task) input task w in
        (
          λ failed. elim (failing failed) [
            | inl same ↦ ap (λ t. t.settings) same
            | inr (x, same, left) ↦
                ap (λ t. t.settings) left
                ∙ (staging-settings input task x ∙ ap (λ t. t.settings) same)
          ],
          λ fine.
              let (x, g, v, same, staged, between, done, left) = persisting fine in
              let (p, there, promotes) = promotion-promotes input task g v done in
              let pending = staging-pending input task x g staged in
              let settings = staging-settings input task x in
              (
                ground (arith, left, promotes, there, pending, settings, between, same),
                ground (arith, left, promotes),
              ),
        )

    -- A setup of the service as it is put together is all or nothing: with an error, whatever failed
    -- and wherever, the active settings are as they were; without one, they are the trimmed input less
    -- an API key, setup is complete and no candidate is pending.
    pub setup-IsDurable :
        (raw : Settings) (task : Task S) (w : World X)
        → IsDurable
            (trimmed raw)
            (tables_of w)
            (error_of (setup service raw (task, w)).0)
            (running_tables (setup service raw (task, w)).1)
    unfolding setup
    setup-IsDurable raw task w =
        let db1 : Database Tables = (is_setup_complete w.database).1 in
        let w1 : World X = record w { database = db1 } in
        let same : tables_of w1 ≡ tables_of w = is_setup_complete-tables w.database in
        elim (Result-cases (is_setup_complete w.database).0) [
          | inr (e, bad) ↦ rw (bad, setup) (λ failed. ap (λ t. t.settings) same, λ fine. cc)
          | inl (true, complete) ↦
              rw (complete, setup) (λ failed. ap (λ t. t.settings) same, λ fine. cc)
          | inl (false, incomplete) ↦
              let x : Running X S = (validate service raw (task, w1)).1 in
              let (kept, trims) = validated raw (task, w1) in
              let same2 : tables_of x.1 ≡ tables_of w = kept ∙ same in
              elim (Result-cases (validate service raw (task, w1)).0) [
                | inr (e, bad) ↦
                    rw (incomplete, bad, setup) (λ failed. ap (λ t. t.settings) same2, λ fine. cc)
                | inl (input, good) ↦
                    let (failing, persisting) = activation-IsDurable input x.0 x.1 in
                    let a : Activation (World X) S =
                      activate_setup env (staging input x.0) (promotion input x.0) input x.0 x.1 in
                    elim (Option-cases a.error) [
                      | inr (e, bad) ↦
                          rw (incomplete, good, bad, setup)
                            (
                              λ failed. failing (λ fine. cc) ∙ ap (λ t. t.settings) same2,
                              λ fine. cc,
                            )
                      | inl fine ↦
                          let (settings, pending) = persisting fine in
                          let same3 : input ≡ trimmed raw = trims input good in
                          rw (incomplete, good, fine, setup)
                            (
                              λ failed. absurd (failed refl),
                              λ _. (ground (arith, settings, same2, same3), pending),
                            )
                    ]
              ]
        ]
