-- ===== src/Tests/SetupTests.antt =====
-- Tests and examples for the setup service as it is put together. Services are named by the Pelican URL
-- they are built with; outside, there is only a clock.
use pelican_mc_router.Prelude.{
  ℕ, ◌≡◌, refl, false, Option, none, some, [], is_empty, if◌then◌else◌, Result, ok, err,
}
use pelican_mc_router.Prelude.Dict.{lookup, insert, erase}
use pelican_mc_router.Text.{Text, text, text_eq, trim_space}
use pelican_mc_router.Storage.{statement, transaction}
use pelican_mc_router.Router.Result.{no_result}
use pelican_mc_router.Runtime.Status.{new_status, start, complete}
use pelican_mc_router.Runtime.Build.{Environment, Settings, Scope, production, build, build_for}
use pelican_mc_router.Runtime.Refresh.{
  Task, begin_tracking, finish, fill_inventory, observe, record_history,
}
use pelican_mc_router.Runtime.Activate.{
  compensate, activate_with, activate_built, activate_locked, activate_and_track, activate_setup,
}
use pelican_mc_router.Runtime.Activate.Views.{Keeps}
use pelican_mc_router.Settings.Store.{
  StoreError, set_value, format_bool, save_each, values_to_save, remove_api_key, save_values,
  stage_setup, stage_row, promote_pending_setup, pending_with, is_setup_complete, get,
}
use pelican_mc_router.Setup.Service.{trimmed, credential, validate, stage, setup}
use pelican_mc_router.Setup.Stored.{World, Running}
use pelican_mc_router.Setup.Durable.{
  service, IsDurable, setup-IsDurable, tables_of, running_tables, error_of,
}
use pelican_mc_router.Tests.Data.{ascii}

abbrev raw_settings : Settings
raw_settings = record {
  pelican_url = text " https://panel.example.com ";
  pelican_api_key = [];
  pelican_secret_name = text "pelican";
  router_domain = text "mc.example.com";
}

abbrev environment : Environment (World ℕ) Text
environment = record {
  context_err = λ w. (ok tt, w);
  acquire = λ w. (ok tt, w);
  is_setup_complete = λ w. (ok false, w);
  load = λ w. (err (text "not found"), w);
  resolve = some (λ name w. (ok (text "key"), w));
  new_services = λ s. if is_empty s.pelican_url then err (text "no URL") else ok s.pelican_url;
  refresh_inventory = λ s w. (ok tt, w);
  synchronizer =
      production (λ (scope : Scope) (s : Option Text) (w : World ℕ). (no_result, none, w));
  now = λ w. w.outside;
  observe = none;
  record_outcome = none;
}

environment-Keeps : Keeps environment tables_of
environment-Keeps = record {
  context_keeps = λ w. refl;
  acquire_keeps = λ w. refl;
  complete_keeps = λ w. refl;
  load_keeps = λ w. refl;
  resolve_keeps = λ name w. refl;
  inventory_keeps = λ s w. refl;
  run_keeps = λ scope s w. refl;
  observe_keeps = tt;
  record_keeps = tt;
}

abbrev message : StoreError → Text
message e = text "failed"

abbrev random : ℕ → Result Text Text
random n = ok (text "g")

abbrev validator : Text → Text → Running ℕ Text → Result Text (Unit {0}) × Running ℕ Text
validator url key w = (if is_empty key then err (text "no key") else ok tt, w)

abbrev resolver : Option (Text → Running ℕ Text → Result Text Text × Running ℕ Text)
resolver = some (λ name w. (ok (text "key"), w))

abbrev idle : Task Text
idle = record { published = none; status = new_status }

abbrev fresh : World ℕ
fresh = record {
  outside = 7;
  database = record { tables = record { settings = []; pending = none }; faults = [] };
}

setup-IsDurable_example :
    IsDurable message random validator resolver environment environment-Keeps
      (λ url key w. refl)
      (λ name w. refl)
      (trimmed raw_settings)
      (tables_of fresh)
      (error_of
        (setup
          (service message random validator resolver environment)
          raw_settings
          (idle, fresh)).0)
      (running_tables
        (setup
          (service message random validator resolver environment)
          raw_settings
          (idle, fresh)).1)
setup-IsDurable_example =
    setup-IsDurable message random validator resolver environment environment-Keeps
      (λ url key w. refl) (λ name w. refl) raw_settings idle fresh

-- The setup of a fresh database succeeds.
setup_fine :
    error_of
      (setup (service message random validator resolver environment) raw_settings (idle, fresh)).0
    ≡ none
unfolding activate_setup activate_and_track activate_locked activate_built activate_with compensate
    build_for build begin_tracking finish fill_inventory observe record_history start complete
    text_eq setup validate credential stage stage_setup stage_row promote_pending_setup
    is_setup_complete get save_values save_each values_to_save remove_api_key set_value format_bool
    pending_with statement transaction trim_space lookup insert erase
setup_fine = refl
