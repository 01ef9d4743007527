-- ===== src/Tests/StoreTests.antt =====
-- Tests and examples for the stores: the settings, the route policies and the histories.
use pelican_mc_router.Prelude.{◌≡◌, ◌≢◌, refl, true, none, some, [], ◌∷◌, arith, ok, err}
use pelican_mc_router.Prelude.Int.{int_eq}
use pelican_mc_router.Prelude.Dict.{lookup}
use pelican_mc_router.Text.{text, text_eq}
use pelican_mc_router.Storage.{Database, statement, transaction}
use pelican_mc_router.Runtime.Build.{Settings}
use pelican_mc_router.Settings.{key_pelican_secret_name, key_pelican_api_key}
use pelican_mc_router.Settings.Store.{
  Tables, StoreError, set_value, format_bool, save_each, values_to_save, remove_api_key,
  save_values, save_with, load, stage_setup, stage_row, promote_pending_setup,
}
use pelican_mc_router.Settings.Store.Laws.{loaded, healthy, save_with-load}
use pelican_mc_router.Settings.Store.Staging.{promoted, promote-IsAtomic}
use pelican_mc_router.Tests.Data.{ascii}

abbrev stored_settings : Settings
stored_settings = record {
  pelican_url = text "https://panel.example.com";
  pelican_api_key = [];
  pelican_secret_name = text "pelican";
  router_domain = text "mc.example.com";
}

abbrev settings_db : Database Tables
settings_db = record {
  tables = record {
    settings = (key_pelican_api_key, text "old") ∷ (key_pelican_secret_name, text "older") ∷ [];
    pending = none;
  };
  faults = none ∷ none ∷ [];
}

saves : (save_with true stored_settings settings_db).0 ≡ ok tt
unfolding save_with save_values save_each values_to_save remove_api_key set_value format_bool
    statement transaction
saves = refl

-- The third call of the driver, a statement, fails, and so the transaction does.
save_fails :
    (save_with true stored_settings
      (record settings_db { faults = none ∷ none ∷ some (text "disk full") ∷ [] })).1.tables
    ≡ settings_db.tables
unfolding save_with save_values save_each values_to_save remove_api_key set_value format_bool
    statement transaction
save_fails = refl

save_with-load_example :
    (load (healthy (save_with true stored_settings settings_db).1.tables)).0
    ≡ ok (loaded stored_settings (lookup key_pelican_secret_name settings_db.tables.settings))
save_with-load_example = save_with-load true stored_settings settings_db saves

promote-IsAtomic_example :
    ((e : StoreError)
      → (promote_pending_setup (text "g") settings_db).0 ≡ err e
      → (promote_pending_setup (text "g") settings_db).1.tables ≡ settings_db.tables)
    × ((promote_pending_setup (text "g") settings_db).0 ≡ ok tt
        → (p : _) × (settings_db.tables.pending ≡ some p)
          × (p.generation ≡ text "g")
          × ((promote_pending_setup (text "g") settings_db).1.tables
              ≡ promoted p settings_db.tables))
promote-IsAtomic_example = promote-IsAtomic (text "g") settings_db

staged : (stage_setup (ok (text "g2")) stored_settings settings_db).0 ≡ ok (text "g2")
unfolding stage_setup stage_row statement transaction
staged = refl

other_generation : text "g" ≢ text "g2"
other_generation h = ground arith
