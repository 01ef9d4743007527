-- ===== src/Settings/Store/Laws.antt =====
-- About backend/internal/settings/store.go: transactions, and loading what was saved.
use pelican_mc_router.Prelude.{
  ◌≡◌, refl, ◌∙◌, inl, inr, Bool, true, false, Option, none, some, List, [], ◌∷◌, arith, is_empty,
  if◌then◌else◌, ok, Option-cases, Bool-cases,
}
use pelican_mc_router.Prelude.Dict.{Dict, lookup, insert, erase, lookup-insert, lookup-erase}
use pelican_mc_router.Text.{Text, text_eq}
use pelican_mc_router.Storage.{Database, statement, called}
use pelican_mc_router.Storage.Laws.{transaction-eq-ok}
use pelican_mc_router.Runtime.Build.{Settings}
use pelican_mc_router.Settings.{
  key_pelican_url, key_pelican_api_key, key_pelican_secret_name, key_router_domain,
  key_setup_completed,
}
use pelican_mc_router.Settings.Store.{
  Tables, StoreError, set_value, save_each, values_to_save, remove_api_key, save_values, save_with,
  format_bool, load, get, get_optional, get_required,
}

-- The table once all values are written.
abbrev written_all : List (Text × Text) → Dict Text Text → Dict Text Text
written_all [] d = d
written_all ((key, value) ∷ values) d = written_all values (insert key value d)

-- The settings table after a save, in one step.
unfoldable pub saved : Settings → Bool → Dict Text Text → Dict Text Text
unfolding values_to_save
saved value complete d =
    let d1 = written_all (values_to_save value complete) d in
    if is_empty value.pelican_secret_name then d1 else erase key_pelican_api_key d1

save_each-eq-ok :
    (values : List (Text × Text)) (db : Database Tables)
    → (save_each values db).0 ≡ ok tt
    → (save_each values db).1.tables
      ≡ record db.tables { settings = written_all values db.tables.settings }
unfolding save_each set_value statement
save_each-eq-ok [] db h = refl
save_each-eq-ok ((key, value) ∷ values) db h = ground (
  arith,
  save_each-eq-ok values (record (called db) {
    tables = record db.tables { settings = insert key value db.tables.settings };
  }),
)

pub save_values-eq-ok :
    (value : Settings) (complete : Bool) (db : Database Tables)
    → (save_values value complete db).0 ≡ ok tt
    → (save_values value complete db).1.tables
      ≡ record db.tables { settings = saved value complete db.tables.settings }
unfolding save_values saved remove_api_key statement
save_values-eq-ok value complete db h =
    ground (arith, save_each-eq-ok (values_to_save value complete) db)

-- What a save leaves under each key.
abbrev IsSaved : Settings → Bool → Dict Text Text → Dict Text Text → Type 0
IsSaved value complete before after =
    (lookup key_pelican_url after ≡ some value.pelican_url)
    × (lookup key_router_domain after ≡ some value.router_domain)
    × (lookup key_pelican_api_key after
        ≡ (if is_empty value.pelican_secret_name then some value.pelican_api_key else none))
    × (lookup key_pelican_secret_name after ≡ (
        if is_empty value.pelican_secret_name
        then lookup key_pelican_secret_name before
        else some value.pelican_secret_name))
    × (lookup key_setup_completed after
        ≡ (if complete then some (format_bool true) else lookup key_setup_completed before))

saved-IsSaved :
    (value : Settings) (complete : Bool) (d : Dict Text Text)
    → IsSaved value complete d (saved value complete d)
unfolding saved text_eq
saved-IsSaved value true d = elim (Bool-cases (is_empty value.pelican_secret_name)) [
  | inl none_named ↦ simp (none_named, lookup-insert, lookup-erase) (refl, refl, refl, refl, refl)
  | inr named ↦ simp (named, lookup-insert, lookup-erase) (refl, refl, refl, refl, refl)
]
saved-IsSaved value false d = elim (Bool-cases (is_empty value.pelican_secret_name)) [
  | inl none_named ↦ simp (none_named, lookup-insert, lookup-erase) (refl, refl, refl, refl, refl)
  | inr named ↦ simp (named, lookup-insert, lookup-erase) (refl, refl, refl, refl, refl)
]

abbrev or_empty : Option Text → Text
or_empty none = []
or_empty (some value) = value

-- What is loaded from a table that holds a saved value.
abbrev pub loaded : Settings → Option Text → Settings
loaded value previous = record value {
  pelican_api_key = if is_empty value.pelican_secret_name then value.pelican_api_key else [];
  pelican_secret_name =
      if is_empty value.pelican_secret_name then or_empty previous else value.pelican_secret_name;
}

-- A store all of whose coming calls succeed.
abbrev pub healthy : Tables → Database Tables
healthy t = record { tables = t; faults = [] }

load-IsSaved :
    (value : Settings) (complete : Bool) (before : Dict Text Text) (t : Tables)
    → IsSaved value complete before t.settings
    → (load (healthy t)).0 ≡ ok (loaded value (lookup key_pelican_secret_name before))
unfolding load get_required get_optional get statement
load-IsSaved value complete before t (url, domain, api_key, secret_name, _) =
    elim (Bool-cases (is_empty value.pelican_secret_name)) [
      | inl none_named ↦ elim (Option-cases (lookup key_pelican_secret_name before)) [
        | inl absent ↦ ground arith
        | inr (n, stored) ↦ ground arith
      ]
      | inr named ↦ ground arith
    ]

-- After a successful `Save` or `SaveSetup`, `Load` returns what was saved; but the API key is dropped
-- if there is a secret name, and if there is none, the secret name that was stored before is kept.
pub save_with-load :
    (complete : Bool) (value : Settings) (db : Database Tables)
    → (save_with complete value db).0 ≡ ok tt
    → (load (healthy (save_with complete value db).1.tables)).0
      ≡ ok (loaded value (lookup key_pelican_secret_name db.tables.settings))
unfolding save_with
save_with-load complete value db done =
    let t : Tables = (save_with complete value db).1.tables in
    let (ran, left) =
      transaction-eq-ok StoreError.begin_failed StoreError.commit_failed
        (save_values value complete) db tt done in
    let written = left ∙ save_values-eq-ok value complete (called db) ran in
    load-IsSaved value complete db.tables.settings t
      (rw written (saved-IsSaved value complete db.tables.settings))
