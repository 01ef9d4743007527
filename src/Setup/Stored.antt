-- ===== src/Setup/Stored.antt =====
-- The setup service as backend/internal/app/app.go puts it together: the settings store in the
-- database, and the refresh task of the runtime. A world is the runtime's task, everything outside,
-- and the database; `message` is the text of a store's error, `random` what `rand.Read` gives.
use pelican_mc_router.Prelude.{none, some, Result, ok, err}
use pelican_mc_router.Text.{Text, text}
use pelican_mc_router.Storage.{Database}
use pelican_mc_router.Runtime.Build.{Environment}
use pelican_mc_router.Runtime.Refresh.{Task}
use pelican_mc_router.Runtime.Activate.{Activation, activate, activate_setup}
use pelican_mc_router.Settings.Store.{
  Tables, StoreError, Action, is_setup_complete, save, stage_setup, promote_pending_setup,
}
use pelican_mc_router.Setup.Service.{SettingsStore, Activator}

pub record World (X : Type 0) : Type 0 where
  pub outside : X
  pub database : Database Tables

abbrev pub Running : Type 0 → Type 0 → Type 0
Running X S = Task S × World X

module _ {X : Type 0} (message : StoreError → Text) where
  -- A call of the store.
  abbrev pub on_store : {A : Type 0} → Action A → World X → Result Text A × World X
  on_store action w =
      let (r, db) = action w.database in
      (elim r [ err e ↦ err (message e) | ok a ↦ ok a ], record w { database = db })

-- An action that leaves the task alone.
abbrev pub beside :
    {X S A : Type 0}
    → (World X → Result Text A × World X)
    → Running X S
    → Result Text A × Running X S
beside action (task, w) = let (r, w1) = action w in (r, (task, w1))

-- The action on the world that an action beside a task is.
abbrev pub without :
    {X S A : Type 0}
    → Task S
    → (Running X S → Result Text A × Running X S)
    → World X
    → Result Text A × World X
without task action w = let (r, (_, w1)) = action (task, w) in (r, w1)

abbrev pub database_store :
    {X S : Type 0} → (StoreError → Text) → (X → Result Text Text) → SettingsStore (Running X S)
database_store message random = record {
  is_setup_complete = beside (on_store message is_setup_complete);
  save = λ value. beside (on_store message (save value));
  stage_setup = λ value. beside (λ w. on_store message (stage_setup (random w.outside) value) w);
  promote_pending_setup =
      λ generation. beside (on_store message (promote_pending_setup generation));
}

-- What the service sees of an activation's end.
abbrev pub concluded :
    {X S : Type 0} → Activation (World X) S → Result Text (Unit {0}) × Running X S
concluded a =
    (elim a.error [ none ↦ ok tt | some e ↦ err (text "activation failed") ], (a.task, a.world))

abbrev pub runtime_activator : {X S : Type 0} → Environment (World X) S → Activator (Running X S)
runtime_activator env = record {
  activate =
      λ value persist (task, w). concluded (activate env (without task persist) value task w);
  activate_setup = λ value stage promote (task, w).
      concluded
        (activate_setup env (without task stage) (λ g. without task (promote g)) value task w);
}
