-- ===== src/Settings/Store/Staging.antt =====
-- About `StageSetup` and `PromotePendingSetup` of backend/internal/settings/store.go.
use pelican_mc_router.Prelude.{
  ◌≡◌, ◌≢◌, inl, inr, true, Option, none, some, arith, Result, ok, err, Option-cases,
}
use pelican_mc_router.Text.{Text, text_eq}
use pelican_mc_router.Storage.{Database, statement, transaction, called}
use pelican_mc_router.Runtime.Build.{Settings}
use pelican_mc_router.Settings.Store.{
  Tables, Pending, StoreError, promote_pending_setup, pending_with, settings_of, stage_setup,
  stage_row,
}
use pelican_mc_router.Settings.Store.Laws.{saved, save_values-eq-ok}

-- What the promotion of a row leaves.
abbrev pub promoted : Pending → Tables → Tables
promoted p t = record { settings = saved (settings_of p) true t.settings; pending = none }

pending_with-eq-some :
    (generation : Text) (o : Option Pending) (p : Pending)
    → pending_with generation o ≡ some p
    → (o ≡ some p) × (p.generation ≡ generation)
unfolding pending_with
pending_with-eq-some generation none p h = absurd (ground arith)
pending_with-eq-some generation (some q) p h = (ground arith, ground arith)

module _ (generation : Text) (db : Database Tables) where
  -- A promotion is all or nothing: if it fails, both tables are as they were; if it succeeds, the
  -- pending candidate is the one of that generation, its values are the settings, setup is complete,
  -- and no candidate is pending.
  pub promote-IsAtomic :
      ((e : StoreError)
        → (promote_pending_setup generation db).0 ≡ err e
        → (promote_pending_setup generation db).1.tables ≡ db.tables)
      × ((promote_pending_setup generation db).0 ≡ ok tt
          → (p : Pending) × (db.tables.pending ≡ some p)
            × (p.generation ≡ generation)
            × ((promote_pending_setup generation db).1.tables ≡ promoted p db.tables))
  unfolding promote_pending_setup transaction statement
  promote-IsAtomic = (
    λ e h. ground arith,
    λ h. elim (Option-cases (pending_with generation db.tables.pending)) [
      | inl absent ↦ absurd (ground arith)
      | inr (p, there) ↦
          let (same, generated) = pending_with-eq-some generation db.tables.pending p there in
          (
            p,
            same,
            generated,
            ground (arith, save_values-eq-ok (settings_of p) true (called (called db))),
          )
    ],
  )

abbrev pub candidate : Settings → Text → Pending
candidate value generation = record {
  pelican_url = value.pelican_url;
  pelican_secret_name = value.pelican_secret_name;
  router_domain = value.router_domain;
  generation = generation;
}

module _ (random : Result Text Text) (value : Settings) (db : Database Tables) where
  -- Staging never touches the settings: if it fails, the pending candidate is as it was, and if it
  -- succeeds, it is the one that was staged, under the generation that is returned.
  pub stage_setup-IsAtomic :
      ((stage_setup random value db).1.tables.settings ≡ db.tables.settings)
      × ((e : StoreError)
          → (stage_setup random value db).0 ≡ err e
          → (stage_setup random value db).1.tables.pending ≡ db.tables.pending)
      × ((generation : Text)
          → (stage_setup random value db).0 ≡ ok generation
          → (random ≡ ok generation)
            × ((stage_setup random value db).1.tables.pending ≡ some (candidate value generation)))
  unfolding stage_setup transaction statement stage_row
  stage_setup-IsAtomic =
      (ground arith, λ e h. ground arith, λ generation h. (ground arith, ground arith))

  -- A candidate that was staged before another one of a different generation cannot be promoted.
  pub stage_setup-replaces :
      (earlier generation : Text)
      → (stage_setup random value db).0 ≡ ok generation
      → earlier ≢ generation
      → (promote_pending_setup earlier (stage_setup random value db).1).0 ≢ ok tt
  stage_setup-replaces earlier generation staged other promoted_ok =
      let db1 : Database Tables = (stage_setup random value db).1 in
      let (_, _, stages) = stage_setup-IsAtomic in
      let (_, pending) = stages generation staged in
      let (_, promotes) = promote-IsAtomic earlier db1 in
      let (p, there, generated, _) = promotes promoted_ok in
      other (ground (arith, pending, there, generated))
