-- ===== src/McRouter/Controller/Loops.antt =====
-- What the two mutating loops do to the routes of the server.
use mathlib.Core.Option.{none-ne-some}
use pelican_mc_router.Prelude.{
  ◌≡◌, refl, sym, ◌∙◌, false, Option, none, some, List, [], ◌∷◌, arith, contains, ◌==◌,
  if◌then◌else◌, Option-cases, inl, inr,
}
use pelican_mc_router.Prelude.Dict.{Dict, lookup}
use pelican_mc_router.Text.{Text, text_eq}
use pelican_mc_router.Router.Result.{ReconciliationResult}
use pelican_mc_router.McRouter.Controller.{
  RouteClient, Done, rounds, create_round, delete_round, backend_of,
}
use pelican_mc_router.McRouter.Controller.Server.{IsRouteServer}

module _ {W : Type 0} (table : W → Text → Option Text)
    (body : Text → ReconciliationResult → W → Done W) where
  -- A loop whose body touches one host name touches those of its list.
  pub rounds-keeps :
      ((h : Text) (r : ReconciliationResult) (w : W) (j : Text)
        → (j == h) ≡ false
        → table (body h r w).world j ≡ table w j)
      → (hs : List Text) (r : ReconciliationResult) (w : W) (j : Text) → contains hs j ≡ false
      → table (rounds body hs r w).world j ≡ table w j
  unfolding rounds contains
  rounds-keeps step [] r w j h = refl
  rounds-keeps step (k ∷ hs) r w j h =
      let d : Done W = body k r w in
      ground (arith, step k r w j, rounds-keeps step hs d.result d.world j)

module _ {W : Type 0} (body : Text → ReconciliationResult → W → Done W) where
  pub rounds-cons_fine :
      (h : Text) (hs : List Text) (r : ReconciliationResult) (w : W)
      → (rounds body (h ∷ hs) r w).error ≡ none
      → ((body h r w).error ≡ none)
        × (rounds body (h ∷ hs) r w ≡ rounds body hs (body h r w).result (body h r w).world)
  unfolding rounds
  rounds-cons_fine h hs r w fine = elim (Option-cases (body h r w).error) [
    | inl went ↦ (went, rw (went, rounds))
    | inr (e, failed) ↦ absurd (none-ne-some e (sym (rw (failed, rounds) at fine) ∙ failed))
  ]

module _ {W : Type 0} (table : W → Text → Option Text)
    (body : Text → ReconciliationResult → W → Done W) (Inv : W → Type 0)
    (value : Text → Option Text)
    (keeps : (h : Text) (r : ReconciliationResult) (w : W) (j : Text)
      → (j == h) ≡ false
      → table (body h r w).world j ≡ table w j)
    (sets : (h : Text) (r : ReconciliationResult) (w : W)
      → Inv w
      → (body h r w).error ≡ none
      → table (body h r w).world h ≡ value h)
    (preserves : (h : Text) (r : ReconciliationResult) (w : W)
      → Inv w
      → (body h r w).error ≡ none
      → Inv (body h r w).world) where
  pub rounds-table :
      (hs : List Text) (r : ReconciliationResult) (w : W)
      → Inv w
      → (rounds body hs r w).error ≡ none
      → (j : Text)
      → table (rounds body hs r w).world j ≡ (if contains hs j then value j else table w j)
  unfolding contains
  rounds-table [] r w inv fine j = unfold rounds in refl
  rounds-table (h ∷ hs) r w inv fine j =
      let (went, same) = rounds-cons_fine body h hs r w fine in
      let later =
        rounds-table hs (body h r w).result (body h r w).world (preserves h r w inv went)
          (rw same at fine) j in
      rw same (ground (arith, later, keeps h r w j, sets h r w inv went))

module _ {W : Type 0} (client : RouteClient W) (table : W → Text → Option Text)
    (server : IsRouteServer client table) where
  pub create_round-keeps :
      (desired current : Dict Text Text) (h : Text) (r : ReconciliationResult) (w : W) (j : Text)
      → (j == h) ≡ false
      → table (create_round client desired current h r w).world j ≡ table w j
  unfolding create_round
  create_round-keeps desired current h r w j other = ground (
    arith,
    server.context_keeps w j,
    server.create_keeps h (backend_of desired h) (client.context_err w).1 j other,
  )

  pub delete_round-keeps :
      (h : Text) (r : ReconciliationResult) (w : W) (j : Text)
      → (j == h) ≡ false
      → table (delete_round client h r w).world j ≡ table w j
  unfolding delete_round
  delete_round-keeps h r w j other =
      ground
        (arith, server.context_keeps w j, server.delete_keeps h (client.context_err w).1 j other)

  delete_round-clears :
      (h : Text) (r : ReconciliationResult) (w : W)
      → (delete_round client h r w).error ≡ none
      → table (delete_round client h r w).world h ≡ none
  unfolding delete_round
  delete_round-clears h r w fine = ground (arith, server.delete_clears h (client.context_err w).1)

  -- A host name that is listed with its desired backend is routed there.
  abbrev pub InStep : Dict Text Text → Dict Text Text → W → Type 0
  InStep desired current w =
      (j : Text)
      → lookup j current ≡ some (backend_of desired j)
      → table w j ≡ some (backend_of desired j)

  create_round-sets :
      (desired current : Dict Text Text) (h : Text) (r : ReconciliationResult) (w : W)
      → InStep desired current w
      → (create_round client desired current h r w).error ≡ none
      → table (create_round client desired current h r w).world h ≡ some (backend_of desired h)
  unfolding create_round
  create_round-sets desired current h r w agree fine = ground (
    arith,
    agree h,
    server.context_keeps w h,
    server.create_sets h (backend_of desired h) (client.context_err w).1,
  )

  create_round-InStep :
      (desired current : Dict Text Text) (h : Text) (r : ReconciliationResult) (w : W)
      → InStep desired current w
      → (create_round client desired current h r w).error ≡ none
      → InStep desired current (create_round client desired current h r w).world
  create_round-InStep desired current h r w agree fine j listed = ground (
    arith,
    agree j listed,
    create_round-keeps desired current h r w j,
    create_round-sets desired current h r w agree fine,
  )

  -- After a run without error every listed name is routed to its desired backend, and no other
  -- name is touched.
  pub create_rounds-table :
      (desired current : Dict Text Text) (hs : List Text) (r : ReconciliationResult) (w : W)
      → InStep desired current w
      → (rounds (create_round client desired current) hs r w).error ≡ none
      → (j : Text)
      → table (rounds (create_round client desired current) hs r w).world j
        ≡ (if contains hs j then some (backend_of desired j) else table w j)
  create_rounds-table desired current =
      rounds-table table (create_round client desired current) (InStep desired current)
        (λ j. some (backend_of desired j)) (create_round-keeps desired current)
        (create_round-sets desired current) (create_round-InStep desired current)

  -- After a run without error no listed name is routed, and no other name is touched.
  pub delete_rounds-table :
      (hs : List Text) (r : ReconciliationResult) (w : W)
      → (rounds (delete_round client) hs r w).error ≡ none
      → (j : Text)
      → table (rounds (delete_round client) hs r w).world j
        ≡ (if contains hs j then none else table w j)
  delete_rounds-table hs r w fine =
      rounds-table table (delete_round client) (λ _. Unit {0}) (λ j. none) delete_round-keeps
        (λ h s v _. delete_round-clears h s v) (λ h s v _ _. tt) hs r w tt fine
