-- ===== src/McRouter/Controller.antt =====
-- backend/internal/router/mcrouter/controller.go. The client is an interface of the source; a
-- world `W` holds the caller's context and whatever stands behind the client. The controller's
-- mutex makes one reconciliation one step.
pub mod Server
pub mod Prepare
pub mod Loops
pub mod Convergence
pub mod Idle
pub mod Success
use pelican_mc_router.Prelude.{
  ℕ, suc, ◌+◌, Bool, true, false, not, ◌&&◌, ◌||◌, Option, none, some, List, [], ◌∷◌, ◌++◌, map,
  all, last, length, select, leb, ltb, eqb, is_empty, ◌==◌, if◌then◌else◌, Result, ok, err,
}
use pelican_mc_router.Prelude.Dict.{Dict, lookup, insert, has, keys}
use pelican_mc_router.Prelude.Int.{ℤ, pos, le_int}
use pelican_mc_router.Text.{
  Text, text, text_eq, Unicode, to_lower, trim_space, trim, split, has_suffix,
}
use pelican_mc_router.Text.Decimal.{itoa, join_host_port}
use pelican_mc_router.Text.Sort.{sort_strings}
use pelican_mc_router.Router.{Route}
use pelican_mc_router.Router.Result.{ReconciliationResult, no_result}

-- `routeClient`, and `ctx.Err()` of the context that is passed along. An error is its message.
pub record RouteClient (W : Type 0) : Type 0 where
  pub context_err : W → Result Text (Unit {0}) × W
  pub list_routes : W → Result Text (Dict Text Text) × W
  pub create_route : Text → Text → W → Result Text (Unit {0}) × W
  pub delete_route : Text → W → Result Text (Unit {0}) × W

pub data RouteError : Type 0 where
  empty_hostname invalid_hostname empty_backend_host invalid_backend_port duplicate_hostname :
      RouteError

pub data ControllerError : Type 0 where
  canceled : Text → ControllerError
  validate_route : Text → RouteError → ControllerError
  list_current_routes : Text → ControllerError
  create_failed : Text → Text → ControllerError
  delete_failed : Text → Text → ControllerError

pub record Controller : Type 0 where
  pub managed_domain : Text

unfoldable pub is_label_character : ℕ → Bool
is_label_character c = leb b'a' c && leb c b'z' || (leb b'0' c && leb c b'9' || eqb c b'-')

-- One round of the loop of `isValidHostname` over the labels.
unfoldable pub is_valid_label : Text → Bool
unfolding is_label_character
is_valid_label [] = false
is_valid_label (c ∷ label) =
    not (ltb 63 (length (c ∷ label)))
    && (not (eqb c b'-' || eqb (last c label) b'-') && all is_label_character (c ∷ label))

unfoldable pub is_valid_hostname : Text → Bool
unfolding is_valid_label split has_suffix
is_valid_hostname hostname =
    not (ltb 253 (length hostname) || has_suffix hostname (text "."))
    && all is_valid_label (split b'.' hostname)

-- `desiredBackends` and `desiredHostnames`
pub record Prepared : Type 0 where
  pub backends : Dict Text Text
  pub hostnames : List Text

abbrev pub nothing_prepared : Prepared
nothing_prepared = record { backends = []; hostnames = [] }

-- What a reconciliation leaves: its result and error, both returned, and the world.
pub record Done (W : Type 0) : Type 0 where
  pub result : ReconciliationResult
  pub error : Option ControllerError
  pub world : W

module _ ⦃u : Unicode⦄ where
  -- `WithManagedDomain`
  unfoldable pub with_managed_domain : Text → Controller
  unfolding to_lower trim_space trim
  with_managed_domain domain = record { managed_domain = trim b'.' (to_lower (trim_space domain)) }

  unfoldable pub route_hostname : Route → Text
  unfolding to_lower trim_space
  route_hostname route = to_lower (trim_space route.hostname)

  unfoldable pub route_backend : Route → Text
  unfolding trim_space join_host_port itoa
  route_backend route = join_host_port (trim_space route.backend.host) (itoa route.backend.port)

  -- The validation of one route against those prepared before it.
  unfoldable pub prepare_route : Prepared → Route → Result RouteError Prepared
  unfolding route_hostname route_backend has
  prepare_route p route =
      let hostname = route_hostname route in
      if is_empty hostname
      then err empty_hostname
      else if not (is_valid_hostname hostname)
      then err invalid_hostname
      else if is_empty (trim_space route.backend.host)
      then err empty_backend_host
      else if not (le_int (pos 1) route.backend.port) || not (le_int route.backend.port (pos 65535))
      then err invalid_backend_port
      else if has hostname p.backends
      then err duplicate_hostname
      else ok (record {
        backends = insert hostname (route_backend route) p.backends;
        hostnames = p.hostnames ++ hostname ∷ [];
      })

  unfoldable pub owns : Controller → Text → Bool
  unfolding to_lower trim_space trim has_suffix
  owns c hostname =
      let name = trim b'.' (to_lower (trim_space hostname)) in
      is_empty c.managed_domain
      || (name == c.managed_domain || has_suffix name (text "." ++ c.managed_domain))

  -- The keys of the current routes that are owned and not desired. Go ranges over a map in any
  -- order, and sorts what it collects.
  unfoldable pub stale_hostnames : Controller → Dict Text Text → Dict Text Text → List Text
  stale_hostnames c desired current =
      sort_strings (select (λ h. owns c h && not (has h desired)) (keys current))

abbrev pub backend_of : Dict Text Text → Text → Text
backend_of backends hostname = elim (lookup hostname backends) [ none ↦ [] | some b ↦ b ]

-- `exists && currentBackend == backend`
unfoldable pub is_current : Dict Text Text → Text → Text → Bool
unfolding lookup
is_current current hostname backend = elim (lookup hostname current) [
  | none ↦ false
  | some b ↦ b == backend
]

abbrev pub count_created : Bool → ReconciliationResult → ReconciliationResult
count_created true r = record r { updated = r.updated + 1; changed = true }
count_created false r = record r { created = r.created + 1; changed = true }

abbrev pub count_deleted : ReconciliationResult → ReconciliationResult
count_deleted r = record r { deleted = r.deleted + 1; changed = true }

-- A loop over host names whose body may return early with an error.
unfoldable pub rounds :
    {W : Type 0}
    → (Text → ReconciliationResult → W → Done W)
    → List Text
    → ReconciliationResult
    → W
    → Done W
rounds body [] r w = record { result = r; error = none; world = w }
rounds body (h ∷ hs) r w =
    let d = body h r w in elim d.error [ none ↦ rounds body hs d.result d.world | some e ↦ d ]

abbrev pub stop : {W : Type 0} → ReconciliationResult → ControllerError → W → Done W
stop r e w = record { result = r; error = some e; world = w }

abbrev pub go_on : {W : Type 0} → ReconciliationResult → W → Done W
go_on r w = record { result = r; error = none; world = w }

module _ {W : Type 0} (client : RouteClient W) where
  -- The body of the loop that creates and updates.
  unfoldable pub create_round :
      Dict Text Text → Dict Text Text → Text → ReconciliationResult → W → Done W
  unfolding is_current has
  create_round desired current hostname r w =
      let (live, w1) = client.context_err w in
      elim live [
        | err e ↦ stop r (canceled e) w1
        | ok _ ↦
            let backend = backend_of desired hostname in
            elim (is_current current hostname backend) [
              | true ↦ go_on r w1
              | false ↦
                  let (created, w2) = client.create_route hostname backend w1 in
                  elim created [
                    | err e ↦ stop r (create_failed hostname e) w2
                    | ok _ ↦ go_on (count_created (has hostname current) r) w2
                  ]
            ]
      ]

  -- The body of the loop that deletes.
  unfoldable pub delete_round : Text → ReconciliationResult → W → Done W
  delete_round hostname r w =
      let (live, w1) = client.context_err w in
      elim live [
        | err e ↦ stop r (canceled e) w1
        | ok _ ↦
            let (deleted, w2) = client.delete_route hostname w1 in
            elim deleted [
              | err e ↦ stop r (delete_failed hostname e) w2
              | ok _ ↦ go_on (count_deleted r) w2
            ]
      ]

-- `router.ReconciliationResult{Desired: len(routes)}`
abbrev pub initial_result : List Route → ReconciliationResult
initial_result routes = record no_result { desired = length routes }

module _ ⦃u : Unicode⦄ {W : Type 0} (client : RouteClient W) where
  -- The loop that validates and prepares the complete desired state.
  unfoldable pub prepare_routes : Prepared → List Route → W → Result ControllerError Prepared × W
  prepare_routes p [] w = (ok p, w)
  prepare_routes p (route ∷ routes) w =
      let (live, w1) = client.context_err w in
      elim live [
        | err e ↦ (err (canceled e), w1)
        | ok _ ↦ elim (prepare_route p route) [
          | err e ↦ (err (validate_route route.server_id e), w1)
          | ok next ↦ prepare_routes next routes w1
        ]
      ]

  -- The mutations, once both states are known.
  unfoldable pub apply_changes :
      Controller → Prepared → Dict Text Text → ReconciliationResult → W → Done W
  apply_changes c p current r w =
      let d = rounds (create_round client p.backends current) (sort_strings p.hostnames) r w in
      elim d.error [
        | some e ↦ d
        | none ↦
            rounds (delete_round client) (stale_hostnames c p.backends current) d.result d.world
      ]

  unfoldable pub reconcile_with_result : Controller → List Route → W → Done W
  reconcile_with_result c routes w =
      let r = initial_result routes in
      let (live, w1) = client.context_err w in
      elim live [
        | err e ↦ stop r (canceled e) w1
        | ok _ ↦
            let (prepared, w2) = prepare_routes nothing_prepared routes w1 in
            elim prepared [
              | err e ↦ stop r e w2
              | ok p ↦
                  let (listed, w3) = client.list_routes w2 in
                  elim listed [
                    | err e ↦ stop r (list_current_routes e) w3
                    | ok current ↦ apply_changes c p current r w3
                  ]
            ]
      ]
