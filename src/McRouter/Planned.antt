-- ===== src/McRouter/Planned.antt =====
-- The planner's routes at the mc-router controller.
use pelican_mc_router.Prelude.{
  ℕ, ◌≡◌, refl, Bool, true, false, not, ◌&&◌, List, [], ◌∷◌, map, arith, all, all-append, is_empty,
  ok, and_left, and_right,
}
use pelican_mc_router.Prelude.Dict.{Dict, lookup}
use pelican_mc_router.Prelude.Int.{ℤ, pos, negsuc, le_int}
use pelican_mc_router.Text.{Text, text, text_eq, Unicode, trim_space, split, has_suffix}
use pelican_mc_router.Models.{MinecraftServer, Policy}
use pelican_mc_router.Router.{Route}
use pelican_mc_router.Router.Hostname
use pelican_mc_router.Router.Hostname.Laws.{
  lower_trim_id, later_filled, later_filled-push_head, filled-later, valid_label-filled,
}
use pelican_mc_router.Router.Planner.{Planner, plan}
use pelican_mc_router.Router.Planner.Spec.{
  server_consistent, routes_to, names, server_routes, desired_routes, routable,
}
use pelican_mc_router.Router.Planner.Laws.{plan-eq-ok}
use pelican_mc_router.McRouter.Controller.{
  is_label_character, is_valid_label, is_valid_hostname, route_hostname,
}
use pelican_mc_router.McRouter.Controller.Prepare.{route_fine}
use pelican_mc_router.McRouter.Controller.Success.{routes_fine}

label_char_lem : (c : ℕ) → Hostname.is_label_char c ≡ is_label_character c
unfolding Hostname.is_label_char is_label_character
label_char_lem c = ground arith

all_label_char_lem : (s : Text) → all Hostname.is_label_char s ≡ all is_label_character s
unfolding all
all_label_char_lem [] = refl
all_label_char_lem (c ∷ s) = ground (arith, label_char_lem c, all_label_char_lem s)

valid_label_lem : (label : Text) → Hostname.is_valid_label label ≡ is_valid_label label
unfolding Hostname.is_valid_label is_valid_label
valid_label_lem [] = refl
valid_label_lem (c ∷ label) = ground (arith, all_label_char_lem (c ∷ label))

valid_labels_lem :
    (labels : List Text) → all Hostname.is_valid_label labels ≡ all is_valid_label labels
unfolding all
valid_labels_lem [] = refl
valid_labels_lem (l ∷ labels) = ground (arith, valid_label_lem l, valid_labels_lem labels)

no_final_dot : (s : Text) → later_filled (split b'.' s) ≡ true → has_suffix s (text ".") ≡ false
unfolding has_suffix split all
no_final_dot [] h = refl
no_final_dot (c ∷ []) h = ground arith
no_final_dot (c ∷ d ∷ s) h = ground (
  arith,
  no_final_dot (d ∷ s),
  later_filled-push_head c (split b'.' (d ∷ s)),
  Hostname.Laws.filled-later (split b'.' (d ∷ s)),
)

-- A host name that the planner finds valid is valid for the controller.
pub valid_hostname_accepted :
    (s : Text) → Hostname.is_valid_hostname s ≡ true → is_valid_hostname s ≡ true
unfolding is_valid_hostname Hostname.is_valid_hostname
valid_hostname_accepted s h =
    let labels = Hostname.Laws.valid_hostname-labels s h in
    ground (
      arith,
      valid_labels_lem (split b'.' s),
      no_final_dot s (filled-later (split b'.' s) (valid_label-filled (split b'.' s) labels)),
    )

module _ ⦃u : Unicode⦄ where
  -- A route to a backend that the planner accepts.
  unfoldable pub backend_fine : Route → Bool
  backend_fine r = not (is_empty (trim_space r.backend.host)) && not (le_int r.backend.port (pos 0))

  abbrev pub port_fits : Route → Bool
  port_fits r = le_int r.backend.port (pos 65535)

  routes_to-backend_fine :
      (server : MinecraftServer) (hs : List Text)
      → is_empty (trim_space server.backend_ip) ≡ false
      → le_int server.backend_port (pos 0) ≡ false
      → all backend_fine (routes_to server hs) ≡ true
  unfolding routes_to backend_fine all
  routes_to-backend_fine server [] h k = refl
  routes_to-backend_fine server (x ∷ hs) h k = ground (arith, routes_to-backend_fine server hs h k)

  server_routes-backend_fine :
      (p : Planner) (policies : Dict Text Policy) (server : MinecraftServer)
      → server_consistent policies server ≡ true
      → all backend_fine (server_routes p policies server) ≡ true
  unfolding server_consistent server_routes all
  server_routes-backend_fine p policies server h =
      ground (arith, routes_to-backend_fine server (names p server (lookup server.uuid policies)))

  desired_routes-backend_fine :
      (p : Planner) (policies : Dict Text Policy) (servers : List MinecraftServer)
      → all (server_consistent policies) servers ≡ true
      → all backend_fine (desired_routes p policies servers) ≡ true
  unfolding desired_routes all
  desired_routes-backend_fine p policies [] h = refl
  desired_routes-backend_fine p policies (s ∷ servers) h = ground (
    arith,
    server_routes-backend_fine p policies s,
    desired_routes-backend_fine p policies servers,
    all-append backend_fine (server_routes p policies s) (desired_routes p policies servers),
  )

  abbrev valid_host : Route → Bool
  valid_host r = Hostname.is_valid_hostname r.hostname

  -- The controller reads a planned host name as it is.
  route_hostname_id : (r : Route) → valid_host r ≡ true → route_hostname r ≡ r.hostname
  unfolding route_hostname
  route_hostname_id r h =
      lower_trim_id r.hostname (Hostname.Laws.valid_hostname-labels r.hostname h)

  nonempty_hostname : (s : Text) → Hostname.is_valid_hostname s ≡ true → is_empty s ≡ false
  unfolding Hostname.is_valid_hostname
  nonempty_hostname s h = ground arith

  port_positive : (port : ℤ) → le_int port (pos 0) ≡ false → le_int (pos 1) port ≡ true
  port_positive (pos n) h = ground arith
  port_positive (negsuc n) h = cc

  route_fine_lem :
      (r : Route)
      → valid_host r ≡ true
      → backend_fine r ≡ true
      → port_fits r ≡ true
      → route_fine r ≡ true
  unfolding route_fine backend_fine
  route_fine_lem r h b f = rw (route_hostname_id r h) (
      ground (
        arith,
        nonempty_hostname r.hostname h,
        valid_hostname_accepted r.hostname h,
        port_positive r.backend.port,
      ))

  routes_fine_lem :
      (rs : List Route)
      → all valid_host rs ≡ true
      → all backend_fine rs ≡ true
      → all port_fits rs ≡ true
      → (all route_fine rs ≡ true) × (map route_hostname rs ≡ map (λ (r : Route). r.hostname) rs)
  unfolding all
  routes_fine_lem [] h b f = (refl, refl)
  routes_fine_lem (r ∷ rs) h b f =
      let (fine, same) =
        routes_fine_lem rs (and_right (valid_host r) _ h) (and_right (backend_fine r) _ b)
          (and_right (port_fits r) _ f) in
      (
        ground (arith, route_fine_lem r),
        cc (route_hostname_id r (and_left (valid_host r) _ h), same),
      )

  -- The controller accepts every route set that the planner returns, as long as the ports are
  -- port numbers, which the planner does not check.
  pub plan-routes_fine :
      (p : Planner) (servers : List MinecraftServer) (policies : Dict Text Policy) {rs : List Route}
      → plan p servers policies ≡ ok rs
      → all port_fits rs ≡ true
      → routes_fine rs ≡ true
  unfolding routes_fine routable
  plan-routes_fine p servers policies {rs} planned f =
      let (consistent, valid, same) = plan-eq-ok p servers policies planned in
      let wanted : List Route = desired_routes p policies servers in
      let (fine, hosts) =
        routes_fine_lem wanted (and_left (all valid_host wanted) _ valid)
          (desired_routes-backend_fine p policies servers consistent) (rw same at f) in
      rw same (ground (arith, fine, hosts, valid))
