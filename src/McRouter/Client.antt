-- ===== src/McRouter/Client.antt =====
-- backend/internal/router/mcrouter/client.go. `net/http` is a record of actions: `perform` is
-- `http.Client.Do`, which gives a response or an error. `base_path` is the path of the base URL, and
-- `url_with` gives the base URL with another path as its text, or an error where
-- `http.NewRequestWithContext` refuses that; the JSON is a parameter.
pub mod Retried
pub mod Rest
use pelican_mc_router.Prelude.{
  ℕ, Bool, true, false, ◌||◌, Option, none, some, List, [], ◌∷◌, ltb, leb, if◌then◌else◌, Result,
  ok, err,
}
use pelican_mc_router.Prelude.Dict.{Dict}
use pelican_mc_router.Text.{Text, text}
use pelican_mc_router.Text.Paths.{join_path}
use pelican_mc_router.Retry.{Config, Response, Attempt, Transport, do_request}
use pelican_mc_router.McRouter.Controller.{RouteClient}

pub data Method : Type 0 where
  get post delete : Method

pub record HttpRequest : Type 0 where
  pub method : Method
  pub url : Text
  pub body : Text

pub record HttpClient (W : Type 0) : Type 0 where
  pub context_err : W → Result Text (Unit {0}) × W
  pub perform : HttpRequest → W → Attempt × W
  pub discard : Response → W → W
  pub random : ℕ → W → ℕ × W
  pub wait : ℕ → W → Result Text (Unit {0}) × W

-- `json.Marshal` of a request to create a route; `Decode` of at most 1 MiB of routes, with their backends.
pub record RouteJson : Type 0 where
  pub create_request : Text → Text → Result Text Text
  pub routes : Text → Result Text (Dict Text Text)

-- The retries of a request.
abbrev pub transport_of : {W : Type 0} → HttpClient W → HttpRequest → Transport W
transport_of http request = record {
  context_err = http.context_err;
  request = http.perform request;
  discard = http.discard;
  random = http.random;
  wait = http.wait;
}

-- The response of an attempt, or its error.
unfoldable pub response_of : Attempt → Result Text Response
response_of a = elim a.error [
  | some e ↦ err e
  | none ↦ elim a.response [ some r ↦ ok r | none ↦ err (text "no response") ]
]

-- Not from 200 to 299
abbrev pub is_refused : Response → Bool
is_refused r = ltb r.status_code 200 || leb 300 r.status_code

module _ {W : Type 0} (http : HttpClient W) (json : RouteJson) (retry : Config) (base_path : Text)
    (url_with : Text → Result Text Text) where
  -- `ListRoutes` from the response on
  unfoldable pub read_routes : Result Text Response → W → Result Text (Dict Text Text) × W
  read_routes (err e) w = (err e, w)
  read_routes (ok r) w = (
    if is_refused r then err (text "list routes returned status") else json.routes r.body,
    http.discard r w,
  )

  -- `ListRoutes`; the retries never run out of fuel.
  unfoldable pub list_routes : W → Result Text (Dict Text Text) × W
  unfolding read_routes
  list_routes w = elim (url_with (join_path (base_path ∷ text "routes" ∷ []))) [
    | err e ↦ (err e, w)
    | ok url ↦
        elim (do_request (transport_of http (record { method = get; url = url; body = [] })) retry
          w) [
            | none ↦ (err (text "out of fuel"), w)
            | some (a, w1) ↦ read_routes (response_of a) w1
          ]
  ]

  -- What `CreateRoute` and `DeleteRoute` do with their request.
  unfoldable pub send : HttpRequest → W → Result Text (Unit {0}) × W
  send request w =
      let (a, w1) = http.perform request w in
      elim (response_of a) [
        | err e ↦ (err e, w1)
        | ok r ↦ (if is_refused r then err (text "returned status") else ok tt, http.discard r w1)
      ]

  unfoldable pub create_route : Text → Text → W → Result Text (Unit {0}) × W
  unfolding send
  create_route hostname backend w = elim (json.create_request hostname backend) [
    | err e ↦ (err e, w)
    | ok body ↦ elim (url_with (join_path (base_path ∷ text "routes" ∷ []))) [
      | err e ↦ (err e, w)
      | ok url ↦ send (record { method = post; url = url; body = body }) w
    ]
  ]

  unfoldable pub delete_route : Text → W → Result Text (Unit {0}) × W
  unfolding send
  delete_route hostname w =
      elim (url_with (join_path (base_path ∷ text "routes" ∷ hostname ∷ []))) [
        | err e ↦ (err e, w)
        | ok url ↦ send (record { method = delete; url = url; body = [] }) w
      ]

  abbrev pub http_client : RouteClient W
  http_client = record {
    context_err = http.context_err;
    list_routes = list_routes;
    create_route = create_route;
    delete_route = delete_route;
  }
