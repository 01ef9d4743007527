-- ===== src/McRouter/Client/Rest.antt =====
-- About backend/internal/router/mcrouter/client.go against a server that keeps routes.
use pelican_mc_router.Prelude.{
  ℕ, ◌≤◌, ◌<◌, ◌++◌, ◌≡◌, sym, ap, ◌∙◌, inl, inr, false, Option, none, some, [], ◌∷◌, arith, ◌==◌,
  Result, ok, Result-cases, Option-cases, Bool-cases,
}
use pelican_mc_router.Prelude.Dict.{Dict, lookup}
use pelican_mc_router.Text.{Text, text, text_eq}
use pelican_mc_router.Retry.{Config, Response, Transport, do_request, normalize}
use pelican_mc_router.McRouter.Controller.{RouteClient}
use pelican_mc_router.Text.Paths.{join_path, join_path-plain, IsPlain}
use pelican_mc_router.McRouter.Client.{
  Method, get, post, delete, HttpRequest, HttpClient, RouteJson, transport_of, response_of,
  is_refused, read_routes, list_routes, send, create_route, delete_route, http_client,
}
use pelican_mc_router.McRouter.Client.Retried.{Quiet, attempt_from-outcome}

abbrev pub request_to : Method → Text → Text → HttpRequest
request_to method url body = record { method = method; url = url; body = body }

-- HTTP's success: a status from 200 to 299.
abbrev pub Accepted : Response → Type 0
Accepted r = (200 ≤ r.status_code) × (r.status_code < 300)

-- The path of all routes, and that of one route: the base path with "/routes", and the host name behind it.
abbrev pub routes_path : Text → Text
routes_path base = join_path (base ∷ text "routes" ∷ [])

abbrev pub route_path : Text → Text → Text
route_path base h = routes_path base ++ b'/' ∷ h

-- The API of mc-router behind `perform`, over a table of routes: a GET tells them all, a POST that is
-- accepted sets one, a DELETE at the path of a host name that is accepted clears its route, and no call
-- changes another route. Host names are one element of a path.
pub record IsRest {W : Type 0} (http : HttpClient W) (json : RouteJson) (base : Text)
    (url_with : Text → Result Text Text) (table : W → Text → Option Text) : Type 0 where
  pub context_keeps : (w : W) (j : Text) → table (http.context_err w).1 j ≡ table w j
  pub discard_keeps : (r : Response) (w : W) (j : Text) → table (http.discard r w) j ≡ table w j
  pub random_keeps : (n : ℕ) (w : W) (j : Text) → table (http.random n w).1 j ≡ table w j
  pub wait_keeps : (d : ℕ) (w : W) (j : Text) → table (http.wait d w).1 j ≡ table w j
  pub get_keeps :
      (url : Text) (w : W) (j : Text)
      → table (http.perform (request_to get url []) w).1 j ≡ table w j
  pub get_reads :
      (url : Text) (w : W) (r : Response) (current : Dict Text Text)
      → url_with (routes_path base) ≡ ok url
      → response_of (http.perform (request_to get url []) w).0 ≡ ok r
      → Accepted r
      → json.routes r.body ≡ ok current
      → (j : Text) → lookup j current ≡ table w j
  pub post_keeps :
      (url body h b : Text) (w : W) (j : Text)
      → url_with (routes_path base) ≡ ok url
      → json.create_request h b ≡ ok body
      → (j == h) ≡ false
      → table (http.perform (request_to post url body) w).1 j ≡ table w j
  pub post_sets :
      (url body h b : Text) (w : W) (r : Response)
      → url_with (routes_path base) ≡ ok url
      → json.create_request h b ≡ ok body
      → response_of (http.perform (request_to post url body) w).0 ≡ ok r
      → Accepted r
      → table (http.perform (request_to post url body) w).1 h ≡ some b
  pub delete_keeps :
      (url h : Text) (w : W) (j : Text)
      → IsPlain h
      → url_with (route_path base h) ≡ ok url
      → (j == h) ≡ false
      → table (http.perform (request_to delete url []) w).1 j ≡ table w j
  pub delete_clears :
      (url h : Text) (w : W) (r : Response)
      → IsPlain h
      → url_with (route_path base h) ≡ ok url
      → response_of (http.perform (request_to delete url []) w).0 ≡ ok r
      → Accepted r
      → table (http.perform (request_to delete url []) w).1 h ≡ none

-- What a controller relies on of mc-router, on host names that are one element of a path: looking changes
-- nothing, a listing that succeeds is complete, a call that succeeds has its effect, and a call on one host
-- name, successful or not, changes no other route.
pub record ServesPlain {W : Type 0} (client : RouteClient W) (table : W → Text → Option Text)
    : Type 0 where
  pub context_keeps : (w : W) (j : Text) → table (client.context_err w).1 j ≡ table w j
  pub list_keeps : (w : W) (j : Text) → table (client.list_routes w).1 j ≡ table w j
  pub list_reads :
      (w : W) (current : Dict Text Text)
      → (client.list_routes w).0 ≡ ok current
      → (j : Text) → lookup j current ≡ table w j
  pub create_keeps :
      (h b : Text) (w : W) (j : Text)
      → (j == h) ≡ false
      → table (client.create_route h b w).1 j ≡ table w j
  pub create_sets :
      (h b : Text) (w : W)
      → (client.create_route h b w).0 ≡ ok tt
      → table (client.create_route h b w).1 h ≡ some b
  pub delete_keeps :
      (h : Text) (w : W) (j : Text)
      → IsPlain h
      → (j == h) ≡ false
      → table (client.delete_route h w).1 j ≡ table w j
  pub delete_clears :
      (h : Text) (w : W)
      → IsPlain h
      → (client.delete_route h w).0 ≡ ok tt
      → table (client.delete_route h w).1 h ≡ none

accepted : (r : Response) → is_refused r ≡ false → Accepted r
accepted r h = (ground arith, ground arith)

module _ {W : Type 0} (http : HttpClient W) (json : RouteJson) (retry : Config) (base : Text)
    (url_with : Text → Result Text Text) (table : W → Text → Option Text)
    (rest : IsRest http json base url_with table) where
  listing-Quiet :
      (url j : Text) → Quiet (transport_of http (request_to get url [])) (λ w. table w j)
  listing-Quiet url j = record {
    context_keeps = λ w. rest.context_keeps w j;
    request_keeps = λ w. rest.get_keeps url w j;
    discard_keeps = λ r w. rest.discard_keeps r w j;
    random_keeps = λ n w. rest.random_keeps n w j;
    wait_keeps = λ d w. rest.wait_keeps d w j;
  }

  list_routes-table :
      (w : W) (j : Text)
      → (table (list_routes http json retry base url_with w).1 j ≡ table w j)
        × ((current : Dict Text Text)
            → (list_routes http json retry base url_with w).0 ≡ ok current
            → lookup j current ≡ table w j)
  unfolding list_routes read_routes do_request
  list_routes-table w j = elim (Result-cases (url_with (routes_path base))) [
    | inr (e, bad) ↦ (ground arith, λ current h. absurd (ground arith))
    | inl (url, here) ↦
        let t : Transport W = transport_of http (request_to get url []) in
        elim (Option-cases (do_request t retry w)) [
          | inl dry ↦ (ground arith, λ current h. absurd (ground arith))
          | inr ((a, w1), ran) ↦
              let (kept, answers) =
                attempt_from-outcome t (λ w. table w j) (listing-Quiet url j)
                  (normalize retry).attempts (normalize retry) 1 w a w1 ran in
              elim (Result-cases (response_of a)) [
                | inr (e, bad) ↦ (ground arith, λ current h. absurd (ground arith))
                | inl (r, good) ↦
                    let closed : table (http.discard r w1) j ≡ table w1 j =
                      rest.discard_keeps r w1 j in
                    (
                      ground arith,
                      λ current h. elim (Bool-cases (is_refused r)) [
                        | inl refused ↦ absurd (ground arith)
                        | inr fine ↦
                            let (v, same, made) = answers r good in
                            rest.get_reads url v r current here (ap response_of made ∙ good)
                              (accepted r fine) (ground arith) j
                            ∙ same
                      ],
                    )
              ]
        ]
  ]

  -- A request that is sent: the table after it is the one after the call, and with no error the response
  -- was accepted.
  send-table :
      (request : HttpRequest) (w : W) (j : Text)
      → (table (send http json retry base url_with request w).1 j
          ≡ table (http.perform request w).1 j)
        × ((send http json retry base url_with request w).0 ≡ ok tt
            → (r : Response) × (response_of (http.perform request w).0 ≡ ok r) × Accepted r)
  unfolding send
  send-table request w j = elim (Result-cases (response_of (http.perform request w).0)) [
    | inr (e, bad) ↦ (ground arith, λ h. absurd (ground arith))
    | inl (r, good) ↦
        let closed = rest.discard_keeps r (http.perform request w).1 j in
        (ground (arith, closed), λ h. (r, good, accepted r (ground arith)))
  ]

  create_route-table :
      (h b : Text) (w : W)
      → ((j : Text)
          → (j == h) ≡ false
          → table (create_route http json retry base url_with h b w).1 j ≡ table w j)
        × ((create_route http json retry base url_with h b w).0 ≡ ok tt
            → table (create_route http json retry base url_with h b w).1 h ≡ some b)
  unfolding create_route
  create_route-table h b w = elim (Result-cases (json.create_request h b)) [
    | inr (e, bad) ↦ (λ j other. ground arith, λ done. absurd (ground arith))
    | inl (body, encoded) ↦ elim (Result-cases (url_with (routes_path base))) [
      | inr (e, bad) ↦ (λ j other. ground arith, λ done. absurd (ground arith))
      | inl (url, here) ↦
          let request : HttpRequest = request_to post url body in
          let sent : create_route http json retry base url_with h b w
              ≡ send http json retry base url_with request w =
            ground arith in
          rw sent (
            λ j other.
                (send-table request w j).0 ∙ rest.post_keeps url body h b w j here encoded other,
            λ done.
                let (same, accepts) = send-table request w h in
                let (r, good, fine) = accepts done in
                same ∙ rest.post_sets url body h b w r here encoded good fine,
          )
    ]
  ]

  delete_route-table :
      (h : Text) (w : W)
      → IsPlain h
      → ((j : Text)
          → (j == h) ≡ false
          → table (delete_route http json retry base url_with h w).1 j ≡ table w j)
        × ((delete_route http json retry base url_with h w).0 ≡ ok tt
            → table (delete_route http json retry base url_with h w).1 h ≡ none)
  unfolding delete_route
  delete_route-table h w plain =
      elim (Result-cases (url_with (join_path (base ∷ text "routes" ∷ h ∷ [])))) [
        | inr (e, bad) ↦ (λ j other. ground arith, λ done. absurd (ground arith))
        | inl (url, joined) ↦
            let here : url_with (route_path base h) ≡ ok url =
              ap url_with (sym (join_path-plain base h plain)) ∙ joined in
            let request : HttpRequest = request_to delete url [] in
            let sent : delete_route http json retry base url_with h w
                ≡ send http json retry base url_with request w =
              ground arith in
            rw sent (
              λ j other. (send-table request w j).0 ∙ rest.delete_keeps url h w j plain here other,
              λ done.
                  let (same, accepts) = send-table request w h in
                  let (r, good, fine) = accepts done in
                  same ∙ rest.delete_clears url h w r plain here good fine,
            )
      ]

  -- The client, whatever its retries and failures, serves its caller as mc-router's API promises, if the
  -- server behind it keeps the laws of that API: a listing that succeeds is complete, a call that succeeds
  -- has its effect, and no call, successful or not, changes another route. For deletions this is said of
  -- host names that are one element of a path: neither empty nor "." or "..", and without '/'.
  pub http_client-ServesPlain : ServesPlain (http_client http json retry base url_with) table
  http_client-ServesPlain = record {
    context_keeps = rest.context_keeps;
    list_keeps = λ w j. (list_routes-table w j).0;
    list_reads = λ w current listed j. (list_routes-table w j).1 current listed;
    create_keeps = λ h b w j other. (create_route-table h b w).0 j other;
    create_sets = λ h b w done. (create_route-table h b w).1 done;
    delete_keeps = λ h w j plain other. (delete_route-table h w plain).0 j other;
    delete_clears = λ h w plain done. (delete_route-table h w plain).1 done;
  }
