-- ===== src/Tests/ClientTests.antt =====
-- Tests and examples for the mc-router client: a server that routes the host name "a" and no other. A
-- body is a mark and a backend.
use mathlib.Core.List.{append_cancel_left}
use pelican_mc_router.Prelude.{
  ℕ, ◌≡◌, ◌++◌, refl, true, arith, false, Option, none, some, [], ◌∷◌, eqb, ◌==◌, eq_of_==,
  if◌then◌else◌, Result, ok, Bool-cases, inl, inr, ap, ◌∙◌, sym,
}
use pelican_mc_router.Prelude.Dict.{Dict, lookup}
use pelican_mc_router.Text.{Text, text, text_eq}
use pelican_mc_router.Retry.{
  Response, Attempt, default_config, normalize, do_request, attempt_from, should_retry,
  is_transient,
}
use pelican_mc_router.Text.Paths.{join_path}
use pelican_mc_router.McRouter.Client.{
  get, post, delete, HttpRequest, HttpClient, RouteJson, response_of, read_routes, list_routes,
  http_client,
}
use pelican_mc_router.McRouter.Client.Rest.{
  Accepted, routes_path, route_path, IsRest, ServesPlain, http_client-ServesPlain,
}

abbrev World : Type 0
World = Option Text

abbrev host : Text
host = text "a"

abbrev reply : ℕ → Text → Attempt
reply status body = record {
  response = some (record { status_code = status; body = body });
  error = none;
}

abbrev listing : World → Text
listing none = []
listing (some b) = 1 ∷ b

abbrev put : Text → World → Attempt × World
put [] w = (reply 400 [], w)
put (mark ∷ b) w = if eqb mark 1 then (reply 200 [], some b) else (reply 400 [], w)

-- The path of the base URL, and the URL of a path.
abbrev base : Text
base = text "/api/"

abbrev url_with : Text → Result Text Text
url_with path = ok path

routes_at : routes_path base ≡ text "/api/routes"
unfolding join_path text_eq
routes_at = refl

abbrev route_at : Text → Text
route_at h = text "/api/routes" ++ b'/' ∷ h

-- A name with ".." is another name's path.
dotted_path :
    join_path (base ∷ text "routes" ∷ text "b/../a" ∷ [])
    ≡ join_path (base ∷ text "routes" ∷ host ∷ [])
unfolding join_path text_eq
dotted_path = refl

abbrev remove : Text → World → Attempt × World
remove url w = if url == route_at host then (reply 200 [], none) else (reply 404 [], w)

abbrev perform : HttpRequest → World → Attempt × World
perform r w = elim r.method [
  | get ↦ (reply 200 (listing w), w)
  | post ↦ put r.body w
  | delete ↦ remove r.url w
]

abbrev http : HttpClient World
http = record {
  context_err = λ w. (ok tt, w);
  perform = perform;
  discard = λ r w. w;
  random = λ n w. (0, w);
  wait = λ d w. (ok tt, w);
}

abbrev decoded : Text → Result Text (Dict Text Text)
decoded [] = ok []
decoded (mark ∷ b) = ok ((host, b) ∷ [])

abbrev json : RouteJson
json = record { create_request = λ h b. ok ((if h == host then 1 else 0) ∷ b); routes = decoded }

abbrev table : World → Text → Option Text
table w j = if j == host then w else none

reads :
    (w : World) (r : Response) (current : Dict Text Text)
    → response_of (reply 200 (listing w)) ≡ ok r
    → decoded r.body ≡ ok current
    → (j : Text) → lookup j current ≡ table w j
unfolding response_of lookup
reads none r current h k j = ground arith
reads (some b) r current h k j = ground arith

abbrev created : Text → Text → Text
created h b = (if h == host then 1 else 0) ∷ b

post_keeps :
    (h b : Text) (w : World) (j : Text)
    → (j == h) ≡ false
    → table (put (created h b) w).1 j ≡ table w j
post_keeps h b w j other = elim (Bool-cases (h == host)) [
  | inl same ↦
      let elsewhere : (j == host) ≡ false =
        ap (λ (k : Text). j == k) (sym (eq_of_== h host same)) ∙ other in
      ground arith
  | inr different ↦ ground arith
]

post_sets :
    (h b : Text) (w : World) (r : Response)
    → response_of (put (created h b) w).0 ≡ ok r
    → Accepted r
    → table (put (created h b) w).1 h ≡ some b
unfolding response_of
post_sets h b w r answered fine = elim (Bool-cases (h == host)) [
  | inl same ↦ ground arith
  | inr different ↦ absurd (ground arith)
]

same_host : (h : Text) → (route_at h == route_at host) ≡ true → h ≡ host
same_host h e =
    append_cancel_left (text "/api/routes/") h host (eq_of_== (route_at h) (route_at host) e)

delete_keeps :
    (h : Text) (w : World) (j : Text)
    → (j == h) ≡ false
    → table (remove (route_at h) w).1 j ≡ table w j
delete_keeps h w j other = elim (Bool-cases (route_at h == route_at host)) [
  | inl same ↦
      let elsewhere : (j == host) ≡ false =
        ap (λ (k : Text). j == k) (sym (same_host h same)) ∙ other in
      ground arith
  | inr different ↦ ground arith
]

delete_clears :
    (h : Text) (w : World) (r : Response)
    → response_of (remove (route_at h) w).0 ≡ ok r
    → Accepted r
    → table (remove (route_at h) w).1 h ≡ none
unfolding response_of
delete_clears h w r answered fine = elim (Bool-cases (route_at h == route_at host)) [
  | inl same ↦ ground arith
  | inr different ↦ absurd (ground (arith, fine))
]

ok_eq : (a b : Text) → ◌≡◌ {A = Result Text Text} (ok a) (ok b) → a ≡ b
ok_eq a b h = cc

for_ok :
    (P : Text → Type 0) (a : Text)
    → P a
    → (b : Text) → ◌≡◌ {A = Result Text Text} (ok a) (ok b)
    → P b
for_ok P a here b h = let e : b ≡ a = sym (ok_eq a b h) in rw e here

at_route : (h : Text) → route_path base h ≡ route_at h
at_route h = ap (λ (t : Text). t ++ b'/' ∷ h) routes_at

server-IsRest : IsRest http json base url_with table
unfolding response_of
server-IsRest = record {
  context_keeps = λ w j. refl;
  discard_keeps = λ r w j. refl;
  random_keeps = λ n w j. refl;
  wait_keeps = λ d w j. refl;
  get_keeps = λ url w j. refl;
  get_reads = λ url w r current here answered fine found j. reads w r current answered found j;
  post_keeps = λ url body h b w j here encoded other.
      for_ok (λ (t : Text). table (put t w).1 j ≡ table w j) (created h b)
        (post_keeps h b w j other) body encoded;
  post_sets = λ url body h b w r here encoded answered fine.
      for_ok (λ (t : Text). response_of (put t w).0 ≡ ok r → table (put t w).1 h ≡ some b)
        (created h b) (λ a. post_sets h b w r a fine) body encoded answered;
  delete_keeps = λ url h w j plain here other.
      for_ok (λ (t : Text). table (remove t w).1 j ≡ table w j) (route_path base h)
        (rw (at_route h) (delete_keeps h w j other)) url here;
  delete_clears = λ url h w r plain here answered fine.
      for_ok (λ (t : Text). response_of (remove t w).0 ≡ ok r → table (remove t w).1 h ≡ none)
        (route_path base h) (rw (at_route h) (λ a. delete_clears h w r a fine)) url here answered;
}

list_test :
    (list_routes http json default_config base url_with (some (text "x"))).0
    ≡ ok ((host, text "x") ∷ [])
unfolding list_routes read_routes do_request attempt_from normalize should_retry is_transient
    response_of
list_test = refl

http_client-ServesPlain_example :
    ServesPlain (http_client http json default_config base url_with) table
http_client-ServesPlain_example =
    http_client-ServesPlain http json default_config base url_with table server-IsRest
