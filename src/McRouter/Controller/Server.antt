-- ===== src/McRouter/Controller/Server.antt =====
-- What the controller relies on of mc-router behind the client: which backend a host name is
-- routed to, and how the API's calls change that.
use pelican_mc_router.Prelude.{◌≡◌, false, Option, none, some, ok, ◌==◌}
use pelican_mc_router.Prelude.Dict.{Dict, lookup}
use pelican_mc_router.Text.{Text, text_eq}
use pelican_mc_router.McRouter.Controller.{RouteClient}

-- A listing that succeeds is complete; a call that succeeds has its effect; a call on one host
-- name, successful or not, changes no other; and looking at the context changes nothing.
pub record IsRouteServer {W : Type 0} (client : RouteClient W) (table : W → Text → Option Text)
    : Type 0 where
  pub context_keeps : (w : W) (j : Text) → table (client.context_err w).1 j ≡ table w j
  pub list_keeps : (w : W) (j : Text) → table (client.list_routes w).1 j ≡ table w j
  pub list_reads :
      (w : W) (current : Dict Text Text)
      → (client.list_routes w).0 ≡ ok current
      → (j : Text) → lookup j current ≡ table w j
  pub create_keeps :
      (h b : Text) (w : W) (j : Text)
      → (j == h) ≡ false
      → table (client.create_route h b w).1 j ≡ table w j
  pub create_sets :
      (h b : Text) (w : W)
      → (client.create_route h b w).0 ≡ ok tt
      → table (client.create_route h b w).1 h ≡ some b
  pub delete_keeps :
      (h : Text) (w : W) (j : Text)
      → (j == h) ≡ false
      → table (client.delete_route h w).1 j ≡ table w j
  pub delete_clears :
      (h : Text) (w : W)
      → (client.delete_route h w).0 ≡ ok tt
      → table (client.delete_route h w).1 h ≡ none
