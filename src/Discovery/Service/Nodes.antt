-- ===== src/Discovery/Service/Nodes.antt =====
-- Which nodes discovery asks for their allocations.
use pelican_mc_router.Prelude.{
  ◌≡◌, refl, true, false, not, ◌&&◌, List, [], ◌∷◌, map, arith, contains, distinct, ==-self,
  Bool-cases, Result-cases, inl, inr, Result, ok, err,
}
use pelican_mc_router.Prelude.Dict.{Dict}
use pelican_mc_router.Prelude.Int.{ℤ, int_eq}
use pelican_mc_router.Text.{Text}
use pelican_mc_router.Discovery.Service.{
  ServerResource, AllocationResource, PelicanClient, DiscoverError, allocations_failed,
  add_allocations, load_allocations,
}

-- The nodes of servers, each where it is met first, without those that are processed.
unfoldable pub fresh_nodes : List ℤ → List ServerResource → List ℤ
fresh_nodes processed [] = []
fresh_nodes processed (server ∷ servers) = elim (contains processed server.node) [
  | true ↦ fresh_nodes processed servers
  | false ↦ server.node ∷ fresh_nodes (server.node ∷ processed) servers
]

-- One request for each of a list of nodes.
unfoldable pub load_nodes :
    {W : Type 0}
    → PelicanClient W
    → Dict ℤ AllocationResource
    → List ℤ
    → W
    → Result DiscoverError (Dict ℤ AllocationResource) × W
load_nodes client table [] w = (ok table, w)
load_nodes client table (node ∷ nodes) w =
    let (listed, w1) = client.list_node_allocations node w in
    elim listed [
      | err e ↦ (err (allocations_failed node e), w1)
      | ok allocations ↦ load_nodes client (add_allocations table allocations) nodes w1
    ]

abbrev pub nodes_of : List ServerResource → List ℤ
nodes_of servers = map (λ (s : ServerResource). s.node) servers

load_fresh :
    {W : Type 0} (client : PelicanClient W) (processed : List ℤ) (table : Dict ℤ AllocationResource)
    (servers : List ServerResource) (w : W)
    → load_allocations client processed table servers w
      ≡ load_nodes client table (fresh_nodes processed servers) w
unfolding load_allocations load_nodes fresh_nodes
load_fresh client processed table [] w = refl
load_fresh {W = W} client processed table (server ∷ servers) w =
    let asked : Result Text (List AllocationResource) × W =
      client.list_node_allocations server.node w in
    elim (Bool-cases (contains processed server.node)) [
      | inl seen ↦ ground (arith, load_fresh client processed table servers w)
      | inr unseen ↦ elim (Result-cases asked.0) [
        | inr (e, refused) ↦ ground arith
        | inl (allocations, there) ↦ ground (
          arith,
          load_fresh client (server.node ∷ processed) (add_allocations table allocations) servers
              asked.1,
        )
      ]
    ]

contains-fresh :
    (processed : List ℤ) (servers : List ServerResource) (node : ℤ)
    → contains (fresh_nodes processed servers) node
      ≡ (not (contains processed node) && contains (nodes_of servers) node)
unfolding fresh_nodes contains
contains-fresh processed [] node = ground arith
contains-fresh processed (server ∷ servers) node = ground (
  arith,
  contains-fresh processed servers node,
  contains-fresh (server.node ∷ processed) servers node,
)

distinct-fresh :
    (processed : List ℤ) (servers : List ServerResource)
    → distinct (fresh_nodes processed servers) ≡ true
unfolding fresh_nodes distinct contains
distinct-fresh processed [] = refl
distinct-fresh processed (server ∷ servers) = ground (
  arith,
  distinct-fresh processed servers,
  distinct-fresh (server.node ∷ processed) servers,
  contains-fresh (server.node ∷ processed) servers server.node,
  ==-self server.node,
)

-- Discovery asks for the allocations of the nodes that its servers are on, of each node once.
pub load_allocations_lem :
    {W : Type 0} (client : PelicanClient W) (servers : List ServerResource) (w : W)
    → (load_allocations client [] [] servers w ≡ load_nodes client [] (fresh_nodes [] servers) w)
      × (distinct (fresh_nodes [] servers) ≡ true)
      × ((node : ℤ) → contains (fresh_nodes [] servers) node ≡ contains (nodes_of servers) node)
unfolding contains
load_allocations_lem client servers w = (
  load_fresh client [] [] servers w,
  distinct-fresh [] servers,
  λ node. contains-fresh [] servers node,
)
