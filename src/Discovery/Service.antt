-- ===== src/Discovery/Service.antt =====
-- `Discover` of backend/internal/discovery/service.go, with classifier.go and mapper.go. The
-- Pelican client is an interface of the source.
pub mod Laws
pub mod Nodes
pub mod Found
use pelican_mc_router.Prelude.{
  ℕ, Bool, true, false, ◌&&◌, Option, none, some, List, [], ◌∷◌, ◌++◌, map, is_empty, any, contains,
  ◌==◌, if◌then◌else◌, Result, ok, err, ◌>>=◌,
}
use pelican_mc_router.Prelude.Dict.{Dict, lookup, insert}
use pelican_mc_router.Prelude.Int.{ℤ, pos, int_eq}
use pelican_mc_router.Text.{Text, text, text_eq, ascii_lower, Unicode, trim_space}
use pelican_mc_router.Text.Ipv6.{is_unspecified}
use pelican_mc_router.Models.{MinecraftServer}

-- The attributes of Pelican's resources that discovery reads.
pub record ServerResource : Type 0 where
  pub id : ℤ
  pub uuid : Text
  pub identifier : Text
  pub name : Text
  pub suspended : Bool
  pub node : ℤ
  pub allocation : ℤ
  pub egg : ℤ
  pub status : Option Text

pub record EggResource : Type 0 where
  pub id : ℤ
  pub tags : List Text

pub record AllocationResource : Type 0 where
  pub id : ℤ
  pub ip : Text
  pub port : ℤ

pub record PelicanClient (W : Type 0) : Type 0 where
  pub list_servers : W → Result Text (List ServerResource) × W
  pub list_eggs : W → Result Text (List EggResource) × W
  pub list_node_allocations : ℤ → W → Result Text (List AllocationResource) × W

pub data HostError : Type 0 where
  empty_ip no_wildcard_host unspecified_wildcard_host : HostError

pub data DiscoverError : Type 0 where
  servers_failed eggs_failed : Text → DiscoverError
  allocations_failed : ℤ → Text → DiscoverError
  allocation_not_found : ℤ → Text → DiscoverError
  resolve_failed : Text → HostError → DiscoverError

module _ ⦃u : Unicode⦄ where
  -- `strings.EqualFold(strings.TrimSpace(tag), "minecraft")`: no letter of the word folds with
  -- one outside ASCII.
  unfoldable pub is_minecraft_egg : EggResource → Bool
  is_minecraft_egg egg =
      any (λ (tag : Text). map ascii_lower (trim_space tag) == text "minecraft") egg.tags

  unfoldable pub resolve_backend_host : Text → Text → Result HostError Text
  resolve_backend_host wildcard_backend_host allocation_ip =
      let host = trim_space allocation_ip in
      if is_empty host
      then err empty_ip
      else if is_unspecified host
      then (let fallback = trim_space wildcard_backend_host in
          if is_empty fallback
          then err no_wildcard_host
          else if is_unspecified fallback
          then err unspecified_wildcard_host
          else ok fallback)
      else ok host

abbrev pub map_minecraft_server : ServerResource → Text → ℤ → MinecraftServer
map_minecraft_server server host port = record {
  id = server.id;
  uuid = server.uuid;
  identifier = server.identifier;
  name = server.name;
  node_id = server.node;
  egg_id = server.egg;
  allocation_id = server.allocation;
  backend_ip = host;
  backend_port = port;
  suspended = server.suspended;
  status = server.status;
}

-- `eggsByID`, where a later egg replaces an earlier one of the same identifier.
unfoldable pub eggs_by_id : Dict ℤ EggResource → List EggResource → Dict ℤ EggResource
eggs_by_id table [] = table
eggs_by_id table (egg ∷ eggs) = eggs_by_id (insert egg.id egg table) eggs

unfoldable pub add_allocations :
    Dict ℤ AllocationResource → List AllocationResource → Dict ℤ AllocationResource
add_allocations table [] = table
add_allocations table (a ∷ allocations) = add_allocations (insert a.id a table) allocations

module _ {W : Type 0} (client : PelicanClient W) where
  -- The loop over the servers' nodes; `processed` is `processedNodes`.
  unfoldable pub load_allocations :
      List ℤ
      → Dict ℤ AllocationResource
      → List ServerResource
      → W
      → Result DiscoverError (Dict ℤ AllocationResource) × W
  load_allocations processed table [] w = (ok table, w)
  load_allocations processed table (server ∷ servers) w = elim (contains processed server.node) [
    | true ↦ load_allocations processed table servers w
    | false ↦
        let (listed, w1) = client.list_node_allocations server.node w in
        elim listed [
          | err e ↦ (err (allocations_failed server.node e), w1)
          | ok allocations ↦
              load_allocations (server.node ∷ processed) (add_allocations table allocations) servers
                w1
        ]
  ]

module _ ⦃u : Unicode⦄ (eggs : Dict ℤ EggResource) where
  -- The egg of a server is known and a Minecraft egg.
  unfoldable pub is_minecraft_server : ServerResource → Bool
  is_minecraft_server server = elim (lookup server.egg eggs) [
    | none ↦ false
    | some egg ↦ is_minecraft_egg egg
  ]

module _ ⦃u : Unicode⦄ (wildcard_backend_host : Text) (eggs : Dict ℤ EggResource)
    (allocations : Dict ℤ AllocationResource) where
  -- A Minecraft server with its backend.
  unfoldable pub locate : ServerResource → Result DiscoverError MinecraftServer
  locate server = elim (lookup server.allocation allocations) [
    | none ↦ err (allocation_not_found server.allocation server.name)
    | some a ↦ elim (resolve_backend_host wildcard_backend_host a.ip) [
      | err e ↦ err (resolve_failed server.name e)
      | ok host ↦ ok (map_minecraft_server server host a.port)
    ]
  ]

  -- The loop that collects `discovered`.
  unfoldable pub collect :
      List MinecraftServer → List ServerResource → Result DiscoverError (List MinecraftServer)
  collect discovered [] = ok discovered
  collect discovered (server ∷ servers) = elim (is_minecraft_server eggs server) [
    | false ↦ collect discovered servers
    | true ↦ elim (locate server) [
      | err e ↦ err e
      | ok found ↦ collect (discovered ++ found ∷ []) servers
    ]
  ]

-- `Discover` of a service made with `WithWildcardBackendHost`, which trims the host as well.
unfoldable pub discover :
    ⦃u : Unicode⦄ {W : Type 0}
    → PelicanClient W
    → Text
    → W
    → Result DiscoverError (List MinecraftServer) × W
discover client wildcard_backend_host w =
    let (servers, w1) = client.list_servers w in
    elim servers [
      | err e ↦ (err (servers_failed e), w1)
      | ok listed ↦
          let (eggs, w2) = client.list_eggs w1 in
          elim eggs [
            | err e ↦ (err (eggs_failed e), w2)
            | ok all_eggs ↦
                let (allocations, w3) = load_allocations client [] [] listed w2 in
                elim allocations [
                  | err e ↦ (err e, w3)
                  | ok table ↦
                      (collect wildcard_backend_host (eggs_by_id [] all_eggs) table [] listed, w3)
                ]
          ]
    ]
