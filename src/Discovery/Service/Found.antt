-- ===== src/Discovery/Service/Found.antt =====
-- About the servers that `Discover` of backend/internal/discovery/service.go returns.
use mathlib.Core.List.{append_assoc, append-nil}
use mathlib.Core.Path.{subst}
use pelican_mc_router.Prelude.{
  ◌≡◌, ◌⊎◌, refl, sym, ap, ◌∙◌, inl, inr, Bool, true, false, Option, none, some, List, [], ◌∷◌,
  ◌++◌, map, arith, any, contains, select, ◌==◌, eq_of_==, ==-self, if◌then◌else◌, ok, Result-cases,
  Option-cases, Bool-cases,
}
use pelican_mc_router.Prelude.Dict.{Dict, lookup, insert, lookup-insert}
use pelican_mc_router.Prelude.Int.{ℤ, int_eq}
use pelican_mc_router.Text.{Text, text, text_eq, ascii_lower, Unicode, trim_space}
use pelican_mc_router.Text.Ipv6.{is_unspecified}
use pelican_mc_router.Models.{MinecraftServer}
use pelican_mc_router.Discovery.Service.{
  ServerResource, EggResource, AllocationResource, PelicanClient, is_minecraft_egg,
  resolve_backend_host, eggs_by_id, add_allocations, load_allocations, is_minecraft_server, locate,
  collect, discover,
}
use pelican_mc_router.Discovery.Service.Nodes.{nodes_of}

-- The egg of an identifier in a listing: the last one that has it.
unfoldable pub egg_of : List EggResource → ℤ → Option EggResource
egg_of [] id = none
egg_of (egg ∷ eggs) id = elim (egg_of eggs id) [
  | some later ↦ some later
  | none ↦ if egg.id == id then some egg else none
]

egg_of-eggs_by_id :
    (eggs : List EggResource) (table : Dict ℤ EggResource) (id : ℤ)
    → lookup id (eggs_by_id table eggs)
      ≡ elim (egg_of eggs id) [ some egg ↦ some egg | none ↦ lookup id table ]
unfolding egg_of eggs_by_id
egg_of-eggs_by_id [] table id = refl
egg_of-eggs_by_id (egg ∷ eggs) table id = elim (Option-cases (egg_of eggs id)) [
  | inr (later, found) ↦ ground (arith, egg_of-eggs_by_id eggs (insert egg.id egg table) id)
  | inl absent ↦ ground (
    arith,
    egg_of-eggs_by_id eggs (insert egg.id egg table) id,
    lookup-insert id egg.id egg table,
  )
]

-- The members of a list.
abbrev pub Holds : List AllocationResource → AllocationResource → Type 0
Holds [] a = ⊥
Holds (b ∷ allocations) a = (a ≡ b) ⊎ Holds allocations a

module _ ⦃u : Unicode⦄ where
  -- A tag that is "minecraft", but for case and the space around it.
  unfoldable pub is_tagged : List Text → Bool
  is_tagged [] = false
  is_tagged (tag ∷ tags) =
      let rest = is_tagged tags in
      if map ascii_lower (trim_space tag) == text "minecraft" then true else rest

  unfoldable pub runs_minecraft : List EggResource → ServerResource → Bool
  unfolding egg_of is_tagged
  runs_minecraft eggs server = elim (egg_of eggs server.egg) [
    | none ↦ false
    | some egg ↦ is_tagged egg.tags
  ]

  is_tagged-any :
      (tags : List Text)
      → any (λ (tag : Text). map ascii_lower (trim_space tag) == text "minecraft") tags
        ≡ is_tagged tags
  unfolding any is_tagged
  is_tagged-any [] = refl
  is_tagged-any (tag ∷ tags) = ground (arith, is_tagged-any tags)

  is_minecraft_server-runs :
      (eggs : List EggResource) (server : ServerResource)
      → is_minecraft_server (eggs_by_id [] eggs) server ≡ runs_minecraft eggs server
  unfolding is_minecraft_server runs_minecraft is_minecraft_egg lookup
  is_minecraft_server-runs eggs server = elim (Option-cases (egg_of eggs server.egg)) [
    | inl absent ↦ ground (arith, egg_of-eggs_by_id eggs [] server.egg)
    | inr (egg, found) ↦
        ground (arith, egg_of-eggs_by_id eggs [] server.egg, is_tagged-any egg.tags)
  ]

  -- The trimmed address of the allocation, or the trimmed wildcard host where that is unspecified.
  abbrev pub HostOf : Text → Text → Text → Type 0
  HostOf wildcard ip host =
      ((is_unspecified (trim_space ip) ≡ false) × (host ≡ trim_space ip))
      ⊎ ((is_unspecified (trim_space ip) ≡ true) × (host ≡ trim_space wildcard))

  resolve-HostOf :
      (wildcard ip : Text) {host : Text}
      → resolve_backend_host wildcard ip ≡ ok host
      → HostOf wildcard ip host
  unfolding resolve_backend_host
  resolve-HostOf wildcard ip h = elim (Bool-cases (is_unspecified (trim_space ip))) [
    | inl unspecified ↦ inr (unspecified, ground arith)
    | inr specified ↦ inl (specified, ground arith)
  ]

  module _ {W : Type 0} (client : PelicanClient W) (wildcard : Text)
      (all_servers : List ServerResource) where
    -- The panel listed the allocation for the node of one of its servers.
    abbrev pub Offered : AllocationResource → Type 0
    Offered a =
        (node : ℤ) × (v : W) × (allocations : List AllocationResource) × (contains
            (nodes_of all_servers) node
          ≡ true)
        × ((client.list_node_allocations node v).0 ≡ ok allocations)
        × Holds allocations a

    -- A discovered server is the panel's, with the host and the port of its own allocation.
    pub record Described (server : ServerResource) (found : MinecraftServer) : Type 0 where
      pub allocation : AllocationResource
      pub own : allocation.id ≡ server.allocation
      pub offered : Offered allocation
      pub host : HostOf wildcard allocation.ip found.backend_ip
      pub port : found.backend_port ≡ allocation.port
      pub identity :
          (found.id ≡ server.id)
          × (found.uuid ≡ server.uuid)
          × (found.identifier ≡ server.identifier)
          × (found.name ≡ server.name)
      pub place :
          (found.node_id ≡ server.node)
          × (found.egg_id ≡ server.egg)
          × (found.allocation_id ≡ server.allocation)
      pub state : (found.suspended ≡ server.suspended) × (found.status ≡ server.status)

    -- One discovered server for each, in order.
    abbrev pub DescribedAll : List ServerResource → List MinecraftServer → Type 0
    DescribedAll [] [] = Unit
    DescribedAll [] (found ∷ more) = ⊥
    DescribedAll (server ∷ servers) [] = ⊥
    DescribedAll (server ∷ servers) (found ∷ more) =
        Described server found × DescribedAll servers more

    abbrev FromPanel : Dict ℤ AllocationResource → Type 0
    FromPanel table =
        (k : ℤ) (a : AllocationResource) → lookup k table ≡ some a → (a.id ≡ k) × Offered a

    add_allocations-FromPanel :
        (allocations : List AllocationResource) (table : Dict ℤ AllocationResource)
        → ((a : AllocationResource) → Holds allocations a → Offered a)
        → FromPanel table
        → FromPanel (add_allocations table allocations)
    unfolding add_allocations
    add_allocations-FromPanel [] table offered h k a found = h k a found
    add_allocations-FromPanel (b ∷ allocations) table offered h k a found =
        add_allocations-FromPanel allocations (insert b.id b table)
          (λ c member. offered c (inr member))
          (λ j c there. elim (Bool-cases (j == b.id)) [
            | inl same ↦
                let is_b : c ≡ b = ground (arith, lookup-insert j b.id b table) in
                (
                  ap (λ (x : AllocationResource). x.id) is_b ∙ sym (eq_of_== j b.id same),
                  offered c (inl is_b),
                )
            | inr other ↦ h j c (ground (arith, lookup-insert j b.id b table))
          ])
          k a found

    load_allocations-FromPanel :
        (processed : List ℤ) (table : Dict ℤ AllocationResource) (servers : List ServerResource)
        (w : W) {loaded : Dict ℤ AllocationResource}
        → ((node : ℤ)
            → contains (nodes_of servers) node ≡ true
            → contains (nodes_of all_servers) node ≡ true)
        → FromPanel table
        → (load_allocations client processed table servers w).0 ≡ ok loaded
        → FromPanel loaded
    unfolding load_allocations contains
    load_allocations-FromPanel processed table [] w {loaded} within h good k a found =
        h k a (ground arith)
    load_allocations-FromPanel processed table (server ∷ servers) w {loaded} within h good k a
          found =
        let later : (node : ℤ)
            → contains (nodes_of servers) node ≡ true
            → contains (nodes_of all_servers) node ≡ true =
          λ node here. within node (ground arith) in
        elim (Bool-cases (contains processed server.node)) [
          | inl old ↦
              load_allocations-FromPanel processed table servers w {loaded = loaded} later h
                (ground arith) k a found
          | inr fresh ↦ elim (Result-cases (client.list_node_allocations server.node w).0) [
            | inr (e, bad) ↦ absurd (ground arith)
            | inl (allocations, listed) ↦
                load_allocations-FromPanel (server.node ∷ processed)
                  (add_allocations table allocations) servers
                  (client.list_node_allocations server.node w).1 {loaded = loaded} later
                  (add_allocations-FromPanel allocations table
                    (λ c member. (
                      server.node,
                      w,
                      allocations,
                      within server.node (ground (arith, ==-self server.node)),
                      listed,
                      member,
                    ))
                    h)
                  (ground arith) k a found
          ]
        ]

    module _ (eggs : List EggResource) (table : Dict ℤ AllocationResource)
        (from_panel : FromPanel table) where
      locate-Described :
          (server : ServerResource) {found : MinecraftServer}
          → locate wildcard (eggs_by_id [] eggs) table server ≡ ok found
          → Described server found
      unfolding locate
      locate-Described server {found} h = elim (Option-cases (lookup server.allocation table)) [
        | inl missing ↦ absurd (ground arith)
        | inr (a, there) ↦ elim (Result-cases (resolve_backend_host wildcard a.ip)) [
          | inr (e, bad) ↦ absurd (ground arith)
          | inl (host, good) ↦
              let (own, offered) = from_panel server.allocation a there in
              let is_host : found.backend_ip ≡ host = ground arith in
              record {
                allocation = a;
                own = own;
                offered = offered;
                host = rw is_host (resolve-HostOf wildcard a.ip good);
                port = ground arith;
                identity = (ground arith, ground arith, ground arith, ground arith);
                place = (ground arith, ground arith, ground arith);
                state = (ground arith, ground arith);
              }
        ]
      ]

      collect-DescribedAll :
          (before : List MinecraftServer) (servers : List ServerResource)
          {found : List MinecraftServer}
          → collect wildcard (eggs_by_id [] eggs) table before servers ≡ ok found
          → (more : List MinecraftServer) × (found ≡ before ++ more)
            × DescribedAll (select (runs_minecraft eggs) servers) more
      unfolding collect select
      collect-DescribedAll before [] {found} h = ([], ground (arith, append-nil before), tt)
      collect-DescribedAll before (server ∷ servers) {found} h =
          let same = is_minecraft_server-runs eggs server in
          elim (Bool-cases (runs_minecraft eggs server)) [
            | inr other ↦
                let (more, is_found, described) =
                  collect-DescribedAll before servers {found = found} (ground (arith, same)) in
                rw other (more, is_found, described)
            | inl minecraft ↦
                elim (Result-cases (locate wildcard (eggs_by_id [] eggs) table server)) [
                  | inr (e, bad) ↦ absurd (ground (arith, same))
                  | inl (m, good) ↦
                      let (more, is_found, described) =
                        collect-DescribedAll (before ++ m ∷ []) servers {found = found}
                          (ground (arith, same)) in
                      rw minecraft (
                        m ∷ more,
                        is_found ∙ append_assoc before (m ∷ []) more,
                        (locate-Described server good, described),
                      )
                ]
          ]

module _ ⦃u : Unicode⦄ {W : Type 0} (client : PelicanClient W) (wildcard : Text) (w : W) where
  -- Discovery without error returns one server for each server of the panel whose egg, the last of the
  -- listed eggs with its identifier, has the tag "minecraft" (but for case and the space around it), and no
  -- others, in the panel's order. Each has the panel's data of that server, the port of its allocation,
  -- which the panel listed for the node of one of its servers, and as host the allocation's trimmed
  -- address, or the trimmed wildcard host where that address is unspecified.
  pub discover-minecraft :
      {found : List MinecraftServer} {listed : List ServerResource} {eggs : List EggResource}
      → (discover client wildcard w).0 ≡ ok found
      → (client.list_servers w).0 ≡ ok listed
      → (client.list_eggs (client.list_servers w).1).0 ≡ ok eggs
      → DescribedAll client wildcard listed (select (runs_minecraft eggs) listed) found
  unfolding discover lookup
  discover-minecraft {found} {listed} {eggs} h good read =
      let w2 : W = (client.list_eggs (client.list_servers w).1).1 in
      elim (Result-cases (load_allocations client [] [] listed w2).0) [
        | inr (e, bad) ↦ absurd (ground arith)
        | inl (table, loaded) ↦
            let from_panel =
              load_allocations-FromPanel client wildcard listed [] [] listed w2 {loaded = table}
                (λ node here. here) (λ k a there. absurd (ground arith)) loaded in
            let (more, is_found, described) =
              collect-DescribedAll client wildcard listed eggs table from_panel [] listed
                {found = found} (ground arith) in
            subst
              (λ servers.
                DescribedAll client wildcard listed (select (runs_minecraft eggs) listed) servers)
              (sym is_found) described
      ]
