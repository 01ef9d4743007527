-- ===== src/Tests/InfraredTests.antt =====
-- Tests and examples for the Infrared adapter, with a disk of one directory.
use pelican_mc_router.Prelude.{
  ℕ, ◌↔◌, zero, suc, ◌≡◌, ◌≢◌, refl, Bool, true, false, Option, none, some, List, [], ◌∷◌, ◌++◌,
  map, any, contains, distinct, Result, ok, err,
}
use pelican_mc_router.Prelude.Dict.{Dict, lookup, insert, erase}
use pelican_mc_router.Text.{Text, text, text_eq, trim_space, has_prefix, has_suffix}
use pelican_mc_router.Text.Decimal.{itoa, join_host_port}
use pelican_mc_router.Router.{Route}
use pelican_mc_router.Infrared.Renderer.{
  ProxyConfig, is_path_char, managed_proxy_prefix, render, proxy_filename,
}
use pelican_mc_router.Infrared.Renderer.Laws.{Lacks, proxy_filename_safe}
use pelican_mc_router.Infrared.Files.{
  FileSystem, FileInfo, Entry, StatError, not_exist, in_turn, write_file_atomic,
}
use pelican_mc_router.Infrared.Controller.{
  ChangesError, canceled, configure, add_configuration, needs_update, write_configuration_file,
  is_stale, remove_entry, any_change, remove_stale_configurations, apply_configurations,
  reconcile_changes,
}
use pelican_mc_router.Infrared.Controller.Laws.{server_ids}
use pelican_mc_router.Infrared.Planned.{plan-refused}
use pelican_mc_router.Infrared.Reloading.{reconcile}
use pelican_mc_router.Tests.Data.{
  ascii, two_routes, route, domain_planner, server_named, alias_table, alias_policy,
}
use pelican_mc_router.Tests.McRouterTests.{planned, planned_routes}

-- The context is done at the check that brings `checks` to 0, and at no other.
record Disk : Type 0 where
  files : Dict Text Text
  temp : Text
  checks : ℕ
  reloads : ℕ

abbrev check_with : ℕ → Disk → Result Text (Unit {0}) × Disk
check_with zero w = (ok tt, w)
check_with (suc zero) w = (err (text "context canceled"), record w { checks = 0 })
check_with (suc (suc n)) w = (ok tt, record w { checks = suc n })

abbrev check : Disk → Result Text (Unit {0}) × Disk
check w = check_with w.checks w

abbrev stat : Option Text → Result StatError FileInfo
stat none = err not_exist
stat (some contents) = ok (record { regular = true; permissions = 420 })

abbrev contents_of : Option Text → Result Text Text
contents_of none = err (text "no such file")
contents_of (some contents) = ok contents

abbrev entry : Text × Text → Entry
entry (name, contents) = record { name = name; is_directory = false }

abbrev disk : FileSystem Disk (Unit {0})
disk = record {
  context_err = check;
  mkdir_all = λ d w. (ok tt, w);
  lstat = λ d name w. (stat (lookup name w.files), w);
  read_file = λ d name w. (contents_of (lookup name w.files), w);
  read_directory = λ d w. (ok (map entry w.files), w);
  remove = λ d name w. (ok tt, record w { files = erase name w.files });
  create_temp = λ d name w. (ok tt, record w { temp = [] });
  chmod = λ f mode w. (ok tt, w);
  write = λ f contents w. (ok tt, record w { temp = contents });
  sync = λ f w. (ok tt, w);
  close = λ f w. (ok tt, w);
  rename = λ f d name w. (ok tt, record w { files = insert name w.temp w.files });
  remove_temp = λ f w. (ok tt, record w { temp = [] });
}

abbrev joined_texts : List Text → Text
joined_texts [] = []
joined_texts (t ∷ ts) = t ++ joined_texts ts

-- Stands for the YAML encoder.
abbrev joined : ProxyConfig → Result Text Text
joined c = ok (joined_texts c.domains ++ text " -> " ++ joined_texts c.addresses)

abbrev counted_reload : Disk → Result Text (Unit {0}) × Disk
counted_reload w = (ok tt, record w { reloads = suc w.reloads })

abbrev disk_with : Dict Text Text → ℕ → Disk
disk_with files checks = record { files = files; temp = []; checks = checks; reloads = 0 }

abbrev stale_disk : Disk
stale_disk =
    disk_with ((text "pelican-mc-router-old.yml", text "old") ∷ (text "own.yml", text "own") ∷ []) 0

abbrev one_route : List Route
one_route = route "a.mc.example.com" 25565 ∷ []

abbrev inner : List Route → Disk → Result ChangesError Bool × Disk
inner = reconcile_changes disk joined (text "/etc/infrared")

abbrev settled_files : Dict Text Text
settled_files =
    (text "own.yml", text "own")
    ∷ (text "pelican-mc-router-u-1.yml", text "a.mc.example.com -> 10.0.0.5:25565")
    ∷ []

-- Opens what a reconciliation runs.
reconciliation : Unit {0}
unfolding text_eq reconcile_changes apply_configurations configure add_configuration proxy_filename
    render any_change write_configuration_file needs_update write_file_atomic in_turn
    remove_stale_configurations remove_entry is_stale has_prefix has_suffix trim_space is_path_char
    any contains distinct server_ids lookup insert erase itoa join_host_port reconcile
reconciliation = tt

changes_test : inner one_route stale_disk ≡ (ok true, disk_with settled_files 0)
unfolding reconciliation
changes_test = refl

proxy_filename_test : proxy_filename (text " u-1 ") ≡ ok (text "pelican-mc-router-u-1.yml")
unfolding reconciliation
proxy_filename_test = refl

plain_filename_test : proxy_filename (text "u-1") ≡ ok (text "pelican-mc-router-u-1.yml")
unfolding reconciliation
plain_filename_test = refl

proxy_filename_safe_example :
    (Lacks (text "pelican-mc-router-u-1.yml") b'/'
      × Lacks (text "pelican-mc-router-u-1.yml") 92
      × Lacks (text "pelican-mc-router-u-1.yml") 0)
    × (has_prefix (text "pelican-mc-router-u-1.yml") managed_proxy_prefix ≡ true)
    × (has_suffix (text "pelican-mc-router-u-1.yml") (text ".yml") ≡ true)
    × ((text "pelican-mc-router-u-1.yml" ≡ text "pelican-mc-router-u-1.yml")
        ↔ (trim_space (text " u-1 ") ≡ trim_space (text "u-1")))
proxy_filename_safe_example =
    proxy_filename_safe (text " u-1 ") (text "u-1") proxy_filename_test plain_filename_test

twice : distinct (server_ids two_routes) ≡ false
unfolding reconciliation
twice = refl

check-files : (w : Disk) → (check w).1.files ≡ w.files
check-files w = go w.checks
  where
    go : (n : ℕ) → (check_with n w).1.files ≡ w.files
    go zero = refl
    go (suc zero) = refl
    go (suc (suc n)) = refl

alias_stored : lookup (text "u-1") alias_table ≡ some alias_policy
unfolding reconciliation
alias_stored = refl

plan-refused_example :
    ((changed : Bool) → (inner planned_routes stale_disk).0 ≢ ok changed)
    × ((inner planned_routes stale_disk).1.files ≡ stale_disk.files)
plan-refused_example =
    plan-refused domain_planner alias_table (server_named "u-1" "Techopolis") alias_policy refl
      alias_stored refl refl disk joined (λ w. w.files) check-files []
      (server_named "u-2" " Sky__Block! " ∷ []) (text "/etc/infrared") stale_disk planned

changed_test : (inner one_route stale_disk).0 ≡ ok true
unfolding reconciliation
changed_test = refl

reloaded_test : (reconcile check inner counted_reload false one_route stale_disk).error ≡ none
unfolding reconciliation
reloaded_test = refl

-- The context is done once the file is written.
abbrev expiring_disk : Disk
expiring_disk = disk_with [] 4

canceled_test : inner one_route expiring_disk ≡ (
  err (canceled (text "context canceled")),
  disk_with ((text "pelican-mc-router-u-1.yml", text "a.mc.example.com -> 10.0.0.5:25565") ∷ []) 0,
)
unfolding reconciliation
canceled_test = refl

idle_test : (inner one_route (inner one_route expiring_disk).1).0 ≡ ok false
unfolding reconciliation
idle_test = refl
