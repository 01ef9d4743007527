-- ===== src/Infrared/Controller.antt =====
-- `ReconcileChanges` of backend/internal/router/infrared/controller.go. An error is returned with
-- `false`, whatever was written before it: the `Result` holds the flag of a success only.
pub mod Laws
use pelican_mc_router.Prelude.{
  ℕ, Bool, true, false, not, ◌&&◌, ◌||◌, Option, none, some, List, [], ◌∷◌, ◌++◌, is_empty,
  contains, eqb, ◌==◌, if◌then◌else◌, Result, ok, err,
}
use pelican_mc_router.Text.{Text, text, text_eq, Unicode, trim_space, has_prefix, has_suffix}
use pelican_mc_router.Router.{Route}
use pelican_mc_router.Infrared.Renderer.{
  ProxyConfig, RenderError, FilenameError, managed_proxy_prefix, render, proxy_filename,
}
use pelican_mc_router.Infrared.Files.{
  FileSystem, FileInfo, Entry, StatError, not_exist, other, Action, write_file_atomic,
}

pub data ChangesError : Type 0 where
  canceled : Text → ChangesError
  build_filename : Text → FilenameError → ChangesError
  duplicate_server : Text → ChangesError
  render_route : Text → RenderError → ChangesError
  create_directory inspect_configuration write_configuration read_directory remove_stale :
      Text → ChangesError

-- `renderedProxyConfiguration`
pub record Rendered : Type 0 where
  pub filename : Text
  pub contents : Text

-- `desiredFiles` and `configurations`
pub record Configurations : Type 0 where
  pub desired_files : List Text
  pub rendered : List Rendered

abbrev pub no_configurations : Configurations
no_configurations = record { desired_files = []; rendered = [] }

-- `0o644`
abbrev pub file_permissions : ℕ
file_permissions = 420

-- `NewController`; `none` is `errEmptyDirectory`. `filepath.Clean` keeps the directory that a path
-- names, and a directory is only handed to the file system.
unfoldable pub controller_directory : ⦃u : Unicode⦄ → Text → Option Text
controller_directory directory =
    let trimmed = trim_space directory in if is_empty trimmed then none else some trimmed

module _ ⦃u : Unicode⦄ (marshal : ProxyConfig → Result Text Text) where
  -- One route, after those before it.
  unfoldable pub add_configuration : Configurations → Route → Result ChangesError Configurations
  add_configuration c route = elim (proxy_filename route.server_id) [
    | err e ↦ err (build_filename route.server_id e)
    | ok filename ↦
        if contains c.desired_files filename
        then err (duplicate_server (trim_space route.server_id))
        else elim (render marshal route) [
          | err e ↦ err (render_route route.server_id e)
          | ok contents ↦ ok (record {
            desired_files = filename ∷ c.desired_files;
            rendered = c.rendered ++ record { filename = filename; contents = contents } ∷ [];
          })
        ]
  ]

module _ ⦃u : Unicode⦄ {W F : Type 0} (fs : FileSystem W F)
    (marshal : ProxyConfig → Result Text Text) where
  -- The loop that prepares all files before any is written.
  unfoldable pub configure :
      Configurations → List Route → W → Result ChangesError Configurations × W
  configure c [] w = (ok c, w)
  configure c (route ∷ routes) w =
      let (live, w1) = fs.context_err w in
      elim live [
        | err e ↦ (err (canceled e), w1)
        | ok _ ↦ elim (add_configuration marshal c route) [
          | err e ↦ (err e, w1)
          | ok next ↦ configure next routes w1
        ]
      ]

module _ {W F : Type 0} (fs : FileSystem W F) (directory : Text) where
  -- `proxyConfigurationNeedsUpdate`
  unfoldable pub needs_update : Text → Text → ℕ → W → Result Text Bool × W
  needs_update name contents permissions w =
      let (found, w1) = fs.lstat directory name w in
      elim found [
        | err not_exist ↦ (ok true, w1)
        | err (other e) ↦ (err e, w1)
        | ok info ↦ elim info.regular [
          | false ↦ (ok true, w1)
          | true ↦
              let (existing, w2) = fs.read_file directory name w1 in
              elim existing [
                | err e ↦ (err e, w2)
                | ok old ↦
                    (ok (not (old == contents) || not (eqb info.permissions permissions)), w2)
              ]
        ]
      ]

  -- The body of the loop that writes: whether the file was written.
  unfoldable pub write_configuration_file : Rendered → W → Result ChangesError Bool × W
  write_configuration_file r w =
      let (live, w1) = fs.context_err w in
      elim live [
        | err e ↦ (err (canceled e), w1)
        | ok _ ↦
            let (needed, w2) = needs_update r.filename r.contents file_permissions w1 in
            elim needed [
              | err e ↦ (err (inspect_configuration e), w2)
              | ok false ↦ (ok false, w2)
              | ok true ↦
                  let (written, w3) =
                    write_file_atomic fs directory r.filename r.contents file_permissions w2 in
                  elim written [ err e ↦ (err (write_configuration e), w3) | ok _ ↦ (ok true, w3) ]
            ]
      ]

  -- An entry that is to be removed: a managed file that is not desired. `filepath.Ext(name)` is
  -- ".yml" exactly if the name ends so.
  unfoldable pub is_stale : List Text → Entry → Bool
  is_stale desired entry =
      not entry.is_directory
      && (has_prefix entry.name managed_proxy_prefix
          && (has_suffix entry.name (text ".yml") && not (contains desired entry.name)))

  -- The body of the loop of `removeStaleProxyConfigurations`: whether the entry was removed.
  unfoldable pub remove_entry : List Text → Entry → W → Result ChangesError Bool × W
  remove_entry desired entry w =
      let (live, w1) = fs.context_err w in
      elim live [
        | err e ↦ (err (canceled e), w1)
        | ok _ ↦ elim (is_stale desired entry) [
          | false ↦ (ok false, w1)
          | true ↦
              let (removed, w2) = fs.remove directory entry.name w1 in
              elim removed [ err e ↦ (err (remove_stale e), w2) | ok _ ↦ (ok true, w2) ]
        ]
      ]

-- A loop that remembers whether a round changed anything, and stops at an error.
unfoldable pub any_change :
    {W X : Type 0}
    → (X → W → Result ChangesError Bool × W)
    → List X
    → Bool
    → W
    → Result ChangesError Bool × W
any_change body [] changed w = (ok changed, w)
any_change body (x ∷ xs) changed w =
    let (done, w1) = body x w in
    elim done [ err e ↦ (err e, w1) | ok c ↦ any_change body xs (changed || c) w1 ]

module _ ⦃u : Unicode⦄ {W F : Type 0} (fs : FileSystem W F)
    (marshal : ProxyConfig → Result Text Text) (directory : Text) where
  unfoldable pub remove_stale_configurations : List Text → W → Result ChangesError Bool × W
  remove_stale_configurations desired w =
      let (entries, w1) = fs.read_directory directory w in
      elim entries [
        | err e ↦ (err (read_directory e), w1)
        | ok listed ↦ any_change (remove_entry fs directory desired) listed false w1
      ]

  -- What follows the preparation.
  unfoldable pub apply_configurations : Configurations → W → Result ChangesError Bool × W
  apply_configurations c w =
      let (made, w1) = fs.mkdir_all directory w in
      elim made [
        | err e ↦ (err (create_directory e), w1)
        | ok _ ↦
            let (written, w2) =
              any_change (write_configuration_file fs directory) c.rendered false w1 in
            elim written [
              | err e ↦ (err e, w2)
              | ok changed ↦
                  let (removed, w3) = remove_stale_configurations c.desired_files w2 in
                  elim removed [ err e ↦ (err e, w3) | ok stale ↦ (ok (changed || stale), w3) ]
            ]
      ]

  unfoldable pub reconcile_changes : List Route → W → Result ChangesError Bool × W
  reconcile_changes routes w =
      let (live, w1) = fs.context_err w in
      elim live [
        | err e ↦ (err (canceled e), w1)
        | ok _ ↦
            let (configured, w2) = configure fs marshal no_configurations routes w1 in
            elim configured [ err e ↦ (err e, w2) | ok c ↦ apply_configurations c w2 ]
      ]
