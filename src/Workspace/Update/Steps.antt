-- ===== src/Workspace/Update/Steps.antt =====
-- The steps of Update in internal/ops/ops.go: the host's directory, the pull with its recovery, the
-- modules, and the proof that the new container runs. time.Sleep and what is only reported are left
-- out.
use Prim.Native.String.{◌++◌ as append}
use aw_remote_host.Common.{
  Result, ok, err, String, Bool, true, false, not, ◌&&◌, ◌||◌, Option, none, some, List, [], ◌∷◌,
  ◌++◌, str_eq, if◌then◌else◌,
}
use aw_remote_host.Runner.{Runner, Reply, Step}
use aw_remote_host.Bootstrap.{Module, Scripts, only, default, run_module, Places}
use aw_remote_host.Workspace.{
  GoText, has_prefix, image_repository, workspace_container, podman_pull_args,
}
use aw_remote_host.Workspace.Podman.{
  UpdateError, podman, no_host_dir, pull_failed, manifest_not_loaded, scripts_not_extracted,
  module_failed,
}
use aw_remote_host.Workspace.Sync.{Entries, Disk}
use aw_remote_host.Workspace.Teardown.{Snapshots, Bounded, workspace_log_snapshot_keep, prune_names}

-- What Update calls: commands with and without a deadline of their own, files, the staged source,
-- the log snapshots, and the scripts of the modules with their environment; the environment and
-- identity of the process.
pub record Machine : Type 1 where
  pub runner : Runner
  pub run_bounded : List String → Runner.World runner → Runner.World runner × Bounded
  pub disk : Disk (Runner.World runner)
  pub staged : String → Runner.World runner → Entries
  pub snapshots : Snapshots (Runner.World runner)
  pub run_script : List String → String → Runner.World runner → Runner.World runner × Reply
  pub extract_scripts : String → Runner.World runner → Runner.World runner × Option String
  pub exists : String → Runner.World runner → Bool
  pub home : Result String String
  pub host_dir_env : String
  pub is_root : Bool
  pub places : Places
  pub manifest : Result String (List Module)

-- BootstrapOpts with what runModuleEnv resolves for it: the variables that are passed through, host
-- power and workers.
pub record Opts : Type 0 where
  pub extract_dir : String
  pub passthrough : List String
  pub workspace_slug : String
  pub postgres_password : String
  pub control_plane : String
  pub host_credential : String
  pub host_power : String
  pub workers : String

-- runModuleEnv; `image` is what workspaceImage gives.
unfoldable pub run_module_env : Opts → String → List String → List String
run_module_env o image extra =
    (o.passthrough
      ++ (append "AW_WORKSPACE_IMAGE=" image
          ∷ append "AW_WORKSPACE_SLUG=" o.workspace_slug
          ∷ append "AW_POSTGRES_PASSWORD=" o.postgres_password
          ∷ append "AW_BACKEND_URL=" o.control_plane
          ∷ append "AW_WORKSPACE_HOST_TOKEN=" o.host_credential
          ∷ append "AW_HOST_POWER=" o.host_power
          ∷ append "AW_WORKSPACE_WORKERS=" o.workers
          ∷ []))
    ++ extra

module _ (t : GoText) (m : Machine) where
  abbrev pub World : Type 0
  World = Runner.World m.runner

  -- workspaceHostDir.
  unfoldable pub workspace_host_dir : World → Result UpdateError String
  workspace_host_dir w =
      if not (str_eq (t.trim m.host_dir_env) "") then ok (t.trim m.host_dir_env) else elim m.home [
        | err e ↦ err (no_host_dir e)
        | ok home ↦
            let next = m.disk.join home "aw-workspace" in
            let legacy = m.disk.join home "agentic-workspace" in
            if m.exists next w then ok next else (if m.exists legacy w then ok legacy else ok next)
      ]

  abbrev pub pull : String → World → World × Reply
  pull image w = Runner.run m.runner "podman" (podman_pull_args image) w

  -- The last resort: the tag `latest`, if a version was asked for.
  abbrev pub fall_back_latest :
      String → String → String → Reply → World → World × Result UpdateError String
  fall_back_latest image version e r w =
      let latest = append (image_repository image) ":latest" in
      if not (str_eq version "") && not (str_eq latest image)
      then (let (w', r') = pull latest w in
          elim r'.failure [
            | none ↦ (w', ok latest)
            | some e' ↦ (w', err (pull_failed latest e' r'.output))
          ])
      else (w, err (pull_failed image e r.output))

  abbrev pub retried : String → String → World × Reply → World × Result UpdateError String
  retried image version (w, r) = elim r.failure [
    | none ↦ (w, ok image)
    | some e ↦ fall_back_latest image version e r w
  ]

  abbrev pub recovered : String → String → World × Reply → World × Result UpdateError String
  recovered image version (w, r) = elim r.failure [
    | none ↦ (w, ok image)
    | some e ↦
        if has_prefix image "ghcr.io/"
        then retried image version
            (pull image (Runner.run m.runner "podman" ("logout" ∷ "ghcr.io" ∷ []) w).0)
        else fall_back_latest image version e r w
  ]

  -- The pull of Update, with its recovery; the image that was pulled.
  unfoldable pub pull_image : String → String → Step World UpdateError String
  pull_image image version w = recovered image version (pull image w)

  -- The command of pruneUnusedImages, whose outcome is only reported.
  abbrev pub prune_unused_images : World → World
  prune_unused_images w = (Runner.run m.runner "podman" ("image" ∷ "prune" ∷ "-a" ∷ "-f" ∷ []) w).0

  -- The loop of removeStaleUpdateSeeds.
  unfoldable pub remove_seeds : List String → World → World
  remove_seeds [] w = w
  remove_seeds (name ∷ rest) w = remove_seeds rest (
      if str_eq name "" || str_eq name workspace_container
      then w
      else (Runner.run m.runner "podman" ("rm" ∷ "-f" ∷ name ∷ []) w).0)

  -- removeStaleUpdateSeeds.
  unfoldable pub remove_stale_update_seeds : World → World
  remove_stale_update_seeds w =
      let (w', out) =
        podman t m.runner
          ("ps" ∷ "-a" ∷ "--format" ∷ "{{.Names}}" ∷ "--filter"
            ∷ "name=^aw-remote-host-workspace-update" ∷ [])
          w in
      elim out [ none ↦ w' | some s ↦ remove_seeds (t.fields s) w' ]

  -- The change of owner in Update, whose outcome is only reported.
  unfoldable pub normalize_ownership : List String → World → World
  normalize_ownership [] w = w
  normalize_ownership (p ∷ ps) w =
      if m.is_root
      then (Runner.run m.runner "chown" ("-R" ∷ "1001:1001" ∷ p ∷ ps) w).0
      else (Runner.run m.runner "podman" ("unshare" ∷ "chown" ∷ "-R" ∷ "1001:1001" ∷ p ∷ ps) w).0

  abbrev pub written_snapshot : String → World × Option String → World
  written_snapshot dir (w, some e) = w
  written_snapshot dir (w, none) =
      prune_names m.snapshots workspace_log_snapshot_keep dir (m.snapshots.names dir w) w

  abbrev pub snapshot_into : String → String → World × Option String → World
  snapshot_into name dir (w, some e) = w
  snapshot_into name dir (w, none) =
      let (w', out) = podman t m.runner ("logs" ∷ "--timestamps" ∷ workspace_container ∷ []) w in
      elim out [
        | none ↦ w'
        | some s ↦ written_snapshot dir (m.snapshots.write (m.disk.join dir name) s w')
      ]

  -- snapshotWorkspaceLogBeforeRecreate.
  unfoldable pub snapshot_workspace_log : String → World → World
  snapshot_workspace_log name w = elim m.snapshots.dir [
    | err e ↦ w
    | ok dir ↦ snapshot_into name dir (m.snapshots.make_dir dir w)
  ]

  abbrev pub scripts : List String → Scripts
  scripts env = record { World = World; run_script = m.run_script env }

  -- The loop of runModulesWithEnv.
  unfoldable pub run_selected :
      String → List String → List Module → Step World UpdateError (Unit {0})
  run_selected extract_dir env [] w = (w, ok tt)
  run_selected extract_dir env (x ∷ xs) w =
      let (w', st) = run_module m.places (scripts env) extract_dir x w in
      elim st.is_ok [
        | true ↦ run_selected extract_dir env xs w'
        | false ↦ (w', err (module_failed x.name))
      ]

  abbrev pub behind_extract :
      Opts
      → List String
      → Bool
      → List Module
      → World × Option String
      → World × Result UpdateError (Unit {0})
  behind_extract o env full modules (w, some e) = (w, err (scripts_not_extracted e))
  behind_extract o env full modules (w, none) =
      run_selected o.extract_dir env
        (if full then default modules else only ("workspace" ∷ []) modules) w

  -- runModulesWithEnv without its guard and its record, which a run that is not full does not have.
  unfoldable pub run_modules_with_env :
      Opts → String → Bool → List String → Step World UpdateError (Unit {0})
  run_modules_with_env o image full extra w = elim m.manifest [
    | err e ↦ (w, err (manifest_not_loaded e))
    | ok modules ↦
        behind_extract o (run_module_env o image extra) full modules
          (m.extract_scripts o.extract_dir w)
  ]
