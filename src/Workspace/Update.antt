-- ===== src/Workspace/Update.antt =====
-- Update, recordInstalledImage and reconcileRecordedImage of internal/ops/ops.go. The image of the
-- state file is explicit; the times in the names of staging directory, seed and snapshot, and the
-- arguments of the verb, are parameters.
pub mod Steps
pub mod Verify
pub mod Running
pub mod Pulled
pub mod Replaced
pub mod Refusal
pub mod Asked
pub mod Recorded
pub mod Late
pub mod Refused
pub mod Reconciled
use Prim.Native.String.{◌++◌ as append}
use aw_remote_host.Common.{
  Result, ok, err, String, Bool, false, ◌||◌, Option, none, some, List, [], ◌∷◌, str_eq,
  if◌then◌else◌,
}
use aw_remote_host.Runner.{Runner, Step, ◌>>=◌, ◌>>◌}
use aw_remote_host.Workspace.{
  GoText, image_repository, workspace_container, workspace_image, workspace_image_for_version,
}
use aw_remote_host.Workspace.Podman.{
  UpdateError, image_id, container_image_id, container_image_ref, image_workspace_version,
  verify_image_digest, guard_host_not_ahead, guard_host_uncommitted, realign_host_git_head,
  host_dir_not_created, stale_staging, staging_not_created, seed_not_created, source_not_copied,
  not_synced,
}
use aw_remote_host.Workspace.Sync.{
  sync_workspace_source, CopyError, not_read, not_removed, not_made, not_linked, not_copied,
}
use aw_remote_host.Workspace.Teardown.{remove_workspace_container}
use aw_remote_host.Workspace.Update.Steps.{
  Machine, Opts, World, workspace_host_dir, pull_image, prune_unused_images,
  remove_stale_update_seeds, normalize_ownership, snapshot_workspace_log, run_modules_with_env,
}
use aw_remote_host.Workspace.Update.Verify.{verify_recreated}

-- The arguments of the verb, and the parts of names that come from the time.
pub record Request : Type 0 where
  pub version : String
  pub force : Bool
  pub staging_time : String
  pub seed_time : String
  pub snapshot_name : String

pub record Installed : Type 0 where
  pub image : String
  pub digest : String

-- The field of state.json that the verb uses; whether the file can be loaded, and saved.
pub record StateFile : Type 0 where
  pub image : String
  pub load_error : Option String
  pub save_error : Option String

abbrev pub loaded_image : StateFile → Option String
loaded_image f = elim f.load_error [ none ↦ some f.image | some e ↦ none ]

-- recordInstalledImage, which is state.Update with Load and Save.
unfoldable pub record_installed_image : String → StateFile → StateFile
record_installed_image image f = elim f.load_error [
  | some e ↦ f
  | none ↦ elim f.save_error [ some e ↦ f | none ↦ record f { image = image } ]
]

abbrev pub failing_with {ℓ} :
    {W : Type ℓ} → (String → UpdateError) → W × Option String → W × Result UpdateError (Unit {0})
failing_with wrap (w, none) = (w, ok tt)
failing_with wrap (w, some e) = (w, err (wrap e))

-- A deferred call: it comes last, however the step ends.
abbrev pub deferred {ℓ} : {W : Type 0} {E : Type 0} {A : Type ℓ} → (W → W) → Step W E A → Step W E A
deferred cleanup step w = let (w', r) = step w in (cleanup w', r)

module _ (t : GoText) (m : Machine) (o : Opts) where
  -- A command of which only the error counts.
  abbrev pub must : (String → UpdateError) → List String → Step (World t m) UpdateError (Unit {0})
  must wrap args w =
      let (w', r) = Runner.run m.runner "podman" args w in failing_with wrap (w', r.failure)

  abbrev pub synced :
      World t m × Result CopyError (List String) → World t m × Result UpdateError (List String)
  synced (w, ok written) = (w, ok written)
  synced (w, err (not_read e)) = (w, err (not_synced e))
  synced (w, err (not_removed p e)) = (w, err (not_synced e))
  synced (w, err (not_made p e)) = (w, err (not_synced e))
  synced (w, err (not_linked p e)) = (w, err (not_synced e))
  synced (w, err (not_copied p e)) = (w, err (not_synced e))

  -- The calls behind the sync that only report their errors.
  abbrev pub settle :
      String → String → String → List String → Step (World t m) UpdateError (Unit {0})
  settle dir image snapshot written w =
      let (w1, version) = image_workspace_version t m.runner image w in
      (
        snapshot_workspace_log t m snapshot
            (normalize_ownership t m written (realign_host_git_head t m.runner dir version w1)),
        ok tt,
      )

  abbrev pub remove_container : Step (World t m) UpdateError (Unit {0})
  remove_container = remove_workspace_container t (World t m) m.run_bounded

  -- Update behind the sync: the container is removed, recreated and proven.
  unfoldable pub recreate : Request → String → String → Step (World t m) UpdateError (Unit {0})
  recreate q steady image = do
    remove_container
    run_modules_with_env t m o steady false (append "AW_WORKSPACE_IMAGE=" image ∷ [])
    verify_recreated t m image (t.trim q.version)

  abbrev pub source_of : Request → String
  source_of q =
      append (append workspace_container (append "-update-" q.seed_time)) ":/opt/aw-workspace/."

  -- Update behind the copy out of its seed container.
  unfoldable pub sync_and_recreate :
      Request → String → String → String → String → Step (World t m) UpdateError (Unit {0})
  sync_and_recreate q steady dir image staging = do
    written ← λ w. synced (sync_workspace_source m.disk (m.staged staging w) staging dir w)
    settle dir image q.snapshot_name written
    recreate q steady image

  -- Update behind its seed container.
  unfoldable pub from_seed :
      Request → String → String → String → String → Step (World t m) UpdateError (Unit {0})
  from_seed q steady dir image staging = do
    must source_not_copied ("cp" ∷ source_of q ∷ staging ∷ [])
    sync_and_recreate q steady dir image staging

  abbrev pub seed_name : Request → String
  seed_name q = append workspace_container (append "-update-" q.seed_time)

  abbrev pub remove_seed : Request → World t m → World t m
  remove_seed q w = (Runner.run m.runner "podman" ("rm" ∷ "-f" ∷ seed_name q ∷ []) w).0

  -- Update behind its staging directory.
  unfoldable pub from_staging :
      Request → String → String → String → String → Step (World t m) UpdateError (Unit {0})
  from_staging q steady dir image staging = do
    λ w. (remove_stale_update_seeds t m w, ok tt)
    must seed_not_created ("create" ∷ "--name" ∷ seed_name q ∷ image ∷ [])
    deferred (remove_seed q) (from_seed q steady dir image staging)

  -- Update behind the guards.
  unfoldable pub install_image :
      Request → String → String → String → Step (World t m) UpdateError (Unit {0})
  install_image q steady dir image = do
    let staging = m.disk.join dir (append ".aw-workspace-update-" q.staging_time)
    λ w. failing_with stale_staging (m.disk.remove_all staging w)
    λ w. failing_with staging_not_created (m.disk.mkdir_all staging w)
    deferred (λ w. (m.disk.remove_all staging w).0) (from_staging q steady dir image staging)

  abbrev pub pinned : String → String → String
  pinned image digest =
      if str_eq digest "" then image else append (image_repository image) (append "@" digest)

  abbrev pub installed : String → String → Installed
  installed image digest = record { image = pinned image digest; digest = digest }

  -- Update behind the guards, for the image that was pulled.
  unfoldable pub install :
      Request → String → String → String → String → Step (World t m) UpdateError Installed
  install q steady dir image digest = do
    install_image q steady dir (pinned image digest)
    λ w. (w, ok (installed image digest))

  -- Update behind the check of the digest: its guards come before it writes.
  unfoldable pub guard_and_install :
      Request → String → String → String → String → Step (World t m) UpdateError Installed
  guard_and_install q steady dir image digest = do
    guard_host_not_ahead t m.runner dir (pinned image digest) q.force
    guard_host_uncommitted t m.runner dir q.force
    install q steady dir image digest

  -- Update behind the pull.
  unfoldable pub check_and_install :
      Request → String → String → String → Step (World t m) UpdateError Installed
  check_and_install q steady dir image = do
    digest ← verify_image_digest t m.runner image
    guard_and_install q steady dir image digest

  -- Update in the host's directory.
  unfoldable pub update_in : Request → String → String → Step (World t m) UpdateError Installed
  update_in q steady dir = do
    λ w. failing_with host_dir_not_created (m.disk.mkdir_all dir w)
    λ w. (prune_unused_images t m w, ok tt)
    image ←
        pull_image t m (workspace_image_for_version t steady (t.trim q.version)) (t.trim q.version)
    check_and_install q steady dir image

  -- Update without its record.
  unfoldable pub update : Request → String → Step (World t m) UpdateError Installed
  update q steady w = elim (workspace_host_dir t m w) [
    | err e ↦ (w, err e)
    | ok dir ↦ update_in q steady dir w
  ]

  abbrev pub recorded :
      StateFile
      → World t m × Result UpdateError Installed
      → (World t m × StateFile) × Result UpdateError Installed
  recorded f (w, err e) = ((w, f), err e)
  recorded f (w, ok i) =
      ((w, (if str_eq i.digest "" then f else record_installed_image i.image f)), ok i)

  -- Update. The clean-up that it deferred comes behind the record, which it does not touch.
  unfoldable pub update_recorded :
      Request
      → String
      → World t m
      → StateFile
      → (World t m × StateFile) × Result UpdateError Installed
  update_recorded q env w f = recorded f (update q (workspace_image t (loaded_image f) env) w)

  abbrev pub behind_ref : StateFile → World t m × String → World t m × StateFile
  behind_ref f (w, ref) = (w, (if str_eq ref "" then f else record_installed_image ref f))

  abbrev pub behind_recorded_id : StateFile → String → World t m × String → World t m × StateFile
  behind_recorded_id f running (w, id) =
      if str_eq id "" || str_eq id running
      then (w, f)
      else behind_ref f (container_image_ref t m.runner w)

  abbrev pub behind_running : StateFile → String → World t m × String → World t m × StateFile
  behind_running f image (w, running) =
      if str_eq running ""
      then (w, f)
      else behind_recorded_id f running (image_id t m.runner image w)

  abbrev pub behind_load : World t m → StateFile → Option String → World t m × StateFile
  behind_load w f (some e) = (w, f)
  behind_load w f none =
      if str_eq (t.trim f.image) ""
      then (w, f)
      else behind_running f (t.trim f.image) (container_image_id t m.runner w)

  -- reconcileRecordedImage.
  unfoldable pub reconcile_recorded_image : World t m → StateFile → World t m × StateFile
  reconcile_recorded_image w f = behind_load w f f.load_error
