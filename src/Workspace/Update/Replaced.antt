-- ===== src/Workspace/Update/Replaced.antt =====
-- How Update of internal/ops/ops.go has replaced the container behind its guards, if it gives no
-- error.
use Prim.Native.String.{◌++◌ as append}
use aw_remote_host.Common.{◌≡◌, ok, String, false, [], ◌∷◌, List}
use aw_remote_host.Runner.{>>=-ok, ◌>>=◌, ◌>>◌}
use aw_remote_host.Workspace.{GoText}
use aw_remote_host.Workspace.Sync.{sync_workspace_source}
use aw_remote_host.Workspace.Update.{
  Request, remove_container, recreate, failing_with, deferred, must, synced, settle, source_of,
  sync_and_recreate, from_seed, seed_name, remove_seed, from_staging, install_image,
}
use aw_remote_host.Workspace.Update.Steps.{
  Machine, Opts, World, run_modules_with_env, remove_stale_update_seeds,
}
use aw_remote_host.Workspace.Update.Verify.{verify_recreated}
use aw_remote_host.Workspace.Podman.{
  stale_staging, staging_not_created, seed_not_created, source_not_copied, guard_host_not_ahead,
  guard_host_uncommitted,
}
use aw_remote_host.Workspace.Update.Running.{Runs, verify_recreated-Runs}

module _ (t : GoText) (m : Machine) (o : Opts) where
  abbrev pub image_env : String → List String
  image_env image = append "AW_WORKSPACE_IMAGE=" image ∷ []

  -- From the moment before the old container is removed: the removal and the modules ended without
  -- an error, and behind them the container was not proven to run another image or version.
  abbrev pub Recreated : Request → String → String → World t m → Type 0
  Recreated q steady image w =
      let removed = remove_container t m o w in
      let ran = run_modules_with_env t m o steady false (image_env image) removed.0 in
      (removed.1 ≡ ok tt) × (ran.1 ≡ ok tt) × Runs t m image (t.trim q.version) ran.0

  -- From the copied source to the moment before the old container is removed.
  abbrev pub settled : Request → String → String → String → List String → World t m → World t m
  settled q dir image staging written w =
      (settle t m o dir image q.snapshot_name written
        (synced t m o (sync_workspace_source m.disk (m.staged staging w) staging dir w)).0).0

  -- From the passed guards to the copied source.
  abbrev pub copied : Request → String → String → World t m → World t m
  copied q staging image w =
      let wiped = failing_with stale_staging (m.disk.remove_all staging w) in
      let made = failing_with staging_not_created (m.disk.mkdir_all staging wiped.0) in
      let seeded =
        must t m o seed_not_created ("create" ∷ "--name" ∷ seed_name t m o q ∷ image ∷ [])
          (remove_stale_update_seeds t m made.0) in
      (must t m o source_not_copied ("cp" ∷ source_of t m o q ∷ staging ∷ []) seeded.0).0

  abbrev pub staging_of : Request → String → String
  staging_of q dir = m.disk.join dir (append ".aw-workspace-update-" q.staging_time)

  -- The moment before the old container is removed, from the one behind the check of the digest.
  abbrev pub before_removal : Request → String → String → List String → World t m → World t m
  before_removal q dir image written w =
      let ahead = guard_host_not_ahead t m.runner dir image q.force w in
      let dirty = guard_host_uncommitted t m.runner dir q.force ahead.0 in
      settled q dir image (staging_of q dir) written (copied q (staging_of q dir) image dirty.0)

  recreate-Recreated :
      (q : Request) (steady image : String) (w : World t m)
      → (recreate t m o q steady image w).1 ≡ ok tt
      → Recreated q steady image w
  unfolding recreate
  recreate-Recreated q steady image w h =
      let run = run_modules_with_env t m o steady false (image_env image) in
      let last = λ (x : Unit {0}). verify_recreated t m image (t.trim q.version) in
      let removed = >>=-ok (remove_container t m o) (λ x. run >>= last) w h in
      let ran = >>=-ok run last ((remove_container t m o w).0) removed.2 in
      (removed.1, ran.1, verify_recreated-Runs t m image (t.trim q.version) _ ran.2)

  sync_and_recreate-Recreated :
      (q : Request) (steady dir image staging : String) (w : World t m)
      → (sync_and_recreate t m o q steady dir image staging w).1 ≡ ok tt
      → (written : List String) × Recreated q steady image (settled q dir image staging written w)
  unfolding sync_and_recreate
  sync_and_recreate-Recreated q steady dir image staging w h =
      let sync = λ (v : World t m).
        synced t m o (sync_workspace_source m.disk (m.staged staging v) staging dir v) in
      let behind = λ (written : List String).
        settle t m o dir image q.snapshot_name written >> recreate t m o q steady image in
      let a = >>=-ok sync behind w h in
      let b =
        >>=-ok (settle t m o dir image q.snapshot_name a.0) (λ x. recreate t m o q steady image)
          (sync w).0 a.2 in
      (a.0, recreate-Recreated q steady image _ b.2)

  from_seed-Recreated :
      (q : Request) (steady dir image staging : String) (w : World t m)
      → (from_seed t m o q steady dir image staging w).1 ≡ ok tt
      → (written : List String) × Recreated q steady image (
          settled q dir image staging written
            (must t m o source_not_copied ("cp" ∷ source_of t m o q ∷ staging ∷ []) w).0)
  unfolding from_seed
  from_seed-Recreated q steady dir image staging w h =
      let a =
        >>=-ok (must t m o source_not_copied ("cp" ∷ source_of t m o q ∷ staging ∷ []))
          (λ x. sync_and_recreate t m o q steady dir image staging) w h in
      sync_and_recreate-Recreated q steady dir image staging _ a.2

  from_staging-Recreated :
      (q : Request) (steady dir image staging : String) (w : World t m)
      → (from_staging t m o q steady dir image staging w).1 ≡ ok tt
      → (written : List String) × Recreated q steady image (
          settled q dir image staging written
            (must t m o source_not_copied
              ("cp" ∷ source_of t m o q ∷ staging ∷ [])
              (must t m o seed_not_created
                ("create" ∷ "--name" ∷ seed_name t m o q ∷ image ∷ [])
                (remove_stale_update_seeds t m w)).0).0)
  unfolding from_staging
  from_staging-Recreated q steady dir image staging w h =
      let w1 = remove_stale_update_seeds t m w in
      let a =
        >>=-ok (must t m o seed_not_created ("create" ∷ "--name" ∷ seed_name t m o q ∷ image ∷ []))
          (λ x. deferred (remove_seed t m o q) (from_seed t m o q steady dir image staging)) w1 h in
      from_seed-Recreated q steady dir image staging _ a.2

  pub install_image-Recreated :
      (q : Request) (steady dir image : String) (w : World t m)
      → (install_image t m o q steady dir image w).1 ≡ ok tt
      → (written : List String) × Recreated q steady image
          (settled q dir image (staging_of q dir) written (copied q (staging_of q dir) image w))
  unfolding install_image
  install_image-Recreated q steady dir image w h =
      let staging = staging_of q dir in
      let wipe = λ (v : World t m). failing_with stale_staging (m.disk.remove_all staging v) in
      let make = λ (v : World t m). failing_with staging_not_created (m.disk.mkdir_all staging v) in
      let rest =
        deferred (λ v. (m.disk.remove_all staging v).0)
          (from_staging t m o q steady dir image staging) in
      let a = >>=-ok wipe (λ (x : Unit {0}). make >> rest) w h in
      let b = >>=-ok make (λ (x : Unit {0}). rest) (wipe w).0 a.2 in
      from_staging-Recreated q steady dir image staging _ b.2
