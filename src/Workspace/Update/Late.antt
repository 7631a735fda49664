-- ===== src/Workspace/Update/Late.antt =====
-- No step of Update (internal/ops/ops.go) behind the guards ends in a refusal.
use Prim.Native.String.{◌++◌ as append}
use aw_remote_host.Common.{
  ok, err, String, Bool-cases, inl, inr, Result, none, some, List, [], ◌∷◌, if◌then◌else◌, false,
  Option, ℕ, zero, suc, Bool, not, ◌&&◌, ◌||◌, str_eq,
}
use aw_remote_host.Runner.{Runner, ◌>>=◌, ◌>>◌}
use aw_remote_host.Workspace.{GoText, shorten_sha_version}
use aw_remote_host.Workspace.Teardown.{
  remove_workspace_container, remove_attempts, bounded, rm_workspace, StepEnd, finished, hung,
  failed, remove_workspace_attempts,
}
use aw_remote_host.Bootstrap.{Module, default, only, run_module}
use aw_remote_host.Workspace.Sync.{
  sync_workspace_source, CopyError, not_read, not_removed, not_made, not_linked, not_copied,
}
use aw_remote_host.Workspace.Podman.{
  UpdateError, image_id, container_image_id, container_not_removed, not_recreated, stale_staging,
  staging_not_created, seed_not_created, source_not_copied, manifest_not_loaded, module_failed,
}
use aw_remote_host.Workspace.Update.{
  Request, failing_with, synced, settle, deferred, must, remove_container, recreate, source_of,
  sync_and_recreate, from_seed, seed_name, remove_seed, from_staging, install_image,
}
use aw_remote_host.Workspace.Update.Steps.{
  Machine, Opts, World, run_selected, run_module_env, scripts, behind_extract, run_modules_with_env,
  remove_stale_update_seeds,
}
use aw_remote_host.Workspace.Update.Verify.{
  check_ids, recreate_verify_attempts, reported_version, check_version, verify_recreated,
}
use aw_remote_host.Workspace.Update.Refusal.{
  IsRefusal, CleanEnd, resume-Clean, if-Clean, branch-Clean, failing_with-Clean,
}

module _ (t : GoText) (m : Machine) (o : Opts) (Q : Runner.World m.runner → Type 0) where
  settle-Clean :
      (dir image snapshot : String) (written : List String) (w : World t m)
      → CleanEnd Q (settle t m o dir image snapshot written w)
  settle-Clean dir image snapshot written w = tt

  synced-Clean : (p : World t m × Result CopyError (List String)) → CleanEnd Q (synced t m o p)
  synced-Clean (w, ok written) = tt
  synced-Clean (w, err (not_read e)) = λ r. r
  synced-Clean (w, err (not_removed p e)) = λ r. r
  synced-Clean (w, err (not_made p e)) = λ r. r
  synced-Clean (w, err (not_linked p e)) = λ r. r
  synced-Clean (w, err (not_copied p e)) = λ r. r

  attempted-Clean :
      (p : World t m × StepEnd) (again : World t m → World t m × Result UpdateError (Unit {0}))
      → ((w : World t m) → CleanEnd Q (again w))
      → CleanEnd {W = World t m} Q {A = Unit {0}} (elim p.1 [
        | finished out ↦ (p.0, ok tt)
        | hung out ↦ again p.0
        | failed x out ↦ (p.0, err (container_not_removed x out))
      ])
  attempted-Clean (w, finished out) again c = tt
  attempted-Clean (w, hung out) again c = c w
  attempted-Clean (w, failed x out) again c = λ r. r

  remove_attempts-Clean :
      (n : ℕ) (w : World t m) → CleanEnd Q (remove_attempts t (World t m) m.run_bounded n w)
  unfolding remove_attempts
  remove_attempts-Clean zero w = λ r. r
  remove_attempts-Clean (suc n) w =
      attempted-Clean
        (bounded t (World t m) m.run_bounded (rm_workspace t (World t m) m.run_bounded) w)
        (remove_attempts t (World t m) m.run_bounded n) (remove_attempts-Clean n)

  run_selected-Clean :
      (dir : String) (env : List String) (xs : List Module) (w : World t m)
      → CleanEnd Q (run_selected t m dir env xs w)
  unfolding run_selected
  run_selected-Clean dir env [] w = tt
  run_selected-Clean dir env (x ∷ xs) w =
      let out = run_module m.places (scripts t m env) dir x w in
      branch-Clean Q out.1.is_ok (run_selected t m dir env xs out.0)
        (out.0, err (module_failed x.name)) (run_selected-Clean dir env xs out.0) (λ r. r)

  extracted-Clean :
      (opts : Opts) (env : List String) (full : Bool) (xs : List Module)
      (p : World t m × Option String)
      → CleanEnd Q (behind_extract t m opts env full xs p)
  extracted-Clean opts env full xs (w, some e) = λ r. r
  extracted-Clean opts env full xs (w, none) =
      run_selected-Clean opts.extract_dir env
        (if full then default xs else only ("workspace" ∷ []) xs) w

  loaded-Clean :
      (image : String) (full : Bool) (extra : List String) (loaded : Result String (List Module))
      (w : World t m)
      → CleanEnd {W = World t m} Q {A = Unit {0}} (elim loaded [
        | err e ↦ (w, err (manifest_not_loaded e))
        | ok modules ↦
            behind_extract t m o
              (run_module_env o image extra)
              full
              modules
              (m.extract_scripts o.extract_dir w)
      ])
  loaded-Clean image full extra (err e) w = λ r. r
  loaded-Clean image full extra (ok modules) w =
      extracted-Clean o (run_module_env o image extra) full modules
        (m.extract_scripts o.extract_dir w)

  run_modules-Clean :
      (image : String) (full : Bool) (extra : List String) (w : World t m)
      → CleanEnd Q (run_modules_with_env t m o image full extra w)
  unfolding run_modules_with_env
  run_modules-Clean image full extra w = loaded-Clean image full extra m.manifest w

  check_version-Clean :
      (version : String) (p : World t m × String) → CleanEnd Q (check_version t m version p)
  check_version-Clean version (w, reported) =
      elim (Bool-cases (str_eq reported "" || str_eq reported (shorten_sha_version version))) [
        | inl e ↦ rw e tt
        | inr e ↦ rw e (λ r. r)
      ]

  check_ids-Clean :
      (version target : String) (p : World t m × String)
      → CleanEnd Q (check_ids t m version target p)
  check_ids-Clean version target (w, running) =
      let reported = reported_version t m recreate_verify_attempts w in
      if-Clean Q (not (str_eq target "" || str_eq running "") && not (str_eq target running))
        (w, err (not_recreated running target))
        (if str_eq version "" then (w, ok tt) else check_version t m version reported) (λ r. r)
        (if-Clean Q (str_eq version "") (w, ok tt) (check_version t m version reported) tt
          (check_version-Clean version reported))

  verify_recreated-Clean :
      (image version : String) (w : World t m) → CleanEnd Q (verify_recreated t m image version w)
  unfolding verify_recreated
  verify_recreated-Clean image version w =
      let target = image_id t m.runner image w in
      check_ids-Clean version target.1 (container_image_id t m.runner target.0)

  recreate-Clean :
      (q : Request) (steady image : String) (w : World t m)
      → CleanEnd Q (recreate t m o q steady image w)
  unfolding recreate remove_workspace_container
  recreate-Clean q steady image w =
      let env = append "AW_WORKSPACE_IMAGE=" image ∷ [] in
      let last = λ (x : Unit {0}). verify_recreated t m image (t.trim q.version) in
      resume-Clean Q (remove_container t m o w)
        (λ (x : Unit {0}). run_modules_with_env t m o steady false env >>= last)
        (remove_attempts-Clean remove_workspace_attempts _)
        (λ x w'.
          resume-Clean Q (run_modules_with_env t m o steady false env w') last
            (run_modules-Clean steady false env w')
            (λ y. verify_recreated-Clean image (t.trim q.version)))

  sync_and_recreate-Clean :
      (q : Request) (steady dir image staging : String) (w : World t m)
      → CleanEnd Q (sync_and_recreate t m o q steady dir image staging w)
  unfolding sync_and_recreate
  sync_and_recreate-Clean q steady dir image staging w =
      let copied = sync_workspace_source m.disk (m.staged staging w) staging dir w in
      resume-Clean Q (synced t m o copied)
        (λ (written : List String).
          settle t m o dir image q.snapshot_name written >> recreate t m o q steady image)
        (synced-Clean copied) (λ written w'. recreate-Clean q steady image _)

  must-Clean :
      (wrap : String → UpdateError) (args : List String) (w : World t m)
      → ((e : String) → IsRefusal (wrap e) → ⊥)
      → CleanEnd Q (must t m o wrap args w)
  must-Clean wrap args w c =
      let out = Runner.run m.runner "podman" args w in
      failing_with-Clean Q wrap (out.0, out.1.failure) c

  from_seed-Clean :
      (q : Request) (steady dir image staging : String) (w : World t m)
      → CleanEnd Q (from_seed t m o q steady dir image staging w)
  unfolding from_seed
  from_seed-Clean q steady dir image staging w =
      let copy = "cp" ∷ source_of t m o q ∷ staging ∷ [] in
      resume-Clean Q (must t m o source_not_copied copy w)
        (λ (x : Unit {0}). sync_and_recreate t m o q steady dir image staging)
        (must-Clean source_not_copied copy w (λ e r. r))
        (λ x. sync_and_recreate-Clean q steady dir image staging)

  deferred-Clean :
      (cleanup : World t m → World t m) (p : World t m × Result UpdateError (Unit {0}))
      → CleanEnd Q p
      → CleanEnd {W = World t m} Q (cleanup p.0, p.1)
  deferred-Clean cleanup (w, ok x) c = tt
  deferred-Clean cleanup (w, err e) c = c

  from_staging-Clean :
      (q : Request) (steady dir image staging : String) (w : World t m)
      → CleanEnd Q (from_staging t m o q steady dir image staging w)
  unfolding from_staging
  from_staging-Clean q steady dir image staging w =
      let create = "create" ∷ "--name" ∷ seed_name t m o q ∷ image ∷ [] in
      let seed = from_seed t m o q steady dir image staging in
      let swept = remove_stale_update_seeds t m w in
      resume-Clean Q (must t m o seed_not_created create swept)
        (λ (x : Unit {0}). deferred (remove_seed t m o q) seed)
        (must-Clean seed_not_created create swept (λ e r. r))
        (λ x w'.
          deferred-Clean (remove_seed t m o q) (seed w')
            (from_seed-Clean q steady dir image staging w'))

  pub install_image-Clean :
      (q : Request) (steady dir image : String) (w : World t m)
      → CleanEnd Q (install_image t m o q steady dir image w)
  unfolding install_image
  install_image-Clean q steady dir image w =
      let staging = m.disk.join dir (append ".aw-workspace-update-" q.staging_time) in
      let wipe = λ (v : World t m). failing_with stale_staging (m.disk.remove_all staging v) in
      let make = λ (v : World t m). failing_with staging_not_created (m.disk.mkdir_all staging v) in
      let rest = from_staging t m o q steady dir image staging in
      let cleanup = λ (v : World t m). (m.disk.remove_all staging v).0 in
      resume-Clean Q (wipe w) (λ (x : Unit {0}). make >> deferred cleanup rest)
        (failing_with-Clean Q stale_staging (m.disk.remove_all staging w) (λ e r. r))
        (λ x w1.
          resume-Clean Q (make w1) (λ (y : Unit {0}). deferred cleanup rest)
            (failing_with-Clean Q staging_not_created (m.disk.mkdir_all staging w1) (λ e r. r))
            (λ y w2.
              deferred-Clean cleanup (rest w2) (from_staging-Clean q steady dir image staging w2)))
