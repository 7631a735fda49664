-- ===== src/Workspace/Update/Refused.antt =====
-- What Update (internal/ops/ops.go) has not touched when it refuses to install.
use aw_remote_host.Common.{ok, err, String, ◌≡◌, Result, subst, refl}
use aw_remote_host.Runner.{Runner, ◌>>=◌, ◌>>◌, resume}
use aw_remote_host.Workspace.{GoText, workspace_image_for_version}
use aw_remote_host.Workspace.Podman.{
  UpdateError, verify_image_digest, guard_host_not_ahead, guard_host_uncommitted,
  host_dir_not_created,
}
use aw_remote_host.Workspace.Update.{
  Request, failing_with, install_image, pinned, installed, install, guard_and_install,
  check_and_install, update_in, update, Installed,
}
use aw_remote_host.Workspace.Update.Steps.{
  Machine, Opts, World, pull_image, workspace_host_dir, prune_unused_images,
}
use aw_remote_host.Workspace.Update.Refusal.{
  SparedEnd, IsRefusal, resume-Spared, resume-Clean, Clean-Spared, failing_with-Q,
}
use aw_remote_host.Workspace.Update.Late.{install_image-Clean}
use aw_remote_host.Workspace.Update.Asked.{
  Unread, verify_image_digest-keeps, guard_host_not_ahead-keeps, guard_host_uncommitted-keeps,
  pull_image-keeps, pruning,
}

module _ (t : GoText) (m : Machine) (o : Opts) (Q : Runner.World m.runner → Type 0) where
  module _ {start : World t m} (keep : Unread t m o Q start) where
    install-spares :
        (q : Request) (steady dir image digest : String) (w : World t m)
        → SparedEnd Q (install t m o q steady dir image digest w)
    unfolding install
    install-spares q steady dir image digest w =
        let end : Unit {0} → World t m → World t m × Result UpdateError Installed =
          λ x v. (v, ok (installed t m o image digest)) in
        let run = install_image t m o q steady dir (pinned t m o image digest) w in
        Clean-Spared Q (resume run end) (
          resume-Clean Q run end
            (install_image-Clean t m o Q q steady dir (pinned t m o image digest) w) (λ x v. tt))

    guard_and_install-spares :
        (q : Request) (steady dir image digest : String) (w : World t m)
        → Q w
        → SparedEnd Q (guard_and_install t m o q steady dir image digest w)
    unfolding guard_and_install
    guard_and_install-spares q steady dir image digest w h =
        let ahead = guard_host_not_ahead t m.runner dir (pinned t m o image digest) q.force in
        let dirty = guard_host_uncommitted t m.runner dir q.force in
        let end = install t m o q steady dir image digest in
        resume-Spared Q (ahead w) (λ (x : Unit {0}). dirty >> end)
          (guard_host_not_ahead-keeps t m o Q keep dir (pinned t m o image digest) q.force w h)
          (λ x w' h'.
            resume-Spared Q (dirty w') (λ (y : Unit {0}). end)
              (guard_host_uncommitted-keeps t m o Q keep dir q.force w' h')
              (λ y w'' h''. install-spares q steady dir image digest w''))

    check_and_install-spares :
        (q : Request) (steady dir image : String) (w : World t m)
        → Q w
        → SparedEnd Q (check_and_install t m o q steady dir image w)
    unfolding check_and_install
    check_and_install-spares q steady dir image w h =
        resume-Spared Q (verify_image_digest t m.runner image w)
          (guard_and_install t m o q steady dir image)
          (verify_image_digest-keeps t m o Q keep image w h)
          (guard_and_install-spares q steady dir image)

    update_in-spares :
        (q : Request) (steady dir : String) (w : World t m)
        → workspace_host_dir t m start ≡ ok dir
        → Q w
        → SparedEnd Q (update_in t m o q steady dir w)
    unfolding update_in
    update_in-spares q steady dir w place h =
        let version = t.trim q.version in
        let target = workspace_image_for_version t steady version in
        let fetch = pull_image t m target version in
        let rest = fetch >>= check_and_install t m o q steady dir in
        let made = m.disk.mkdir_all dir w in
        resume-Spared Q (failing_with host_dir_not_created made)
          (λ (x : Unit {0}) v. rest (prune_unused_images t m v))
          (failing_with-Q Q host_dir_not_created made (keep.making dir w place h))
          (λ x v h'.
            let pruned = prune_unused_images t m v in
            resume-Spared Q (fetch pruned) (check_and_install t m o q steady dir)
              (pull_image-keeps t m o Q keep target version pruned
                (keep.asking "podman" _ v pruning h'))
              (check_and_install-spares q steady dir))

  placed-spares :
      (q : Request) (steady : String) (place : Result UpdateError String) (w : World t m)
      → Unread t m o Q w
      → workspace_host_dir t m w ≡ place
      → Q w
      → SparedEnd {W = World t m} Q {A = Installed}
          (elim place [ err e ↦ (w, err e) | ok dir ↦ update_in t m o q steady dir w ])
  placed-spares q steady (err e) w keep same h = λ r. h
  placed-spares q steady (ok dir) w keep same h = update_in-spares keep q steady dir w same h

  refusal-Q :
      (out : World t m × Result UpdateError Installed) (e : UpdateError)
      → SparedEnd Q out
      → out.1 ≡ err e
      → IsRefusal e
      → Q out.0
  refusal-Q (w, ok i) e spared h r = absurd (cc)
  refusal-Q (w, err e') e spared h r = let same : e ≡ e' = cc in spared (subst IsRefusal same r)

  -- When Update refuses, because the pull failed, the image is stale, the host's checkout is ahead
  -- of it or has uncommitted edits, it has made the host's directory and no other, and otherwise only
  -- run the commands of Question, which pull, prune unused images, log out of the registry or ask:
  -- what none of these spoils still holds.
  pub update-refused :
      (q : Request) (steady : String) (w : World t m) (e : UpdateError)
      → Unread t m o Q w
      → (update t m o q steady w).1 ≡ err e
      → IsRefusal e
      → Q w
      → Q (update t m o q steady w).0
  unfolding update
  update-refused q steady w e keep h r start =
      refusal-Q (update t m o q steady w) e
        (placed-spares q steady (workspace_host_dir t m w) w keep refl start) h r
