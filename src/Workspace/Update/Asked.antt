-- ===== src/Workspace/Update/Asked.antt =====
-- The commands of Update (internal/ops/ops.go) before its guards have passed, and what they keep.
use Prim.Native.String.{◌++◌ as append}
use aw_remote_host.Common.{
  String, List, [], ◌∷◌, Option, Bool-cases, Option-cases, inl, inr, Bool, none, some, str_eq, not,
  ◌&&◌, ok, ◌≡◌,
}
use aw_remote_host.Runner.{Runner, Reply}
use aw_remote_host.Workspace.{GoText, has_char, podman_pull_args, has_prefix, image_repository}
use aw_remote_host.Workspace.Podman.{
  git_in, image_workspace_version, local_image_digests, registry_image_digests, against_registry,
  against_local, verify_image_digest, unless_ancestor, compare_heads, behind_version, behind_head,
  guard_host_not_ahead, guard_host_uncommitted,
}
use aw_remote_host.Workspace.Update.Steps.{
  Machine, Opts, World, pull, fall_back_latest, retried, recovered, pull_image, workspace_host_dir,
}

-- The commands that Update runs before its guards have passed: it pulls, logs out of a registry that
-- refuses, prunes unused images, and otherwise only asks.
pub data Question : String → List String → Type 0 where
  pulling : (image : String) → Question "podman" (podman_pull_args image)
  logging_out : Question "podman" ("logout" ∷ "ghcr.io" ∷ [])
  pruning : Question "podman" ("image" ∷ "prune" ∷ "-a" ∷ "-f" ∷ [])
  inspecting :
      (image format : String)
      → Question "podman" ("image" ∷ "inspect" ∷ image ∷ "--format" ∷ format ∷ [])
  comparing : (image : String) → Question "podman" ("manifest" ∷ "inspect" ∷ image ∷ [])
  resolving : (dir name : String) → Question "git" (git_in dir ("rev-parse" ∷ name ∷ []))
  ordering :
      (dir image host : String)
      → Question "git" (git_in dir ("merge-base" ∷ "--is-ancestor" ∷ image ∷ host ∷ []))
  listing : (dir : String) → Question "git" (git_in dir ("status" ∷ "--porcelain" ∷ []))

module _ (t : GoText) (m : Machine) (o : Opts) (Q : Runner.World m.runner → Type 0) where
  -- `Q` is kept by making the host's directory, as it is at the start, and by each question.
  pub record Unread (start : World t m) : Type 0 where
    pub making :
        (dir : String) (w : World t m)
        → workspace_host_dir t m start ≡ ok dir
        → Q w
        → Q (m.disk.mkdir_all dir w).0
    pub asking :
        (name : String) (args : List String) (w : World t m)
        → Question name args
        → Q w
        → Q (Runner.run m.runner name args w).0

  module _ {start : World t m} (keep : Unread start) where
    image_workspace_version-keeps :
        (image : String) (w : World t m) → Q w → Q (image_workspace_version t m.runner image w).0
    unfolding image_workspace_version
    image_workspace_version-keeps image w q =
        keep.asking "podman" _ w (inspecting image "{{range .Config.Env}}{{println .}}{{end}}") q

    local_image_digests-keeps :
        (image : String) (w : World t m) → Q w → Q (local_image_digests t m.runner image w).0
    unfolding local_image_digests
    local_image_digests-keeps image w q =
        keep.asking "podman" _ w (inspecting image "{{.Digest}}{{range .RepoDigests}} {{.}}{{end}}")
          q

    registry_image_digests-keeps :
        (image : String) (w : World t m) → Q w → Q (registry_image_digests t m.runner image w).0
    unfolding registry_image_digests
    registry_image_digests-keeps image w q = keep.asking "podman" _ w (comparing image) q

    against_registry-Q :
        (image first : String) (local : List String) (p : World t m × List String)
        → Q p.0
        → Q (against_registry t m.runner image first local p).0
    against_registry-Q image first local (w, []) q = q
    against_registry-Q image first local (w, d ∷ ds) q = q

    against_local-Q :
        (image : String) (p : World t m × List String)
        → Q p.0
        → Q (against_local t m.runner image p).0
    against_local-Q image (w, []) q = q
    against_local-Q image (w, d ∷ ds) q = elim (Bool-cases (has_char b'@' image)) [
      | inl e ↦ rw e q
      | inr e ↦ rw e (
          against_registry-Q image d (d ∷ ds) (registry_image_digests t m.runner image w)
            (registry_image_digests-keeps image w q))
    ]

    pub verify_image_digest-keeps :
        (image : String) (w : World t m) → Q w → Q (verify_image_digest t m.runner image w).0
    unfolding verify_image_digest
    verify_image_digest-keeps image w q =
        against_local-Q image (local_image_digests t m.runner image w)
          (local_image_digests-keeps image w q)

    unless_ancestor-Q :
        (force : Bool) (host image : String) (p : World t m × Option String)
        → Q p.0
        → Q (unless_ancestor t m.runner force host image p).0
    unless_ancestor-Q force host image (w, none) q = q
    unless_ancestor-Q force host image (w, some s) q = q

    compare_heads-keeps :
        (dir : String) (force : Bool) (host image : String) (w : World t m)
        → Q w
        → Q (compare_heads t m.runner dir force host image w).0
    compare_heads-keeps dir force host image w q = elim (Bool-cases (str_eq image host)) [
      | inl e ↦ rw e q
      | inr e ↦
          rw e (
            unless_ancestor-Q force host image _
              (keep.asking "git" _ w (ordering dir image host) q))
    ]

    behind_version-Q :
        (dir : String) (force : Bool) (host : String) (p : World t m × String)
        → Q p.0
        → Q (behind_version t m.runner dir force host p).0
    behind_version-Q dir force host (w, version) q = elim (Bool-cases (str_eq version "")) [
      | inl e ↦ rw e q
      | inr e ↦ rw e (
          compare_heads-keeps dir force host _ _
            (keep.asking "git" _ w (resolving dir (append version "^{commit}")) q))
    ]

    behind_head-Q :
        (dir image : String) (force : Bool) (p : World t m × String)
        → Q p.0
        → Q (behind_head t m.runner dir image force p).0
    behind_head-Q dir image force (w, host) q = elim (Bool-cases (str_eq host "")) [
      | inl e ↦ rw e q
      | inr e ↦ rw e (
          behind_version-Q dir force host (image_workspace_version t m.runner image w)
            (image_workspace_version-keeps image w q))
    ]

    pub guard_host_not_ahead-keeps :
        (dir image : String) (force : Bool) (w : World t m)
        → Q w
        → Q (guard_host_not_ahead t m.runner dir image force w).0
    unfolding guard_host_not_ahead
    guard_host_not_ahead-keeps dir image force w q =
        behind_head-Q dir image force _ (keep.asking "git" _ w (resolving dir "HEAD") q)

    pub guard_host_uncommitted-keeps :
        (dir : String) (force : Bool) (w : World t m)
        → Q w
        → Q (guard_host_uncommitted t m.runner dir force w).0
    unfolding guard_host_uncommitted
    guard_host_uncommitted-keeps dir force w q = keep.asking "git" _ w (listing dir) q

    pull-keeps : (image : String) (w : World t m) → Q w → Q (pull t m image w).0
    pull-keeps image w q = keep.asking "podman" _ w (pulling image) q

    fall_back_latest-keeps :
        (image version e : String) (r : Reply) (w : World t m)
        → Q w
        → Q (fall_back_latest t m image version e r w).0
    fall_back_latest-keeps image version e r w q =
        let latest = append (image_repository image) ":latest" in
        elim (Bool-cases (not (str_eq version "") && not (str_eq latest image))) [
          | inl b ↦ rw b (elim (Option-cases (pull t m latest w).1.failure) [
            | inl h ↦ rw h (pull-keeps latest w q)
            | inr (x, h) ↦ rw h (pull-keeps latest w q)
          ])
          | inr b ↦ rw b q
        ]

    retried-Q :
        (image version : String) (p : World t m × Reply) → Q p.0 → Q (retried t m image version p).0
    retried-Q image version (w, r) q = elim (Option-cases r.failure) [
      | inl e ↦ rw e q
      | inr (x, e) ↦ rw e (fall_back_latest-keeps image version x r w q)
    ]

    recovered-Q :
        (image version : String) (p : World t m × Reply)
        → Q p.0
        → Q (recovered t m image version p).0
    recovered-Q image version (w, r) q = elim (Option-cases r.failure) [
      | inl h ↦ rw h q
      | inr (e, h) ↦ rw h (elim (Bool-cases (has_prefix image "ghcr.io/")) [
        | inl b ↦
            let out = Runner.run m.runner "podman" ("logout" ∷ "ghcr.io" ∷ []) w in
            rw b (
              retried-Q image version (pull t m image out.0)
                (pull-keeps image out.0 (keep.asking "podman" _ w logging_out q)))
        | inr b ↦ rw b (fall_back_latest-keeps image version e r w q)
      ])
    ]

    pub pull_image-keeps :
        (image version : String) (w : World t m) → Q w → Q (pull_image t m image version w).0
    unfolding pull_image
    pull_image-keeps image version w q =
        recovered-Q image version (pull t m image w) (pull-keeps image w q)
