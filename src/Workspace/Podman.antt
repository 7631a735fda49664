-- ===== src/Workspace/Podman.antt =====
-- internal/ops/ops.go: what the update reads before it writes anything. The digests of an image,
-- its version, the ids of images, and the two guards of the host's checkout.
use Prim.Native.Char.{code}
use Prim.Native.String.{◌++◌ as append, len}
use aw_remote_host.Common.{
  [], ◌==◌, if◌then◌else◌, leb, Result, ok, err, ℕ, String, Bool, false, not, ◌&&◌, ◌||◌, Option,
  none, some, List, ◌∷◌, str_eq, length,
}
use aw_remote_host.Runner.{Reply, Runner, Step}
use aw_remote_host.Workspace.{
  GoText, cut_prefix, has_prefix, has_char, after_at, workspace_container,
}

pub data UpdateError : Type 0 where
  no_host_dir : String → UpdateError
  host_dir_not_created : String → UpdateError
  pull_failed : String → String → String → UpdateError
  stale_image : String → String → List String → UpdateError
  host_ahead : String → String → UpdateError
  uncommitted : String → ℕ → UpdateError
  stale_staging : String → UpdateError
  staging_not_created : String → UpdateError
  seed_not_created : String → UpdateError
  source_not_copied : String → UpdateError
  not_synced : String → UpdateError
  container_not_removed : String → String → UpdateError
  manifest_not_loaded : String → UpdateError
  scripts_not_extracted : String → UpdateError
  module_failed : String → UpdateError
  not_recreated : String → String → UpdateError
  wrong_version : String → String → UpdateError

-- The output of a command, if it succeeded.
abbrev pub answered {ℓ} : {W : Type ℓ} → W × Reply → W × Option String
answered (w, r) = (w, elim r.failure [ none ↦ some r.output | some e ↦ none ])

abbrev pub or_empty : Option String → String
or_empty none = ""
or_empty (some s) = s

-- The loop of localImageDigests.
unfoldable pub sha_digests : List String → List String
sha_digests [] = []
sha_digests (field ∷ rest) =
    let more = sha_digests rest in
    let digest = after_at field in if has_prefix digest "sha256:" then digest ∷ more else more

-- The loop of registryImageDigests.
unfoldable pub sha_manifests : List String → List String
sha_manifests [] = []
sha_manifests (digest ∷ rest) =
    let more = sha_manifests rest in if has_prefix digest "sha256:" then digest ∷ more else more

unfoldable pub is_among : String → List String → Bool
is_among x [] = false
is_among x (y ∷ ys) = str_eq x y || is_among x ys

-- The two loops of verifyImageDigest.
unfoldable pub in_common : List String → List String → Bool
unfolding is_among
in_common [] remote = false
in_common (l ∷ ls) remote = is_among l remote || in_common ls remote

-- The text from the first `{` on; all of it if there is none.
abbrev pub from_brace_of : String → String → String
from_brace_of whole String.[] = whole
from_brace_of whole (String.◌∷◌ c s) =
    if code c == b'{' then String.◌∷◌ c s else from_brace_of whole s

-- gitIn.
abbrev pub git_in : String → List String → List String
git_in dir args = "-c" ∷ append "safe.directory=" dir ∷ "-C" ∷ dir ∷ args

-- A line of `git status` that counts.
abbrev pub is_dirty : String → Bool
is_dirty line = leb 3 (len line) && (not (has_prefix line "??") && not (has_prefix line "!!"))

unfoldable pub dirty_lines : List String → List String
dirty_lines [] = []
dirty_lines (line ∷ rest) =
    let more = dirty_lines rest in if is_dirty line then line ∷ more else more

module _ (t : GoText) where
  abbrev pub version_line : String → String → String
  version_line line found = elim (cut_prefix (t.trim line) "AW_WORKSPACE_VERSION=") [
    | none ↦ found
    | some v ↦ if not (str_eq v "") && not (str_eq v "dev") then v else found
  ]

  -- The loop of imageWorkspaceVersion: the last line that says it.
  unfoldable pub version_in : String → List String → String
  version_in found [] = found
  version_in found (line ∷ rest) = version_in (version_line line found) rest

  module _ (r : Runner) where
    open r use {World, run}

    abbrev pub podman : List String → World → World × Option String
    podman args w = answered (run "podman" args w)

    abbrev pub git : String → List String → World → World × Option String
    git dir args w = answered (run "git" (git_in dir args) w)

    abbrev pub trimmed : World × Option String → World × String
    trimmed (w, out) = (w, elim out [ none ↦ "" | some s ↦ t.trim s ])

    -- imageID, containerImageID and containerImageRef.
    unfoldable pub image_id : String → World → World × String
    image_id image w =
        trimmed (podman ("image" ∷ "inspect" ∷ image ∷ "--format" ∷ "{{.Id}}" ∷ []) w)

    unfoldable pub container_image_id : World → World × String
    container_image_id w =
        trimmed (podman ("inspect" ∷ workspace_container ∷ "--format" ∷ "{{.Image}}" ∷ []) w)

    unfoldable pub container_image_ref : World → World × String
    container_image_ref w =
        trimmed (podman ("inspect" ∷ workspace_container ∷ "--format" ∷ "{{.ImageName}}" ∷ []) w)

    -- imageWorkspaceVersion.
    unfoldable pub image_workspace_version : String → World → World × String
    image_workspace_version image w =
        let (w', out) =
          podman
            ("image" ∷ "inspect" ∷ image ∷ "--format" ∷ "{{range .Config.Env}}{{println .}}{{end}}"
              ∷ [])
            w in
        (w', elim out [ none ↦ "" | some s ↦ version_in "" (t.lines s) ])

    -- localImageDigests.
    unfoldable pub local_image_digests : String → World → World × List String
    local_image_digests image w =
        let (w', out) =
          podman
            ("image" ∷ "inspect" ∷ image ∷ "--format"
              ∷ "{{.Digest}}{{range .RepoDigests}} {{.}}{{end}}" ∷ [])
            w in
        (w', elim out [ none ↦ [] | some s ↦ sha_digests (t.fields s) ])

    abbrev pub served : Option (List String) → List String
    served none = []
    served (some digests) = sha_manifests digests

    -- registryImageDigests.
    unfoldable pub registry_image_digests : String → World → World × List String
    registry_image_digests image w =
        let (w', out) = podman ("manifest" ∷ "inspect" ∷ image ∷ []) w in
        (w', elim out [ none ↦ [] | some s ↦ served (t.manifests (from_brace_of s s)) ])

    -- The end of verifyImageDigest, behind the answer of the registry.
    abbrev pub against_registry :
        String → String → List String → World × List String → World × Result UpdateError String
    against_registry image installed local (w, []) = (w, ok installed)
    against_registry image installed local (w, d ∷ ds) = (
      w,
      (if in_common local (d ∷ ds)
          then ok installed
          else err (stale_image image installed (d ∷ ds))),
    )

    abbrev pub against_local : String → World × List String → World × Result UpdateError String
    against_local image (w, []) = (w, ok "")
    against_local image (w, installed ∷ more) =
        if has_char b'@' image
        then (w, ok installed)
        else against_registry image installed (installed ∷ more) (registry_image_digests image w)

    -- verifyImageDigest. No digest is the empty text.
    unfoldable pub verify_image_digest : String → Step World UpdateError String
    verify_image_digest image w = against_local image (local_image_digests image w)

    -- The commit that the image's version names, or that version as it stands.
    abbrev pub or_resolved : String → Option String → String
    or_resolved version none = version
    or_resolved version (some s) = if str_eq (t.trim s) "" then version else t.trim s

    -- The end of guardHostNotAheadOfImage: is the image's commit an ancestor of the host's?
    abbrev pub unless_ancestor :
        Bool → String → String → World × Option String → World × Result UpdateError (Unit {0})
    unless_ancestor force host image (w, none) = (w, ok tt)
    unless_ancestor force host image (w, some s) =
        (w, (if force then ok tt else err (host_ahead host image)))

    abbrev pub compare_heads : String → Bool → String → String → Step World UpdateError (Unit {0})
    compare_heads dir force host image w =
        if str_eq image host
        then (w, ok tt)
        else unless_ancestor force host image
            (git dir ("merge-base" ∷ "--is-ancestor" ∷ image ∷ host ∷ []) w)

    abbrev pub behind_version :
        String → Bool → String → World × String → World × Result UpdateError (Unit {0})
    behind_version dir force host (w, version) =
        if str_eq version ""
        then (w, ok tt)
        else (let (w', out) = git dir ("rev-parse" ∷ append version "^{commit}" ∷ []) w in
            compare_heads dir force host (or_resolved version out) w')

    abbrev pub behind_head :
        String → String → Bool → World × String → World × Result UpdateError (Unit {0})
    behind_head dir image force (w, host) =
        if str_eq host ""
        then (w, ok tt)
        else behind_version dir force host (image_workspace_version image w)

    -- guardHostNotAheadOfImage.
    unfoldable pub guard_host_not_ahead : String → String → Bool → Step World UpdateError (Unit {0})
    guard_host_not_ahead dir image force w =
        behind_head dir image force (trimmed (git dir ("rev-parse" ∷ "HEAD" ∷ []) w))

    abbrev pub unless_dirty : String → Bool → List String → Result UpdateError (Unit {0})
    unless_dirty dir force [] = ok tt
    unless_dirty dir force (line ∷ more) =
        if force then ok tt else err (uncommitted dir (length (line ∷ more)))

    -- guardHostUncommittedEdits.
    unfoldable pub guard_host_uncommitted : String → Bool → Step World UpdateError (Unit {0})
    guard_host_uncommitted dir force w =
        let (w', out) = git dir ("status" ∷ "--porcelain" ∷ []) w in
        (w', elim out [ none ↦ ok tt | some s ↦ unless_dirty dir force (dirty_lines (t.lines s)) ])

    -- realignHostGitHead.
    unfoldable pub realign_host_git_head : String → String → World → World
    realign_host_git_head dir version w =
        if str_eq (t.trim version) "" || str_eq (t.trim version) "dev"
        then w
        else (let (w1, checkout) = git dir ("rev-parse" ∷ "--git-dir" ∷ []) w in
            elim checkout [
              | none ↦ w1
              | some _ ↦
                  let (w2, commit) =
                    trimmed (git dir ("rev-parse" ∷ append (t.trim version) "^{commit}" ∷ []) w1) in
                  if str_eq commit ""
                  then w2
                  else (git dir ("reset" ∷ "--mixed" ∷ commit ∷ []) w2).0
            ])
