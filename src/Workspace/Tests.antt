-- ===== src/Workspace/Tests.antt =====
-- An update on a host that is no checkout, and one on a host whose checkout is ahead of the image.
use Prim.Native.String.{◌++◌ as append, len}
use text.Mathlib.TextPositions.{len-append}
use aw_remote_host.Common.{
  ◌≡◌, ◌≢◌, refl, String, Bool, true, false, none, some, List, [], ◌∷◌, str_eq, if◌then◌else◌, ok,
  err, ◌⊎◌, All, ◌≤◌, ap, arith,
}
use aw_remote_host.Runner.{Runner, Reply}
use aw_remote_host.Bootstrap.{named, default, only}
use aw_remote_host.Workspace.{
  GoText, workspace_image_for_version, cut_prefix, has_char, before_at, after_at, before_tag,
  image_repository, workspace_image, podman_pull_args, all_hex, size, is_long_hex_sha,
  shorten_sha_version,
}
use aw_remote_host.Workspace.Image.{workspace_image_for_version-retagged}
use aw_remote_host.Workspace.Sync.{
  Disk, sync_workspace_source, file, end, entry, copy_path, copy_entries, replace_entry, folder,
}
use aw_remote_host.Workspace.Sync.Untouched.{
  Under, sync_workspace_source-untouched, Spares, here, below,
}
use aw_remote_host.Workspace.Teardown.{
  Snapshots, step_end, remove_warm, remove_attempts, remove_workspace_container,
}
use aw_remote_host.Workspace.Podman.{
  verify_image_digest, guard_host_not_ahead, host_ahead, sha_digests, sha_manifests, is_among,
  in_common, dirty_lines, version_in, image_id, container_image_id, container_image_ref,
  image_workspace_version, local_image_digests, registry_image_digests, guard_host_uncommitted,
  realign_host_git_head,
}
use aw_remote_host.Workspace.Checks.{
  Served, verify_image_digest-Served, Ahead, guard_host_not_ahead-Ahead,
}
use aw_remote_host.Workspace.Update.{
  Request, StateFile, update, update_recorded, reconcile_recorded_image, record_installed_image,
  recreate, sync_and_recreate, from_seed, from_staging, install_image, install, guard_and_install,
  check_and_install, update_in,
}
use aw_remote_host.Workspace.Update.Steps.{
  Machine, Opts, run_module_env, workspace_host_dir, pull_image, remove_seeds,
  remove_stale_update_seeds, normalize_ownership, snapshot_workspace_log, run_selected,
  run_modules_with_env,
}
use aw_remote_host.Workspace.Update.Verify.{probe_health, reported_version, verify_recreated}
use aw_remote_host.Workspace.Update.Recorded.{Honest, update_recorded-IsHonest}
use aw_remote_host.Workspace.Update.Asked.{Unread}
use aw_remote_host.Workspace.Update.Refused.{update-refused}
use aw_remote_host.Workspace.Update.Reconciled.{Corrected, reconcile_recorded_image-Corrected}

abbrev words : GoText
words = record {
  trim = λ s. s;
  fields = λ s. s ∷ [];
  lines = λ s. s ∷ [];
  manifests = λ s. some (s ∷ []);
  version_field = λ s. some s;
}

abbrev said : String → Reply
said s = record { output = s; failure = none }

abbrev failed_reply : Reply
failed_reply = record { output = ""; failure = some "exit status 125" }

-- What podman says of images and of the container, by the format that is asked for.
abbrev by_format : String → Reply
by_format format =
    if str_eq format "{{.Id}}"
    then said "id1"
    else (if str_eq format "{{.Digest}}{{range .RepoDigests}} {{.}}{{end}}"
        then said "sha256:aa"
        else (if str_eq format "{{.Image}}"
            then said "id1"
            else (if str_eq format "{{.ImageName}}"
                then said "repo:v1"
                else said "AW_WORKSPACE_VERSION=v2")))

abbrev asked_podman : List String → Reply
asked_podman (a ∷ b ∷ c ∷ d ∷ format ∷ []) = by_format format
asked_podman (a ∷ b ∷ flag ∷ format ∷ []) = by_format format
asked_podman args = said "sha256:aa"

-- git, for a host whose commit is `abc` and that knows the image's version as `def`.
abbrev asked_git : List String → Reply
asked_git (a ∷ b ∷ c ∷ d ∷ verb ∷ name ∷ []) =
    if str_eq name "HEAD"
    then said "abc"
    else (if str_eq name "--porcelain" then said "" else said "def")
asked_git args = said ""

-- The world is what was wiped; no command wipes anything.
abbrev runner : Bool → Runner
runner checkout = record {
  World = List String;
  run = λ name args w. (
    w,
    (if str_eq name "git"
        then (if checkout then asked_git args else failed_reply)
        else (if str_eq name "curl" then said "v2" else asked_podman args)),
  );
}

abbrev disk : Disk (List String)
disk = record {
  join = λ dir name. append dir (append "/" name);
  remove_all = λ p w. (p ∷ w, none);
  mkdir_all = λ p w. (w, none);
  symlink = λ target p w. (w, none);
  copy_file = λ src p w. (w, none);
}

abbrev snapshots : Snapshots (List String)
snapshots = record {
  dir = err "no home";
  make_dir = λ p w. (w, none);
  write = λ p s w. (w, none);
  names = λ p w. [];
  remove = λ p name w. w;
}

abbrev machine : Bool → Machine
machine checkout = record {
  runner = runner checkout;
  run_bounded = λ args w. (w, record { reply = said ""; expired = false; cancelled = false });
  disk = disk;
  staged = λ p w. entry "src" file (entry "apps" file end);
  snapshots = snapshots;
  run_script = λ env path w. (w, said "healthy");
  extract_scripts = λ p w. (w, none);
  exists = λ p w. false;
  home = ok "/root";
  host_dir_env = "/srv/aw";
  is_root = true;
  places = record { dir = λ p. p; join = λ a b c. c };
  manifest = ok [];
}

abbrev opts : Opts
opts = record {
  extract_dir = "/tmp/bootstrap";
  passthrough = [];
  workspace_slug = "w";
  postgres_password = "p";
  control_plane = "c";
  host_credential = "h";
  host_power = "";
  workers = "5";
}

abbrev request : Request
request = record {
  version = "v2";
  force = false;
  staging_time = "1";
  seed_time = "2";
  snapshot_name = "workspace.log";
}

abbrev before_update : StateFile
before_update = record { image = "repo@sha256:00"; load_error = none; save_error = none }

-- The image is installed and recorded by its digest; the directory of the state is not wiped.
updated : (update_recorded words (machine false) opts request "" [] before_update).0 ≡ (
  "/srv/aw/.aw-workspace-update-1" ∷ "/srv/aw/src" ∷ "/srv/aw/.aw-workspace-update-1" ∷ [],
  record { image = "repo@sha256:aa"; load_error = none; save_error = none },
)
unfolding cut_prefix has_char before_at after_at before_tag image_repository workspace_image
    workspace_image_for_version podman_pull_args all_hex size is_long_hex_sha shorten_sha_version
    sha_digests sha_manifests is_among in_common dirty_lines version_in image_id container_image_id
    container_image_ref image_workspace_version local_image_digests registry_image_digests
    verify_image_digest guard_host_not_ahead guard_host_uncommitted realign_host_git_head copy_path
    copy_entries replace_entry sync_workspace_source step_end remove_warm remove_attempts
    remove_workspace_container run_module_env workspace_host_dir pull_image remove_seeds
    remove_stale_update_seeds normalize_ownership snapshot_workspace_log run_selected
    run_modules_with_env probe_health reported_version verify_recreated record_installed_image
    recreate sync_and_recreate from_seed from_staging install_image install guard_and_install
    check_and_install update_in update update_recorded default only named
updated = refl

-- The host's checkout is ahead.
is_ahead : (update words (machine true) opts request "repo:v1" []).1 ≡ err (host_ahead "abc" "def")
unfolding cut_prefix has_char before_at after_at before_tag image_repository workspace_image
    workspace_image_for_version podman_pull_args all_hex size is_long_hex_sha shorten_sha_version
    sha_digests sha_manifests is_among in_common dirty_lines version_in image_id container_image_id
    container_image_ref image_workspace_version local_image_digests registry_image_digests
    verify_image_digest guard_host_not_ahead guard_host_uncommitted realign_host_git_head copy_path
    copy_entries replace_entry sync_workspace_source step_end remove_warm remove_attempts
    remove_workspace_container run_module_env workspace_host_dir pull_image remove_seeds
    remove_stale_update_seeds normalize_ownership snapshot_workspace_log run_selected
    run_modules_with_env probe_health reported_version verify_recreated record_installed_image
    recreate sync_and_recreate from_seed from_staging install_image install guard_and_install
    check_and_install update_in update update_recorded default only named
is_ahead = refl

keeps : Unread words (machine true) opts (λ w. w ≡ []) []
keeps = record { making = λ p w place q. q; asking = λ name args w question q. q }

update-refused_example : (update words (machine true) opts request "repo:v1" []).0 ≡ []
update-refused_example =
    update-refused words (machine true) opts (λ w. w ≡ []) request "repo:v1" []
      (host_ahead "abc" "def") keeps is_ahead tt refl

update_recorded-IsHonest_example :
    Honest words
      (machine false)
      opts
      request
      (workspace_image words (some "repo@sha256:00") "")
      []
      before_update
      (update_recorded words (machine false) opts request "" [] before_update)
update_recorded-IsHonest_example =
    update_recorded-IsHonest words (machine false) opts request "" [] before_update

guard_refuses :
    (guard_host_not_ahead words (runner true) "/srv/aw" "repo:v2" false []).1
    ≡ err (host_ahead "abc" "def")
unfolding sha_digests sha_manifests is_among in_common dirty_lines version_in image_id
    container_image_id container_image_ref image_workspace_version local_image_digests
    registry_image_digests verify_image_digest guard_host_not_ahead guard_host_uncommitted
    realign_host_git_head cut_prefix has_char before_at after_at before_tag image_repository
    workspace_image workspace_image_for_version podman_pull_args all_hex size is_long_hex_sha
    shorten_sha_version
guard_refuses = refl

guard_host_not_ahead-Ahead_example :
    Ahead words (runner true) "/srv/aw" "repo:v2" false [] (host_ahead "abc" "def")
guard_host_not_ahead-Ahead_example =
    guard_host_not_ahead-Ahead words (runner true) "/srv/aw" "repo:v2" false []
      (host_ahead "abc" "def") guard_refuses

digest_served : (verify_image_digest words (runner false) "repo:v2" []).1 ≡ ok "sha256:aa"
unfolding sha_digests sha_manifests is_among in_common dirty_lines version_in image_id
    container_image_id container_image_ref image_workspace_version local_image_digests
    registry_image_digests verify_image_digest guard_host_not_ahead guard_host_uncommitted
    realign_host_git_head cut_prefix has_char before_at after_at before_tag image_repository
    workspace_image workspace_image_for_version podman_pull_args all_hex size is_long_hex_sha
    shorten_sha_version
digest_served = refl

verify_image_digest-Served_example : Served words (runner false) "repo:v2" "sha256:aa" []
verify_image_digest-Served_example =
    verify_image_digest-Served words (runner false) "repo:v2" "sha256:aa" [] digest_served

reconcile_recorded_image-Corrected_example :
    ((reconcile_recorded_image words (machine false) opts [] before_update).1 ≡ before_update)
    ⊎ Corrected words
        (machine false)
        opts
        before_update
        (reconcile_recorded_image words (machine false) opts [] before_update).1
reconcile_recorded_image-Corrected_example =
    reconcile_recorded_image-Corrected words (machine false) opts [] before_update

workspace_image_for_version-retagged_example :
    (workspace_image_for_version words "repo:v1" "v2" ≡ "repo:v2")
    × (workspace_image_for_version words "repo@sha256:00" "v2" ≡ "repo:v2")
    × (workspace_image_for_version words "repo:v1@sha256:00" "v2" ≡ "repo:v2")
    × (image_repository "repo:v2" ≡ "repo")
unfolding has_char image_repository before_at before_tag
workspace_image_for_version-retagged_example =
    workspace_image_for_version-retagged words "repo" "v1" "sha256:00" "v2" refl refl
      (refl, refl, refl) (refl, refl, refl) refl

-- A path below another is not shorter.
longer : (root p : String) → Under (Disk.join disk) root p → len root ≤ len p
longer root p here = omega arith
longer root p (below {p = q} name u) =
    omega (arith, longer root q u, len-append q (append "/" name))

spared_state : (p : String) → Under (Disk.join disk) "/d/sources" p → p ≢ "/d/.codex"
spared_state p u e =
    let n = longer "/d/sources" p u in let m : len p ≡ 9 = ap len e in absurd (omega arith)

not_false : ◌≡◌ {A = Bool} true false → ⊥
not_false e = cc

spares :
    (p : String)
    → Under (Disk.join disk) "/d/sources" p
    → Spares disk (All (λ x. x ≢ "/d/.codex")) p
spares p u = record {
  removing = λ w q. (spared_state p u, q);
  making = λ w q. q;
  linking = λ target w q. q;
  copying = λ src w q. q;
}

sync_workspace_source-untouched_example :
    All
      (λ x. x ≢ "/d/.codex")
      (sync_workspace_source disk
        (entry "sources" (folder (entry "main.py" file end)) (entry ".codex" file end))
        "/stage"
        "/d"
        []).0
sync_workspace_source-untouched_example =
    sync_workspace_source-untouched disk (All (λ x. x ≢ "/d/.codex"))
      (entry "sources" (folder (entry "main.py" file end)) (entry ".codex" file end)) "/stage" "/d"
      [] (λ e p u. spares p u, (λ e p u. absurd (not_false e), tt)) tt
