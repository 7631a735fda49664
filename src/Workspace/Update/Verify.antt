-- ===== src/Workspace/Update/Verify.antt =====
-- verifyRecreatedWorkspace of internal/ops/ops.go: the image of the new container and the version
-- that it reports. time.Sleep is left out.
use aw_remote_host.Common.{
  Result, ok, err, ℕ, zero, suc, String, not, ◌&&◌, ◌||◌, Option, none, some, [], ◌∷◌, str_eq,
  if◌then◌else◌,
}
use aw_remote_host.Runner.{Runner, Step}
use aw_remote_host.Workspace.{GoText, shorten_sha_version}
use aw_remote_host.Workspace.Podman.{
  UpdateError, answered, or_empty, image_id, container_image_id, not_recreated, wrong_version,
}
use aw_remote_host.Workspace.Update.Steps.{Machine, World}

abbrev pub recreate_verify_attempts : ℕ
recreate_verify_attempts = 10

module _ (t : GoText) (m : Machine) where
  -- probeHealth: nothing, or the version, which may be empty.
  unfoldable pub probe_health : World t m → World t m × Option String
  probe_health w =
      let (w', out) = answered (
        Runner.run m.runner "curl"
          ("-fsS" ∷ "--max-time" ∷ "5" ∷ "http://127.0.0.1:9030/api/health" ∷ []) w) in
      (
        w',
        elim out [
          | none ↦ none
          | some s ↦ some (shorten_sha_version (or_empty (t.version_field s)))
        ],
      )

  -- The loop of verifyRecreatedWorkspace.
  unfoldable pub reported_version : ℕ → World t m → World t m × String
  reported_version zero w = (w, "")
  reported_version (suc n) w =
      let (w', health) = probe_health w in
      elim health [ none ↦ reported_version n w' | some v ↦ (w', v) ]

  abbrev pub check_version : String → World t m × String → World t m × Result UpdateError (Unit {0})
  check_version version (w, reported) = (
    w,
    (if str_eq reported "" || str_eq reported (shorten_sha_version version)
        then ok tt
        else err (wrong_version reported (shorten_sha_version version))),
  )

  abbrev pub check_ids :
      String → String → World t m × String → World t m × Result UpdateError (Unit {0})
  check_ids version target (w, running) =
      if not (str_eq target "" || str_eq running "") && not (str_eq target running)
      then (w, err (not_recreated running target))
      else (if str_eq version ""
          then (w, ok tt)
          else check_version version (reported_version recreate_verify_attempts w))

  abbrev pub behind_target : String → World t m × String → World t m × Result UpdateError (Unit {0})
  behind_target version (w, target) = check_ids version target (container_image_id t m.runner w)

  -- verifyRecreatedWorkspace.
  unfoldable pub verify_recreated : String → String → Step (World t m) UpdateError (Unit {0})
  verify_recreated image version w = behind_target version (image_id t m.runner image w)
