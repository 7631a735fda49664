-- ===== src/Workspace/Update/Running.antt =====
-- What verifyRecreatedWorkspace of internal/ops/ops.go has established if it gives no error.
use aw_remote_host.Common.{
  ◌≡◌, ok, String, ◌⊎◌, Bool-cases, err, inl, inr, str_eq, eq_iff, if◌then◌else◌, Result,
}
use aw_remote_host.Workspace.{GoText, shorten_sha_version}
use aw_remote_host.Workspace.Update.Steps.{Machine, World}
use aw_remote_host.Workspace.Update.Verify.{
  reported_version, recreate_verify_attempts, check_version, verify_recreated, check_ids,
}
use aw_remote_host.Workspace.Podman.{image_id, container_image_id, UpdateError}

-- Two ids that are not proven to differ.
abbrev pub NotProvenOther : String → String → Type 0
NotProvenOther target running = (target ≡ "") ⊎ ((running ≡ "") ⊎ (target ≡ running))

module _ (t : GoText) (m : Machine) where
  -- What is asked from `w` on: the image of the container is not proven to be another one, and
  -- neither is its version.
  pub record Runs (image version : String) (w : World t m) : Type 0 where
    pub same_image :
        NotProvenOther
          (image_id t m.runner image w).1
          (container_image_id t m.runner (image_id t m.runner image w).0).1
    pub same_version :
        (version ≡ "")
        ⊎ (((reported_version t m recreate_verify_attempts
                (container_image_id t m.runner (image_id t m.runner image w).0).0).1
              ≡ "")
            ⊎ ((reported_version t m recreate_verify_attempts
                  (container_image_id t m.runner (image_id t m.runner image w).0).0).1
                ≡ shorten_sha_version version))

  err_ne_ok : {e : UpdateError} → ◌≡◌ {A = Result UpdateError (Unit {0})} (err e) (ok tt) → ⊥
  err_ne_ok h = cc

  check_version-ok :
      (version : String) (o' : World t m × String)
      → (check_version t m version o').1 ≡ ok tt
      → (o'.1 ≡ "") ⊎ (o'.1 ≡ shorten_sha_version version)
  check_version-ok version (w, reported) h = elim (Bool-cases (str_eq reported "")) [
    | inl e ↦ inl ((eq_iff reported "").0 e)
    | inr e ↦ elim (Bool-cases (str_eq reported (shorten_sha_version version))) [
      | inl e' ↦ inr ((eq_iff reported (shorten_sha_version version)).0 e')
      | inr e' ↦ absurd (err_ne_ok (rw (e, e') at h))
    ]
  ]

  unversioned-ok :
      (version : String) (w : World t m)
      → (if str_eq version ""
          then (w, ok tt)
          else check_version t m version (reported_version t m recreate_verify_attempts w)).1
        ≡ ok tt
      → (version ≡ "")
        ⊎ ((check_version t m version (reported_version t m recreate_verify_attempts w)).1 ≡ ok tt)
  unversioned-ok version w h = elim (Bool-cases (str_eq version "")) [
    | inl e ↦ inl ((eq_iff version "").0 e)
    | inr e ↦ inr (rw e at h)
  ]

  -- The ids, behind the answer to the second question.
  check_ids-ok :
      (version target : String) (o' : World t m × String)
      → (check_ids t m version target o').1 ≡ ok tt
      → NotProvenOther target o'.1
        × ((version ≡ "")
            ⊎ ((check_version t m version (reported_version t m recreate_verify_attempts o'.0)).1
                ≡ ok tt))
  check_ids-ok version target (w, running) h = elim (Bool-cases (str_eq target "")) [
    | inl e ↦ (inl ((eq_iff target "").0 e), unversioned-ok version w (rw e at h))
    | inr e1 ↦ elim (Bool-cases (str_eq running "")) [
      | inl e ↦ (inr (inl ((eq_iff running "").0 e)), unversioned-ok version w (rw (e1, e) at h))
      | inr e2 ↦ elim (Bool-cases (str_eq target running)) [
        | inl e ↦ (
          inr (inr ((eq_iff target running).0 e)),
          unversioned-ok version w (rw (e1, e2, e) at h),
        )
        | inr e3 ↦ absurd (err_ne_ok (rw (e1, e2, e3) at h))
      ]
    ]
  ]

  pub verify_recreated-Runs :
      (image version : String) (w : World t m)
      → (verify_recreated t m image version w).1 ≡ ok tt
      → Runs image version w
  unfolding verify_recreated
  verify_recreated-Runs image version w h =
      let ids =
        check_ids-ok version (image_id t m.runner image w).1
          (container_image_id t m.runner (image_id t m.runner image w).0) h in
      record {
        same_image = ids.0;
        same_version = elim ids.1 [
          | inl e ↦ inl e
          | inr e ↦ inr (
              check_version-ok version
                (reported_version t m recreate_verify_attempts
                  (container_image_id t m.runner (image_id t m.runner image w).0).0)
                e)
        ];
      }
