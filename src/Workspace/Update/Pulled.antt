-- ===== src/Workspace/Update/Pulled.antt =====
-- What the pull of Update (internal/ops/ops.go) has done when it gives no error.
use aw_remote_host.Common.{
  ◌≡◌, ◌∙◌, refl, sym, ap, ok, err, String, Bool-cases, inl, inr, Result, none, some, Option,
  Option-cases, ok_injective, ◌&&◌, not, str_eq, subst,
}
use Prim.Native.String.{◌++◌ as append}
use aw_remote_host.Runner.{Reply}
use aw_remote_host.Workspace.{GoText, has_prefix, image_repository}
use aw_remote_host.Workspace.Podman.{UpdateError, pull_failed}
use aw_remote_host.Workspace.Update.Steps.{
  Machine, World, pull, fall_back_latest, retried, recovered, pull_image,
}

module _ (t : GoText) (m : Machine) where
  -- The last command was a pull of the image that is returned, and it succeeded.
  abbrev pub Pulled : World t m × Result UpdateError String → String → Type 0
  Pulled out image =
      (w : World t m) × ((pull t m image w).1.failure ≡ none) × (out.0 ≡ (pull t m image w).0)

  err_ne_ok :
      {e : UpdateError} {s : String} → ◌≡◌ {A = Result UpdateError String} (err e) (ok s) → ⊥
  err_ne_ok h = cc

  -- A run that returns its image behind a pull of it.
  abbrev IsPulled : World t m × Result UpdateError String → Type 0
  IsPulled out = (image : String) → out.1 ≡ ok image → Pulled out image

  latest-IsPulled :
      (latest : String) (w : World t m) (e : Option String)
      → (pull t m latest w).1.failure ≡ e
      → IsPulled (elim e [
        | none ↦ ((pull t m latest w).0, ok latest)
        | some x ↦ ((pull t m latest w).0, err (pull_failed latest x (pull t m latest w).1.output))
      ])
  latest-IsPulled latest w none f image h =
      subst (Pulled ((pull t m latest w).0, ok latest)) (ok_injective _ _ h) (w, f, refl)
  latest-IsPulled latest w (some x) f image h = absurd (err_ne_ok h)

  fall_back-IsPulled :
      (image version e : String) (r : Reply) (w : World t m)
      → IsPulled (fall_back_latest t m image version e r w)
  fall_back-IsPulled image version e r w =
      let latest = append (image_repository image) ":latest" in
      elim (Bool-cases (not (str_eq version "") && not (str_eq latest image))) [
        | inl b ↦ rw b (latest-IsPulled latest w (pull t m latest w).1.failure refl)
        | inr b ↦ rw b (λ i h. absurd (err_ne_ok h))
      ]

  first-IsPulled :
      (image : String) (w : World t m) (p : World t m × Reply)
      → pull t m image w ≡ p
      → p.1.failure ≡ none
      → IsPulled (p.0, ok image)
  first-IsPulled image w p same e i h =
      subst (Pulled (p.0, ok image)) (ok_injective _ _ h)
        (w, ap (λ x. x.1.failure) same ∙ e, ap (λ x. x.0) (sym same))

  retried-IsPulled :
      (image version : String) (w : World t m) (p : World t m × Reply)
      → pull t m image w ≡ p
      → IsPulled (retried t m image version p)
  retried-IsPulled image version w (w', r) same = elim (Option-cases r.failure) [
    | inl e ↦ rw e (first-IsPulled image w (w', r) same e)
    | inr (x, e) ↦ rw e (fall_back-IsPulled image version x r w')
  ]

  recovered-IsPulled :
      (image version : String) (w : World t m) (p : World t m × Reply)
      → pull t m image w ≡ p
      → IsPulled (recovered t m image version p)
  recovered-IsPulled image version w (w', r) same = elim (Option-cases r.failure) [
    | inl e ↦ rw e (first-IsPulled image w (w', r) same e)
    | inr (x, e) ↦ rw e (elim (Bool-cases (has_prefix image "ghcr.io/")) [
      | inl b ↦ rw b (retried-IsPulled image version _ _ refl)
      | inr b ↦ rw b (fall_back-IsPulled image version x r w')
    ])
  ]

  -- The pull of Update returns an image only right behind a pull of it that succeeded.
  pub pull_image-Pulled :
      (target version : String) (w : World t m) (image : String)
      → (pull_image t m target version w).1 ≡ ok image
      → Pulled (pull_image t m target version w) image
  unfolding pull_image
  pull_image-Pulled target version w image h = recovered-IsPulled target version w _ refl image h
