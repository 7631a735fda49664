-- ===== src/Workspace/Update/Refusal.antt =====
-- The errors of Update (internal/ops/ops.go) that are refusals, and runs that end in none or are
-- not changed by one.
use aw_remote_host.Common.{
  ok, err, String, Result, none, some, if◌then◌else◌, true, false, Option, Bool,
}
use aw_remote_host.Runner.{resume}
use aw_remote_host.Workspace.Podman.{
  UpdateError, served, pull_failed, stale_image, host_ahead, uncommitted,
}
use aw_remote_host.Workspace.Update.{failing_with, installed}

-- The errors by which Update says that it will not install.
abbrev pub IsRefusal : UpdateError → Type 0
IsRefusal (pull_failed image e out) = Unit
IsRefusal (stale_image image installed served) = Unit
IsRefusal (host_ahead host image) = Unit
IsRefusal (uncommitted dir n) = Unit
IsRefusal _ = ⊥

module _ {W : Type 0} (Q : W → Type 0) where
  -- A refusal leaves `Q`.
  abbrev pub SparedEnd {ℓ} : {A : Type ℓ} → W × Result UpdateError A → Type 0
  SparedEnd (w, ok a) = Unit
  SparedEnd (w, err e) = IsRefusal e → Q w

  -- No refusal.
  abbrev pub CleanEnd {ℓ} : {A : Type ℓ} → W × Result UpdateError A → Type 0
  CleanEnd (w, ok a) = Unit
  CleanEnd (w, err e) = IsRefusal e → ⊥

  pub resume-Spared {ℓ κ} :
      {A : Type ℓ} {B : Type κ} (p : W × Result UpdateError A)
      (f : A → W → W × Result UpdateError B)
      → Q p.0
      → ((a : A) (w : W) → Q w → SparedEnd (f a w))
      → SparedEnd (resume p f)
  resume-Spared (w, ok a) f q step = step a w q
  resume-Spared (w, err e) f q step = λ r. q

  pub resume-Clean {ℓ κ} :
      {A : Type ℓ} {B : Type κ} (p : W × Result UpdateError A)
      (f : A → W → W × Result UpdateError B)
      → CleanEnd p
      → ((a : A) (w : W) → CleanEnd (f a w))
      → CleanEnd (resume p f)
  resume-Clean (w, ok a) f c step = step a w
  resume-Clean (w, err e) f c step = c

  pub Clean-Spared {ℓ} : {A : Type ℓ} (p : W × Result UpdateError A) → CleanEnd p → SparedEnd p
  Clean-Spared (w, ok a) c = tt
  Clean-Spared (w, err e) c = λ r. absurd (c r)

  pub if-Clean {ℓ} :
      {A : Type ℓ} (b : Bool) (p p' : W × Result UpdateError A)
      → CleanEnd p
      → CleanEnd p'
      → CleanEnd (if b then p else p')
  if-Clean true p p' c c' = c
  if-Clean false p p' c c' = c'

  pub branch-Clean {ℓ} :
      {A : Type ℓ} (b : Bool) (p p' : W × Result UpdateError A)
      → CleanEnd p
      → CleanEnd p'
      → CleanEnd {A = A} (elim b [ true ↦ p | false ↦ p' ])
  branch-Clean true p p' c c' = c
  branch-Clean false p p' c c' = c'

  pub failing_with-Clean :
      (wrap : String → UpdateError) (p : W × Option String)
      → ((e : String) → IsRefusal (wrap e) → ⊥)
      → CleanEnd (failing_with wrap p)
  failing_with-Clean wrap (w, none) c = tt
  failing_with-Clean wrap (w, some e) c = c e

  pub failing_with-Q :
      (wrap : String → UpdateError) (p : W × Option String) → Q p.0 → Q (failing_with wrap p).0
  failing_with-Q wrap (w, none) q = q
  failing_with-Q wrap (w, some e) q = q
