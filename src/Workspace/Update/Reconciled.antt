-- ===== src/Workspace/Update/Reconciled.antt =====
-- When reconcileRecordedImage (internal/ops/ops.go) changes the record.
use aw_remote_host.Common.{
  ◌≡◌, ◌≢◌, refl, ◌⊎◌, inl, inr, Bool-cases, str_eq, String, none, Option, some,
}
use aw_remote_host.Workspace.{GoText}
use aw_remote_host.Workspace.Checks.{ne_of}
use aw_remote_host.Workspace.Podman.{image_id, container_image_id, container_image_ref}
use aw_remote_host.Workspace.Update.{
  StateFile, reconcile_recorded_image, behind_ref, behind_recorded_id, behind_running, behind_load,
}
use aw_remote_host.Workspace.Update.Recorded.{record_installed_image-cases}
use aw_remote_host.Workspace.Update.Steps.{Machine, Opts, World}

module _ (t : GoText) (m : Machine) (o : Opts) where
  -- The recorded image is there under another id than the one that the container runs, and the
  -- container's own reference takes its place.
  pub record Corrected (f f' : StateFile) : Type 0 where
    pub asked : World t m
    pub known : (image_id t m.runner (t.trim f.image) asked).1 ≢ ""
    pub running : String
    pub runs : running ≢ ""
    pub other : (image_id t m.runner (t.trim f.image) asked).1 ≢ running
    pub moment : World t m
    pub found : (container_image_id t m.runner moment).1 ≡ running
    pub last : World t m
    pub replaced : f' ≡ record f { image = (container_image_ref t m.runner last).1 }

  behind_ref-cases :
      (f : StateFile) (p : World t m × String)
      → ((behind_ref t m o f p).1 ≡ f) ⊎ ((behind_ref t m o f p).1 ≡ record f { image = p.1 })
  behind_ref-cases f (w, ref) = elim (Bool-cases (str_eq ref "")) [
    | inl e ↦ inl (rw e refl)
    | inr e ↦ rw e (record_installed_image-cases ref f)
  ]

  behind_recorded_id-Corrected :
      (f : StateFile) (running : String) (asked moment : World t m)
      → running ≢ ""
      → (container_image_id t m.runner moment).1 ≡ running
      → let out = behind_recorded_id t m o f running (image_id t m.runner (t.trim f.image) asked) in
        (out.1 ≡ f) ⊎ Corrected f out.1
  behind_recorded_id-Corrected f running asked moment runs found =
      let id = image_id t m.runner (t.trim f.image) asked in
      elim (Bool-cases (str_eq id.1 "")) [
        | inl e ↦ inl (rw e refl)
        | inr e ↦ elim (Bool-cases (str_eq id.1 running)) [
          | inl e' ↦ inl (rw (e, e') refl)
          | inr e' ↦
              rw (e, e')
                (elim (behind_ref-cases f (container_image_ref t m.runner id.0)) [
                  | inl same ↦ inl same
                  | inr new ↦ inr (record {
                    asked = asked;
                    known = ne_of id.1 "" e;
                    running = running;
                    runs = runs;
                    other = ne_of id.1 running e';
                    moment = moment;
                    found = found;
                    last = id.0;
                    replaced = new;
                  })
                ])
        ]
      ]

  behind_running-Corrected :
      (f : StateFile) (moment : World t m)
      → let out = behind_running t m o f (t.trim f.image) (container_image_id t m.runner moment) in
        (out.1 ≡ f) ⊎ Corrected f out.1
  behind_running-Corrected f moment =
      let running = container_image_id t m.runner moment in
      elim (Bool-cases (str_eq running.1 "")) [
        | inl e ↦ inl (rw e refl)
        | inr e ↦
            rw e (
              behind_recorded_id-Corrected f running.1 running.0 moment (ne_of running.1 "" e) refl)
      ]

  behind_load-Corrected :
      (w : World t m) (f : StateFile) (error : Option String)
      → ((behind_load t m o w f error).1 ≡ f) ⊎ Corrected f (behind_load t m o w f error).1
  behind_load-Corrected w f (some e) = inl refl
  behind_load-Corrected w f none = elim (Bool-cases (str_eq (t.trim f.image) "")) [
    | inl e ↦ inl (rw e refl)
    | inr e ↦ rw e (behind_running-Corrected f w)
  ]

  -- reconcileRecordedImage leaves the state file as it is, or puts in place of the recorded image
  -- what the running container was created from; the latter only if both ids are known and differ.
  pub reconcile_recorded_image-Corrected :
      (w : World t m) (f : StateFile)
      → ((reconcile_recorded_image t m o w f).1 ≡ f)
        ⊎ Corrected f (reconcile_recorded_image t m o w f).1
  unfolding reconcile_recorded_image
  reconcile_recorded_image-Corrected w f = behind_load-Corrected w f f.load_error
