-- ===== src/Workspace/Update/Recorded.antt =====
-- What is proven of an image before Update (internal/ops/ops.go) records it.
use aw_remote_host.Common.{
  ◌≡◌, refl, ok, String, ◌⊎◌, Bool-cases, err, inl, inr, str_eq, eq_iff, Result, false, List,
  Result-cases, ok_injective, subst, Option-cases, ◌≢◌, Bool, true, arith, none,
}
use aw_remote_host.Runner.{>>=-ok, ◌>>=◌, ◌>>◌}
use aw_remote_host.Workspace.{GoText, workspace_image_for_version, workspace_image}
use aw_remote_host.Workspace.Update.{
  Request, installed, Installed, failing_with, install_image, install, guard_and_install,
  check_and_install, pinned, update_in, update, loaded_image, recorded, update_recorded, StateFile,
  record_installed_image,
}
use aw_remote_host.Workspace.Update.Steps.{
  Machine, Opts, World, workspace_host_dir, pull_image, prune_unused_images, pull,
}
use aw_remote_host.Workspace.Podman.{
  verify_image_digest, UpdateError, guard_host_not_ahead, guard_host_uncommitted,
  host_dir_not_created,
}
use aw_remote_host.Workspace.Update.Pulled.{pull_image-Pulled}
use aw_remote_host.Workspace.Update.Replaced.{Recreated, before_removal, install_image-Recreated}

not_both : (b : Bool) → b ≡ false → b ≡ true → ⊥
not_both b p q = cc

pub record_installed_image-cases :
    (image : String) (f : StateFile)
    → (record_installed_image image f ≡ f)
      ⊎ (record_installed_image image f ≡ record f { image = image })
unfolding record_installed_image
record_installed_image-cases image f = elim (Option-cases f.load_error) [
  | inr (x, e) ↦ inl (ground arith)
  | inl e ↦ elim (Option-cases f.save_error) [
    | inr (x, e') ↦ inl (ground arith)
    | inl e' ↦ inr (ground arith)
  ]
]

module _ (t : GoText) (m : Machine) (o : Opts) where
  err_ne_installed :
      {e : UpdateError} {i : Installed} → ◌≡◌ {A = Result UpdateError Installed} (err e) (ok i) → ⊥
  err_ne_installed h = cc

  -- Both guards let the image pass.
  abbrev pub Passed : Request → String → String → World t m → Type 0
  Passed q dir image w =
      let ahead = guard_host_not_ahead t m.runner dir image q.force w in
      (ahead.1 ≡ ok tt) × ((guard_host_uncommitted t m.runner dir q.force ahead.0).1 ≡ ok tt)

  -- An image whose pull succeeded, whose digest was not proven stale right behind the pull, and, on
  -- from there, with which the old container was replaced.
  pub record Proven (q : Request) (steady : String) (start : World t m) (i : Installed)
      : Type 0 where
    pub dir : String
    pub place : workspace_host_dir t m start ≡ ok dir
    pub pulled : String
    pub moment : World t m
    pub fetched : (pull t m pulled moment).1.failure ≡ none
    pub verified :
        (verify_image_digest t m.runner pulled (pull t m pulled moment).0).1 ≡ ok i.digest
    pub named : i ≡ installed t m o pulled i.digest
    pub passed :
        Passed q dir i.image (verify_image_digest t m.runner pulled (pull t m pulled moment).0).0
    pub written : List String
    pub recreated : Recreated t m o q steady i.image (
        before_removal t m o q dir i.image written
          (verify_image_digest t m.runner pulled (pull t m pulled moment).0).0)

  -- Behind the pull: the digest, the guards, and the new container.
  check_and_install-Recreated :
      (q : Request) (steady dir pulled : String) (w : World t m) (i : Installed)
      → (check_and_install t m o q steady dir pulled w).1 ≡ ok i
      → (digest : String) × ((verify_image_digest t m.runner pulled w).1 ≡ ok digest)
        × (installed t m o pulled digest ≡ i)
        × Passed q dir (pinned t m o pulled digest) (verify_image_digest t m.runner pulled w).0
        × ((written : List String) × Recreated t m o q steady (pinned t m o pulled digest) (
              before_removal t m o q dir
                (pinned t m o pulled digest)
                written
                (verify_image_digest t m.runner pulled w).0))
  unfolding check_and_install guard_and_install install
  check_and_install-Recreated q steady dir pulled w i h =
      let a =
        >>=-ok (verify_image_digest t m.runner pulled) (guard_and_install t m o q steady dir pulled)
          w h in
      let image = pinned t m o pulled a.0 in
      let ahead = guard_host_not_ahead t m.runner dir image q.force in
      let dirty = guard_host_uncommitted t m.runner dir q.force in
      let end = install t m o q steady dir pulled a.0 in
      let b = >>=-ok ahead (λ (x : Unit {0}). dirty >> end) _ a.2 in
      let c = >>=-ok dirty (λ (x : Unit {0}). end) _ b.2 in
      let d =
        >>=-ok (install_image t m o q steady dir image)
          (λ (x : Unit {0}) v. (v, ok (installed t m o pulled a.0))) _ c.2 in
      (
        a.0,
        a.1,
        ok_injective _ _ d.2,
        (b.1, c.1),
        install_image-Recreated t m o q steady dir image _ d.1,
      )

  pulled-Proven :
      (q : Request) (steady dir pulled : String) (start moment w : World t m) (i : Installed)
      → workspace_host_dir t m start ≡ ok dir
      → (pull t m pulled moment).1.failure ≡ none
      → w ≡ (pull t m pulled moment).0
      → (check_and_install t m o q steady dir pulled w).1 ≡ ok i
      → Proven q steady start i
  pulled-Proven q steady dir pulled start moment w i place fetched behind h =
      let (digest, verified, named, passed, rest) =
        check_and_install-Recreated q steady dir pulled (pull t m pulled moment).0 i
          (subst (λ v. (check_and_install t m o q steady dir pulled v).1 ≡ ok i) behind h) in
      subst (Proven q steady start) named (record {
        dir = dir;
        place = place;
        pulled = pulled;
        moment = moment;
        fetched = fetched;
        verified = verified;
        named = refl;
        passed = passed;
        written = rest.0;
        recreated = rest.1;
      })

  update-Proven :
      (q : Request) (steady : String) (w : World t m) (i : Installed)
      → (update t m o q steady w).1 ≡ ok i
      → Proven q steady w i
  unfolding update update_in
  update-Proven q steady w i h = elim (Result-cases (workspace_host_dir t m w)) [
    | inr (x, e) ↦ absurd (err_ne_installed (rw (update, e) at h))
    | inl (dir, e) ↦
        let h' : (update_in t m o q steady dir w).1 ≡ ok i = rw (update, e) at h in
        let version = t.trim q.version in
        let target = workspace_image_for_version t steady version in
        let make = λ (v : World t m). failing_with host_dir_not_created (m.disk.mkdir_all dir v) in
        let fetch = pull_image t m target version in
        let a =
          >>=-ok make
            (λ (x : Unit {0}) v.
              (fetch >>= check_and_install t m o q steady dir) (prune_unused_images t m v))
            w h' in
        let b = >>=-ok fetch (check_and_install t m o q steady dir) _ a.2 in
        let (moment, fetched, behind) = pull_image-Pulled t m target version _ b.0 b.1 in
        pulled-Proven q steady dir b.0 w moment _ i e fetched behind b.2
  ]

  -- What an update left in the state file: what was there, or an image that was proven.
  abbrev pub Honest :
      Request
      → String
      → World t m
      → StateFile
      → (World t m × StateFile) × Result UpdateError Installed
      → Type 0
  Honest q steady start f out =
      (out.0.1 ≡ f)
      ⊎ ((i : Installed) × (out.1 ≡ ok i)
          × (out.0.1 ≡ record f { image = i.image })
          × (i.digest ≢ "")
          × Proven q steady start i)

  recorded-Honest :
      (q : Request) (steady : String) (start : World t m) (f : StateFile)
      (out : World t m × Result UpdateError Installed)
      → ((i : Installed) → out.1 ≡ ok i → Proven q steady start i)
      → Honest q steady start f (recorded t m o f out)
  recorded-Honest q steady start f (w, err e) proven = inl refl
  recorded-Honest q steady start f (w, ok i) proven = elim (Bool-cases (str_eq i.digest "")) [
    | inl e ↦ inl (rw e refl)
    | inr e ↦ elim (record_installed_image-cases i.image f) [
      | inl kept ↦ inl (rw e kept)
      | inr stored ↦ inr (
        i,
        refl,
        rw e stored,
        λ same. not_both (str_eq i.digest "") e ((eq_iff i.digest "").1 same),
        proven i refl,
      )
    ]
  ]

  -- Update changes the recorded image only to one that it returns with its digest, and only if the
  -- image was pulled without an error, right behind the pull its digest was not proven stale, from
  -- there both guards let it pass, behind them, the staging and the sync the old container was removed
  -- and the modules ran without an error, and behind them the container was not proven to run another
  -- image, nor to report another version than the one that was asked for.
  pub update_recorded-IsHonest :
      (q : Request) (env : String) (w : World t m) (f : StateFile)
      → Honest q (workspace_image t (loaded_image f) env) w f (update_recorded t m o q env w f)
  unfolding update_recorded
  update_recorded-IsHonest q env w f =
      let steady = workspace_image t (loaded_image f) env in
      recorded-Honest q steady w f (update t m o q steady w) (λ i e. update-Proven q steady w i e)
