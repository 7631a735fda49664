-- ===== src/Workspace/Checks.antt =====
-- What the checks of an update (internal/ops/ops.go) mean: the digest, and the two guards of the
-- host's checkout.
use aw_remote_host.Common.{
  ◌≡◌, ◌≢◌, refl, ◌⊎◌, inl, inr, Bool-cases, str_eq, eq_iff, String, true, false, Bool, none, ok,
  err, List, [], ◌∷◌, Result, Option, some, ok_injective, sym, ap, ◌||◌,
}
use aw_remote_host.Runner.{Runner}
use aw_remote_host.Workspace.{GoText, has_char}
use Prim.Native.String.{◌++◌ as append}
use aw_remote_host.Workspace.Podman.{
  UpdateError, verify_image_digest, in_common, local_image_digests, registry_image_digests,
  against_registry, against_local, git, trimmed, image_workspace_version, unless_ancestor,
  compare_heads, behind_version, behind_head, guard_host_not_ahead, host_ahead, or_resolved,
  is_among,
}

err_ne_ok {ℓ} :
    {A : Type ℓ} {e : UpdateError} {a : A} → ◌≡◌ {A = Result UpdateError A} (err e) (ok a) → ⊥
err_ne_ok h = cc

ok_ne_err {ℓ} :
    {A : Type ℓ} {e : UpdateError} {a : A} → ◌≡◌ {A = Result UpdateError A} (ok a) (err e) → ⊥
ok_ne_err h = cc

pub ne_of : (s t : String) → str_eq s t ≡ false → s ≢ t
ne_of s t h e = let e' = (eq_iff s t).1 e in cc

abbrev pub Among : String → List String → Type 0
Among x [] = ⊥
Among x (y ∷ ys) = (x ≡ y) ⊎ Among x ys

-- The two have a digest in common.
abbrev pub HasCommon : List String → List String → Type 0
HasCommon xs ys = (d : String) × Among d xs × Among d ys

or_elim : (a b : Bool) → (a || b) ≡ true → (a ≡ true) ⊎ (b ≡ true)
or_elim true b h = inl refl
or_elim false b h = inr h

is_among-Among : (x : String) (ys : List String) → is_among x ys ≡ true → Among x ys
unfolding is_among
is_among-Among x [] h = absurd (cc)
is_among-Among x (y ∷ ys) h = elim (or_elim (str_eq x y) (is_among x ys) h) [
  | inl e ↦ inl ((eq_iff x y).0 e)
  | inr e ↦ inr (is_among-Among x ys e)
]

in_common-HasCommon : (xs ys : List String) → in_common xs ys ≡ true → HasCommon xs ys
unfolding in_common
in_common-HasCommon [] ys h = absurd (cc)
in_common-HasCommon (x ∷ xs) ys h = elim (or_elim (is_among x ys) (in_common xs ys) h) [
  | inl e ↦ (x, inl refl, is_among-Among x ys e)
  | inr e ↦ let (d, here, there) = in_common-HasCommon xs ys e in (d, inr here, there)
]

module _ (t : GoText) (r : Runner) where
  open r use {World, run}

  -- What it means to accept `digest` for this image: nothing is known of the image here, and there
  -- is no digest; or `digest` is the first of its digests here, and the image is named by its
  -- digest, nothing is known of it at the registry, or the registry serves one of those that it has
  -- here.
  pub record Served (image digest : String) (w : World) : Type 0 where
    pub verdict :
        (((local_image_digests t r image w).1 ≡ []) × (digest ≡ ""))
        ⊎ ((more : List String) × ((local_image_digests t r image w).1 ≡ digest ∷ more)
            × ((has_char b'@' image ≡ true)
                ⊎ (((registry_image_digests t r image (local_image_digests t r image w).0).1 ≡ [])
                    ⊎ HasCommon
                        (local_image_digests t r image w).1
                        (registry_image_digests t r image (local_image_digests t r image w).0).1)))

  against_registry-ok :
      (image first : String) (local : List String) (p : World × List String) {d : String}
      → (against_registry t r image first local p).1 ≡ ok d
      → (first ≡ d) × ((p.1 ≡ []) ⊎ HasCommon local p.1)
  against_registry-ok image first local (w, []) h = (ok_injective _ _ h, inl refl)
  against_registry-ok image first local (w, x ∷ xs) h =
      elim (Bool-cases (in_common local (x ∷ xs))) [
        | inl e ↦ (ok_injective _ _ (rw e at h), inr (in_common-HasCommon local (x ∷ xs) e))
        | inr e ↦ absurd (err_ne_ok (rw e at h))
      ]

  against_local-ok :
      (image : String) (p : World × List String) {d : String}
      → (against_local t r image p).1 ≡ ok d
      → ((p.1 ≡ []) × (d ≡ ""))
        ⊎ ((more : List String) × (p.1 ≡ d ∷ more)
            × ((has_char b'@' image ≡ true)
                ⊎ (((registry_image_digests t r image p.0).1 ≡ [])
                    ⊎ HasCommon p.1 (registry_image_digests t r image p.0).1)))
  against_local-ok image (w, []) h = inl (refl, sym (ok_injective _ _ h))
  against_local-ok image (w, x ∷ xs) h = elim (Bool-cases (has_char b'@' image)) [
    | inl e ↦ inr (xs, ap (λ y. y ∷ xs) (ok_injective _ _ (rw e at h)), inl e)
    | inr e ↦
        let (first, found) =
          against_registry-ok image x (x ∷ xs) (registry_image_digests t r image w) (rw e at h) in
        inr (xs, ap (λ y. y ∷ xs) first, inr found)
  ]

  -- The digest that verifyImageDigest returns without an error is the first that the image has here,
  -- or empty if none is known; and then the image is not proven stale: it is named by its digest, the
  -- registry says nothing of it, or the registry serves one of the digests that it has here.
  pub verify_image_digest-Served :
      (image digest : String) (w : World)
      → (verify_image_digest t r image w).1 ≡ ok digest
      → Served image digest w
  unfolding verify_image_digest
  verify_image_digest-Served image digest w h = record {
    verdict = against_local-ok image (local_image_digests t r image w) h;
  }

  -- The host's commit; the version of the image; and what git says of that version's commit.
  abbrev pub head : String → World → World × String
  head dir w = trimmed t r (git t r dir ("rev-parse" ∷ "HEAD" ∷ []) w)

  abbrev pub labelled : String → String → World → World × String
  labelled dir image w = image_workspace_version t r image (head dir w).0

  abbrev pub commit_in : String → World × String → World × Option String
  commit_in dir (w, version) = git t r dir ("rev-parse" ∷ append version "^{commit}" ∷ []) w

  -- The commit that git names, or the version itself if it names none.
  abbrev pub IsCommit : String → World × Option String → String → Type 0
  IsCommit version out commit =
      (((trimmed t r out).1 ≡ "") × (commit ≡ version))
      ⊎ (((trimmed t r out).1 ≢ "") × (commit ≡ (trimmed t r out).1))

  or_resolved-IsCommit :
      (version : String) (out : World × Option String)
      → IsCommit version out (or_resolved t r version out.1)
  or_resolved-IsCommit version (w, none) = inl (refl, refl)
  or_resolved-IsCommit version (w, some s) = elim (Bool-cases (str_eq (t.trim s) "")) [
    | inl e ↦ inl ((eq_iff (t.trim s) "").0 e, rw e refl)
    | inr e ↦ inr (ne_of (t.trim s) "" e, rw e refl)
  ]

  abbrev Differ : String → Bool → String → String → World → UpdateError → Type 0
  Differ dir force host commit w e =
      (force ≡ false)
      × (e ≡ host_ahead host commit)
      × (commit ≢ host)
      × ((git t r dir ("merge-base" ∷ "--is-ancestor" ∷ commit ∷ host ∷ []) w).1 ≢ none)

  -- What a refusal of guardHostNotAheadOfImage rests on.
  pub record Ahead (dir image : String) (force : Bool) (w : World) (e : UpdateError) : Type 0 where
    pub known : (head dir w).1 ≢ ""
    pub version_known : (labelled dir image w).1 ≢ ""
    pub commit : String
    pub of_image : IsCommit (labelled dir image w).1 (commit_in dir (labelled dir image w)) commit
    pub differ :
        (force ≡ false)
        × (e ≡ host_ahead (head dir w).1 commit)
        × (commit ≢ (head dir w).1)
        × ((git t r dir
              ("merge-base" ∷ "--is-ancestor" ∷ commit ∷ (head dir w).1 ∷ [])
              (commit_in dir (labelled dir image w)).0).1
            ≢ none)

  unless_ancestor-err :
      (force : Bool) (host image : String) (p : World × Option String) (e : UpdateError)
      → (unless_ancestor t r force host image p).1 ≡ err e
      → (force ≡ false) × (e ≡ host_ahead host image) × (p.1 ≢ none)
  unless_ancestor-err force host image (w, none) e h = absurd (ok_ne_err h)
  unless_ancestor-err true host image (w, some s) e h = absurd (ok_ne_err h)
  unless_ancestor-err false host image (w, some s) e h = (refl, cc, λ x. cc)

  compare_heads-Differ :
      (dir : String) (force : Bool) (host commit : String) (w : World) (e : UpdateError)
      → (compare_heads t r dir force host commit w).1 ≡ err e
      → Differ dir force host commit w e
  compare_heads-Differ dir force host commit w e h = elim (Bool-cases (str_eq commit host)) [
    | inl same ↦ absurd (ok_ne_err (rw same at h))
    | inr other ↦
        let found = unless_ancestor-err force host commit _ e (rw other at h) in
        (found.0, found.1, ne_of commit host other, found.2)
  ]

  behind_version-Differ :
      (dir : String) (force : Bool) (host : String) (p : World × String) (e : UpdateError)
      → (behind_version t r dir force host p).1 ≡ err e
      → (p.1 ≢ "")
        × Differ dir force host (or_resolved t r p.1 (commit_in dir p).1) (commit_in dir p).0 e
  behind_version-Differ dir force host (w, version) e h = elim (Bool-cases (str_eq version "")) [
    | inl none_known ↦ absurd (ok_ne_err (rw none_known at h))
    | inr given ↦
        (ne_of version "" given, compare_heads-Differ dir force host _ _ e (rw given at h))
  ]

  behind_head-Differ :
      (dir image : String) (force : Bool) (p : World × String) (e : UpdateError)
      → (behind_head t r dir image force p).1 ≡ err e
      → (p.1 ≢ "")
        × ((behind_version t r dir force p.1 (image_workspace_version t r image p.0)).1 ≡ err e)
  behind_head-Differ dir image force (w, host) e h = elim (Bool-cases (str_eq host "")) [
    | inl unknown ↦ absurd (ok_ne_err (rw unknown at h))
    | inr given ↦ (ne_of host "" given, rw given at h)
  ]

  -- guardHostNotAheadOfImage refuses only without force, and only if the host's commit (git rev-parse
  -- HEAD) and the image's version are known, the commit that git names for that version, or the
  -- version itself if it names none, is another one, and git says that it is an ancestor of the host's.
  pub guard_host_not_ahead-Ahead :
      (dir image : String) (force : Bool) (w : World) (e : UpdateError)
      → (guard_host_not_ahead t r dir image force w).1 ≡ err e
      → Ahead dir image force w e
  unfolding guard_host_not_ahead
  guard_host_not_ahead-Ahead dir image force w e h =
      let (known, h') = behind_head-Differ dir image force (head dir w) e h in
      let (given, differ) = behind_version-Differ dir force (head dir w).1 _ e h' in
      record {
        known = known;
        version_known = given;
        commit = or_resolved t r (labelled dir image w).1 (commit_in dir (labelled dir image w)).1;
        of_image =
            or_resolved-IsCommit (labelled dir image w).1 (commit_in dir (labelled dir image w));
        differ = differ;
      }
