-- ===== src/Firewall/Honest.antt =====
-- What the reply to firewall_apply of internal/ops/ops_firewall.go says about the host, and what the
-- self-heal of internal/firewall/persist.go re-applies.
use aw_remote_host.Common.{
  if◌then◌else◌, Result, ok, err, String, ◌≡◌, refl, sym, ap, subst, Bool, true, false, Option,
  none, List, arith,
}
use aw_remote_host.Common.Int.{ℤ, pos}
use aw_remote_host.Firewall.{Rule}
use aw_remote_host.Firewall.Verbs.{
  Backend, last_applied_revision, save, Outcome, conclude, apply_probed, firewall_apply,
  heal_probed, self_heal, Probe, Persisted, VerbError, Applied,
}

abbrev revision_of : Result VerbError Applied → ℤ
revision_of (ok a) = a.applied_revision
revision_of (err e) = pos 0

abbrev privileged_of : Result VerbError Applied → Bool
privileged_of (ok a) = a.privileged
privileged_of (err e) = false

module _ (b : Backend) where
  open b use {World, probe, apply}

  -- What a reply that says `privileged` or not promises of the outcome, behind a probe that left `w`.
  abbrev pub Promised :
      Bool → ℤ → Option String → Persisted → Option Persisted → World → Outcome b → Type 0
  Promised true revision saved p cache w o =
      ((apply p.rules p.lockdown w).1 ≡ ok tt)
      × ((revision ≡ p.revision) × (o.0 ≡ ((apply p.rules p.lockdown w).0, save saved p cache)))
  Promised false revision saved p cache w o =
      (revision ≡ last_applied_revision cache) × (o.0 ≡ (w, cache))

  conclude-Promised :
      (saved : Option String) (p : Persisted) (seen : Probe) (cache : Option Persisted)
      (r : World × Result String (Unit {0})) (a : Applied)
      → (conclude b saved p seen cache r).1 ≡ ok a
      → (a.privileged ≡ true)
        × ((r.1 ≡ ok tt)
            × ((a.applied_revision ≡ p.revision)
                × ((conclude b saved p seen cache r).0 ≡ (r.0, save saved p cache))))
  unfolding conclude
  conclude-Promised saved p seen cache (w, err e) a h = absurd (ground (arith, h))
  conclude-Promised saved p seen cache (w, ok _) a h =
      (sym (ap privileged_of h), (refl, (sym (ap revision_of h), refl)))

  apply_probed-Promised :
      (saved : Option String) (p : Persisted) (cache : Option Persisted)
      (r : World × Result String Probe) (a : Applied)
      → (apply_probed b saved p cache r).1 ≡ ok a
      → Promised a.privileged a.applied_revision saved p cache r.0 (apply_probed b saved p cache r)
  unfolding apply_probed
  apply_probed-Promised saved p cache (w, err e) a h = absurd (ground (arith, h))
  apply_probed-Promised saved p cache (w, ok seen) a h = by_privilege seen.privileged h
    where
      unprivileged : Applied
      unprivileged = record {
        backend = seen.name;
        privileged = false;
        applied_revision = last_applied_revision cache;
        privileged_reason = seen.reason;
      }

      outcome : Bool → Outcome b
      outcome privileged =
          if privileged
          then conclude b saved p seen cache (apply p.rules p.lockdown w)
          else ((w, cache), ok unprivileged)

      by_privilege :
          (privileged : Bool)
          → (outcome privileged).1 ≡ ok a
          → Promised a.privileged a.applied_revision saved p cache w (outcome privileged)
      by_privilege true h =
          let (told, rest) =
            conclude-Promised saved p seen cache (apply p.rules p.lockdown w) a h in
          subst (λ x. Promised x a.applied_revision saved p cache w (outcome true)) (sym told) rest
      by_privilege false h =
          subst (λ x. Promised x a.applied_revision saved p cache w (outcome false))
            (ap privileged_of h) (sym (ap revision_of h), refl)

  -- A reply to firewall_apply that says `privileged` was only given after Apply accepted these rules;
  -- it reports their revision and the rules are cached if the save works. A reply that does not say
  -- so was given without touching the rules or the cache, and reports the revision of the cache.
  pub firewall_apply-Promised :
      (saved : Option String) (rules : List Rule) (lockdown : Bool) (revision : ℤ) (w : World)
      (cache : Option Persisted) (a : Applied)
      → (firewall_apply b saved (ok rules) lockdown revision w cache).1 ≡ ok a
      → Promised a.privileged a.applied_revision saved
          (record { rules = rules; lockdown = lockdown; revision = revision })
          cache
          (probe w).0
          (firewall_apply b saved (ok rules) lockdown revision w cache)
  unfolding firewall_apply
  firewall_apply-Promised saved rules lockdown revision w cache a h =
      apply_probed-Promised saved
        (record { rules = rules; lockdown = lockdown; revision = revision }) cache (probe w) a h

  -- After a firewall_apply that replied `privileged` and whose save worked, the self-heal applies
  -- the same rules in the same mode, if it finds the backend privileged then.
  pub self_heal-reapplies :
      (rules : List Rule) (lockdown : Bool) (revision : ℤ) (w later : World)
      (cache : Option Persisted) (a : Applied)
      → (firewall_apply b none (ok rules) lockdown revision w cache).1 ≡ ok a
      → a.privileged ≡ true
      → self_heal b (ok (firewall_apply b none (ok rules) lockdown revision w cache).0.1) later
        ≡ heal_probed b
            (record { rules = rules; lockdown = lockdown; revision = revision })
            (probe later)
  unfolding self_heal
  self_heal-reapplies rules lockdown revision w later cache a h told =
      let p : Persisted = record { rules = rules; lockdown = lockdown; revision = revision } in
      let outcome = firewall_apply b none (ok rules) lockdown revision w cache in
      let kept : Promised true a.applied_revision none p cache (probe w).0 outcome =
        subst (λ x. Promised x a.applied_revision none p cache (probe w).0 outcome) told
          (firewall_apply-Promised none rules lockdown revision w cache a h) in
      ap (λ s. self_heal b (ok s.1) later) kept.1.1
