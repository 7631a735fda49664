-- ===== src/Firewall/Verbs.antt =====
-- The firewall_apply verb of internal/ops/ops_firewall.go and the self-heal of
-- internal/firewall/persist.go, over the Backend interface of internal/firewall/firewall.go.
use aw_remote_host.Common.{
  if◌then◌else◌, Result, ok, err, String, Bool, true, false, Option, none, some, List,
}
use aw_remote_host.Common.Int.{ℤ, pos}
use aw_remote_host.Firewall.{Rule}

pub record Probe : Type 0 where
  pub name : String
  pub privileged : Bool
  pub reason : String

-- Backend, as far as the two callers use it.
pub record Backend : Type 1 where
  pub World : Type 0
  pub probe : World → World × Result String Probe
  pub apply : List Rule → Bool → World → World × Result String (Unit {0})

pub record Persisted : Type 0 where
  pub rules : List Rule
  pub lockdown : Bool
  pub revision : ℤ

pub data VerbError : Type 0 where
  bad_rules : String → VerbError
  probe_failed : String → VerbError
  apply_failed : String → VerbError
  load_failed : String → VerbError

pub record Applied : Type 0 where
  pub backend : String
  pub privileged : Bool
  pub applied_revision : ℤ
  pub privileged_reason : String

-- lastAppliedRevision; `cache` is what the file holds.
abbrev pub last_applied_revision : Option Persisted → ℤ
last_applied_revision none = pos 0
last_applied_revision (some p) = p.revision

-- Save with its outcome, which the verb only reports.
abbrev pub save : Option String → Persisted → Option Persisted → Option Persisted
save none p cache = some p
save (some e) p cache = cache

module _ (b : Backend) where
  open b use {World, probe, apply}

  -- What the verb has after a step: the world, the cache file, and its outcome so far.
  abbrev pub Outcome : Type 0
  Outcome = (World × Option Persisted) × Result VerbError Applied

  -- FirewallApply behind Apply.
  unfoldable pub conclude :
      Option String
      → Persisted
      → Probe
      → Option Persisted
      → World × Result String (Unit {0})
      → Outcome
  conclude saved p seen cache (w, err e) = ((w, cache), err (apply_failed e))
  conclude saved p seen cache (w, ok _) = (
    (w, save saved p cache),
    ok (record {
      backend = seen.name;
      privileged = true;
      applied_revision = p.revision;
      privileged_reason = "";
    }),
  )

  -- FirewallApply behind the probe.
  unfoldable pub apply_probed :
      Option String → Persisted → Option Persisted → World × Result String Probe → Outcome
  apply_probed saved p cache (w, err e) = ((w, cache), err (probe_failed e))
  apply_probed saved p cache (w, ok seen) =
      if seen.privileged then conclude saved p seen cache (apply p.rules p.lockdown w) else (
        (w, cache),
        ok (record {
          backend = seen.name;
          privileged = false;
          applied_revision = last_applied_revision cache;
          privileged_reason = seen.reason;
        }),
      )

  -- FirewallApply; the rules were parsed, or not.
  unfoldable pub firewall_apply :
      Option String → Result String (List Rule) → Bool → ℤ → World → Option Persisted → Outcome
  firewall_apply saved (err e) lockdown revision w cache = ((w, cache), err (bad_rules e))
  firewall_apply saved (ok rules) lockdown revision w cache =
      apply_probed saved (record { rules = rules; lockdown = lockdown; revision = revision }) cache
        (probe w)

  abbrev pub heal_applied : World × Result String (Unit {0}) → World × Result VerbError (Unit {0})
  heal_applied (w, err e) = (w, err (apply_failed e))
  heal_applied (w, ok _) = (w, ok tt)

  abbrev pub heal_probed :
      Persisted → World × Result String Probe → World × Result VerbError (Unit {0})
  heal_probed p (w, err e) = (w, err (probe_failed e))
  heal_probed p (w, ok seen) =
      if seen.privileged then heal_applied (apply p.rules p.lockdown w) else (w, ok tt)

  -- SelfHeal; `loaded` is the outcome of Load.
  unfoldable pub self_heal :
      Result String (Option Persisted) → World → World × Result VerbError (Unit {0})
  self_heal (err e) w = (w, err (load_failed e))
  self_heal (ok none) w = (w, ok tt)
  self_heal (ok (some p)) w = heal_probed p (probe w)
