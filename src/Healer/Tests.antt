-- ===== src/Healer/Tests.antt =====
-- The theorems on internal/vpn/selfheal.go, applied to a broken and to a stale tunnel.
use aw_remote_host.Common.{
  [], All, ok, ℕ, ◌+◌, ◌*◌, ◌≤◌, ◌≡◌, refl, Bool, true, false, none, List, ◌∷◌, arith,
}
use aw_remote_host.Healer.{
  minute, heal_backoff_max, assess_handshake, heal_tunnel_plan, fresh, decide_due, decide,
  next_backoff, repaired, has_dialled, act, planned, pass, stale, broken, Observation,
}
use aw_remote_host.Healer.Effects.{dials, after}
use aw_remote_host.Healer.Pacing.{IsSpaced, IsUnhealthy, dials-IsSpaced}
use aw_remote_host.Healer.Repair.{broken-dials}
use aw_remote_host.Healer.Confirm.{healer_after}

-- A pass at `minutes`, with the peer there or not, before the first handshake.
abbrev at : ℕ → Bool → Observation
at minutes peer = record {
  plan = ok true;
  deadman_pending = false;
  conf_present = true;
  device_present = ok true;
  peer_present = ok peer;
  has_default = ok true;
  latest_handshake = ok 0;
  now = minutes * minute;
  applied = none;
}

abbrev history : List Observation
history = at 1 false ∷ at 2 false ∷ at 7 false ∷ []

broken_verdict : (m : ℕ) → (heal_tunnel_plan (at m false)).verdict ≡ broken
unfolding heal_tunnel_plan
broken_verdict m = refl

broken-IsUnhealthy : (m : ℕ) → IsUnhealthy (at m false)
broken-IsUnhealthy m e = let b = broken_verdict m in absurd (cc)

dials-IsSpaced_example : IsSpaced (dials history fresh)
dials-IsSpaced_example =
    dials-IsSpaced history
      (broken-IsUnhealthy 1, (broken-IsUnhealthy 2, (broken-IsUnhealthy 7, tt)))

history_dials : dials history fresh ≡ 1 * minute ∷ 7 * minute ∷ []
unfolding dials pass planned act decide decide_due repaired next_backoff heal_tunnel_plan
history_dials = refl

history_past : All (λ t. t + heal_backoff_max ≤ (at 40 false).now) (dials history fresh)
history_past = rw history_dials (omega arith, (omega arith, tt))

broken-dials_example : has_dialled (pass (at 40 false) (after history fresh)).1 ≡ true
broken-dials_example = broken-dials history (at 40 false) refl refl (broken_verdict 40) history_past

stale_verdict : (heal_tunnel_plan (at 2 true)).verdict ≡ stale
unfolding heal_tunnel_plan assess_handshake
stale_verdict = refl

second_dials : has_dialled (pass (at 2 true) (healer_after (at 1 true ∷ []))).1 ≡ true
unfolding healer_after pass planned act decide decide_due heal_tunnel_plan assess_handshake
second_dials = refl
