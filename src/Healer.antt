-- ===== src/Healer.antt =====
-- internal/vpn/selfheal.go: the loop that re-dials the recorded external tunnel. What a pass reads of
-- the machine is an Observation; times are nanoseconds.
pub mod Effects
pub mod Pacing
pub mod Repair
pub mod Confirm
mod Tests
use aw_remote_host.Common.{
  ltb, leb, if◌then◌else◌, Result, ok, err, ℕ, zero, suc, ◌+◌, ◌-◌, ◌*◌, min, String, Bool, true,
  false, not, Option, none, some,
}

abbrev pub minute : ℕ
minute = 60000000000

abbrev pub handshake_stale_after : ℕ
handshake_stale_after = 180000000000

abbrev pub stale_repairs_after_passes : ℕ
stale_repairs_after_passes = 2

abbrev pub heal_backoff_min : ℕ
heal_backoff_min = 5 * minute

abbrev pub heal_backoff_max : ℕ
heal_backoff_max = 30 * minute

pub data Verdict : Type 0 where
  healthy : Verdict
  unknown : Verdict
  stale : Verdict
  broken : Verdict
  conf_gone : Verdict

-- What one pass reads: the recorded plan, the dead-man's switch, the files and devices of the plan,
-- the time of the latest handshake in seconds (0 for never), the clock, and the outcome of a dial.
pub record Observation : Type 0 where
  pub plan : Result String Bool
  pub deadman_pending : Bool
  pub conf_present : Bool
  pub device_present : Result String Bool
  pub peer_present : Result String Bool
  pub has_default : Result String Bool
  pub latest_handshake : Result String ℕ
  pub now : ℕ
  pub applied : Option String

pub record Assessment : Type 0 where
  pub verdict : Verdict
  pub handshake_age : ℕ
  pub handshake_never : Bool

abbrev pub plain : Verdict → Assessment
plain v = record { verdict = v; handshake_age = 0; handshake_never = false }

-- One question of healTunnelPlan: a failed probe is unknown, a `no` is broken.
abbrev pub ask : Result String Bool → Assessment → Assessment
ask (err e) rest = plain unknown
ask (ok false) rest = plain broken
ask (ok true) rest = rest

-- The part of healTunnelPlan behind the probe of the handshake.
unfoldable pub assess_handshake : ℕ → Result String ℕ → Assessment
assess_handshake now (err e) = plain unknown
assess_handshake now (ok zero) = record {
  verdict = stale;
  handshake_age = 0;
  handshake_never = true;
}
assess_handshake now (ok (suc s)) =
    let age = now - suc s * 1000000000 in
    record {
      verdict = if ltb handshake_stale_after age then stale else healthy;
      handshake_age = age;
      handshake_never = false;
    }

-- healTunnelPlan.
unfoldable pub heal_tunnel_plan : Observation → Assessment
heal_tunnel_plan o =
    if not o.conf_present
    then plain conf_gone
    else ask o.device_present
        (ask o.peer_present (ask o.has_default (assess_handshake o.now o.latest_handshake)))

-- tunnelHealer; `none` is the zero time.
pub record Healer : Type 0 where
  pub consecutive_stale : ℕ
  pub backoff : ℕ
  pub next_repair_at : Option ℕ

abbrev pub fresh : Healer
fresh = record { consecutive_stale = 0; backoff = 0; next_repair_at = none }

-- What decide notes.
pub data Note : Type 0 where
  nothing : Note
  pass_skipped : Note
  anomaly : Note
  one_more_pass : Note
  not_due : Note
  re_dialling : Note

pub record Decision : Type 0 where
  pub repair : Bool
  pub note : Note

abbrev pub leave : Note → Decision
leave n = record { repair = false; note = n }

abbrev pub is_due : Option ℕ → ℕ → Bool
is_due none now = true
is_due (some t) now = leb t now

-- The end of decide, behind its switch.
unfoldable pub decide_due : Healer → ℕ → Healer × Decision
decide_due h now =
    if is_due h.next_repair_at now
    then (h, record { repair = true; note = re_dialling })
    else (h, leave not_due)

-- decide.
unfoldable pub decide : Verdict → ℕ → Healer → Healer × Decision
decide healthy now h = (fresh, leave nothing)
decide unknown now h = (h, leave pass_skipped)
decide conf_gone now h = (record h { consecutive_stale = 0 }, leave anomaly)
decide stale now h =
    let h' = record h { consecutive_stale = h.consecutive_stale + 1 } in
    if ltb h'.consecutive_stale stale_repairs_after_passes
    then (h', leave one_more_pass)
    else decide_due h' now
decide broken now h = decide_due (record h { consecutive_stale = 0 }) now

unfoldable pub next_backoff : ℕ → ℕ
next_backoff zero = heal_backoff_min
next_backoff (suc b) = min (suc b * 2) heal_backoff_max

-- repaired.
unfoldable pub repaired : ℕ → Healer → Healer
repaired now h =
    let b = next_backoff h.backoff in
    record { consecutive_stale = 0; backoff = b; next_repair_at = some (now + b) }

pub data Outcome : Type 0 where
  state_unreadable : String → Outcome
  left_alone : Outcome
  dial_failed : String → Outcome
  dialled : Outcome

-- Did a pass call applyExternalUp?
abbrev pub has_dialled : Outcome → Bool
has_dialled (dial_failed e) = true
has_dialled dialled = true
has_dialled _ = false

-- pass, once decide has decided.
unfoldable pub act : Observation → Healer × Decision → Healer × Outcome
act o (h, d) =
    if d.repair
    then (repaired o.now h, elim o.applied [ none ↦ dialled | some e ↦ dial_failed e ])
    else (h, left_alone)

-- pass, once the record was read.
unfoldable pub planned : Result String Bool → Observation → Healer → Healer × Outcome
planned (err e) o h = (h, state_unreadable e)
planned (ok false) o h = (h, left_alone)
planned (ok true) o h =
    if o.deadman_pending
    then (h, left_alone)
    else act o (decide (heal_tunnel_plan o).verdict o.now h)

-- pass.
unfoldable pub pass : Observation → Healer → Healer × Outcome
pass o h = planned o.plan o h
