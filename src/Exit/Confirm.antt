-- ===== src/Exit/Confirm.antt =====
-- internal/vpn/exit.go and usexit.go: whether an exit selection worked (confirmContainerScoped), tried
-- until the deadline (confirmWithRetries). What was measured is an input; times are in nanoseconds.
pub mod Proven
pub mod Ended
use aw_remote_host.Common.{
  ltb, if◌then◌else◌, Result, ok, err, ℕ, zero, suc, ◌+◌, ◌<◌, String, Bool, true, false, not, ◌||◌,
  Option, none, some, str_eq,
}

pub record Egress : Type 0 where
  pub ip : String
  pub via : String

-- ContainerEgressResult.
pub record ContainerEgress : Type 0 where
  pub runtime : String
  pub network : String
  pub ip : String
  pub via : String
  pub problem : String

-- What one attempt measures: the device of the route to 1.1.1.1, the host's public IP, the error of
-- reaching the control plane, and the egress of the containers.
pub record Readings : Type 0 where
  pub device : Result String String
  pub host : Result String Egress
  pub unreachable : Option String
  pub container : ContainerEgress

-- confirmSpec, without what only the measuring reads.
pub record ConfirmSpec : Type 0 where
  pub host_before : String
  pub container : ContainerEgress
  pub expected : String

pub data Reason : Type 0 where
  host_not_measured : String → Reason
  host_never_measured : Reason
  host_has_moved : String → Egress → Reason
  control_plane_unreachable : String → Reason
  no_container_internet : String → Reason
  unexpected_egress : ContainerEgress → String → Reason
  no_baseline : String → Reason
  same_as_before : ContainerEgress → Reason
  same_as_host : ContainerEgress → Reason

pub record ConfirmResult : Type 0 where
  pub host_before : String
  pub host_after : String
  pub host_after_via : String
  pub host_held : Bool
  pub host_moved : Bool
  pub container_before : ContainerEgress
  pub container_after : Option ContainerEgress
  pub expected : String
  pub default_device : String
  pub control_plane_ok : Bool
  pub control_plane_err : Option String
  pub is_ok : Bool
  pub reason : Option Reason

-- The switch of containerEgressVerdict.
unfoldable pub compared : ContainerEgress → ContainerEgress → String → Option Reason
compared before now expected =
    if not (str_eq expected "")
    then (if str_eq now.ip expected then none else some (unexpected_egress now expected))
    else (if str_eq before.ip ""
        then some (no_baseline before.problem)
        else (if str_eq now.ip before.ip then some (same_as_before now) else none))

abbrev pub unless_same_as_host : ContainerEgress → String → Option Reason → Option Reason
unless_same_as_host now host_ip (some x) = some x
unless_same_as_host now host_ip none =
    if str_eq now.ip host_ip then some (same_as_host now) else none

-- containerEgressVerdict: the reason against, or none.
unfoldable pub container_egress_verdict :
    ContainerEgress → ContainerEgress → String → String → Option Reason
unfolding compared
container_egress_verdict before now expected host_ip =
    if str_eq now.ip ""
    then some (no_container_internet now.problem)
    else unless_same_as_host now host_ip (compared before now expected)

abbrev pub is_none : {A : Type 0} → Option A → Bool
is_none none = true
is_none (some a) = false

abbrev pub device_or_empty : Result String String → String
device_or_empty (ok d) = d
device_or_empty (err e) = ""

-- The result with which confirmContainerScoped starts.
abbrev pub initial : ConfirmSpec → Readings → ConfirmResult
initial spec now = record {
  host_before = spec.host_before;
  host_after = "";
  host_after_via = "";
  host_held = false;
  host_moved = false;
  container_before = spec.container;
  container_after = none;
  expected = spec.expected;
  default_device = device_or_empty now.device;
  control_plane_ok = false;
  control_plane_err = none;
  is_ok = false;
  reason = none;
}

abbrev pub with_verdict : ConfirmResult → ContainerEgress → Option Reason → ConfirmResult
with_verdict res now verdict = record res {
  container_after = some now;
  is_ok = is_none verdict;
  reason = verdict;
}

-- Behind the reachability of the control plane.
abbrev pub reached : ConfirmSpec → Readings → Egress → ConfirmResult → Option String → ConfirmResult
reached spec now host res (some e) = record res {
  control_plane_err = some e;
  reason = some (control_plane_unreachable e);
}
reached spec now host res none =
    with_verdict (record res { control_plane_ok = true }) now.container
      (container_egress_verdict spec.container now.container spec.expected host.ip)

-- Behind the measurement of the host.
abbrev pub host_measured : ConfirmSpec → Readings → Egress → ConfirmResult → ConfirmResult
host_measured spec now host res =
    if str_eq spec.host_before ""
    then record res { reason = some host_never_measured }
    else (if not (str_eq host.ip spec.host_before)
        then record res { host_moved = true; reason = some (host_has_moved spec.host_before host) }
        else reached spec now host (record res { host_held = true }) now.unreachable)

abbrev pub measured : ConfirmSpec → Readings → Result String Egress → ConfirmResult
measured spec now (err e) = record (initial spec now) { reason = some (host_not_measured e) }
measured spec now (ok host) =
    host_measured spec now host
      (record (initial spec now) { host_after = host.ip; host_after_via = host.via })

-- confirmContainerScoped.
unfoldable pub confirm_container_scoped : ConfirmSpec → Readings → ConfirmResult
unfolding container_egress_verdict
confirm_container_scoped spec now = measured spec now now.host

abbrev pub confirm_poll_interval : ℕ
confirm_poll_interval = 5000000000

-- The loop of confirmWithRetries from attempt `n` on; `late` tells of each attempt whether the
-- deadline is past behind it. The first number counts the attempts up to one behind which it is: there
-- the loop returns in any case.
unfoldable pub retry : ConfirmSpec → (ℕ → Readings) → (ℕ → Bool) → ℕ → ℕ → ConfirmResult
unfolding confirm_container_scoped
retry spec readings late zero n = confirm_container_scoped spec (readings n)
retry spec readings late (suc turns) n =
    let last = confirm_container_scoped spec (readings n) in
    let rest = retry spec readings late turns (suc n) in
    if last.is_ok || late n then last else (if last.host_moved then last else rest)

-- confirmWithRetries; `clock n` is the time behind attempt `n`, and time goes on: behind some attempt
-- the deadline is past.
unfoldable pub confirm_with_retries :
    ConfirmSpec
    → (ℕ → Readings)
    → (start : ℕ) (clock : ℕ → ℕ) (timeout : ℕ) → (n : ℕ) × (start + timeout < clock n)
    → ConfirmResult
unfolding retry
confirm_with_retries spec readings start clock timeout passes =
    retry spec readings (λ n. ltb (start + timeout) (clock n)) passes.0 0
