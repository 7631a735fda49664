-- ===== src/Exit/Outcome.antt =====
-- internal/vpn/usexit.go: what a run of UseExit meets and reports, and the selection in the state
-- file. The fields of a report that only repeat its inputs, and the time of a selection, are left
-- out.
use aw_remote_host.Common.{[], Result, ℕ, String, Bool, false, Option, none, some, List, map, ◌<◌}
use aw_remote_host.Deadman.{DeadmanError, DisarmCalls, ArmCalls}
use aw_remote_host.Exit.Rules.{Exclusion, RouteError}
use aw_remote_host.Exit.Confirm.{Egress, ContainerEgress, Readings, Reason, ConfirmResult}
use aw_remote_host.Exit.BootGuard.{GuardError}
use aw_remote_host.Exit.Prepare.{UseExitPlan, Refusal, PrepareError}

-- The part of the state file that a selection is stored in, without its time.
pub record VpnState : Type 0 where
  pub exit_node : String
  pub exit_node_ip : String
  pub exit_exclusions : List String

pub data SelectError : Type 0 where
  plan_failed : PrepareError → SelectError
  scope_refused : Refusal → SelectError
  host_not_measurable : String → SelectError
  containers_not_measurable : String → SelectError
  not_armed : DeadmanError → SelectError
  routes_failed : RouteError → SelectError
  tailscale_failed : String → String → SelectError
  clear_selection : SelectError → SelectError
  remove_exclusions : RouteError → SelectError
  not_confirmed : Option Reason → SelectError
  not_reverted : Option Reason → SelectError
  not_stood_down : DeadmanError → SelectError
  state_file : String → SelectError
  not_installed : SelectError

pub data BootGuard : Type 0 where
  untried : BootGuard
  skipped : BootGuard
  installed : BootGuard
  not_guarded : GuardError → BootGuard

pub record UseExitResult : Type 0 where
  pub gate : String
  pub gate_ip : String
  pub egress_before : String
  pub container_before : Option ContainerEgress
  pub confirmation : Option ConfirmResult
  pub confirmed : Bool
  pub reverted : Bool
  pub deadman_still_armed : Bool
  pub boot_guard : BootGuard
  pub reason : Option Refusal

pub record ClearExitResult : Type 0 where
  pub exclusions_removed : ℕ
  pub deadman_stood_down : Bool

abbrev pub no_result : UseExitResult
no_result = record {
  gate = "";
  gate_ip = "";
  egress_before = "";
  container_before = none;
  confirmation = none;
  confirmed = false;
  reverted = false;
  deadman_still_armed = false;
  boot_guard = untried;
  reason = none;
}

-- What a run meets: the measurements, the times, and the outcomes of the system calls of the
-- dead-man's switch and of the state file (its path, its load and its save).
pub record Meets : Type 0 where
  pub host_before : Result String Egress
  pub container_before : ContainerEgress
  pub readings : ℕ → Readings
  pub start : ℕ
  pub clock : ℕ → ℕ
  -- time goes on
  pub passes : (deadline : ℕ) → (n : ℕ) × (deadline < clock n)
  pub arm_calls : ArmCalls
  pub disarm_calls : DisarmCalls
  pub state_path : Option String
  pub state_load : Option String
  pub state_save : Option String
  pub tailscale_path : String
  pub ip_path : String
  pub sudo : Bool

-- saveExitState and clearExitState, behind a change of the stored selection.
unfoldable pub store :
    Meets → Option VpnState → Option VpnState → Option VpnState × Option SelectError
store m new old = elim m.state_path [
  | some e ↦ (old, some (state_file e))
  | none ↦ elim m.state_load [
    | some e ↦ (old, some (state_file e))
    | none ↦ elim m.state_save [ some e ↦ (old, some (state_file e)) | none ↦ (new, none) ]
  ]
]

abbrev pub saved_selection : UseExitPlan → VpnState
saved_selection plan = record {
  exit_node = plan.gate.name;
  exit_node_ip = plan.gate_ip;
  exit_exclusions = map (λ (e : Exclusion). e.prefix) plan.exclusions.exclusions;
}

abbrev pub cleared_selection : Option VpnState → Option VpnState
cleared_selection none = none
cleared_selection (some v) =
    some (record { exit_node = ""; exit_node_ip = ""; exit_exclusions = [] })
