-- ===== src/Deadman.antt =====
-- internal/vpn/deadman.go: the dead-man's switch that reverts an exit selection. Its state is the
-- switch that the record file names and which processes are live switches; the outcomes of the system
-- calls are parameters.
pub mod Guarded
mod Tests
use aw_remote_host.Common.{
  ◌==◌, if◌then◌else◌, Result, ok, err, ℕ, String, Bool, true, false, not, ◌&&◌, ◌||◌, Option, none,
  some, str_eq,
}
use aw_remote_host.Common.Int.{ℤ, pos, ltb_ℤ}

pub record Switches : Type 0 where
  pub recorded : Option ℕ
  pub alive : ℕ → Bool

pub data DeadmanError : Type 0 where
  bad_timeout : DeadmanError
  nothing_to_run : DeadmanError
  system_error : String → DeadmanError
  stand_down_failed : DeadmanError → DeadmanError
  never_visible : ℕ → DeadmanError

-- The outcomes of the system calls of Disarm.
pub record DisarmCalls : Type 0 where
  pub load : Option String
  pub kill : Option String
  pub remove_file : Option String

-- The outcomes of the system calls of Arm: those of its Disarm, of opening the log, of the start, with
-- the new process, of waiting until it is visible, of a clean-up kill, and of the save.
pub record ArmCalls : Type 0 where
  pub disarm_calls : DisarmCalls
  pub open_log : Option String
  pub start : Option String
  pub pid : ℕ
  pub visible : Bool
  pub clean_up : Option String
  pub save : Option String

pub record ArmSpec : Type 0 where
  pub after : ℤ
  pub tailscale_path : String
  pub exclusion_revert : String

abbrev pub mark : ℕ → Bool → (ℕ → Bool) → ℕ → Bool
mark p b alive k = if k == p then b else alive k

-- killGroup with its outcome.
unfoldable pub kill_group : Option String → ℕ → Switches → Switches
kill_group none p s = record s { alive = mark p false s.alive }
kill_group (some e) p s = s

-- The end of Disarm, behind the kill.
abbrev pub forget : Option String → Bool → Switches → Switches × Result DeadmanError Bool
forget none killed s = (record s { recorded = none }, ok killed)
forget (some e) killed s = (s, err (system_error e))

abbrev pub kill_and_forget :
    DisarmCalls → Option String → ℕ → Switches → Switches × Result DeadmanError Bool
kill_and_forget c (some e) p s = (s, err (system_error e))
kill_and_forget c none p s = forget c.remove_file true (kill_group none p s)

-- Disarm, once the record was read. Process ids are positive, so the test for that is left out.
unfoldable pub disarm_recorded :
    DisarmCalls → Option ℕ → Switches → Switches × Result DeadmanError Bool
disarm_recorded c none s = (s, ok false)
disarm_recorded c (some p) s =
    if s.alive p then kill_and_forget c c.kill p s else forget c.remove_file false s

-- Disarm.
unfoldable pub disarm : DisarmCalls → Switches → Switches × Result DeadmanError Bool
disarm c s = elim c.load [
  | some e ↦ (s, err (system_error e))
  | none ↦ disarm_recorded c s.recorded s
]

-- Arm behind the start of its process.
unfoldable pub confirm : ArmCalls → Switches → Switches × Result DeadmanError ℕ
confirm c s =
    if not c.visible
    then (kill_group c.clean_up c.pid s, err (never_visible c.pid))
    else elim c.save [
      | some e ↦ (kill_group c.clean_up c.pid s, err (system_error e))
      | none ↦ (record s { recorded = some c.pid }, ok c.pid)
    ]

-- Arm behind its Disarm.
unfoldable pub launch : ArmCalls → Switches → Switches × Result DeadmanError ℕ
launch c s = elim c.open_log [
  | some e ↦ (s, err (system_error e))
  | none ↦ elim c.start [
    | some e ↦ (s, err (system_error e))
    | none ↦ confirm c (record s { alive = mark c.pid true s.alive })
  ]
]

abbrev pub launch_after :
    ArmCalls → Switches × Result DeadmanError Bool → Switches × Result DeadmanError ℕ
launch_after c (s, err e) = (s, err (stand_down_failed e))
launch_after c (s, ok killed) = launch c s

-- Arm; `trim` is strings.TrimSpace.
unfoldable pub arm :
    (String → String) → ArmSpec → ArmCalls → Switches → Switches × Result DeadmanError ℕ
arm trim spec c s =
    if not (ltb_ℤ (pos 0) spec.after)
    then (s, err bad_timeout)
    else (if str_eq spec.tailscale_path "" && str_eq (trim spec.exclusion_revert) ""
        then (s, err nothing_to_run)
        else launch_after c (disarm c.disarm_calls s))

-- Fired; `expired` tells whether the expiry could be read and is past.
unfoldable pub has_fired : Option Bool → ℕ → Switches → Bool
has_fired none p s = false
has_fired (some expired) p s = expired || not (s.alive p)
