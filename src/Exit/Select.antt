-- ===== src/Exit/Select.antt =====
-- internal/vpn/usexit.go on linux: UseExit and ClearExit. The state is the world behind the runner, the
-- dead-man's switches and the selection in the state file; measurements and the outcomes of other
-- system calls are inputs. The narration and the fields that only repeat inputs are left out.
pub mod Honest
pub mod InForce
pub mod Routing
pub mod Held
use Prim.Native.String.{◌++◌ as append}
use aw_remote_host.Common.{
  [], if◌then◌else◌, Result, ok, err, ℕ, String, Bool, true, false, ◌&&◌, Option, none, some, ◌∷◌,
  str_eq, ◌+◌,
}
use aw_remote_host.Common.Int.{pos_part}
use aw_remote_host.Runner.{Runner}
use aw_remote_host.Deadman.{Switches, disarm, arm, DeadmanError, ArmSpec}
use aw_remote_host.Exit.Outcome.{
  Meets, no_result, store, saved_selection, cleared_selection, VpnState, SelectError, plan_failed,
  scope_refused, host_not_measurable, containers_not_measurable, not_armed, routes_failed,
  tailscale_failed, clear_selection, remove_exclusions, not_confirmed, not_reverted, not_stood_down,
  state_file, not_installed, BootGuard, skipped, installed, not_guarded, UseExitResult,
  ClearExitResult,
}
use aw_remote_host.Exit.Rules.{Text, clear_route_rules, apply_routes, RouteError}
use aw_remote_host.Exit.Confirm.{Egress, confirm_with_retries, ConfirmSpec, Reason, ConfirmResult}
use aw_remote_host.Exit.BootGuard.{
  GuardError, command_prefix, revert_exclusions_script, install_boot_guard, remove_boot_guard,
}
use aw_remote_host.Exit.Plan.{Net}
use aw_remote_host.Exit.Prepare.{
  with_defaults, plan_use_exit, Surroundings, UseExitPlan, UseExitSpec, PrepareError, Refusal,
}

module _ (r : Runner) (text : Text) (exists : r.World → Bool) where
  open r use {World, run}

  -- The machine: the world behind the runner, the switches, and the stored selection.
  pub record Host : Type 0 where
    pub world : World
    pub switches : Switches
    pub stored : Option VpnState

  -- SetExitNode.
  unfoldable pub set_exit_node : String → World → World × Option SelectError
  set_exit_node ip w =
      let (w1, reply) =
        run "tailscale"
          ("set"
            ∷ append "--exit-node=" ip
            ∷ "--accept-dns=false"
            ∷ (if str_eq ip ""
                then "--exit-node-allow-lan-access=false"
                else "--exit-node-allow-lan-access=true")
            ∷ [])
          w in
      (
        w1,
        elim reply.failure [
          | none ↦ none
          | some e ↦ some (tailscale_failed e (text.trim reply.output))
        ],
      )

  abbrev pub wrapped : Option RouteError → Option SelectError
  wrapped none = none
  wrapped (some e) = some (remove_exclusions e)

  abbrev pub cleared_rules : World × ℕ × Option RouteError → World × ℕ × Option SelectError
  cleared_rules (w, removed, failed) = (w, removed, wrapped failed)

  abbrev pub after_unset : World × Option SelectError → World × ℕ × Option SelectError
  after_unset (w, some e) = (w, 0, some (clear_selection e))
  after_unset (w, none) = cleared_rules (clear_route_rules r text w)

  -- revertCounting.
  unfoldable pub revert_counting : World → World × ℕ × Option SelectError
  unfolding set_exit_node clear_route_rules
  revert_counting w = after_unset (set_exit_node "" w)

  -- Is a Disarm known to have failed?
  abbrev pub is_err : Result DeadmanError Bool → Bool
  is_err (ok stood) = false
  is_err (err e) = true

  -- What follows a revert that succeeded.
  abbrev pub reverted_then :
      UseExitResult
      → SelectError
      → World
      → Option VpnState
      → Switches × Result DeadmanError Bool
      → Host × UseExitResult × Option SelectError
  reverted_then res e w stored (switches, d) = (
    record { world = w; switches = switches; stored = stored },
    record res { reverted = true; deadman_still_armed = is_err d },
    some e,
  )

  -- revertAfterFailure and the return behind it, and the same of an unconfirmed selection, whose errors
  -- are `e` behind a revert and `e'` without.
  abbrev pub undo :
      Meets
      → UseExitResult
      → SelectError
      → SelectError
      → Switches
      → Option VpnState
      → World × ℕ × Option SelectError
      → Host × UseExitResult × Option SelectError
  undo m res e e' switches stored (w, removed, none) =
      reverted_then res e w stored (disarm m.disarm_calls switches)
  undo m res e e' switches stored (w, removed, some x) = (
    record { world = w; switches = switches; stored = stored },
    record res { deadman_still_armed = true },
    some e',
  )

  abbrev pub guarded : World × Result GuardError (Unit {0}) → World × BootGuard
  guarded (w, ok done) = (w, installed)
  guarded (w, err e) = (w, not_guarded e)

  -- The boot guard behind a confirmed selection.
  unfoldable pub guard_boot : UseExitSpec → Meets → World → World × BootGuard
  unfolding install_boot_guard remove_boot_guard
  guard_boot spec m w =
      if spec.persist_across_reboot
      then ((remove_boot_guard r text exists w).0, skipped)
      else guarded (install_boot_guard r text m.tailscale_path m.ip_path w)

  abbrev pub stored_then :
      UseExitResult
      → Switches
      → World × BootGuard
      → Option VpnState × Option SelectError
      → Host × UseExitResult × Option SelectError
  stored_then res switches (w, guard) (stored, e) = (
    record { world = w; switches = switches; stored = stored },
    record res { boot_guard = guard },
    e,
  )

  -- Behind the Disarm of a confirmed selection.
  abbrev pub stood_down :
      UseExitSpec
      → UseExitPlan
      → Meets
      → UseExitResult
      → World
      → Option VpnState
      → Switches × Result DeadmanError Bool
      → Host × UseExitResult × Option SelectError
  stood_down spec plan m res w stored (switches, err e) = (
    record { world = w; switches = switches; stored = stored },
    record res { deadman_still_armed = true },
    some (not_stood_down e),
  )
  stood_down spec plan m res w stored (switches, ok stood) =
      stored_then res switches (guard_boot spec m w) (store m (some (saved_selection plan)) stored)

  -- Behind confirmWithRetries, which left the verdict `good`.
  abbrev pub concluded :
      UseExitSpec
      → UseExitPlan
      → Meets
      → UseExitResult
      → Host
      → Option Reason
      → Bool
      → Host × UseExitResult × Option SelectError
  concluded spec plan m res s why true =
      stood_down spec plan m res s.world s.stored (disarm m.disarm_calls s.switches)
  concluded spec plan m res s why false =
      undo m res (not_confirmed why) (not_reverted why) s.switches s.stored
        (revert_counting s.world)

  abbrev pub confirm_spec : UseExitSpec → Meets → String → ConfirmSpec
  confirm_spec spec m host_before = record {
    host_before = host_before;
    container = m.container_before;
    expected = spec.expect_egress;
  }

  abbrev pub final_check : UseExitSpec → Meets → String → ConfirmResult
  final_check spec m host_before =
      confirm_with_retries (confirm_spec spec m host_before) m.readings m.start m.clock
        (pos_part spec.confirm_timeout) (m.passes (m.start + pos_part spec.confirm_timeout))

  abbrev pub with_check : UseExitResult → ConfirmResult → UseExitResult
  with_check res c = record res { confirmation = some c; confirmed = c.is_ok }

  -- Behind SetExitNode.
  abbrev pub selected :
      UseExitSpec
      → UseExitPlan
      → Meets
      → UseExitResult
      → Switches
      → Option VpnState
      → World × Option SelectError
      → Host × UseExitResult × Option SelectError
  selected spec plan m res switches stored (w, some e) =
      undo m res e e switches stored (revert_counting w)
  selected spec plan m res switches stored (w, none) =
      let c = final_check spec m res.egress_before in
      concluded spec plan m (with_check res c)
        (record { world = w; switches = switches; stored = stored }) c.reason c.is_ok

  -- Behind applyRoutes.
  abbrev pub routed :
      UseExitSpec
      → UseExitPlan
      → Meets
      → UseExitResult
      → Switches
      → Option VpnState
      → World × Result RouteError (Unit {0})
      → Host × UseExitResult × Option SelectError
  routed spec plan m res switches stored (w, err e) =
      undo m res (routes_failed e) (routes_failed e) switches stored (revert_counting w)
  routed spec plan m res switches stored (w, ok done) =
      selected spec plan m res switches stored (set_exit_node plan.gate_ip w)

  -- Behind Arm.
  abbrev pub armed :
      UseExitSpec
      → UseExitPlan
      → Meets
      → UseExitResult
      → Host
      → Switches × Result DeadmanError ℕ
      → Host × UseExitResult × Option SelectError
  armed spec plan m res s (switches, err e) =
      (record s { switches = switches }, res, some (not_armed e))
  armed spec plan m res s (switches, ok pid) =
      routed spec plan m res switches s.stored (apply_routes r text plan.routes s.world)

  abbrev pub arm_spec : UseExitSpec → Meets → ArmSpec
  arm_spec spec m = record {
    after = spec.deadman;
    tailscale_path = command_prefix m.sudo m.tailscale_path;
    exclusion_revert = revert_exclusions_script text m.sudo m.ip_path;
  }

  -- Behind the first measurement of the host.
  abbrev pub measured_before :
      UseExitSpec
      → UseExitPlan
      → Meets
      → UseExitResult
      → Host
      → Result String Egress
      → Host × UseExitResult × Option SelectError
  measured_before spec plan m res s (err e) = (s, res, some (host_not_measurable e))
  measured_before spec plan m res s (ok egress) =
      let res' = record res {
        egress_before = egress.ip;
        container_before = some m.container_before;
      } in
      if str_eq m.container_before.ip "" && str_eq spec.expect_egress ""
      then (s, res', some (containers_not_measurable m.container_before.problem))
      else armed spec plan m res' s (arm text.trim (arm_spec spec m) m.arm_calls s.switches)

  -- The first test of a plan.
  abbrev pub unless_refused :
      UseExitSpec
      → UseExitPlan
      → Meets
      → Host
      → Option Refusal
      → Host × UseExitResult × Option SelectError
  unless_refused spec plan m s (some x) =
      (s, record no_result { reason = some x }, some (scope_refused x))
  unless_refused spec plan m s none =
      measured_before spec plan m
        (record no_result { gate = plan.gate.name; gate_ip = plan.gate_ip }) s m.host_before

  -- UseExit behind its plan.
  unfoldable pub use_planned :
      UseExitSpec
      → Meets
      → Host
      → Result PrepareError UseExitPlan
      → Host × UseExitResult × Option SelectError
  unfolding revert_counting
  use_planned spec m s (err e) = (s, no_result, some (plan_failed e))
  use_planned spec m s (ok plan) = unless_refused spec plan m s plan.refusal

  -- UseExit.
  unfoldable pub use_exit :
      Net → Surroundings → UseExitSpec → Meets → Host → Host × UseExitResult × Option SelectError
  unfolding use_planned plan_use_exit
  use_exit net env spec m s =
      use_planned (with_defaults spec) m s (plan_use_exit net env (with_defaults spec))

  abbrev pub stood : Result DeadmanError Bool → Bool
  stood (ok b) = b
  stood (err e) = false

  abbrev pub forgotten : Meets → Option VpnState → Option VpnState × Option SelectError
  forgotten m none = elim m.state_path [
    | some e ↦ (none, some (state_file e))
    | none ↦ elim m.state_load [ some e ↦ (none, some (state_file e)) | none ↦ (none, none) ]
  ]
  forgotten m (some v) = store m (cleared_selection (some v)) (some v)

  -- Behind the revert of ClearExit.
  abbrev pub cleared :
      Meets
      → Switches
      → Option VpnState
      → Bool
      → World × ℕ × Option SelectError
      → Host × ClearExitResult × Option SelectError
  cleared m switches stored stood_down (w, removed, some e) = (
    record { world = w; switches = switches; stored = stored },
    record { exclusions_removed = removed; deadman_stood_down = stood_down },
    some e,
  )
  cleared m switches stored stood_down (w, removed, none) =
      let (stored', e) = forgotten m stored in
      (
        record {
          world = (remove_boot_guard r text exists w).0;
          switches = switches;
          stored = stored';
        },
        record { exclusions_removed = removed; deadman_stood_down = stood_down },
        e,
      )

  -- ClearExit. The measurements that it reports are left out, and so are the tests of a nil
  -- runner and of the platform, since this is the path of linux.
  unfoldable pub clear_exit : Meets → Host → Host × ClearExitResult × Option SelectError
  unfolding revert_counting remove_boot_guard store
  clear_exit m s =
      let (switches, d) = disarm m.disarm_calls s.switches in
      if str_eq m.tailscale_path ""
      then (s, record { exclusions_removed = 0; deadman_stood_down = false }, some not_installed)
      else cleared m switches s.stored (stood d) (revert_counting s.world)
