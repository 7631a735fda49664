-- ===== src/External/Route.antt =====
-- internal/vpn/externalroute.go: ExternalRoute behind its plan, with the confirmation (confirmExternal).
-- Measurements and the outcomes of other system calls are inputs; the narration is left out.
pub mod Moved
pub mod Honest
use Prim.Native.String.{◌++◌ as append}
use aw_remote_host.Common.{
  [], ltb, if◌then◌else◌, Result, ok, err, ℕ, zero, suc, ◌+◌, String, Bool, true, false, not, ◌&&◌,
  ◌||◌, Option, none, some, str_eq, List, ◌∷◌, ◌++◌, map, ◌<◌,
}
use aw_remote_host.Common.Int.{ℤ}
use aw_remote_host.Runner.{Runner}
use aw_remote_host.Deadman.{Switches, disarm, arm, ArmCalls, DisarmCalls, DeadmanError, ArmSpec}
use aw_remote_host.Exit.Confirm.{Egress, ContainerEgress}
use aw_remote_host.External.{
  Words, ExternalPlan, ExternalError, revert_external_route, Machine, dns_rules_for, rule_args,
  exclude_args, dns_rule_args, dns_update_args,
}
use aw_remote_host.External.Apply.{apply_external_route}

-- What one attempt of the confirmation measures.
pub record ExternalReadings : Type 0 where
  pub host : Result String Egress
  pub container : ContainerEgress

-- externalConfirmSpec.
pub record ExternalConfirmSpec : Type 0 where
  pub host_before : String
  pub container_before : String
  pub expected : String

pub data ExternalReason : Type 0 where
  host_unmeasured : String → ExternalReason
  host_elsewhere : String → String → ExternalReason
  container_unmeasured : String → ExternalReason
  unexpected : String → String → ExternalReason
  nothing_moved : String → ExternalReason

-- externalConfirmation.
pub record ExternalConfirmation : Type 0 where
  pub host_after : String
  pub host_held : Bool
  pub host_moved : Bool
  pub container_after : String
  pub is_ok : Bool
  pub reason : Option ExternalReason

abbrev pub unconfirmed : ExternalConfirmation
unconfirmed = record {
  host_after = "";
  host_held = false;
  host_moved = false;
  container_after = "";
  is_ok = false;
  reason = none;
}

abbrev pub judged :
    ExternalConfirmSpec → ContainerEgress → ExternalConfirmation → ExternalConfirmation
judged spec got c =
    if str_eq got.ip ""
    then record c { reason = some (container_unmeasured got.problem) }
    else (if not (str_eq spec.expected "")
        then (if not (str_eq got.ip spec.expected)
            then record c { reason = some (unexpected got.ip spec.expected) }
            else record c { is_ok = true })
        else (if not (str_eq spec.container_before "") && str_eq got.ip spec.container_before
            then record c { reason = some (nothing_moved got.ip) }
            else record c { is_ok = true }))

abbrev pub with_host :
    ExternalConfirmSpec → ContainerEgress → Result String Egress → ExternalConfirmation
with_host spec got (err e) = record unconfirmed { reason = some (host_unmeasured e) }
with_host spec got (ok host) =
    if not (str_eq host.ip spec.host_before)
    then record unconfirmed {
      host_after = host.ip;
      host_moved = true;
      reason = some (host_elsewhere spec.host_before host.ip);
    }
    else judged spec got
        (record unconfirmed { host_after = host.ip; host_held = true; container_after = got.ip })

-- externalConfirmOnce.
unfoldable pub external_confirm_once : ExternalConfirmSpec → ExternalReadings → ExternalConfirmation
external_confirm_once spec now = with_host spec now.container now.host

abbrev pub external_poll_interval : ℕ
external_poll_interval = 3000000000

-- The loop of confirmExternal from attempt `n` on; `late` tells whether the deadline is past behind
-- an attempt, `cancelled` whether the context ended before the next one. The first number counts the
-- attempts up to one behind which the deadline is past: there the loop returns in any case.
unfoldable pub confirm_from :
    ExternalConfirmSpec
    → (ℕ → ExternalReadings)
    → (ℕ → Bool)
    → (ℕ → Bool)
    → ℕ
    → ℕ
    → ExternalConfirmation
unfolding external_confirm_once
confirm_from spec readings late cancelled zero n = external_confirm_once spec (readings n)
confirm_from spec readings late cancelled (suc turns) n =
    let last = external_confirm_once spec (readings n) in
    let rest = confirm_from spec readings late cancelled turns (suc n) in
    if last.is_ok || last.host_moved || late n then last else (if cancelled n then last else rest)

pub record RouteResult : Type 0 where
  pub confirmed : Bool
  pub reverted : Bool
  pub deadman_still_armed : Bool
  pub host_moved : Bool
  pub dns_tunneled : Bool

abbrev pub no_route_result : RouteResult
no_route_result = record {
  confirmed = false;
  reverted = false;
  deadman_still_armed = false;
  host_moved = false;
  dns_tunneled = false;
}

pub data RouteFailure : Type 0 where
  refused : String → RouteFailure
  host_not_measured_before : String → RouteFailure
  container_not_measured_before : String → RouteFailure
  switch_not_armed : DeadmanError → RouteFailure
  not_applied : ExternalError → RouteFailure
  unconfirmed_and_stuck : RouteFailure
  unconfirmed_and_reverted : RouteFailure
  switch_not_stood_down : DeadmanError → RouteFailure
  route_not_saved : String → RouteFailure

-- What a run meets; `prefix` is what the privileged runner puts before a command.
pub record RouteMeets : Type 0 where
  pub host_before : Result String Egress
  pub container_before : ContainerEgress
  pub expect_egress : String
  pub readings : ℕ → ExternalReadings
  pub start : ℕ
  pub clock : ℕ → ℕ
  -- time goes on
  pub passes : (deadline : ℕ) → (n : ℕ) × (deadline < clock n)
  pub cancelled : ℕ → Bool
  pub confirm_timeout : ℕ
  pub deadman : ℤ
  pub prefix : String
  pub arm_calls : ArmCalls
  pub disarm_calls : DisarmCalls
  pub update : Option String

-- confirmExternal.
unfoldable pub confirm_external : RouteMeets → ExternalConfirmSpec → ExternalConfirmation
unfolding confirm_from
confirm_external m spec =
    confirm_from spec m.readings (λ n. ltb (m.start + m.confirm_timeout) (m.clock n)) m.cancelled
      (m.passes (m.start + m.confirm_timeout)).0 0

module _ (r : Runner) (t : Words) (image script config_dir : String) (trim : String → String) where
  open r use {World}

  abbrev pub Outcome : Type 0
  Outcome = Machine r t × RouteResult × Option RouteFailure

  abbrev pub disarm_failed : Result DeadmanError Bool → Bool
  disarm_failed (ok stood) = false
  disarm_failed (err e) = true

  abbrev pub after_revert :
      RouteResult
      → RouteFailure
      → World
      → Option ExternalPlan
      → Switches × Result DeadmanError Bool
      → Outcome
  after_revert res e w recorded (switches, d) = (
    record { world = w; switches = switches; recorded = recorded },
    record res { reverted = true; deadman_still_armed = disarm_failed d },
    some e,
  )

  -- revertExternalAfterFailure with the return behind it, and the same for a route that was not
  -- confirmed; `e'` is the error when the revert failed too.
  abbrev pub revert_then :
      RouteMeets
      → RouteResult
      → RouteFailure
      → RouteFailure
      → Switches
      → Option ExternalPlan
      → World × Option ExternalError
      → Outcome
  revert_then m res e e' switches recorded (w, none) =
      after_revert res e w recorded (disarm m.disarm_calls switches)
  revert_then m res e e' switches recorded (w, some x) = (
    record { world = w; switches = switches; recorded = recorded },
    record res { deadman_still_armed = true },
    some e',
  )

  -- saveExternalRouteState.
  abbrev pub save_route :
      Option String → ExternalPlan → World → Switches → Option ExternalPlan → RouteResult → Outcome
  save_route none p w s old res = (record { world = w; switches = s; recorded = some p }, res, none)
  save_route (some e) p w s old res =
      (record { world = w; switches = s; recorded = old }, res, some (route_not_saved e))

  abbrev pub behind_disarm :
      RouteMeets
      → ExternalPlan
      → RouteResult
      → World
      → Option ExternalPlan
      → Switches × Result DeadmanError Bool
      → Outcome
  behind_disarm m p res w recorded (switches, err e) = (
    record { world = w; switches = switches; recorded = recorded },
    record res { deadman_still_armed = true },
    some (switch_not_stood_down e),
  )
  behind_disarm m p res w recorded (switches, ok stood) =
      save_route m.update p w switches recorded res

  -- Behind confirmExternal, whose verdict is the last argument.
  abbrev pub decided :
      RouteMeets
      → ExternalPlan
      → RouteResult
      → World
      → Switches
      → Option ExternalPlan
      → Bool
      → Outcome
  decided m p res w switches recorded true =
      behind_disarm m p res w recorded (disarm m.disarm_calls switches)
  decided m p res w switches recorded false =
      revert_then m res unconfirmed_and_reverted unconfirmed_and_stuck switches recorded
        (revert_external_route r t p w)

  -- Behind applyExternalRoute.
  abbrev pub applied :
      RouteMeets
      → ExternalPlan
      → ExternalConfirmSpec
      → Switches
      → Option ExternalPlan
      → World × Result ExternalError Bool
      → Outcome
  applied m p spec switches recorded (w, err e) =
      revert_then m no_route_result (not_applied e) (not_applied e) switches recorded
        (revert_external_route r t p w)
  applied m p spec switches recorded (w, ok dns) =
      let c = confirm_external m spec in
      decided m p
        (record no_route_result {
          confirmed = c.is_ok;
          host_moved = c.host_moved;
          dns_tunneled = dns;
        })
        w switches recorded c.is_ok

  -- Behind Arm.
  abbrev pub behind_arm :
      RouteMeets
      → ExternalPlan
      → ExternalConfirmSpec
      → Machine r t
      → Switches × Result DeadmanError ℕ
      → Outcome
  behind_arm m p spec s (switches, err e) =
      (record s { switches = switches }, no_route_result, some (switch_not_armed e))
  behind_arm m p spec s (switches, ok pid) =
      applied m p spec switches s.recorded
        (apply_external_route r t image script config_dir p s.world)

  abbrev pub command_lines : String → List (List String) → List String
  command_lines before [] = []
  command_lines before (args ∷ more) =
      append before (append (t.join args) " || true") ∷ command_lines before more

  abbrev pub lines_joined : List String → String
  lines_joined [] = ""
  lines_joined (l ∷ []) = l
  lines_joined (l ∷ next ∷ ls) = append l (append "\n" (lines_joined (next ∷ ls)))

  abbrev pub dns_lines : String → ExternalPlan → List String → List String
  dns_lines prefix p [] = []
  dns_lines prefix p (s ∷ ss) =
      if str_eq p.dns_podman_path "" || str_eq p.dns_network ""
      then []
      else command_lines (append prefix (append p.dns_podman_path " "))
          (dns_update_args t p "--dns-drop" ∷ [])
        ++ command_lines (append prefix "ip ")
            (map (dns_rule_args t p "del") (dns_rules_for p.dns_servers p.dns_priority))

  -- externalRevertScript.
  unfoldable pub external_revert_script : String → ExternalPlan → String
  external_revert_script prefix p = lines_joined (
      dns_lines prefix p p.dns_servers
      ++ command_lines (append prefix "ip ")
          (rule_args t p "del" ∷ map (exclude_args t p "del") p.exclusions))

  abbrev pub external_arm_spec : RouteMeets → ExternalPlan → ArmSpec
  external_arm_spec m p = record {
    after = m.deadman;
    tailscale_path = "";
    exclusion_revert = external_revert_script m.prefix p;
  }

  abbrev pub behind_host : RouteMeets → ExternalPlan → Machine r t → Result String Egress → Outcome
  behind_host m p s (err e) = (s, no_route_result, some (host_not_measured_before e))
  behind_host m p s (ok host) =
      if str_eq m.container_before.ip "" && str_eq m.expect_egress ""
      then (s, no_route_result, some (container_not_measured_before m.container_before.problem))
      else behind_arm m p
          (record {
            host_before = host.ip;
            container_before = m.container_before.ip;
            expected = m.expect_egress;
          })
          s (arm trim (external_arm_spec m p) m.arm_calls s.switches)

  -- ExternalRoute behind PlanExternalRoute, which may refuse.
  unfoldable pub external_route : RouteMeets → ExternalPlan → Option String → Machine r t → Outcome
  unfolding confirm_external
  external_route m p (some refusal) s = (s, no_route_result, some (refused refusal))
  external_route m p none s = behind_host m p s m.host_before
