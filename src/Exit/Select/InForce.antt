-- ===== src/Exit/Select/InForce.antt =====
-- The routes that are in force behind UseExit and ClearExit of internal/vpn/usexit.go.
use aw_remote_host.Common.{
  [], if◌then◌else◌, Result, ok, err, ℕ, String, ◌≡◌, refl, sym, subst, Bool, true, false, Option,
  none, some, List, ◌∷◌, arith, str_eq, ◌&&◌,
}
use aw_remote_host.Runner.{Runner, Step, ◌>>◌, resume}
use aw_remote_host.Deadman.{Switches, disarm, DeadmanError, arm}
use aw_remote_host.Exit.Outcome.{
  Meets, VpnState, SelectError, containers_not_measurable, skipped, UseExitResult,
}
use aw_remote_host.Exit.Rules.{Text, RouteError, apply_routes}
use aw_remote_host.Exit.Confirm.{Egress, Reason}
use aw_remote_host.Exit.BootGuard.{
  GuardError, boot_guard_unit_name, boot_guard_path, guard_step, install_boot_guard,
  remove_boot_guard, write_unit, reload, enable_unit, disable_unit, remove_unit,
}
use aw_remote_host.Exit.Select.{
  set_exit_node, revert_counting, undo, guarded, guard_boot, stood_down, concluded, selected,
  routed, armed, arm_spec, measured_before, unless_refused, use_planned, Host,
}
use aw_remote_host.Exit.Prepare.{UseExitPlan, UseExitSpec, Refusal}

-- Only the command ip changes what `P` says of the world.
abbrev pub OnlyByIp : (r : Runner) → (r.World → Type 0) → Type 0
OnlyByIp r P =
    (name : String) (args : List String) (w : r.World)
    → str_eq name "ip" ≡ false
    → P w
    → P (r.run name args w).0

module _ (r : Runner) (text : Text) (exists : r.World → Bool) (P : r.World → Type 0)
    (only : OnlyByIp r P) where
  open r use {World, run}

  abbrev Keeps : Step World GuardError (Unit {0}) → Type 0
  Keeps f = (w : World) → P w → P (f w).0

  guard_step-Keeps :
      (wrong : String → String → GuardError) (name : String) (args : List String)
      → str_eq name "ip" ≡ false
      → Keeps (guard_step r text wrong name args)
  unfolding guard_step
  guard_step-Keeps wrong name args n w p = only name args w n p

  then-Keeps : (f g : Step World GuardError (Unit {0})) → Keeps f → Keeps g → Keeps (f >> g)
  then-Keeps f g kf kg w p = by_result (f w) (kf w p)
    where
      by_result : (x : World × Result GuardError (Unit {0})) → P x.0 → P (resume x (λ _. g)).0
      by_result (w1, ok done) p = kg w1 p
      by_result (w1, err e) p = p

  install-Keeps :
      (tailscale_path ip_path : String) → Keeps (install_boot_guard r text tailscale_path ip_path)
  unfolding install_boot_guard
  install-Keeps tailscale_path ip_path =
      then-Keeps _ _
        (then-Keeps _ _ (guard_step-Keeps write_unit "sh" _ refl)
          (guard_step-Keeps reload "systemctl" _ refl))
        (guard_step-Keeps enable_unit "systemctl" _ refl)

  pub remove-Keeps : Keeps (remove_boot_guard r text exists)
  unfolding remove_boot_guard
  remove-Keeps w p = by_file (exists w)
    where
      by_file :
          (b : Bool)
          → P
              (if b
                then (guard_step r text disable_unit "systemctl"
                        ("disable" ∷ boot_guard_unit_name ∷ [])
                      >> guard_step r text remove_unit "rm" ("-f" ∷ boot_guard_path ∷ [])
                      >> guard_step r text reload "systemctl" ("daemon-reload" ∷ []))
                    w
                else (w, ok tt)).0
      by_file false = p
      by_file true =
          let disable =
            guard_step r text disable_unit "systemctl" ("disable" ∷ boot_guard_unit_name ∷ []) in
          let remove = guard_step r text remove_unit "rm" ("-f" ∷ boot_guard_path ∷ []) in
          let again = guard_step r text reload "systemctl" ("daemon-reload" ∷ []) in
          then-Keeps (disable >> remove) again
            (then-Keeps disable remove (guard_step-Keeps disable_unit "systemctl" _ refl)
              (guard_step-Keeps remove_unit "rm" _ refl))
            (guard_step-Keeps reload "systemctl" _ refl) w p

  set_exit_node-Keeps : (ip : String) (w : World) → P w → P (set_exit_node r text exists ip w).0
  unfolding set_exit_node
  set_exit_node-Keeps ip w p = only "tailscale" _ w refl p

  guarded-fst : (x : World × Result GuardError (Unit {0})) → (guarded r text exists x).0 ≡ x.0
  guarded-fst (w, ok done) = refl
  guarded-fst (w, err e) = refl

  guard_boot-Keeps :
      (spec : UseExitSpec) (m : Meets) (w : World) → P w → P (guard_boot r text exists spec m w).0
  unfolding guard_boot
  guard_boot-Keeps spec m w p = by_persist spec.persist_across_reboot
    where
      by_persist :
          (b : Bool)
          → P
              (if b
                then ((remove_boot_guard r text exists w).0, skipped)
                else guarded r text exists
                    (install_boot_guard r text m.tailscale_path m.ip_path w)).0
      by_persist true = remove-Keeps w p
      by_persist false =
          subst P (sym (guarded-fst (install_boot_guard r text m.tailscale_path m.ip_path w)))
            (install-Keeps m.tailscale_path m.ip_path w p)

  -- What a confirmed outcome has of the world.
  abbrev pub InForce : Host r text exists × UseExitResult × Option SelectError → Type 0
  InForce out = out.1.confirmed ≡ true → P out.0.world

  undo-InForce :
      (m : Meets) (res : UseExitResult) (e e' : SelectError) (switches : Switches)
      (stored : Option VpnState) (x : World × ℕ × Option SelectError)
      → res.confirmed ≡ false
      → InForce (undo r text exists m res e e' switches stored x)
  undo-InForce m res e e' switches stored (w, n, none) c h = absurd (ground (arith, c, h))
  undo-InForce m res e e' switches stored (w, n, some y) c h = absurd (ground (arith, c, h))

  concluded-InForce :
      (spec : UseExitSpec) (plan : UseExitPlan) (m : Meets) (res : UseExitResult)
      (s : Host r text exists) (why : Option Reason) (good : Bool)
      → res.confirmed ≡ good
      → P s.world
      → InForce (concluded r text exists spec plan m res s why good)
  concluded-InForce spec plan m res s why false c p =
      undo-InForce m res _ _ s.switches s.stored (revert_counting r text exists s.world) c
  concluded-InForce spec plan m res s why true c p = by_disarm (disarm m.disarm_calls s.switches)
    where
      by_disarm :
          (x : Switches × Result DeadmanError Bool)
          → InForce (stood_down r text exists spec plan m res s.world s.stored x)
      by_disarm (switches, err e) h = p
      by_disarm (switches, ok b) h = guard_boot-Keeps spec m s.world p

  selected-InForce :
      (spec : UseExitSpec) (plan : UseExitPlan) (m : Meets) (res : UseExitResult)
      (switches : Switches) (stored : Option VpnState) (x : World × Option SelectError)
      → res.confirmed ≡ false
      → P x.0
      → InForce (selected r text exists spec plan m res switches stored x)
  selected-InForce spec plan m res switches stored (w, some e) c p =
      undo-InForce m res e e switches stored (revert_counting r text exists w) c
  selected-InForce spec plan m res switches stored (w, none) c p =
      concluded-InForce spec plan m _ (record { world = w; switches = switches; stored = stored }) _
        _ refl p

  routed-InForce :
      (spec : UseExitSpec) (plan : UseExitPlan) (m : Meets) (res : UseExitResult)
      (switches : Switches) (stored : Option VpnState) (x : World × Result RouteError (Unit {0}))
      → res.confirmed ≡ false
      → (x.1 ≡ ok tt → P x.0)
      → InForce (routed r text exists spec plan m res switches stored x)
  routed-InForce spec plan m res switches stored (w, err e) c p =
      undo-InForce m res _ _ switches stored (revert_counting r text exists w) c
  routed-InForce spec plan m res switches stored (w, ok done) c p =
      selected-InForce spec plan m res switches stored (set_exit_node r text exists plan.gate_ip w)
        c (set_exit_node-Keeps plan.gate_ip w (p refl))

  armed-InForce :
      (spec : UseExitSpec) (plan : UseExitPlan) (m : Meets) (res : UseExitResult)
      (s : Host r text exists) (x : Switches × Result DeadmanError ℕ)
      → res.confirmed ≡ false
      → ((w : World)
          → (apply_routes r text plan.routes w).1 ≡ ok tt
          → P (apply_routes r text plan.routes w).0)
      → InForce (armed r text exists spec plan m res s x)
  armed-InForce spec plan m res s (switches, err e) c p = λ h. absurd (ground (arith, c, h))
  armed-InForce spec plan m res s (switches, ok pid) c p =
      routed-InForce spec plan m res switches s.stored (apply_routes r text plan.routes s.world) c
        (p s.world)

  measured_before-InForce :
      (spec : UseExitSpec) (plan : UseExitPlan) (m : Meets) (res : UseExitResult)
      (s : Host r text exists) (x : Result String Egress)
      → res.confirmed ≡ false
      → ((w : World)
          → (apply_routes r text plan.routes w).1 ≡ ok tt
          → P (apply_routes r text plan.routes w).0)
      → InForce (measured_before r text exists spec plan m res s x)
  measured_before-InForce spec plan m res s (err e) c p = λ h. absurd (ground (arith, c, h))
  measured_before-InForce spec plan m res s (ok egress) c p =
      by_baseline (str_eq m.container_before.ip "" && str_eq spec.expect_egress "")
    where
      res' : UseExitResult
      res' = record res { egress_before = egress.ip; container_before = some m.container_before }

      by_baseline :
          (b : Bool)
          → InForce (
              if b
              then (s, res', some (containers_not_measurable m.container_before.problem))
              else armed r text exists spec plan m res' s
                  (arm text.trim (arm_spec r text exists spec m) m.arm_calls s.switches))
      by_baseline true = λ h. absurd (ground (arith, c, h))
      by_baseline false = armed-InForce spec plan m res' s _ c p

  -- What ApplyRoutes establishes and no command but ip changes holds behind a confirmed UseExit.
  pub use_planned-InForce :
      (spec : UseExitSpec) (m : Meets) (s : Host r text exists) (plan : UseExitPlan)
      → ((w : World)
          → (apply_routes r text plan.routes w).1 ≡ ok tt
          → P (apply_routes r text plan.routes w).0)
      → InForce (use_planned r text exists spec m s (ok plan))
  unfolding use_planned
  use_planned-InForce spec m s plan p = by_refusal plan.refusal
    where
      by_refusal : (x : Option Refusal) → InForce (unless_refused r text exists spec plan m s x)
      by_refusal (some x) = λ h. absurd (ground (arith, h))
      by_refusal none = measured_before-InForce spec plan m _ s m.host_before refl p
