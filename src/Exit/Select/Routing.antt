-- ===== src/Exit/Select/Routing.antt =====
-- Where packets go behind UseExit of internal/vpn/usexit.go, and that a revert or a ClearExit leaves
-- none of its rules.
use aw_remote_host.Common.{
  [], if◌then◌else◌, ok, ℕ, String, ◌≡◌, refl, ◌∙◌, Bool, true, false, some, List, ◌∷◌, map, str_eq,
  Result, ap, Option, none, arith,
}
use aw_remote_host.Runner.{Runner}
use aw_remote_host.Deadman.{Switches, disarm, DeadmanError}
use aw_remote_host.Deadman.Guarded.{IsGuarded}
use aw_remote_host.Exit.Outcome.{Meets, VpnState, SelectError, not_installed, ClearExitResult}
use aw_remote_host.Exit.Rules.{
  Text, mem, mesh_preserve_priority, exclusion_priority, container_route_priority,
  host_bypass_priority, mesh_prefix, route_priorities, bypass_rule, mesh_rule, exclusion_rule,
  container_rule, Exclusion, ContainerRoute, RoutePlan, clear_route_rules, RouteError,
}
use aw_remote_host.Exit.Select.{
  set_exit_node, cleared_rules, after_unset, revert_counting, use_planned, stood, cleared,
  clear_exit, Host,
}
use aw_remote_host.Exit.Prepare.{UseExitPlan, UseExitSpec, PrepareError}
use aw_remote_host.Exit.Select.InForce.{OnlyByIp, use_planned-InForce, remove-Keeps}
use aw_remote_host.Exit.Rules.Kernel.{Kernel}
use aw_remote_host.Exit.Rules.Applied.{apply_routes-IsApplied}
use aw_remote_host.Exit.Rules.Cleared.{Swept, clear_each-Swept}
use aw_remote_host.Exit.Select.Honest.{use_planned-IsHonest}
use aw_remote_host.Exit.Rules.Routed.{chosen, any, covers, chosen-planned}

-- The rules of a plan and no other of its priorities.
record IsInForce {r : Runner} {text : Text} (k : Kernel r text) (plan : RoutePlan) (w : r.World)
    : Type 0 where
  pub bypass : k.rules w host_bypass_priority ≡ bypass_rule ∷ []
  pub mesh : k.rules w mesh_preserve_priority ≡ mesh_rule ∷ []
  pub excluded : k.rules w exclusion_priority ≡ map exclusion_rule plan.exclusions
  pub routed : k.rules w container_route_priority ≡ map container_rule plan.containers

-- No command but ip changes the rules at the priorities of the module, which are reserved for it.
abbrev pub AreReserved : (r : Runner) (text : Text) → Kernel r text → Type 0
AreReserved r text k =
    (name : String) (args : List String) (w : r.World) (q : ℕ)
    → str_eq name "ip" ≡ false
    → mem q route_priorities ≡ true
    → k.rules (r.run name args w).0 q ≡ k.rules w q

module _ {r : Runner} {text : Text} (k : Kernel r text) where
  open r use {World}

  after_unset-IsGone :
      (exists : World → Bool) (x : World × Option SelectError)
      → (after_unset r text exists x).2 ≡ none
      → (q : ℕ) → mem q route_priorities ≡ true
      → k.rules (after_unset r text exists x).0 q ≡ []
  unfolding clear_route_rules
  after_unset-IsGone exists (w, some e) h = absurd (ground (arith, h))
  after_unset-IsGone exists (w, none) h =
      by_clear (clear_route_rules r text w) (clear_each-Swept k route_priorities 0 w) h
    where
      by_clear :
          (c : World × ℕ × Option RouteError)
          → Swept k route_priorities w c
          → (cleared_rules r text exists c).2 ≡ none
          → (q : ℕ) → mem q route_priorities ≡ true
          → k.rules (cleared_rules r text exists c).0 q ≡ []
      by_clear (w1, n, none) s h q m = s.gone refl q m
      by_clear (w1, n, some e) s h q m = absurd (ground (arith, h))

  revert_counting-IsGone :
      (exists : World → Bool) (w : World)
      → (revert_counting r text exists w).2 ≡ none
      → (q : ℕ) → mem q route_priorities ≡ true
      → k.rules (revert_counting r text exists w).0 q ≡ []
  unfolding revert_counting
  revert_counting-IsGone exists w = after_unset-IsGone exists (set_exit_node r text exists "" w)

  -- When UseExit reports that it reverted, none of its rules is left. It is assumed that every live
  -- switch was the recorded one, and that Arm's clean-up kill works.
  pub use_planned-IsGone :
      (exists : World → Bool) (spec : UseExitSpec) (m : Meets) (s : Host r text exists)
      (planned : Result PrepareError UseExitPlan) (q : ℕ)
      → m.arm_calls.clean_up ≡ none
      → IsGuarded s.switches
      → (use_planned r text exists spec m s planned).1.reverted ≡ true
      → mem q route_priorities ≡ true
      → k.rules (use_planned r text exists spec m s planned).0.world q ≡ []
  use_planned-IsGone exists spec m s planned q c g h o =
      let honest = use_planned-IsHonest r text exists spec m s planned c g in
      let (w, d, e) = honest.undone h in
      ap (λ w. k.rules w q) e ∙ revert_counting-IsGone exists w d q o

module _ {r : Runner} {text : Text} (k : Kernel r text) (reserved : AreReserved r text k) where
  open r use {World, run}

  only_by_ip : (plan : RoutePlan) → OnlyByIp r (IsInForce k plan)
  only_by_ip plan name args w n f = record {
    bypass = reserved name args w host_bypass_priority n refl ∙ f.bypass;
    mesh = reserved name args w mesh_preserve_priority n refl ∙ f.mesh;
    excluded = reserved name args w exclusion_priority n refl ∙ f.excluded;
    routed = reserved name args w container_route_priority n refl ∙ f.routed;
  }

  -- Behind a confirmed UseExit, packets to the mesh go to table 52, those to an excluded prefix to
  -- the main table, other packets from a container network of the plan to table 52, and all others,
  -- so those of the host, to the main table. It is assumed that no command but ip changes the rules
  -- at the four priorities.
  pub chosen-use_planned :
      {Address : Type 0} (inside : String → Address → Bool) (exists : World → Bool)
      (spec : UseExitSpec) (m : Meets) (s : Host r text exists) (plan : UseExitPlan)
      (source target : Address)
      → (use_planned r text exists spec m s (ok plan)).1.confirmed ≡ true
      → chosen inside source target (k.rules (use_planned r text exists spec m s (ok plan)).0.world)
        ≡ some (
            if covers inside mesh_prefix target
            then "52"
            else (if any (λ (e : Exclusion). covers inside e.prefix target) plan.routes.exclusions
                then "main"
                else (if any
                      (λ (c : ContainerRoute). covers inside c.prefix source)
                      plan.routes.containers
                    then "52"
                    else "main")))
  chosen-use_planned inside exists spec m s plan source target h =
      let f =
        use_planned-InForce r text exists (IsInForce k plan.routes) (only_by_ip plan.routes) spec m
          s plan
          (λ w d.
            let a = apply_routes-IsApplied k plan.routes w d in
            record { bypass = a.bypass; mesh = a.mesh; excluded = a.excluded; routed = a.routed })
          h in
      chosen-planned inside source target plan.routes _ f.mesh f.excluded f.routed f.bypass

  cleared-IsGone :
      (exists : World → Bool) (m : Meets) (switches : Switches) (stored : Option VpnState)
      (b : Bool) (x : World × ℕ × Option SelectError)
      → (x.2 ≡ none → (q : ℕ) → mem q route_priorities ≡ true → k.rules x.0 q ≡ [])
      → (cleared r text exists m switches stored b x).2 ≡ none
      → (q : ℕ) → mem q route_priorities ≡ true
      → k.rules (cleared r text exists m switches stored b x).0.world q ≡ []
  cleared-IsGone exists m switches stored b (w, n, some e) p h = absurd (ground (arith, h))
  cleared-IsGone exists m switches stored b (w, n, none) p h = λ q o.
      remove-Keeps r text exists (λ w. k.rules w q ≡ [])
        (λ name args w n e. reserved name args w q n o ∙ e) w (p refl q o)

  -- When ClearExit returns without an error, none of the rules of a selection is left. It is assumed
  -- that no command but ip changes the rules at the four priorities.
  pub clear_exit-IsGone :
      (exists : World → Bool) (m : Meets) (s : Host r text exists) (q : ℕ)
      → (clear_exit r text exists m s).2 ≡ none
      → mem q route_priorities ≡ true
      → k.rules (clear_exit r text exists m s).0.world q ≡ []
  unfolding clear_exit
  clear_exit-IsGone exists m s q = by_path (str_eq m.tailscale_path "")
    where
      d : Switches × Result DeadmanError Bool
      d = disarm m.disarm_calls s.switches

      outcome : Bool → Host r text exists × ClearExitResult × Option SelectError
      outcome b =
          if b
          then (
            s,
            record { exclusions_removed = 0; deadman_stood_down = false },
            some not_installed,
          )
          else cleared r text exists m d.0 s.stored (stood r text exists d.1)
              (revert_counting r text exists s.world)

      by_path :
          (b : Bool)
          → (outcome b).2 ≡ none
          → mem q route_priorities ≡ true
          → k.rules (outcome b).0.world q ≡ []
      by_path true h o = absurd (ground (arith, h))
      by_path false h o =
          cleared-IsGone exists m d.0 s.stored _ (revert_counting r text exists s.world)
            (λ e. revert_counting-IsGone k exists s.world e) h q o
