-- ===== src/Exit/Prepare/Sound.antt =====
-- What a plan of PlanUseExit of internal/vpn/usexit.go that is not refused promises.
use aw_remote_host.Common.{
  [], if◌then◌else◌, ok_injective, Result, ok, err, String, ◌≡◌, refl, ap, ◌∙◌, subst, Bool, true,
  false, not, Option, none, some, List, ◌∷◌, arith, str_eq,
}
use aw_remote_host.Common.Int.{ltb_ℤ}
use aw_remote_host.Exit.Plan.{Net, ExclusionPlan, PlanError, plan_exclusions}
use aw_remote_host.Exit.Gate.{Peer, PeerError, resolve_exit_peer}
use aw_remote_host.Exit.Prepare.{
  UseExitPlan, UseExitSpec, Surroundings, PrepareError, container_subnets, pick_probe_network,
  first_mesh_v4, shadow_refusal, routes_of, base_plan, unless_shadowed, with_probe, with_networks,
  networks_read, with_runtime, with_excluded, with_gate, with_status, on_platform, plan_use_exit,
  Refusal, nothing_attached, bad_timeouts, no_control_plane, not_running, Network,
}
use aw_remote_host.Exit.Plan.Excluded.{IsComplete, plan_exclusions-IsComplete}
use aw_remote_host.Exit.Gate.Usable.{IsGate, resolve_exit_peer-IsGate}

module _ (net : Net) (env : Surroundings) where
  -- A usable gate, every exclusion that is wanted, a switch that outlives the confirmation, and routes
  -- for the subnets of the runtime's networks, none of which has the pinned container.
  pub record IsSound (spec : UseExitSpec) (plan : UseExitPlan) : Type 0 where
    pub outlives : ltb_ℤ spec.confirm_timeout spec.deadman ≡ true
    pub gate : IsGate net env.peers (net.lower (net.trim spec.node)) plan.gate
    pub address : plan.gate_ip ≡ first_mesh_v4 net env plan.gate.ips
    pub complete : IsComplete net env.locals spec.exclude plan.exclusions
    pub excluded : plan.routes.exclusions ≡ plan.exclusions.exclusions
    pub nets : List Network
    pub known : env.networks ≡ ok nets
    pub routed : plan.routes.containers ≡ routes_of net env nets (container_subnets env.sort nets)
    pub unshadowed : shadow_refusal net env env.pinned (container_subnets env.sort nets) ≡ none

  -- What the steps of the plan have established.
  record IsBased (spec : UseExitSpec) (plan : UseExitPlan) : Type 0 where
    pub gate : IsGate net env.peers (net.lower (net.trim spec.node)) plan.gate
    pub address : plan.gate_ip ≡ first_mesh_v4 net env plan.gate.ips
    pub complete : IsComplete net env.locals spec.exclude plan.exclusions

  abbrev Outlives : UseExitSpec → Type 0
  Outlives spec = ltb_ℤ spec.confirm_timeout spec.deadman ≡ true

  with_probe-IsSound :
      (spec : UseExitSpec) (plan : UseExitPlan) (nets : List Network) (probe : String)
      → Outlives spec
      → IsBased spec plan
      → env.networks ≡ ok nets
      → (with_probe net env plan nets probe).refusal ≡ none
      → IsSound spec (with_probe net env plan nets probe)
  with_probe-IsSound spec plan nets probe o b k = by_probe (str_eq probe "")
    where
      plan' : UseExitPlan
      plan' = record plan { probe_network = probe }

      by_shadow :
          (x : Option Refusal)
          → shadow_refusal net env env.pinned (container_subnets env.sort nets) ≡ x
          → (unless_shadowed net env plan' nets x).refusal ≡ none
          → IsSound spec (unless_shadowed net env plan' nets x)
      by_shadow (some x) e h = absurd (ground (arith, h))
      by_shadow none e h = record {
        outlives = o;
        gate = b.gate;
        address = b.address;
        complete = b.complete;
        excluded = refl;
        nets = nets;
        known = k;
        routed = refl;
        unshadowed = e;
      }

      outcome : Bool → UseExitPlan
      outcome t =
          if t
          then record plan { refusal = some nothing_attached }
          else unless_shadowed net env plan' nets
              (shadow_refusal net env env.pinned (container_subnets env.sort nets))

      by_probe : (t : Bool) → (outcome t).refusal ≡ none → IsSound spec (outcome t)
      by_probe true h = absurd (ground (arith, h))
      by_probe false h = by_shadow _ refl h

  with_networks-IsSound :
      (spec : UseExitSpec) (plan : UseExitPlan) (nets : List Network)
      → Outlives spec
      → IsBased spec plan
      → env.networks ≡ ok nets
      → (with_networks net env plan nets).refusal ≡ none
      → IsSound spec (with_networks net env plan nets)
  with_networks-IsSound spec plan [] o b k h = absurd (ground (arith, h))
  with_networks-IsSound spec plan (n ∷ ns) o b k h =
      with_probe-IsSound spec plan (n ∷ ns) (pick_probe_network plan.runtime (n ∷ ns)) o b k h

  abbrev Promises : UseExitSpec → Result PrepareError UseExitPlan → Type 0
  Promises spec r = (plan : UseExitPlan) → r ≡ ok plan → plan.refusal ≡ none → IsSound spec plan

  networks_read-Promises :
      (spec : UseExitSpec) (plan : UseExitPlan) (x : Result String (List Network))
      → Outlives spec
      → IsBased spec plan
      → env.networks ≡ x
      → Promises spec (networks_read net env plan x)
  networks_read-Promises spec plan (err e) o b k p h n = absurd (ground (arith, h))
  networks_read-Promises spec plan (ok nets) o b k p h n =
      let e = ok_injective _ _ h in
      subst (IsSound spec) e
        (with_networks-IsSound spec plan nets o b k (ap (λ (q : UseExitPlan). q.refusal) e ∙ n))

  with_runtime-Promises :
      (spec : UseExitSpec) (plan : UseExitPlan) (x : Result String String)
      → Outlives spec
      → IsBased spec plan
      → Promises spec (with_runtime net env plan x)
  with_runtime-Promises spec plan (err e) o b p h n =
      let f = ap (λ (q : UseExitPlan). q.refusal) (ok_injective _ _ h) ∙ n in
      absurd (ground (arith, f))
  with_runtime-Promises spec plan (ok name) o b p h n =
      networks_read-Promises spec (record plan { runtime = name }) env.networks o
        (record { gate = b.gate; address = b.address; complete = b.complete }) refl p h n

  with_excluded-Promises :
      (spec : UseExitSpec) (gate : Peer) (x : Result PlanError ExclusionPlan)
      → Outlives spec
      → IsGate net env.peers (net.lower (net.trim spec.node)) gate
      → plan_exclusions net spec.control_plane env.locals spec.exclude env.resolve ≡ x
      → Promises spec (with_excluded net env gate x)
  with_excluded-Promises spec gate (err e) o g f = λ p h n. absurd (ground (arith, h))
  with_excluded-Promises spec gate (ok x) o g f =
      with_runtime-Promises spec (base_plan net env gate x) env.runtime o (record {
        gate = g;
        address = refl;
        complete =
            plan_exclusions-IsComplete net spec.control_plane env.locals spec.exclude env.resolve x
              f;
      })

  with_gate-Promises :
      (spec : UseExitSpec) (x : Result PeerError Peer)
      → Outlives spec
      → resolve_exit_peer net env.peers spec.node ≡ x
      → Promises spec (with_gate net env spec x)
  with_gate-Promises spec (err e) o f = λ p h n. absurd (ground (arith, h))
  with_gate-Promises spec (ok gate) o f =
      with_excluded-Promises spec gate _ o (resolve_exit_peer-IsGate net env.peers spec.node gate f)
        refl

  with_status-Promises :
      (spec : UseExitSpec) (x : Result String String)
      → Outlives spec
      → Promises spec (with_status net env spec x)
  with_status-Promises spec (err e) o = λ p h n. absurd (ground (arith, h))
  with_status-Promises spec (ok state) o = by_state (str_eq state "Running")
    where
      by_state :
          (b : Bool)
          → Promises spec (
              if b
              then with_gate net env spec (resolve_exit_peer net env.peers spec.node)
              else err (not_running state))
      by_state true = with_gate-Promises spec _ o refl
      by_state false = λ p h n. absurd (ground (arith, h))

  -- A plan of PlanUseExit that is not refused has the dead-man's switch outlive the confirmation, names
  -- the first peer that was asked for, which offers an exit and is online, excludes exactly what has to
  -- stay outside the tunnel, and routes the subnets of the runtime's networks, when none of them has
  -- the container that is pinned to an external tunnel.
  pub plan_use_exit-IsSound :
      (spec : UseExitSpec) (plan : UseExitPlan)
      → plan_use_exit net env spec ≡ ok plan
      → plan.refusal ≡ none
      → IsSound spec plan
  unfolding plan_use_exit
  plan_use_exit-IsSound spec =
      by_times (ltb_ℤ spec.confirm_timeout spec.deadman) (str_eq (net.trim spec.control_plane) "")
        env.ineligible env.unsupported refl
    where
      by_times :
          (t c : Bool) (x y : Option String)
          → ltb_ℤ spec.confirm_timeout spec.deadman ≡ t
          → Promises spec (
              if not t
              then err (bad_timeouts spec.deadman spec.confirm_timeout)
              else (if c then err no_control_plane else on_platform net env spec x y))
      by_times false c x y o p h n = absurd (ground (arith, h))
      by_times true true x y o p h n = absurd (ground (arith, h))
      by_times true false (some e) y o p h n = absurd (ground (arith, h))
      by_times true false none (some e) o p h n = absurd (ground (arith, h))
      by_times true false none none o p h n = with_status-Promises spec env.backend_state o p h n
