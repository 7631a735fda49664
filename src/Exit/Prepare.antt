-- ===== src/Exit/Prepare.antt =====
-- internal/vpn/usexit.go and containers.go: what UseExit does before it touches anything, PlanUseExit
-- on linux. What it asks of the machine is an input.
pub mod Sound
use aw_remote_host.Common.{
  [], ltb, if◌then◌else◌, Result, ok, err, ℕ, String, Bool, false, not, ◌||◌, Option, none, some,
  List, ◌∷◌, ◌++◌, str_eq,
}
use aw_remote_host.Common.Int.{ℤ, pos, ltb_ℤ}
use aw_remote_host.Exit.Rules.{RoutePlan, ContainerRoute}
use aw_remote_host.Exit.Plan.{Net, ExclusionPlan, PlanError, plan_exclusions, LocalPrefix}
use aw_remote_host.Exit.Gate.{Peer, PeerError, resolve_exit_peer}

abbrev pub default_deadman_timeout : ℤ
default_deadman_timeout = pos 120000000000

abbrev pub default_confirm_timeout : ℤ
default_confirm_timeout = pos 45000000000

pub record UseExitSpec : Type 0 where
  pub control_plane : String
  pub node : String
  pub expect_egress : String
  pub exclude : List String
  pub deadman : ℤ
  pub confirm_timeout : ℤ
  pub persist_across_reboot : Bool

abbrev pub positive_or : ℤ → ℤ → ℤ
positive_or default given = if ltb_ℤ (pos 0) given then given else default

-- withDefaults.
abbrev pub with_defaults : UseExitSpec → UseExitSpec
with_defaults s = record s {
  deadman = positive_or default_deadman_timeout s.deadman;
  confirm_timeout = positive_or default_confirm_timeout s.confirm_timeout;
}

-- Why the containers of a host cannot be routed.
pub data Refusal : Type 0 where
  no_runtime : String → Refusal
  no_network : Refusal
  nothing_attached : Refusal
  shadows_tunnel : String → String → Refusal

-- UseExitPlan: the gate, what stays outside, the rules to install, and why nothing is to be done.
pub record UseExitPlan : Type 0 where
  pub gate : Peer
  pub gate_ip : String
  pub exclusions : ExclusionPlan
  pub runtime : String
  pub probe_network : String
  pub routes : RoutePlan
  pub refusal : Option Refusal

pub data PrepareError : Type 0 where
  bad_timeouts : ℤ → ℤ → PrepareError
  no_control_plane : PrepareError
  not_eligible : String → PrepareError
  no_platform : String → PrepareError
  status_failed : String → PrepareError
  not_running : String → PrepareError
  bad_gate : PeerError → PrepareError
  bad_exclusions : PlanError → PrepareError
  networks_failed : String → PrepareError

-- ContainerNetwork.
pub record Network : Type 0 where
  pub name : String
  pub subnets : List String
  pub attached : ℕ

-- A container that is pinned to an external tunnel.
pub record Pinned : Type 0 where
  pub container : String
  pub source_ip : String

-- What PlanUseExit asks: eligibility and platform (their refusals), the mesh, the attached networks,
-- the resolver, the runtime and its networks, and the external route, if one can be read.
-- `within cidr ip` is net.ParseCIDR with Contains, `sort` is sort.Strings.
pub record Surroundings : Type 0 where
  pub ineligible : Option String
  pub unsupported : Option String
  pub backend_state : Result String String
  pub peers : List Peer
  pub locals : List LocalPrefix
  pub resolve : String → Result String (List String)
  pub runtime : Result String String
  pub networks : Result String (List Network)
  pub pinned : Option Pinned
  pub within : String → String → Bool
  pub sort : List String → List String

abbrev pub one_of_strings : String → List String → Bool
one_of_strings s [] = false
one_of_strings s (x ∷ xs) = str_eq x s || one_of_strings s xs

-- The loops of ContainerSubnets, with what was seen so far, in its order.
unfoldable pub unseen : List String → List String → List String
unseen seen [] = seen
unseen seen (s ∷ ss) =
    let skipped = unseen seen ss in
    let kept = unseen (seen ++ s ∷ []) ss in if one_of_strings s seen then skipped else kept

abbrev pub all_subnets : List Network → List String
all_subnets [] = []
all_subnets (n ∷ ns) = n.subnets ++ all_subnets ns

-- ContainerSubnets.
unfoldable pub container_subnets : (List String → List String) → List Network → List String
unfolding unseen
container_subnets sort nets = sort (unseen [] (all_subnets nets))

abbrev pub named_for : String → String → List String → List String
named_for subnet name [] = []
named_for subnet name (s ∷ ss) =
    let rest = named_for subnet name ss in if str_eq s subnet then name ∷ rest else rest

-- NetworksFor.
unfoldable pub networks_for : List Network → String → List String
networks_for [] subnet = []
networks_for (n ∷ ns) subnet = named_for subnet n.name n.subnets ++ networks_for ns subnet

abbrev pub populated : List Network → List Network
populated [] = []
populated (n ∷ ns) = let rest = populated ns in if ltb 0 n.attached then n ∷ rest else rest

-- DefaultNetwork.
abbrev pub default_network : String → String
default_network runtime = if str_eq runtime "podman" then "podman" else "bridge"

abbrev pub first_name : List Network → String
first_name [] = ""
first_name (n ∷ ns) = n.name

abbrev pub named_or : String → String → List Network → String
named_or want other [] = other
named_or want other (n ∷ ns) =
    let rest = named_or want other ns in if str_eq n.name want then n.name else rest

-- PickProbeNetwork, without the reason.
unfoldable pub pick_probe_network : String → List Network → String
pick_probe_network runtime nets =
    named_or (default_network runtime) (first_name (populated nets)) (populated nets)

module _ (net : Net) (env : Surroundings) where
  -- FirstMeshV4.
  unfoldable pub first_mesh_v4 : List String → String
  first_mesh_v4 [] = ""
  first_mesh_v4 (ip ∷ ips) =
      let rest = first_mesh_v4 ips in if net.contains ip ":" then rest else ip

  abbrev pub shadowed : Pinned → List String → Option Refusal
  shadowed p [] = none
  shadowed p (subnet ∷ subnets) =
      let rest = shadowed p subnets in
      if env.within subnet p.source_ip then some (shadows_tunnel subnet p.container) else rest

  -- externalRouteShadowRefusal.
  unfoldable pub shadow_refusal : Option Pinned → List String → Option Refusal
  shadow_refusal none subnets = none
  shadow_refusal (some p) subnets = if str_eq p.source_ip "" then none else shadowed p subnets

  abbrev pub routes_of : List Network → List String → List ContainerRoute
  routes_of nets [] = []
  routes_of nets (subnet ∷ subnets) =
      record { prefix = subnet; networks = networks_for nets subnet } ∷ routes_of nets subnets

  abbrev pub base_plan : Peer → ExclusionPlan → UseExitPlan
  base_plan gate exclusions = record {
    gate = gate;
    gate_ip = first_mesh_v4 gate.ips;
    exclusions = exclusions;
    runtime = "";
    probe_network = "";
    routes = record { containers = []; exclusions = [] };
    refusal = none;
  }

  abbrev pub unless_shadowed : UseExitPlan → List Network → Option Refusal → UseExitPlan
  unless_shadowed plan nets (some x) = record plan { refusal = some x }
  unless_shadowed plan nets none = record plan {
    routes = record {
      containers = routes_of nets (container_subnets env.sort nets);
      exclusions = plan.exclusions.exclusions;
    };
  }

  abbrev pub with_probe : UseExitPlan → List Network → String → UseExitPlan
  with_probe plan nets probe =
      if str_eq probe ""
      then record plan { refusal = some nothing_attached }
      else unless_shadowed (record plan { probe_network = probe }) nets
          (shadow_refusal env.pinned (container_subnets env.sort nets))

  abbrev pub with_networks : UseExitPlan → List Network → UseExitPlan
  with_networks plan [] = record plan { refusal = some no_network }
  with_networks plan (n ∷ ns) = with_probe plan (n ∷ ns) (pick_probe_network plan.runtime (n ∷ ns))

  abbrev pub networks_read :
      UseExitPlan → Result String (List Network) → Result PrepareError UseExitPlan
  networks_read plan (err e) = err (networks_failed e)
  networks_read plan (ok nets) = ok (with_networks plan nets)

  abbrev pub with_runtime : UseExitPlan → Result String String → Result PrepareError UseExitPlan
  with_runtime plan (err e) = ok (record plan { refusal = some (no_runtime e) })
  with_runtime plan (ok name) = networks_read (record plan { runtime = name }) env.networks

  abbrev pub with_excluded : Peer → Result PlanError ExclusionPlan → Result PrepareError UseExitPlan
  with_excluded gate (err e) = err (bad_exclusions e)
  with_excluded gate (ok x) = with_runtime (base_plan gate x) env.runtime

  abbrev pub with_gate : UseExitSpec → Result PeerError Peer → Result PrepareError UseExitPlan
  with_gate spec (err e) = err (bad_gate e)
  with_gate spec (ok gate) =
      with_excluded gate
        (plan_exclusions net spec.control_plane env.locals spec.exclude env.resolve)

  abbrev pub with_status : UseExitSpec → Result String String → Result PrepareError UseExitPlan
  with_status spec (err e) = err (status_failed e)
  with_status spec (ok state) =
      if str_eq state "Running"
      then with_gate spec (resolve_exit_peer net env.peers spec.node)
      else err (not_running state)

  abbrev pub on_platform :
      UseExitSpec → Option String → Option String → Result PrepareError UseExitPlan
  on_platform spec (some e) unsupported = err (not_eligible e)
  on_platform spec none (some e) = err (no_platform e)
  on_platform spec none none = with_status spec env.backend_state

  -- PlanUseExit behind withDefaults.
  unfoldable pub plan_use_exit : UseExitSpec → Result PrepareError UseExitPlan
  unfolding plan_exclusions resolve_exit_peer shadow_refusal container_subnets pick_probe_network
  plan_use_exit spec =
      if not (ltb_ℤ spec.confirm_timeout spec.deadman)
      then err (bad_timeouts spec.deadman spec.confirm_timeout)
      else (if str_eq (net.trim spec.control_plane) ""
          then err no_control_plane
          else on_platform spec env.ineligible env.unsupported)
