-- ===== src/Exit/Tests.antt =====
-- Runs of an exit selection on the simulated machine.
use aw_remote_host.Common.{
  [], if◌then◌else◌, length, ℕ, suc, String, ◌≡◌, refl, Bool, none, some, List, ◌∷◌, arith, str_eq,
  true, false, ◌==◌, ok, err, ◌<◌, ◌↔◌, ◌*◌, ltb, Result, ◌+◌, ◌/◌,
}
use aw_remote_host.Exit.Outcome.{Meets}
use aw_remote_host.Exit.Rules.{
  apply_routes, RoutePlan, clear_rules_at_priority, install_mesh, mesh_prefix, Exclusion,
  ContainerRoute,
}
use aw_remote_host.Exit.Rules.Kernel.{Rules}
use aw_remote_host.Exit.Rules.Enough.{clear_rules_at_priority-none_iff}
use aw_remote_host.Exit.Rules.Applied.{IsApplied, apply_routes-IsApplied, IsBare}
use aw_remote_host.Exit.Rules.Restored.{FewRules, apply_routes-IsBare}
use aw_remote_host.Exit.Rules.Routed.{chosen, any, covers}
use aw_remote_host.Deadman.{Switches, DisarmCalls}
use aw_remote_host.Deadman.Guarded.{IsGuarded}
use aw_remote_host.Common.Int.{pos}
use aw_remote_host.Exit.Plan.{Net, normalise_prefix}
use aw_remote_host.Exit.Gate.{Peer}
use aw_remote_host.Exit.Confirm.{
  Egress, confirm_poll_interval, ContainerEgress, Readings, confirm_container_scoped,
  confirm_with_retries, ConfirmSpec,
}
use aw_remote_host.Exit.Prepare.{
  Surroundings, with_defaults, UseExitSpec, UseExitPlan, plan_use_exit, PrepareError,
}
use aw_remote_host.Exit.Select.{use_planned, Host, use_exit, clear_exit}
use aw_remote_host.Exit.Plan.Extended.{member}
use aw_remote_host.Exit.Plan.Excluded.{wanted}
use aw_remote_host.Exit.Prepare.Sound.{IsSound, plan_use_exit-IsSound}
use aw_remote_host.Exit.Select.Held.{use_exit-held}
use aw_remote_host.Exit.Select.Routing.{use_planned-IsGone, chosen-use_planned, clear_exit-IsGone}
use aw_remote_host.Exit.Confirm.Proven.{IsProven, confirm_container_scoped-IsProven}
use aw_remote_host.Exit.Confirm.Ended.{Ended, confirm_with_retries-Ended}
use aw_remote_host.Exit.Simulated.{
  simulated_reserves, words, simulated, simulated_kernel, simulated_permits, last_of,
}

-- A machine with rules of its own and one that an earlier run left.
abbrev host : Rules
host p =
    if p == 5270
    then ("from" ∷ "all" ∷ "lookup" ∷ "52" ∷ []) ∷ []
    else (if p == 5261 then ("from" ∷ "10.0.0.0/24" ∷ "lookup" ∷ "52" ∷ []) ∷ [] else [])

abbrev plan : RoutePlan
plan = record {
  containers = record { prefix = "10.88.0.0/16"; networks = "podman" ∷ [] } ∷ [];
  exclusions = record { prefix = "192.168.0.0/16"; reason = "private" } ∷ [];
}

abbrev accepting : List String → Bool
accepting rule = false

abbrev refusing : List String → Bool
refusing rule = str_eq (last_of "" rule) "52"

plan_applies : (apply_routes (simulated accepting) words plan host).1 ≡ ok tt
unfolding apply_routes
plan_applies = refl

apply_routes-IsApplied_example :
    IsApplied
      (simulated_kernel accepting)
      plan
      host
      (apply_routes (simulated accepting) words plan host).0
apply_routes-IsApplied_example =
    apply_routes-IsApplied (simulated_kernel accepting) plan host plan_applies

-- No memory for a rule into table 52: the one that keeps the mesh.
plan_fails :
    (apply_routes (simulated refusing) words plan host).1
    ≡ err (install_mesh "exit status 2" "no memory")
unfolding apply_routes
plan_fails = refl

host_short : (q : ℕ) → length (host q) < 64
host_short q = ground arith

host_few : FewRules (simulated_kernel refusing) host
host_few q m = host_short q

apply_routes-IsBare_example :
    IsBare (simulated_kernel refusing) host (apply_routes (simulated refusing) words plan host).0
apply_routes-IsBare_example =
    apply_routes-IsBare (simulated_kernel refusing) (simulated_permits refusing) plan host
      (install_mesh "exit status 2" "no memory") host_few (omega arith) (omega arith) plan_fails

clear_rules_at_priority-none_iff_example :
    ((clear_rules_at_priority (simulated accepting) words 5261 host).2 ≡ none)
    ↔ (length ((simulated_kernel accepting).rules host 5261) < 64)
clear_rules_at_priority-none_iff_example =
    clear_rules_at_priority-none_iff (simulated_kernel accepting) (simulated_permits accepting) 5261
      host

-- The packages net and strings on the texts of the scenario.
abbrev packages : Net
packages = record {
  to4 = λ s. some s;
  parse_cidr = λ s. ok (s, true);
  split_host_port = λ s. none;
  trim = λ s. s;
  trim_suffix = λ s suffix. s;
  lower = λ s. s;
  equal_fold = str_eq;
  contains = λ s part. false;
  index = λ s part. none;
  index_any = λ s chars. none;
  cut = λ n s. s;
  skip = λ n s. s;
}

abbrev gateway : Peer
gateway = record {
  name = "gate";
  dns_name = "gate.mesh";
  ips = "100.64.0.7" ∷ [];
  online = true;
  offers_exit = true;
}

abbrev mesh_of_two : Surroundings
mesh_of_two = record {
  ineligible = none;
  unsupported = none;
  backend_state = ok "Running";
  peers = record gateway { name = "other"; dns_name = "other.mesh"; ips = [] } ∷ gateway ∷ [];
  locals = record { iface = "eth0"; prefix = "192.168.7.0/24" } ∷ [];
  resolve = λ name. err "not asked";
  runtime = ok "podman";
  networks = ok (record { name = "podman"; subnets = "10.88.0.0/16" ∷ []; attached = 2 } ∷ []);
  pinned = some (record { container = "db"; source_ip = "172.18.0.5" });
  within = str_eq;
  sort = λ ss. ss;
}

abbrev wish : UseExitSpec
wish = record {
  control_plane = "65.109.66.88";
  node = "gate";
  expect_egress = "";
  exclude = "10.9.0.1" ∷ [];
  deadman = pos 0;
  confirm_timeout = pos 0;
  persist_across_reboot = false;
}

abbrev egress_of : String → ContainerEgress
egress_of ip = record {
  runtime = "podman";
  network = "podman";
  ip = ip;
  via = "https://api.ipify.org";
  problem = "";
}

abbrev here : Egress
here = record { ip = "85.1.1.1"; via = "https://1.1.1.1/cdn-cgi/trace" }

-- The first attempt still finds the containers where they were.
abbrev measuring : ℕ → Readings
measuring n = record {
  device = ok "eth0";
  host = ok here;
  unreachable = none;
  container = egress_of (if n == 0 then "85.1.1.1" else "51.2.2.2");
}

abbrev calm : DisarmCalls
calm = record { load = none; kill = none; remove_file = none }

-- Time goes on with the polls.
abbrev polled : (deadline : ℕ) → (n : ℕ) × (deadline < n * confirm_poll_interval)
polled deadline = (suc (deadline / confirm_poll_interval), omega arith)

abbrev meeting : Meets
meeting = record {
  host_before = ok here;
  container_before = egress_of "85.1.1.1";
  readings = measuring;
  start = 0;
  clock = λ n. n * confirm_poll_interval;
  passes = polled;
  arm_calls = record {
    disarm_calls = calm;
    open_log = none;
    start = none;
    pid = 42;
    visible = true;
    clean_up = none;
    save = none;
  };
  disarm_calls = calm;
  state_path = none;
  state_load = none;
  state_save = none;
  tailscale_path = "/usr/bin/tailscale";
  ip_path = "/usr/sbin/ip";
  sudo = false;
}

abbrev no_unit : Rules → Bool
no_unit w = false

abbrev unarmed : Switches
unarmed = record { recorded = none; alive = λ p. false }

unarmed-IsGuarded : IsGuarded unarmed
unarmed-IsGuarded = record { only = λ p a. absurd (ground (arith, a)) }

abbrev ready : (full : List String → Bool) → Host (simulated full) words no_unit
ready full = record { world = host; switches = unarmed; stored = none }

abbrev plan_of : Result PrepareError UseExitPlan → UseExitPlan
plan_of (ok p) = p
plan_of (err e) = record {
  gate = gateway;
  gate_ip = "";
  exclusions = record { exclusions = []; control_plane_host = ""; control_plane_ips = [] };
  runtime = "";
  probe_network = "";
  routes = plan;
  refusal = none;
}

abbrev made_plan : UseExitPlan
made_plan = plan_of (plan_use_exit packages mesh_of_two (with_defaults wish))

plan_made : plan_use_exit packages mesh_of_two (with_defaults wish) ≡ ok made_plan
unfolding plan_use_exit
plan_made = refl

plan_unrefused : made_plan.refusal ≡ none
unfolding plan_use_exit
plan_unrefused = refl

plan_use_exit-IsSound_example : IsSound packages mesh_of_two (with_defaults wish) made_plan
plan_use_exit-IsSound_example =
    plan_use_exit-IsSound packages mesh_of_two (with_defaults wish) made_plan plan_made
      plan_unrefused

exit_confirms :
    (use_exit
      (simulated accepting)
      words
      no_unit
      packages
      mesh_of_two
      wish
      meeting
      (ready accepting)).1.confirmed
    ≡ true
unfolding use_exit aw_remote_host.Deadman.arm aw_remote_host.Deadman.disarm
    aw_remote_host.Deadman.disarm_recorded aw_remote_host.Deadman.launch
    aw_remote_host.Deadman.confirm apply_routes confirm_with_retries
exit_confirms = refl

private_wanted :
    member "10.0.0.0/8"
      (wanted packages made_plan.exclusions.control_plane_ips mesh_of_two.locals wish.exclude)
    ≡ true
unfolding plan_use_exit normalise_prefix
private_wanted = refl

use_exit-held_example :
    chosen str_eq "10.88.0.0/16" "10.0.0.0/8" (
      (simulated_kernel accepting).rules
        (use_exit
          (simulated accepting)
          words
          no_unit
          packages
          mesh_of_two
          wish
          meeting
          (ready accepting)).0.world)
    ≡ some "main"
use_exit-held_example =
    use_exit-held (simulated_kernel accepting) (simulated_reserves accepting) str_eq no_unit
      packages mesh_of_two wish meeting (ready accepting) made_plan "10.0.0.0/8" "10.88.0.0/16"
      "10.0.0.0/8" plan_made exit_confirms private_wanted refl refl

plan_confirms :
    (use_planned
      (simulated accepting)
      words
      no_unit
      (with_defaults wish)
      meeting
      (ready accepting)
      (ok made_plan)).1.confirmed
    ≡ true
unfolding use_planned plan_use_exit aw_remote_host.Deadman.arm aw_remote_host.Deadman.disarm
    aw_remote_host.Deadman.disarm_recorded aw_remote_host.Deadman.launch
    aw_remote_host.Deadman.confirm apply_routes confirm_with_retries
plan_confirms = refl

-- What the theorem says of a container's packet to the internet.
chosen-use_planned_example :
    chosen str_eq "10.88.0.0/16" "1.1.1.1" (
      (simulated_kernel accepting).rules
        (use_planned
          (simulated accepting)
          words
          no_unit
          (with_defaults wish)
          meeting
          (ready accepting)
          (ok made_plan)).0.world)
    ≡ some (
        if covers str_eq mesh_prefix "1.1.1.1"
        then "52"
        else (if any
              (λ (e : Exclusion). covers str_eq e.prefix "1.1.1.1")
              made_plan.routes.exclusions
            then "main"
            else (if any
                  (λ (c : ContainerRoute). covers str_eq c.prefix "10.88.0.0/16")
                  made_plan.routes.containers
                then "52"
                else "main")))
chosen-use_planned_example =
    chosen-use_planned (simulated_kernel accepting) (simulated_reserves accepting) str_eq no_unit
      (with_defaults wish) meeting (ready accepting) made_plan "10.88.0.0/16" "1.1.1.1"
      plan_confirms

-- No rule into table 52 can be added, so the selection is reverted.
plan_reverts :
    (use_planned
      (simulated refusing)
      words
      no_unit
      (with_defaults wish)
      meeting
      (ready refusing)
      (ok made_plan)).1.reverted
    ≡ true
unfolding use_planned plan_use_exit aw_remote_host.Deadman.arm aw_remote_host.Deadman.disarm
    aw_remote_host.Deadman.disarm_recorded aw_remote_host.Deadman.launch
    aw_remote_host.Deadman.confirm apply_routes confirm_with_retries
plan_reverts = refl

use_planned-IsGone_example :
    (simulated_kernel refusing).rules
      (use_planned
        (simulated refusing)
        words
        no_unit
        (with_defaults wish)
        meeting
        (ready refusing)
        (ok made_plan)).0.world
      5261
    ≡ []
use_planned-IsGone_example =
    use_planned-IsGone (simulated_kernel refusing) no_unit (with_defaults wish) meeting
      (ready refusing) (ok made_plan) 5261 refl unarmed-IsGuarded plan_reverts refl

clear_works : (clear_exit (simulated accepting) words no_unit meeting (ready accepting)).2 ≡ none
unfolding clear_exit aw_remote_host.Deadman.disarm aw_remote_host.Deadman.disarm_recorded
clear_works = refl

clear_exit-IsGone_example :
    (simulated_kernel accepting).rules
      (clear_exit (simulated accepting) words no_unit meeting (ready accepting)).0.world
      5261
    ≡ []
clear_exit-IsGone_example =
    clear_exit-IsGone (simulated_kernel accepting) (simulated_reserves accepting) no_unit meeting
      (ready accepting) 5261 clear_works refl

abbrev checking : ConfirmSpec
checking = record { host_before = "85.1.1.1"; container = egress_of "85.1.1.1"; expected = "" }

second_confirms : (confirm_container_scoped checking (measuring 1)).is_ok ≡ true
unfolding confirm_container_scoped
second_confirms = refl

confirm_container_scoped-IsProven_example : IsProven checking (measuring 1)
confirm_container_scoped-IsProven_example =
    confirm_container_scoped-IsProven checking (measuring 1) second_confirms

confirm_with_retries-Ended_example :
    Ended checking measuring
      (λ n. ltb (0 + 45000000000) (n * confirm_poll_interval))
      0
      (suc (45000000000 / confirm_poll_interval))
      (confirm_with_retries checking measuring 0
        (λ n. n * confirm_poll_interval)
        45000000000
        (polled (0 + 45000000000)))
confirm_with_retries-Ended_example =
    confirm_with_retries-Ended checking measuring 0 (λ n. n * confirm_poll_interval) 45000000000
      (polled (0 + 45000000000)) (omega arith) (λ n. omega arith)
