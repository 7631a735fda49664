-- ===== src/External/Tests.antt =====
-- A host whose rules cannot be read, and one that loses its rule.
use aw_remote_host.Common.{
  [], ◌==◌, if◌then◌else◌, err, String, ◌≡◌, refl, Bool, true, false, none, some, List, ◌∷◌, str_eq,
  ok, ◌*◌, arith, suc, ◌/◌,
}
use aw_remote_host.Runner.{Runner, Reply}
use aw_remote_host.Deadman.{DisarmCalls}
use aw_remote_host.External.{
  Words, ExternalPlan, rule_installed, remove_rule, remove_exclusions, unread_rules, Machine,
}
use aw_remote_host.Common.Int.{pos}
use aw_remote_host.External.Route.{
  RouteMeets, external_poll_interval, confirm_external, external_route, external_revert_script,
}

abbrev words : Words
words = record {
  itoa = λ n. if n == 52 then "52" else "5390";
  lines = λ s. s ∷ [];
  fields =
      λ s. if str_eq s "rule" then "5390" ∷ "from" ∷ "10.88.0.5" ∷ "lookup" ∷ "52" ∷ [] else [];
  trim_suffix = λ s suffix. s;
  join = λ ss. "";
  contains = λ s part. false;
  first_line = λ s. s;
  commas = λ s. s ∷ [];
  trim = λ s. s;
}

abbrev route : ExternalPlan
route = record {
  container_id = "c0ffee";
  tunnel_dev = "wg0";
  source_ip = "10.88.0.5";
  table = 52;
  priority = 5390;
  exclusions = [];
  main_gateway = "192.168.7.1";
  main_dev = "eth0";
  dns_servers = [];
  dns_network = "";
  dns_podman_path = "";
  dns_prior = [];
  dns_priority = 0;
}

-- The rule is there or not; it can be shown or not.
abbrev second : List String → String
second (a ∷ b ∷ rest) = b
second few = ""

abbrev act : Bool → List String → Bool → Bool × Reply
act readable args rule =
    if str_eq (second args) "show"
    then (
      rule,
      record {
        output = if rule then "rule" else "";
        failure = if readable then none else some "exit status 1";
      },
    )
    else (if str_eq (second args) "del"
        then (false, record { output = ""; failure = none })
        else (rule, record { output = ""; failure = none }))

abbrev host : Bool → Runner
host readable = record { World = Bool; run = λ name args w. act readable args w }

abbrev calm : DisarmCalls
calm = record { load = none; kill = none; remove_file = none }

abbrev routed : Machine (host false) words
routed = record {
  world = true;
  switches = record { recorded = none; alive = λ p. false };
  recorded = some route;
}

rules_unread : (rule_installed (host false) words route true).1 ≡ err (unread_rules "exit status 1")
unfolding rule_installed
rules_unread = refl

nothing_excluded :
    (remove_exclusions
      (host false)
      words
      route
      []
      (rule_installed (host false) words route true).0).1
    ≡ none
unfolding remove_exclusions
nothing_excluded = refl

removed : (remove_rule (host true) words route 8 true).1 ≡ none
unfolding remove_rule
removed = refl

abbrev meeting : RouteMeets
meeting = record {
  host_before = ok (record { ip = "85.1.1.1"; via = "" });
  container_before = record {
    runtime = "podman";
    network = "";
    ip = "85.1.1.1";
    via = "";
    problem = "";
  };
  expect_egress = "51.2.2.2";
  readings = λ n. record {
    host = ok (record { ip = "85.1.1.1"; via = "" });
    container = record {
      runtime = "podman";
      network = "";
      ip = "51.2.2.2";
      via = "";
      problem = "";
    };
  };
  start = 0;
  clock = λ n. n * external_poll_interval;
  passes = λ deadline. (suc (deadline / external_poll_interval), omega arith);
  cancelled = λ n. false;
  confirm_timeout = 45000000000;
  deadman = pos 120;
  prefix = "";
  arm_calls = record {
    disarm_calls = calm;
    open_log = none;
    start = none;
    pid = 42;
    visible = true;
    clean_up = none;
    save = none;
  };
  disarm_calls = calm;
  update = none;
}

abbrev unmarked : Machine (host true) words
unmarked = record {
  world = false;
  switches = record { recorded = none; alive = λ p. false };
  recorded = none;
}

-- The run confirms the route.
run_confirms :
    (external_route
      (host true)
      words
      "curl"
      "nslookup"
      "/run"
      (λ s. s)
      meeting
      route
      none
      unmarked).2
    ≡ none
unfolding external_route confirm_external aw_remote_host.Deadman.arm aw_remote_host.Deadman.disarm
    aw_remote_host.Deadman.disarm_recorded aw_remote_host.Deadman.launch
    aw_remote_host.Deadman.confirm aw_remote_host.External.Apply.apply_external_route rule_installed
    aw_remote_host.External.attempt external_revert_script
run_confirms = refl
