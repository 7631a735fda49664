-- ===== src/External.antt =====
-- internal/vpn/externalroute.go: one container's traffic through a tunnel that this host ends. Its
-- rules and routes, how they are read back and removed, the verdict of a confirmation, and
-- ExternalUnroute. What the packages strings and strconv do is a parameter.
pub mod Undone
pub mod Apply
pub mod Route
mod Tests
use Prim.Native.String.{◌++◌ as append}
use aw_remote_host.Common.{
  [], ltb, if◌then◌else◌, Result, ok, err, ℕ, zero, suc, String, Bool, true, false, ◌&&◌, ◌||◌,
  Option, none, some, List, ◌∷◌, ◌++◌, map, str_eq,
}
use aw_remote_host.Runner.{Runner}
use aw_remote_host.Deadman.{Switches, disarm, DisarmCalls}

-- strconv.Itoa, strings.Split by line ends, strings.Fields, strings.TrimSuffix, strings.Join by
-- spaces, strings.Contains, firstLine, strings.Split by commas, strings.TrimSpace.
pub record Words : Type 0 where
  pub itoa : ℕ → String
  pub lines : String → List String
  pub fields : String → List String
  pub trim_suffix : String → String → String
  pub join : List String → String
  pub contains : String → String → Bool
  pub first_line : String → String
  pub commas : String → List String
  pub trim : String → String

-- The part of ExternalRoutePlan that installs and removes.
pub record ExternalPlan : Type 0 where
  pub container_id : String
  pub tunnel_dev : String
  pub source_ip : String
  pub table : ℕ
  pub priority : ℕ
  pub exclusions : List String
  pub main_gateway : String
  pub main_dev : String
  pub dns_servers : List String
  pub dns_network : String
  pub dns_podman_path : String
  pub dns_prior : List String
  pub dns_priority : ℕ

pub record DnsRule : Type 0 where
  pub dns : String
  pub proto : String
  pub priority : ℕ

pub data ExternalError : Type 0 where
  unread_rules : String → ExternalError
  unread_routes : String → ExternalError
  not_held_outside : String → String → ExternalError
  rule_not_installed : String → ExternalError
  rule_not_removed : String → ExternalError
  exclusion_not_removed : String → String → ExternalError
  upstream_not_dropped : String → ExternalError
  upstream_not_restored : String → String → ExternalError
  dns_rule_not_removed : DnsRule → String → ExternalError
  state_not_updated : String → ExternalError

abbrev pub external_route_dns_priority : ℕ
external_route_dns_priority = 5400

abbrev pub rules_from : ℕ → List String → List DnsRule
rules_from priority [] = []
rules_from priority (dns ∷ servers) =
    record { dns = dns; proto = "udp"; priority = priority }
    ∷ record { dns = dns; proto = "tcp"; priority = suc priority }
    ∷ rules_from (suc (suc priority)) servers

-- dnsRulesFor.
abbrev pub dns_rules_for : List String → ℕ → List DnsRule
dns_rules_for servers base =
    rules_from (if ltb 0 base then base else external_route_dns_priority) servers

abbrev pub paired : String → List String → List String
paired verb [] = []
paired verb (d ∷ ds) = verb ∷ d ∷ paired verb ds

abbrev pub among : List String → String → Bool
among [] x = false
among (y ∷ ys) x = str_eq y x || among ys x

abbrev pub last_of : String → List String → String
last_of x [] = x
last_of x (y ∷ ys) = last_of y ys

abbrev pub any_line : (List String → Bool) → List (List String) → Bool
any_line p [] = false
any_line p (l ∷ ls) = p l || any_line p ls

-- The error that is reported: the first one.
abbrev pub first_error : Option ExternalError → Option ExternalError → Option ExternalError
first_error none later = later
first_error (some e) later = some e

module _ (t : Words) where
  -- ruleArgs.
  abbrev pub rule_args : ExternalPlan → String → List String
  rule_args p verb =
      "rule"
      ∷ verb
      ∷ "from"
      ∷ append p.source_ip "/32"
      ∷ "lookup"
      ∷ t.itoa p.table
      ∷ "priority"
      ∷ t.itoa p.priority
      ∷ []

  -- excludeArgs.
  abbrev pub exclude_args : ExternalPlan → String → String → List String
  exclude_args p verb prefix =
      ("route" ∷ verb ∷ prefix ∷ "via" ∷ p.main_gateway ∷ "dev" ∷ p.main_dev ∷ [])
      ++ ((if str_eq verb "add" then "onlink" ∷ [] else []) ++ "table" ∷ t.itoa p.table ∷ [])

  -- dnsRuleArgs.
  abbrev pub dns_rule_args : ExternalPlan → String → DnsRule → List String
  dns_rule_args p verb ru =
      "rule"
      ∷ verb
      ∷ "to"
      ∷ append ru.dns "/32"
      ∷ "ipproto"
      ∷ ru.proto
      ∷ "dport"
      ∷ "53"
      ∷ "lookup"
      ∷ t.itoa p.table
      ∷ "priority"
      ∷ t.itoa ru.priority
      ∷ []

  -- dnsUpdateArgs.
  abbrev pub dns_update_args : ExternalPlan → String → List String
  dns_update_args p verb = "network" ∷ "update" ∷ p.dns_network ∷ paired verb p.dns_servers

  abbrev pub is_rule_line : ExternalPlan → List String → Bool
  is_rule_line p (a ∷ b ∷ c ∷ d ∷ rest) =
      str_eq (t.trim_suffix a ":") (t.itoa p.priority)
      && str_eq b "from"
      && str_eq (t.trim_suffix c "/32") p.source_ip
      && str_eq (last_of d rest) (t.itoa p.table)
  is_rule_line p short = false

  abbrev pub is_dns_line : ExternalPlan → DnsRule → List String → Bool
  is_dns_line p ru (a ∷ b ∷ c ∷ d ∷ rest) =
      let joined = append " " (append (t.join (b ∷ c ∷ d ∷ rest)) " ") in
      str_eq (t.trim_suffix a ":") (t.itoa ru.priority)
      && str_eq (last_of d rest) (t.itoa p.table)
      && t.contains joined (append " to " (append (t.trim_suffix ru.dns "/32") " "))
      && t.contains joined (append " ipproto " (append ru.proto " "))
      && t.contains joined " dport 53 "
  is_dns_line p ru short = false

  abbrev pub is_route_line : String → List String → Bool
  is_route_line prefix [] = false
  is_route_line prefix (a ∷ rest) = str_eq a prefix || str_eq a (t.trim_suffix prefix "/32")

module _ (r : Runner) (t : Words) where
  open r use {World, run}

  abbrev pub Reading : Type 0
  Reading = World × Result ExternalError Bool

  -- One `ip … show` and whether a line of it answers a test.
  unfoldable pub look :
      (String → ExternalError) → List String → (List String → Bool) → World → Reading
  look wrong args test w =
      let (w1, reply) = run "ip" args w in
      (
        w1,
        elim reply.failure [
          | none ↦ ok (any_line test (map t.fields (t.lines reply.output)))
          | some e ↦ err (wrong e)
        ],
      )

  -- ruleInstalled.
  unfoldable pub rule_installed : ExternalPlan → World → Reading
  unfolding look
  rule_installed p = look unread_rules ("rule" ∷ "show" ∷ []) (is_rule_line t p)

  -- dnsRuleInstalled.
  unfoldable pub dns_rule_installed : ExternalPlan → DnsRule → World → Reading
  unfolding look
  dns_rule_installed p ru = look unread_rules ("rule" ∷ "show" ∷ []) (is_dns_line t p ru)

  -- routeInstalled.
  unfoldable pub route_installed : ExternalPlan → String → World → Reading
  unfolding look
  route_installed p prefix =
      look unread_routes ("route" ∷ "show" ∷ "table" ∷ t.itoa p.table ∷ []) (is_route_line t prefix)

  -- A command whose failure is kept.
  unfoldable pub attempt :
      (String → ExternalError) → String → List String → World → World × Option ExternalError
  attempt wrong name args w =
      let (w1, reply) = run name args w in
      (w1, elim reply.failure [ none ↦ none | some e ↦ some (wrong e) ])

  abbrev pub unless_absent :
      (World → World × Option ExternalError) → Reading → World × Option ExternalError
  unless_absent remove (w, ok false) = (w, none)
  unless_absent remove (w, ok true) = remove w
  unless_absent remove (w, err e) = remove w

  -- Some removals one after the other, with the first error.
  abbrev pub both :
      (World → World × Option ExternalError)
      → (World → World × Option ExternalError)
      → World
      → World × Option ExternalError
  both f g w = let (w1, e1) = f w in let (w2, e2) = g w1 in (w2, first_error e1 e2)

  abbrev pub nothing : World → World × Option ExternalError
  nothing w = (w, none)

  unfoldable pub restore_upstreams :
      ExternalPlan → List String → World → World × Option ExternalError
  unfolding attempt
  restore_upstreams p [] = nothing
  restore_upstreams p (prior ∷ priors) =
      both
        (if among p.dns_servers prior
          then nothing
          else attempt (upstream_not_restored prior) p.dns_podman_path
              ("network" ∷ "update" ∷ p.dns_network ∷ "--dns-add" ∷ prior ∷ []))
        (restore_upstreams p priors)

  unfoldable pub remove_dns_rules :
      ExternalPlan → List DnsRule → World → World × Option ExternalError
  unfolding attempt dns_rule_installed
  remove_dns_rules p [] = nothing
  remove_dns_rules p (ru ∷ rus) =
      both
        (λ w.
          unless_absent (attempt (dns_rule_not_removed ru) "ip" (dns_rule_args t p "del" ru))
            (dns_rule_installed p ru w))
        (remove_dns_rules p rus)

  abbrev pub drop_upstreams : ExternalPlan → World → World × Option ExternalError
  drop_upstreams p =
      if str_eq p.dns_podman_path "" || str_eq p.dns_network ""
      then nothing
      else both (attempt upstream_not_dropped p.dns_podman_path (dns_update_args t p "--dns-drop"))
          (restore_upstreams p p.dns_prior)

  abbrev pub for_servers : ExternalPlan → List String → World → World × Option ExternalError
  for_servers p [] = nothing
  for_servers p (s ∷ ss) =
      both (drop_upstreams p) (remove_dns_rules p (dns_rules_for p.dns_servers p.dns_priority))

  -- revertTunnelDNS.
  unfoldable pub revert_tunnel_dns : ExternalPlan → World → World × Option ExternalError
  unfolding restore_upstreams remove_dns_rules
  revert_tunnel_dns p = for_servers p p.dns_servers

  abbrev pub after_removal :
      World × Option ExternalError → World × Option ExternalError → World × Option ExternalError
  after_removal (w, none) rest = rest
  after_removal (w, some e) rest = (w, some e)

  abbrev pub if_installed : Reading → World × Option ExternalError → World × Option ExternalError
  if_installed (w, ok true) removed = removed
  if_installed (w, ok false) removed = (w, none)
  if_installed (w, err e) removed = (w, none)

  -- The loop of revertExternalRoute that removes the rule; `turns` of its eight are left.
  unfoldable pub remove_rule : ExternalPlan → ℕ → World → World × Option ExternalError
  unfolding attempt rule_installed
  remove_rule p zero w = (w, none)
  remove_rule p (suc turns) w =
      let seen = rule_installed p w in
      let gone = attempt rule_not_removed "ip" (rule_args t p "del") seen.0 in
      let rest = remove_rule p turns gone.0 in if_installed seen (after_removal gone rest)

  unfoldable pub remove_exclusions :
      ExternalPlan → List String → World → World × Option ExternalError
  unfolding attempt route_installed
  remove_exclusions p [] = nothing
  remove_exclusions p (prefix ∷ prefixes) =
      both
        (λ w.
          unless_absent
            (attempt (exclusion_not_removed prefix) "ip" (exclude_args t p "del" prefix))
            (route_installed p prefix w))
        (remove_exclusions p prefixes)

  -- An error of the rule takes the place of one before it.
  abbrev pub last_error : Option ExternalError → Option ExternalError → Option ExternalError
  last_error before none = before
  last_error before (some e) = some e

  -- The end of revertExternalRoute, behind an error of the DNS half and the removal of the rule.
  abbrev pub closing :
      ExternalPlan
      → Option ExternalError
      → World × Option ExternalError
      → World × Option ExternalError
  closing p before (w, failed) =
      let (w1, e) = remove_exclusions p p.exclusions w in
      (w1, first_error (last_error before failed) e)

  abbrev pub behind_dns : ExternalPlan → World × Option ExternalError → World × Option ExternalError
  behind_dns p (w, before) = closing p before (remove_rule p 8 w)

  -- revertExternalRoute.
  unfoldable pub revert_external_route : ExternalPlan → World → World × Option ExternalError
  unfolding revert_tunnel_dns remove_rule remove_exclusions
  revert_external_route p w = behind_dns p (revert_tunnel_dns p w)

  -- The machine: the world behind the runner, the switches and the recorded route.
  pub record Machine : Type 0 where
    pub world : World
    pub switches : Switches
    pub recorded : Option ExternalPlan

  abbrev pub forgotten :
      Option String → World → Switches → Option ExternalPlan → Machine × Bool × Option ExternalError
  forgotten (some e) w s old =
      (record { world = w; switches = s; recorded = old }, true, some (state_not_updated e))
  forgotten none w s old = (record { world = w; switches = s; recorded = none }, true, none)

  abbrev pub unrouted :
      DisarmCalls
      → Option String
      → Machine
      → World × Option ExternalError
      → Machine × Bool × Option ExternalError
  unrouted calls update s (w, some e) = (record s { world = w }, false, some e)
  unrouted calls update s (w, none) = forgotten update w (disarm calls s.switches).0 s.recorded

  -- ExternalUnroute: whether it reports that it reverted, and its error. `update` is the failure of
  -- the update of the state file; the measurements that it reports are left out.
  unfoldable pub external_unroute :
      DisarmCalls → Option String → Machine → Machine × Bool × Option ExternalError
  unfolding revert_external_route
  external_unroute calls update s = elim s.recorded [
    | none ↦ (s, true, none)
    | some p ↦ unrouted calls update s (revert_external_route p s.world)
  ]
