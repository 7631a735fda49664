-- ===== src/Firewall.antt =====
-- internal/firewall/firewall.go: a persisted rule, the resolved chain rule, the ordered rule list
-- that both backends install. A Go `int` is a ℤ; the rules only compare ports and priorities.
-- The children hold the order of evaluation, the iptables and the nft backend.
pub mod Order
pub mod Verdict
pub mod Iptables
pub mod Nft
pub mod Verbs
pub mod Honest
mod Tests
use aw_remote_host.Common.{String, Bool, List, [], ◌∷◌, ◌++◌, map, str_eq, if◌then◌else◌}
use aw_remote_host.Common.Int.{ℤ, pos, ltb_ℤ}

-- Rule.
pub record Rule : Type 0 where
  pub action : String
  pub protocol : String
  pub port_from : ℤ
  pub port_to : ℤ
  pub source_cidr : String
  pub interface : String
  pub priority : ℤ

-- chainRule.
pub record ChainRule : Type 0 where
  pub action : String
  pub protocol : String
  pub port_from : ℤ
  pub port_to : ℤ
  pub source_cidr : String
  pub interface : String
  pub state_match : String

-- The chainRule literal whose other fields are Go's zero values.
abbrev pub blank : String → ChainRule
blank action = record {
  action = action;
  protocol = "";
  port_from = pos 0;
  port_to = pos 0;
  source_cidr = "";
  interface = "";
  state_match = "";
}

-- rfc1918.
abbrev pub rfc1918 : List String
rfc1918 = "10.0.0.0/8" ∷ "172.16.0.0/12" ∷ "192.168.0.0/16" ∷ []

-- lanfastpath.DefaultPort.
abbrev pub lan_port : ℤ
lan_port = pos 8443

abbrev pub lan_rule : String → ChainRule
lan_rule cidr = record (blank "ACCEPT") {
  protocol = "tcp";
  port_from = lan_port;
  port_to = lan_port;
  source_cidr = cidr;
}

-- The part of the list that no user rule can remove.
unfoldable pub baseline : List ChainRule
baseline =
    record (blank "ACCEPT") { state_match = "ESTABLISHED,RELATED" }
    ∷ record (blank "ACCEPT") { interface = "lo" }
    ∷ record (blank "ACCEPT") { protocol = "tcp"; port_from = pos 22; port_to = pos 22 }
    ∷ map lan_rule rfc1918

-- sort.SliceStable by priority: `x` goes in front of the first rule that is not before it.
unfoldable pub insert_rule : Rule → List Rule → List Rule
insert_rule x [] = x ∷ []
insert_rule x (y ∷ ys) =
    let rest = insert_rule x ys in if ltb_ℤ y.priority x.priority then y ∷ rest else x ∷ y ∷ ys

unfoldable pub stable_sort : List Rule → List Rule
stable_sort [] = []
stable_sort (x ∷ xs) = insert_rule x (stable_sort xs)

-- The body of the loop over the sorted rules.
unfoldable pub to_chain_rule : Rule → ChainRule
to_chain_rule r = record {
  action = if str_eq r.action "allow" then "ACCEPT" else "DROP";
  protocol = r.protocol;
  port_from = r.port_from;
  port_to = r.port_to;
  source_cidr = r.source_cidr;
  interface = r.interface;
  state_match = "";
}

abbrev pub catch_all : Bool → List ChainRule
catch_all lockdown = if lockdown then blank "DROP" ∷ [] else []

-- buildRuleset.
unfoldable pub build_ruleset : List Rule → Bool → List ChainRule
build_ruleset rules lockdown =
    baseline ++ (map to_chain_rule (stable_sort rules) ++ catch_all lockdown)
