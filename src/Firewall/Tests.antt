-- ===== src/Firewall/Tests.antt =====
-- A simulated iptables, and runs of the firewall on it.
use aw_remote_host.Common.{
  if◌then◌else◌, String, Bool, true, false, Option, none, some, List, [], ◌∷◌, arith, str_eq, ok,
  ◌≡◌, refl, ◌&&◌, ◌||◌, map, ℕ, ◌+◌,
}
use aw_remote_host.Runner.{Runner, Reply}
use aw_remote_host.Common.Int.{ℤ, pos, eqb_ℤ}
use aw_remote_host.Firewall.{
  Rule, ChainRule, insert_rule, stable_sort, to_chain_rule, baseline, build_ruleset,
}
use aw_remote_host.Firewall.Verbs.{
  Backend, conclude, apply_probed, firewall_apply, Persisted, Applied,
}
use aw_remote_host.Firewall.Honest.{Promised, firewall_apply-Promised}
use aw_remote_host.Firewall.Verdict.{verdict, promised, verdict-build_ruleset}
use aw_remote_host.Firewall.Iptables.{
  chain_in, chain_fwd, rule_spec, apply, fill_chain, ensure_chain, ensure_jump, forward_hook,
  apply_rules,
}
use aw_remote_host.Firewall.Iptables.Rebuild.{apply-chains}
use aw_remote_host.Firewall.Iptables.Kernel.{Kernel, Chains, put, add_last, add_first}

abbrev reply_of : Option String → Reply
reply_of e = record { output = ""; failure = e }

abbrev present : Option (List (List String)) → Bool
present none = false
present (some _) = true

abbrev without_position : List String → List String
without_position [] = []
without_position (x ∷ xs) = if str_eq x "1" then xs else x ∷ xs

-- A change of one chain that has to be there.
abbrev change : String → Option (List (List String)) → Chains → Chains × Reply
change c rules w =
    if present (w c) then (put c rules w, reply_of none) else (w, reply_of (some "no chain"))

-- The commands that iptables.go runs, on chains kept as a function. A check finds no jump.
abbrev simulate : List String → Chains → Chains × Reply
simulate [] w = (w, reply_of (some "usage"))
simulate (op ∷ []) w = (w, reply_of (some "usage"))
simulate (op ∷ c ∷ rest) w =
    if str_eq op "-N"
    then (if present (w c)
        then (w, reply_of (some "exists"))
        else (put c (some []) w, reply_of none))
    else (if str_eq op "-F"
        then change c (some []) w
        else (if str_eq op "-A"
            then change c (add_last rest (w c)) w
            else (if str_eq op "-I"
                then change c (add_first (without_position rest) (w c)) w
                else (w, reply_of (some "not found")))))

abbrev simulated : Runner
simulated = record { World = Chains; run = λ name args w. simulate args w }

simulate-check : (args : List String) (w : Chains) → (simulate ("-C" ∷ args) w).0 ≡ w
simulate-check [] w = refl
simulate-check (a ∷ args) w = refl

simulate-list : (args : List String) (w : Chains) → (simulate ("-nL" ∷ args) w).0 ≡ w
simulate-list [] w = refl
simulate-list (a ∷ args) w = refl

-- A command that fails changes nothing.
simulate-failed :
    (args : List String) (w : Chains) {e : String}
    → (simulate args w).1.failure ≡ some e
    → (simulate args w).0 ≡ w
simulate-failed [] w h = refl
simulate-failed (op ∷ []) w h = refl
simulate-failed (op ∷ c ∷ rest) w h = ground arith

-- Such a world meets what is relied on.
simulated_kernel : Kernel simulated
simulated_kernel = record {
  chains = λ w. w;
  created = λ w c h. ground arith;
  flushed = λ w c h. ground arith;
  appended = λ w c spec h. ground arith;
  inserted = λ w hook c h. ground arith;
  inserted_at_one = λ w hook c h. ground arith;
  checked = λ w args. simulate-check args w;
  listed = λ w args. simulate-list args w;
  failed = λ w args h. simulate-failed args w h;
}

-- A host whose hooks exist and whose own chain holds a leftover rule.
abbrev host : Chains
host =
    put chain_in (some (("-j" ∷ "LEFTOVER" ∷ []) ∷ []))
      (put "INPUT" (some []) (put "FORWARD" (some []) (λ d. none)))

abbrev itoa : ℤ → String
itoa n = "22"

abbrev deny_all : Rule
deny_all = record {
  action = "deny";
  protocol = "tcp";
  port_from = pos 0;
  port_to = pos 0;
  source_cidr = "";
  interface = "";
  priority = pos 5;
}

abbrev allow_udp : Rule
allow_udp = record deny_all { action = "allow"; protocol = "udp"; priority = pos 1 }

abbrev test_rules : List Rule
test_rules = deny_all ∷ allow_udp ∷ []

host_applies : (apply simulated itoa test_rules true host).1 ≡ ok tt
unfolding apply fill_chain ensure_chain ensure_jump forward_hook apply_rules build_ruleset baseline
    stable_sort insert_rule to_chain_rule
host_applies = refl

apply-chains_example :
    let installed = some (map (rule_spec itoa) (build_ruleset test_rules true)) in
    (simulated_kernel.chains (apply simulated itoa test_rules true host).0 chain_in ≡ installed)
    × (simulated_kernel.chains (apply simulated itoa test_rules true host).0 chain_fwd ≡ installed)
apply-chains_example =
    apply-chains simulated itoa simulated_kernel test_rules true host host_applies

-- A packet that only the two user rules match.
abbrev packet : ChainRule → Bool
packet c = str_eq c.protocol "tcp" && eqb_ℤ c.port_from (pos 0) || str_eq c.protocol "udp"

verdict-build_ruleset_example :
    verdict packet (build_ruleset test_rules true) ≡ promised packet test_rules true
verdict-build_ruleset_example = verdict-build_ruleset packet test_rules true

-- The rule that arrived second and is more urgent decides.
allowed_first : verdict packet (build_ruleset test_rules true) ≡ some "ACCEPT"
unfolding verdict build_ruleset baseline stable_sort insert_rule to_chain_rule
allowed_first = refl

-- A backend that counts how often rules were applied.
abbrev counting : Backend
counting = record {
  World = ℕ;
  probe = λ w. (w, ok (record { name = "nft"; privileged = true; reason = "" }));
  apply = λ rules lockdown w. (w + 1, ok tt);
}

abbrev wanted : Persisted
wanted = record { rules = test_rules; lockdown = true; revision = pos 3 }

abbrev reply_three : Applied
reply_three = record {
  backend = "nft";
  privileged = true;
  applied_revision = pos 3;
  privileged_reason = "";
}

three_applied :
    (firewall_apply counting none (ok test_rules) true (pos 3) 7 none).1 ≡ ok reply_three
unfolding firewall_apply apply_probed conclude
three_applied = refl

firewall_apply-Promised_example :
    Promised counting true
      (pos 3)
      none
      wanted
      none
      7
      (firewall_apply counting none (ok test_rules) true (pos 3) 7 none)
firewall_apply-Promised_example =
    firewall_apply-Promised counting none test_rules true (pos 3) 7 none reply_three three_applied
