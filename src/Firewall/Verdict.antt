-- ===== src/Firewall/Verdict.antt =====
-- What the rule list of internal/firewall/firewall.go decides about a packet. The packet enters as
-- the test `m` that says which chain rules match it; the first match decides, as in iptables and nft.
use aw_remote_host.Common.{
  String, ◌≡◌, refl, Bool, true, false, ◌&&◌, Option, none, some, List, [], ◌∷◌, ◌++◌, map, arith,
  str_eq, if◌then◌else◌, Bool-cases, inl, inr,
}
use aw_remote_host.Firewall.{
  Rule, ChainRule, blank, baseline, to_chain_rule, catch_all, build_ruleset,
}
use aw_remote_host.Firewall.Order.{find_first, most_urgent, find_first-stable_sort}

module _ (m : ChainRule → Bool) where
  -- First match decides; `none` falls through to the policy of the hook.
  unfoldable pub verdict : List ChainRule → Option String
  verdict [] = none
  verdict (c ∷ cs) = if m c then some c.action else verdict cs

  abbrev pub or_verdict : Option String → Option String → Option String
  or_verdict (some a) b = some a
  or_verdict none b = b

  verdict-append :
      (xs ys : List ChainRule) → verdict (xs ++ ys) ≡ or_verdict (verdict xs) (verdict ys)
  unfolding verdict
  verdict-append [] ys = refl
  verdict-append (x ∷ xs) ys = ground (arith, verdict-append xs ys)

  abbrev pub user_test : Rule → Bool
  user_test r = m (to_chain_rule r)

  -- The verdict of a user rule, as its documentation states it.
  abbrev pub rule_verdict : Option Rule → Option String
  rule_verdict none = none
  rule_verdict (some r) = some (if str_eq r.action "allow" then "ACCEPT" else "DROP")

  verdict-map :
      (rs : List Rule) → verdict (map to_chain_rule rs) ≡ rule_verdict (find_first user_test rs)
  unfolding verdict find_first
  verdict-map [] = refl
  verdict-map (r ∷ rs) = elim (Bool-cases (m (to_chain_rule r))) [
    | inl e ↦ rw e (unfold to_chain_rule in refl)
    | inr e ↦ rw e (verdict-map rs)
  ]

  -- Does a baseline rule match?
  unfoldable pub any_match : List ChainRule → Bool
  any_match [] = false
  any_match (c ∷ cs) = if m c then true else any_match cs

  -- What the host's firewall promises: the baseline accepts; else the matching user rule of least
  -- priority decides, the earliest among equals; else a lockdown drops.
  abbrev pub promised : List Rule → Bool → Option String
  promised rules lockdown =
      if any_match baseline
      then some "ACCEPT"
      else or_verdict (rule_verdict (most_urgent user_test rules))
          (if lockdown && m (blank "DROP") then some "DROP" else none)

  verdict-baseline : verdict baseline ≡ (if any_match baseline then some "ACCEPT" else none)
  unfolding verdict any_match baseline
  verdict-baseline = ground arith

  verdict-catch_all :
      (lockdown : Bool)
      → verdict (catch_all lockdown) ≡ (if lockdown && m (blank "DROP") then some "DROP" else none)
  unfolding verdict
  verdict-catch_all true = refl
  verdict-catch_all false = refl

  -- For every packet, every list of rules in any order and either mode, the first match in the
  -- built rule list gives the promised verdict.
  pub verdict-build_ruleset :
      (rules : List Rule) (lockdown : Bool)
      → verdict (build_ruleset rules lockdown) ≡ promised rules lockdown
  unfolding build_ruleset
  verdict-build_ruleset rules lockdown =
      rw
        (
          verdict-append, verdict-append, verdict-baseline, verdict-map, verdict-catch_all,
          find_first-stable_sort,
        )
        (ground arith)
