-- ===== src/Firewall/Nft.antt =====
-- internal/firewall/nft.go: the arguments of one nft rule, and the Apply that rebuilds the table.
-- strconv.Itoa and strings.ToLower are parameters.
use aw_remote_host.Common.{
  if◌then◌else◌, ok, err, String, ◌≡◌, Bool, not, ◌&&◌, Option, none, some, List, [], ◌∷◌, ◌++◌,
  arith, str_eq,
}
use Prim.Native.String.{◌++◌ as append}
use aw_remote_host.Common.Int.{ℤ, pos, eqb_ℤ}
use aw_remote_host.Runner.{Runner, Step, ◌>>◌}
use aw_remote_host.Firewall.{Rule, ChainRule, build_ruleset}
use aw_remote_host.Firewall.Iptables.{
  ApplyError, flush_chain, apply_rule, create_table, chain_in, chain_fwd,
}

abbrev port_args : (ℤ → String) → ChainRule → List String
port_args itoa r =
    if not (str_eq r.protocol "") && not (eqb_ℤ r.port_from (pos 0))
    then r.protocol
      ∷ "dport"
      ∷ (if eqb_ℤ r.port_to r.port_from
          then itoa r.port_from
          else append (itoa r.port_from) (append "-" (itoa r.port_to)))
      ∷ []
    else []

abbrev optional : Bool → List String → List String
optional present args = if present then args else []

-- nftRuleArgs, behind `add rule inet aw_fw chain`.
unfoldable pub nft_rule_spec : (ℤ → String) → (String → String) → ChainRule → List String
nft_rule_spec itoa to_lower r =
    optional (not (str_eq r.interface "")) ("iifname" ∷ r.interface ∷ [])
    ++ (optional (not (str_eq r.state_match "")) ("ct" ∷ "state" ∷ to_lower r.state_match ∷ [])
        ++ (optional (not (str_eq r.source_cidr "")) ("ip" ∷ "saddr" ∷ r.source_cidr ∷ [])
            ++ (port_args itoa r ++ ((if str_eq r.action "DROP" then "drop" else "accept") ∷ []))))

abbrev pub nft_rule_args : (ℤ → String) → (String → String) → String → ChainRule → List String
nft_rule_args itoa to_lower chain r =
    "add" ∷ "rule" ∷ "inet" ∷ "aw_fw" ∷ chain ∷ nft_rule_spec itoa to_lower r

abbrev base_chain : String → String
base_chain hook = append "{ type filter hook " (append hook " priority -1; policy accept; }")

module _ (r : Runner) (itoa : ℤ → String) (to_lower : String → String) where
  open r use {World, run}

  unfoldable pub try : List String → World → World × Option String
  try args w = let (w', reply) = run "nft" args w in (w', reply.failure)

  -- ensureConntrackModule: the outcome of modprobe is dropped.
  unfoldable pub ensure_conntrack_module : World → World
  ensure_conntrack_module w = (run "modprobe" ("nft_ct" ∷ []) w).0

  unfoldable pub ensure_chain : String → String → Step World ApplyError (Unit {0})
  unfolding try
  ensure_chain name hook w =
      let (w1, _) = try ("add" ∷ "chain" ∷ "inet" ∷ "aw_fw" ∷ name ∷ base_chain hook ∷ []) w in
      let (w2, flushed) = try ("flush" ∷ "chain" ∷ "inet" ∷ "aw_fw" ∷ name ∷ []) w1 in
      (w2, elim flushed [ none ↦ ok tt | some e ↦ err (flush_chain name e) ])

  unfoldable pub apply_rules : String → List ChainRule → Step World ApplyError (Unit {0})
  unfolding try
  apply_rules chain [] w = (w, ok tt)
  apply_rules chain (c ∷ cs) w =
      let (w1, added) = try (nft_rule_args itoa to_lower chain c) w in
      elim added [ none ↦ apply_rules chain cs w1 | some e ↦ (w1, err (apply_rule chain e)) ]

  -- `nft add table`.
  unfoldable pub add_table : Step World ApplyError (Unit {0})
  unfolding try
  add_table w =
      let (w1, added) = try ("add" ∷ "table" ∷ "inet" ∷ "aw_fw" ∷ []) w in
      (w1, elim added [ none ↦ ok tt | some e ↦ err (create_table e) ])

  -- Apply.
  unfoldable pub apply : List Rule → Bool → Step World ApplyError (Unit {0})
  apply rules lockdown w =
      let chain_rules = build_ruleset rules lockdown in
      let all : Step World ApplyError (Unit {0}) = do
        add_table
        ensure_chain chain_in "input"
        apply_rules chain_in chain_rules
        ensure_chain chain_fwd "forward"
        apply_rules chain_fwd chain_rules
      in all (ensure_conntrack_module w)

-- A rule without a port loses its protocol: the arguments are the same for every protocol, so the
-- installed rule matches traffic of all of them.
pub nft_rule_spec-portless :
    (itoa : ℤ → String) (to_lower : String → String) (r : ChainRule) (protocol : String)
    → r.port_from ≡ pos 0
    → nft_rule_spec itoa to_lower r ≡ nft_rule_spec itoa to_lower (record r { protocol = protocol })
unfolding nft_rule_spec
nft_rule_spec-portless itoa to_lower r protocol h = ground arith
