-- ===== src/Firewall/Iptables.antt =====
-- internal/firewall/iptables.go: the backend that rebuilds the two chains by running iptables.
-- strconv.Itoa is the parameter `itoa`; the kernel behind the commands is the Runner's world.
pub mod Kernel
pub mod Rebuild
use Prim.Native.String.{◌++◌ as append}
use aw_remote_host.Common.{
  String, Bool, true, false, not, Option, none, some, List, [], ◌∷◌, ◌++◌, str_eq, if◌then◌else◌,
  ok, err,
}
use aw_remote_host.Common.Int.{ℤ, pos, eqb_ℤ}
use aw_remote_host.Runner.{Runner, Step, ◌>>◌}
use aw_remote_host.Firewall.{Rule, ChainRule, build_ruleset}

-- The wrapped errors of Apply.
pub data ApplyError : Type 0 where
  flush_chain : String → String → ApplyError
  insert_jump : String → String → String → ApplyError
  apply_rule : String → String → ApplyError
  create_table : String → ApplyError

abbrev pub chain_in : String
chain_in = "AW-FW-IN"

abbrev pub chain_fwd : String
chain_fwd = "AW-FW-FWD"

abbrev optional : Bool → List String → List String
optional present args = if present then args else []

-- The arguments behind `-A chain` of iptablesRuleArgs.
unfoldable pub rule_spec : (ℤ → String) → ChainRule → List String
rule_spec itoa r =
    optional (not (str_eq r.interface "")) ("-i" ∷ r.interface ∷ [])
    ++ (optional (not (str_eq r.state_match "")) ("-m" ∷ "state" ∷ "--state" ∷ r.state_match ∷ [])
        ++ (optional (not (str_eq r.protocol "")) ("-p" ∷ r.protocol ∷ [])
            ++ (optional (not (str_eq r.source_cidr "")) ("-s" ∷ r.source_cidr ∷ [])
                ++ (optional (not (eqb_ℤ r.port_from (pos 0))) ("--dport" ∷ port ∷ [])
                    ++ ("-j" ∷ r.action ∷ [])))))
  where
    port : String
    port =
        if eqb_ℤ r.port_to r.port_from
        then itoa r.port_from
        else append (itoa r.port_from) (append ":" (itoa r.port_to))

-- iptablesRuleArgs.
abbrev pub rule_args : (ℤ → String) → String → ChainRule → List String
rule_args itoa chain r = "-A" ∷ chain ∷ rule_spec itoa r

module _ (r : Runner) (itoa : ℤ → String) where
  open r use {World, run}

  -- Did the command succeed? Its output is not read.
  unfoldable pub try : List String → World → World × Option String
  try args w = let (w', reply) = run "iptables" args w in (w', reply.failure)

  unfoldable pub ensure_chain : String → Step World ApplyError (Unit {0})
  unfolding try
  ensure_chain chain w =
      let (w1, created) = try ("-N" ∷ chain ∷ []) w in
      elim created [
        | none ↦ (w1, ok tt)
        | some _ ↦
            let (w2, flushed) = try ("-F" ∷ chain ∷ []) w1 in
            (w2, elim flushed [ none ↦ ok tt | some e ↦ err (flush_chain chain e) ])
      ]

  unfoldable pub ensure_jump : String → String → Bool → Step World ApplyError (Unit {0})
  unfolding try
  ensure_jump hook chain insert_head w =
      let (w1, checked) = try ("-C" ∷ hook ∷ "-j" ∷ chain ∷ []) w in
      elim checked [
        | none ↦ (w1, ok tt)
        | some _ ↦
            let (w2, inserted) =
              try
                ("-I" ∷ hook ∷ (if insert_head then "1" ∷ "-j" ∷ chain ∷ [] else "-j" ∷ chain ∷ []))
                w1 in
            (w2, elim inserted [ none ↦ ok tt | some e ↦ err (insert_jump hook chain e) ])
      ]

  unfoldable pub forward_hook : World → World × String
  unfolding try
  forward_hook w =
      let (w1, listed) = try ("-nL" ∷ "DOCKER-USER" ∷ []) w in
      (w1, elim listed [ none ↦ "DOCKER-USER" | some _ ↦ "FORWARD" ])

  unfoldable pub apply_rules : String → List ChainRule → Step World ApplyError (Unit {0})
  unfolding try
  apply_rules chain [] w = (w, ok tt)
  apply_rules chain (c ∷ cs) w =
      let (w1, added) = try (rule_args itoa chain c) w in
      elim added [ none ↦ apply_rules chain cs w1 | some e ↦ (w1, err (apply_rule chain e)) ]

  -- The half of Apply that fills one chain behind its hook.
  unfoldable pub fill_chain :
      String → String → Bool → List ChainRule → Step World ApplyError (Unit {0})
  fill_chain hook chain insert_head chain_rules = do
    ensure_chain chain
    ensure_jump hook chain insert_head
    apply_rules chain chain_rules

  -- Apply. The hook of the second chain is asked for between the two halves.
  unfoldable pub apply : List Rule → Bool → Step World ApplyError (Unit {0})
  unfolding fill_chain
  apply rules lockdown = do
    let chain_rules = build_ruleset rules lockdown
    fill_chain "INPUT" chain_in false chain_rules
    λ w. let (w1, hook) = forward_hook w in fill_chain hook chain_fwd true chain_rules w1
