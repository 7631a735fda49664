-- ===== src/Exit/Rules.antt =====
-- internal/vpn/exit.go: the `ip rule`s of an exit selection, installed by ApplyRoutes and removed by
-- clearRouteRules. The kernel behind the commands is the Runner's world.
pub mod Kernel
pub mod Cleared
pub mod Enough
pub mod Added
pub mod Applied
pub mod Routed
pub mod Restored
use aw_remote_host.Common.{
  [], if◌then◌else◌, Result, ok, err, ℕ, zero, suc, ◌+◌, String, Bool, ◌||◌, Option, none, some,
  List, ◌∷◌, ◌++◌, ◌==◌, false,
}
use aw_remote_host.Runner.{Runner, Step, ◌>>◌}

-- Is a priority among those?
abbrev pub mem : ℕ → List ℕ → Bool
mem q [] = false
mem q (p ∷ ps) = (p == q) || mem q ps

-- What the code uses of the packages fmt and strings.
pub record Text : Type 0 where
  pub itoa : ℕ → String
  pub lower : String → String
  pub contains : String → String → Bool
  pub trim : String → String

pub record Exclusion : Type 0 where
  pub prefix : String
  pub reason : String

pub record ContainerRoute : Type 0 where
  pub prefix : String
  pub networks : List String

pub record RoutePlan : Type 0 where
  pub containers : List ContainerRoute
  pub exclusions : List Exclusion

pub data RouteError : Type 0 where
  remove_rules : ℕ → String → String → RouteError
  still_more : ℕ → ℕ → RouteError
  install_bypass : String → String → RouteError
  install_mesh : String → String → RouteError
  install_exclusion : String → String → String → RouteError
  install_container : String → String → String → RouteError

abbrev pub mesh_preserve_priority : ℕ
mesh_preserve_priority = 5259

abbrev pub exclusion_priority : ℕ
exclusion_priority = 5260

abbrev pub container_route_priority : ℕ
container_route_priority = 5261

abbrev pub host_bypass_priority : ℕ
host_bypass_priority = 5265

abbrev pub mesh_prefix : String
mesh_prefix = "100.64.0.0/10"

abbrev pub route_priorities : List ℕ
route_priorities =
    mesh_preserve_priority ∷ exclusion_priority ∷ container_route_priority ∷ host_bypass_priority
    ∷ []

-- The selector and the table of each kind of rule.
abbrev pub bypass_rule : List String
bypass_rule = "from" ∷ "all" ∷ "lookup" ∷ "main" ∷ []

abbrev pub mesh_rule : List String
mesh_rule = "to" ∷ mesh_prefix ∷ "lookup" ∷ "52" ∷ []

abbrev pub exclusion_rule : Exclusion → List String
exclusion_rule e = "to" ∷ e.prefix ∷ "lookup" ∷ "main" ∷ []

abbrev pub container_rule : ContainerRoute → List String
container_rule c = "from" ∷ c.prefix ∷ "lookup" ∷ "52" ∷ []

module _ (text : Text) where
  abbrev pub add_args : List String → ℕ → List String
  add_args rule priority = "rule" ∷ "add" ∷ (rule ++ "priority" ∷ text.itoa priority ∷ [])

  abbrev pub del_args : ℕ → List String
  del_args priority = "rule" ∷ "del" ∷ "priority" ∷ text.itoa priority ∷ []

  -- isNoSuchRule.
  unfoldable pub is_no_such_rule : String → Bool
  is_no_such_rule out =
      text.contains (text.lower out) "no such file" || text.contains (text.lower out) "cannot find"

module _ (r : Runner) (text : Text) where
  open r use {World, run}

  -- The loop of clearRulesAtPriority, with the turns that are left and the rules removed so far.
  unfoldable pub clear_turns : ℕ → ℕ → ℕ → World → World × ℕ × Option RouteError
  unfolding is_no_such_rule
  clear_turns zero removed priority w = (w, removed, some (still_more removed priority))
  clear_turns (suc turns) removed priority w =
      let (w1, reply) = run "ip" (del_args text priority) w in
      let rest = clear_turns turns (suc removed) priority w1 in
      elim reply.failure [
        | none ↦ rest
        | some e ↦ (
          w1,
          removed,
          if is_no_such_rule text reply.output
              then none
              else some (remove_rules priority e (text.trim reply.output)),
        )
      ]

  unfoldable pub clear_rules_at_priority : ℕ → World → World × ℕ × Option RouteError
  unfolding clear_turns
  clear_rules_at_priority priority w = clear_turns 64 0 priority w

  -- The loop of clearRouteRules, with the total so far.
  unfoldable pub clear_each : List ℕ → ℕ → World → World × ℕ × Option RouteError
  unfolding clear_rules_at_priority
  clear_each [] total w = (w, total, none)
  clear_each (p ∷ ps) total w =
      let (w1, removed, failed) = clear_rules_at_priority p w in
      let rest = clear_each ps (total + removed) w1 in
      elim failed [ none ↦ rest | some e ↦ (w1, total + removed, some e) ]

  unfoldable pub clear_route_rules : World → World × ℕ × Option RouteError
  unfolding clear_each
  clear_route_rules w = clear_each route_priorities 0 w

  -- One `ip rule add`; `wrong` makes its error of the command's error and output.
  unfoldable pub add_rule :
      List String → ℕ → (String → String → RouteError) → Step World RouteError (Unit {0})
  add_rule rule priority wrong w =
      let (w1, reply) = run "ip" (add_args text rule priority) w in
      (w1, elim reply.failure [ none ↦ ok tt | some e ↦ err (wrong e (text.trim reply.output)) ])

  unfoldable pub add_exclusions : List Exclusion → Step World RouteError (Unit {0})
  unfolding add_rule
  add_exclusions [] w = (w, ok tt)
  add_exclusions (e ∷ es) w =
      (add_rule (exclusion_rule e) exclusion_priority (install_exclusion e.prefix)
          >> add_exclusions es)
        w

  unfoldable pub add_containers : List ContainerRoute → Step World RouteError (Unit {0})
  unfolding add_rule
  add_containers [] w = (w, ok tt)
  add_containers (c ∷ cs) w =
      (add_rule (container_rule c) container_route_priority (install_container c.prefix)
          >> add_containers cs)
        w

  -- The additions of ApplyRoutes, in their order.
  unfoldable pub install : RoutePlan → Step World RouteError (Unit {0})
  unfolding add_rule add_exclusions add_containers
  install plan =
      add_rule bypass_rule host_bypass_priority install_bypass
      >> add_rule mesh_rule mesh_preserve_priority install_mesh
      >> add_exclusions plan.exclusions
      >> add_containers plan.containers

  -- `rollback`: what was added goes again, whatever the clearing says.
  abbrev pub roll_back : World × Result RouteError (Unit {0}) → World × Result RouteError (Unit {0})
  roll_back (w, ok done) = (w, ok done)
  roll_back (w, err e) = ((clear_route_rules w).0, err e)

  abbrev pub install_after :
      RoutePlan → World × ℕ × Option RouteError → World × Result RouteError (Unit {0})
  install_after plan (w, total, some e) = (w, err e)
  install_after plan (w, total, none) = roll_back (install plan w)

  -- ApplyRoutes.
  unfoldable pub apply_routes : RoutePlan → Step World RouteError (Unit {0})
  unfolding clear_route_rules install
  apply_routes plan w = install_after plan (clear_route_rules w)
