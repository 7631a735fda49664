-- ===== src/Exit/Rules/Routed.antt =====
-- Where the kernel sends a packet under the rules of internal/vpn/exit.go: the first rule that
-- matches, by priority and then by age, names the table.
use aw_remote_host.Common.{
  [], if◌then◌else◌, Bool-cases, ok, String, ◌≡◌, refl, inl, inr, Bool, false, ◌||◌, Option, none,
  some, List, ◌∷◌, ◌++◌, map, str_eq, true,
}
use aw_remote_host.Runner.{Runner}
use aw_remote_host.Exit.Rules.{
  Text, mesh_preserve_priority, exclusion_priority, container_route_priority, host_bypass_priority,
  mesh_prefix, bypass_rule, mesh_rule, exclusion_rule, container_rule, apply_routes, Exclusion,
  ContainerRoute, RoutePlan,
}
use aw_remote_host.Exit.Rules.Kernel.{Kernel, Rules}
use aw_remote_host.Exit.Rules.Applied.{apply_routes-IsApplied}

abbrev pub any : {A : Type 0} → (A → Bool) → List A → Bool
any p [] = false
any p (x ∷ xs) = p x || any p xs

abbrev or_later : Option String → Option String → Option String
or_later none later = later
or_later (some table) later = some table

by_tests :
    (m x c : Bool)
    → or_later
        (if m then some "52" else none)
        (if x then some "main" else (if c then some "52" else some "main"))
      ≡ some (if m then "52" else (if x then "main" else (if c then "52" else "main")))
by_tests true x c = refl
by_tests false true c = refl
by_tests false false true = refl
by_tests false false false = refl

-- The addresses of packets, and which of them a prefix covers.
module _ {Address : Type 0} (inside : String → Address → Bool) where
  abbrev pub covers : String → Address → Bool
  covers prefix a = str_eq prefix "all" || inside prefix a

  -- The table that a rule names for a packet, when the rule matches.
  unfoldable pub table_of : Address → Address → List String → Option String
  table_of source target [] = none
  table_of source target (way ∷ []) = none
  table_of source target (way ∷ prefix ∷ []) = none
  table_of source target (way ∷ prefix ∷ verb ∷ []) = none
  table_of source target (way ∷ prefix ∷ verb ∷ table ∷ more) =
      if covers prefix (if str_eq way "from" then source else target) then some table else none

  unfoldable pub first_table : Address → Address → List (List String) → Option String
  unfolding table_of
  first_table source target [] = none
  first_table source target (rule ∷ rules) =
      or_later (table_of source target rule) (first_table source target rules)

  -- The table that the rules of the module choose.
  unfoldable pub chosen : Address → Address → Rules → Option String
  unfolding first_table
  chosen source target rules = first_table source target (
      rules mesh_preserve_priority
      ++ (rules exclusion_priority
          ++ (rules container_route_priority ++ rules host_bypass_priority)))

  first_excluded :
      (source target : Address) (es : List Exclusion) (later : List (List String))
      → first_table source target (map exclusion_rule es ++ later) ≡ (
          if any (λ (e : Exclusion). covers e.prefix target) es
          then some "main"
          else first_table source target later)
  unfolding first_table table_of
  first_excluded source target [] later = refl
  first_excluded source target (e ∷ es) later = elim (Bool-cases (covers e.prefix target)) [
    | inl c ↦ rw c refl
    | inr n ↦ rw n (first_excluded source target es later)
  ]

  first_routed :
      (source target : Address) (cs : List ContainerRoute) (later : List (List String))
      → first_table source target (map container_rule cs ++ later) ≡ (
          if any (λ (c : ContainerRoute). covers c.prefix source) cs
          then some "52"
          else first_table source target later)
  unfolding first_table table_of
  first_routed source target [] later = refl
  first_routed source target (c ∷ cs) later = elim (Bool-cases (covers c.prefix source)) [
    | inl y ↦ rw y refl
    | inr n ↦ rw n (first_routed source target cs later)
  ]

  first_of_plan :
      (source target : Address) (plan : RoutePlan)
      → first_table source target (
          (mesh_rule ∷ [])
          ++ (map exclusion_rule plan.exclusions
              ++ (map container_rule plan.containers ++ bypass_rule ∷ [])))
        ≡ some (
            if covers mesh_prefix target
            then "52"
            else (if any (λ (e : Exclusion). covers e.prefix target) plan.exclusions
                then "main"
                else (if any (λ (c : ContainerRoute). covers c.prefix source) plan.containers
                    then "52"
                    else "main")))
  unfolding first_table table_of
  first_of_plan source target plan =
      let e =
        first_excluded source target plan.exclusions
          (map container_rule plan.containers ++ bypass_rule ∷ []) in
      let c = first_routed source target plan.containers (bypass_rule ∷ []) in
      rw e (
        rw c (
          by_tests (inside mesh_prefix target)
            (any (λ (e : Exclusion). covers e.prefix target) plan.exclusions)
            (any (λ (c : ContainerRoute). covers c.prefix source) plan.containers)))

  -- The four lists of rules decide.
  pub chosen-planned :
      (source target : Address) (plan : RoutePlan) (rules : Rules)
      → rules mesh_preserve_priority ≡ mesh_rule ∷ []
      → rules exclusion_priority ≡ map exclusion_rule plan.exclusions
      → rules container_route_priority ≡ map container_rule plan.containers
      → rules host_bypass_priority ≡ bypass_rule ∷ []
      → chosen source target rules
        ≡ some (
            if covers mesh_prefix target
            then "52"
            else (if any (λ (e : Exclusion). covers e.prefix target) plan.exclusions
                then "main"
                else (if any (λ (c : ContainerRoute). covers c.prefix source) plan.containers
                    then "52"
                    else "main")))
  unfolding chosen
  chosen-planned source target plan rules m x c b =
      rw m (rw x (rw c (rw b (first_of_plan source target plan))))

  module _ {r : Runner} {text : Text} (k : Kernel r text) where
    -- After a successful ApplyRoutes, packets to the mesh go to table 52, packets to an excluded
    -- prefix to the main table, other packets from a container network of the plan to table 52, and
    -- all others, so those of the host, to the main table.
    pub chosen-apply_routes :
        (plan : RoutePlan) (w : r.World) (source target : Address)
        → (apply_routes r text plan w).1 ≡ ok tt
        → chosen source target (k.rules (apply_routes r text plan w).0)
          ≡ some (
              if covers mesh_prefix target
              then "52"
              else (if any (λ (e : Exclusion). covers e.prefix target) plan.exclusions
                  then "main"
                  else (if any (λ (c : ContainerRoute). covers c.prefix source) plan.containers
                      then "52"
                      else "main")))
    chosen-apply_routes plan w source target h =
        let a = apply_routes-IsApplied k plan w h in
        chosen-planned source target plan _ a.mesh a.excluded a.routed a.bypass
