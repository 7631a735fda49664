-- ===== src/Exit/Rules/Applied.antt =====
-- What ApplyRoutes of internal/vpn/exit.go leaves in the kernel, and what clearing leaves after it.
use aw_remote_host.Common.{
  [], Result, ok, err, ℕ, ◌≡◌, true, false, none, ◌∷◌, map, arith, ◌==◌, refl, ap, ◌∙◌, ◌++◌,
  ==_iff, length, suc, ◌<◌, subst, inl, inr, Option, some, List,
}
use mathlib.Core.List.{append-nil}
use aw_remote_host.Runner.{Runner}
use aw_remote_host.Exit.Rules.{
  Text, mem, mesh_preserve_priority, exclusion_priority, container_route_priority,
  host_bypass_priority, route_priorities, bypass_rule, mesh_rule, exclusion_rule, container_rule,
  roll_back, RoutePlan, RouteError, clear_route_rules, install, install_after, apply_routes,
}
use aw_remote_host.Exit.Rules.Kernel.{Kernel}
use aw_remote_host.Exit.Rules.Cleared.{or_false, or_cases, clear_each-Swept}
use aw_remote_host.Exit.Rules.Added.{Adds, planned, install-Adds}

pub not_planned : (plan : RoutePlan) (q : ℕ) → mem q route_priorities ≡ false → planned plan q ≡ []
not_planned plan q h =
    let (a, h1) = or_false (mesh_preserve_priority == q) _ h in
    let (b, h2) = or_false (exclusion_priority == q) _ h1 in
    let (c, h3) = or_false (container_route_priority == q) _ h2 in
    let (d, h4) = or_false (host_bypass_priority == q) _ h3 in rw a (rw b (rw c (rw d refl)))

-- What holds at each of the priorities.
pub at_each :
    (P : ℕ → Type 0)
    → P mesh_preserve_priority
    → P exclusion_priority
    → P container_route_priority
    → P host_bypass_priority
    → (q : ℕ) → mem q route_priorities ≡ true
    → P q
at_each P a b c d q h = elim (or_cases (mesh_preserve_priority == q) _ h) [
  | inl e ↦ subst P ((==_iff mesh_preserve_priority q).0 e) a
  | inr h1 ↦ elim (or_cases (exclusion_priority == q) _ h1) [
    | inl e ↦ subst P ((==_iff exclusion_priority q).0 e) b
    | inr h2 ↦ elim (or_cases (container_route_priority == q) _ h2) [
      | inl e ↦ subst P ((==_iff container_route_priority q).0 e) c
      | inr h3 ↦ elim (or_cases (host_bypass_priority == q) _ h3) [
        | inl e ↦ subst P ((==_iff host_bypass_priority q).0 e) d
        | inr h4 ↦ absurd (ground (arith, h4))
      ]
    ]
  ]
]

pub length-map : {A B : Type 0} (f : A → B) (xs : List A) → length (map f xs) ≡ length xs
length-map f [] = refl
length-map f (x ∷ xs) = ap suc (length-map f xs)

pub planned_short :
    (plan : RoutePlan)
    → length plan.exclusions < 64
    → length plan.containers < 64
    → (q : ℕ) → mem q route_priorities ≡ true
    → length (planned plan q) < 64
planned_short plan es cs =
    at_each (λ q. length (planned plan q) < 64) (omega arith)
      (omega (
        arith,
        es,
        length-map exclusion_rule plan.exclusions,
        ap (λ l. length l) (append-nil (map exclusion_rule plan.exclusions)),
      ))
      (omega (arith, cs, length-map container_rule plan.containers)) (omega arith)

module _ {r : Runner} {text : Text} (k : Kernel r text) where
  open r use {World}

  -- The rules of a plan and no other of its priorities, and all others as they were.
  pub record IsApplied (plan : RoutePlan) (w w' : World) : Type 0 where
    pub bypass : k.rules w' host_bypass_priority ≡ bypass_rule ∷ []
    pub mesh : k.rules w' mesh_preserve_priority ≡ mesh_rule ∷ []
    pub excluded : k.rules w' exclusion_priority ≡ map exclusion_rule plan.exclusions
    pub routed : k.rules w' container_route_priority ≡ map container_rule plan.containers
    pub others : (q : ℕ) → mem q route_priorities ≡ false → k.rules w' q ≡ k.rules w q

  -- None of the rules, and all others as they were.
  pub record IsBare (w w' : World) : Type 0 where
    pub none_left : (q : ℕ) → mem q route_priorities ≡ true → k.rules w' q ≡ []
    pub others : (q : ℕ) → mem q route_priorities ≡ false → k.rules w' q ≡ k.rules w q

  pub installed :
      (plan : RoutePlan) (w w1 : World) (out : World × Result RouteError (Unit {0}))
      → Adds k (planned plan) w1 out
      → IsBare w w1
      → (roll_back r text out).1 ≡ ok tt
      → IsApplied plan w (roll_back r text out).0
  installed plan w w1 (w2, ok done) a s h = record {
    bypass = at_ours host_bypass_priority refl;
    mesh = at_ours mesh_preserve_priority refl;
    excluded = at_ours exclusion_priority refl ∙ append-nil _;
    routed = at_ours container_route_priority refl;
    others = λ q n. a.others q (not_planned plan q n) ∙ s.others q n;
  }
    where
      at_ours : (q : ℕ) → mem q route_priorities ≡ true → k.rules w2 q ≡ planned plan q
      at_ours q m = a.all_added refl q ∙ ap (λ l. l ++ planned plan q) (s.none_left q m)
  installed plan w w1 (w2, err e) a s h = absurd (ground (arith, h))

  pub clear_each-IsBare :
      (w : World) → (clear_route_rules r text w).2 ≡ none → IsBare w (clear_route_rules r text w).0
  unfolding clear_route_rules
  clear_each-IsBare w h =
      let s = clear_each-Swept k route_priorities 0 w in
      record { none_left = s.gone h; others = s.others }

  -- When ApplyRoutes succeeds, the kernel has the rules of the plan and no other at their priorities,
  -- in the plan's order, whatever was there before; all other priorities are as they were.
  pub apply_routes-IsApplied :
      (plan : RoutePlan) (w : World)
      → (apply_routes r text plan w).1 ≡ ok tt
      → IsApplied plan w (apply_routes r text plan w).0
  unfolding apply_routes
  apply_routes-IsApplied plan w = after_clear (clear_route_rules r text w) refl
    where
      after_clear :
          (c : World × ℕ × Option RouteError)
          → clear_route_rules r text w ≡ c
          → (install_after r text plan c).1 ≡ ok tt
          → IsApplied plan w (install_after r text plan c).0
      after_clear (w1, n, some e) c h = absurd (ground (arith, h))
      after_clear (w1, n, none) c h =
          installed plan w w1 (install r text plan w1) (install-Adds k plan w1)
            (subst (IsBare w) (ap (λ o. o.0) c) (clear_each-IsBare w (ap (λ o. o.2) c))) h
