-- ===== src/Exit/Rules/Restored.antt =====
-- That nothing stays behind an ApplyRoutes of internal/vpn/exit.go that failed or was cleared.
use aw_remote_host.Common.{
  length, Result, ok, err, ℕ, ◌<◌, ◌≡◌, refl, ap, ◌∙◌, subst, true, Option, none, some, arith,
}
use aw_remote_host.Runner.{Runner}
use aw_remote_host.Exit.Rules.{
  Text, mem, route_priorities, clear_route_rules, install, roll_back, install_after, apply_routes,
  RoutePlan, RouteError, exclusion_rule, container_rule,
}
use aw_remote_host.Exit.Rules.Kernel.{Kernel}
use aw_remote_host.Exit.Rules.Enough.{IsPermitted, clear_each-none}
use aw_remote_host.Exit.Rules.Added.{Adds, planned, install-Adds}
use aw_remote_host.Exit.Rules.Applied.{
  IsBare, planned_short, clear_each-IsBare, apply_routes-IsApplied, not_planned, at_each,
  length-map, IsApplied,
}

-- No priority of the module has more rules than one clearing removes.
abbrev pub FewRules : {r : Runner} {text : Text} → Kernel r text → r.World → Type 0
FewRules k w = (q : ℕ) → mem q route_priorities ≡ true → length (k.rules w q) < 64

module _ {r : Runner} {text : Text} (k : Kernel r text) (may : IsPermitted r text) where
  open r use {World}

  clear-IsBare :
      (w : World)
      → FewRules k w
      → ((clear_route_rules r text w).2 ≡ none) × IsBare k w (clear_route_rules r text w).0
  unfolding clear_route_rules
  clear-IsBare w few =
      let done = clear_each-none k may route_priorities 0 w few in
      (done, clear_each-IsBare k w done)

  few_installed :
      (plan : RoutePlan) (w w1 : World) (out : World × Result RouteError (Unit {0}))
      → length plan.exclusions < 64
      → length plan.containers < 64
      → Adds k (planned plan) w1 out
      → IsBare k w w1
      → FewRules k out.0
  few_installed plan w w1 out es cs a s q m =
      let b = a.bounded q in
      let z = ap (λ l. length l) (s.none_left q m) in
      let p = planned_short plan es cs q m in omega (arith, b, z, p)

  others_kept :
      (plan : RoutePlan) (w w1 w2 w3 : World) (x : Result RouteError (Unit {0}))
      → Adds k (planned plan) w1 (w2, x)
      → IsBare k w w1
      → IsBare k w2 w3
      → IsBare k w w3
  others_kept plan w w1 w2 w3 x a s t = record {
    none_left = t.none_left;
    others = λ q n. t.others q n ∙ (a.others q (not_planned plan q n) ∙ s.others q n);
  }

  rolled_back :
      (plan : RoutePlan) (w w1 : World) (out : World × Result RouteError (Unit {0}))
      (e : RouteError)
      → length plan.exclusions < 64
      → length plan.containers < 64
      → Adds k (planned plan) w1 out
      → IsBare k w w1
      → (roll_back r text out).1 ≡ err e
      → IsBare k w (roll_back r text out).0
  rolled_back plan w w1 (w2, ok done) e es cs a s h = absurd (ground (arith, h))
  rolled_back plan w w1 (w2, err x) e es cs a s h =
      others_kept plan w w1 w2 _ (err x) a s
        (clear-IsBare w2 (few_installed plan w w1 (w2, err x) es cs a s)).1

  -- When deletions are permitted, no priority of the module had 64 rules, and the plan has fewer than
  -- 64 exclusions and container networks, then a failed ApplyRoutes leaves none of its rules, and
  -- those at other priorities as they were.
  pub apply_routes-IsBare :
      (plan : RoutePlan) (w : World) (e : RouteError)
      → FewRules k w
      → length plan.exclusions < 64
      → length plan.containers < 64
      → (apply_routes r text plan w).1 ≡ err e
      → IsBare k w (apply_routes r text plan w).0
  unfolding apply_routes
  apply_routes-IsBare plan w e few es cs = after_clear (clear_route_rules r text w) refl
    where
      after_clear :
          (c : World × ℕ × Option RouteError)
          → clear_route_rules r text w ≡ c
          → (install_after r text plan c).1 ≡ err e
          → IsBare k w (install_after r text plan c).0
      after_clear (w1, n, some x) c h =
          let done = (clear-IsBare w few).0 in
          absurd (let f = ap (λ o. o.2) c in ground (arith, f, done))
      after_clear (w1, n, none) c h =
          rolled_back plan w w1 (install r text plan w1) e es cs (install-Adds k plan w1)
            (subst (IsBare k w) (ap (λ o. o.0) c) (clear-IsBare w few).1) h

  applied_few :
      (plan : RoutePlan) (w w' : World)
      → length plan.exclusions < 64
      → length plan.containers < 64
      → IsApplied k plan w w'
      → FewRules k w'
  applied_few plan w w' es cs a =
      let m = ap (λ l. length l) a.mesh in
      let x = ap (λ l. length l) a.excluded ∙ length-map exclusion_rule plan.exclusions in
      let c = ap (λ l. length l) a.routed ∙ length-map container_rule plan.containers in
      let b = ap (λ l. length l) a.bypass in
      at_each (λ q. length (k.rules w' q) < 64) (omega (arith, m)) (omega (arith, x, es))
        (omega (arith, c, cs)) (omega (arith, b))

  -- What a successful ApplyRoutes installed is cleared again by one call of clearRouteRules, without
  -- an error and without touching other priorities, when deletions are permitted and the plan has
  -- fewer than 64 exclusions and container networks.
  pub clear_route_rules-apply :
      (plan : RoutePlan) (w : World)
      → length plan.exclusions < 64
      → length plan.containers < 64
      → (apply_routes r text plan w).1 ≡ ok tt
      → (let out = clear_route_rules r text (apply_routes r text plan w).0 in
          (out.2 ≡ none) × IsBare k w out.0)
  clear_route_rules-apply plan w es cs h =
      let a = apply_routes-IsApplied k plan w h in
      let (done, clear) =
        clear-IsBare (apply_routes r text plan w).0 (applied_few plan w _ es cs a) in
      (
        done,
        record { none_left = clear.none_left; others = λ q n. clear.others q n ∙ a.others q n },
      )
