-- ===== src/Exit/Rules/Added.antt =====
-- What the additions of internal/vpn/exit.go's ApplyRoutes add.
use aw_remote_host.Common.{
  [], ◌==◌, if◌then◌else◌, length, Result, ok, err, ℕ, ◌+◌, ◌≤◌, String, ◌≡◌, refl, ap, List, ◌∷◌,
  ◌++◌, ==_iff, Bool-cases, Option-cases, length-append, sym, ◌∙◌, inl, inr, arith, if_same, map,
}
use mathlib.Core.List.{append_assoc, append-nil}
use aw_remote_host.Runner.{Runner, Step, resume}
use aw_remote_host.Exit.Rules.{
  Text, add_rule, RouteError, add_args, mesh_preserve_priority, exclusion_priority,
  container_route_priority, host_bypass_priority, bypass_rule, mesh_rule, exclusion_rule,
  container_rule, add_exclusions, add_containers, install, Exclusion, ContainerRoute, RoutePlan,
  install_bypass, install_mesh, install_exclusion, install_container,
}
use aw_remote_host.Exit.Rules.Kernel.{Kernel, Rules, put, failure}

-- Some rules at one priority.
abbrev pub at : ℕ → List (List String) → ℕ → List (List String)
at p rules q = if p == q then rules else []

both_nil : {A : Type 0} (xs ys : List A) → xs ++ ys ≡ [] → (xs ≡ []) × (ys ≡ [])
both_nil [] ys h = (refl, h)
both_nil (x ∷ xs) ys h = absurd (ground (arith, h))

put_append :
    (p q : ℕ) (rule : List String) (all : Rules)
    → put p (all p ++ rule ∷ []) all q ≡ all q ++ at p (rule ∷ []) q
put_append p q rule all = elim (Bool-cases (p == q)) [
  | inl same ↦ let e = (==_iff p q).0 same in rw same (ap (λ n. all n ++ rule ∷ []) e)
  | inr other ↦ rw other (sym (append-nil (all q)))
]

at-cons :
    (p : ℕ) (rule : List String) (rules : List (List String)) (q : ℕ)
    → at p (rule ∷ []) q ++ at p rules q ≡ at p (rule ∷ rules) q
at-cons p rule rules q = elim (Bool-cases (p == q)) [
  | inl same ↦ rw same refl
  | inr other ↦ rw other refl
]

-- The rules of a plan at each priority.
abbrev pub planned : RoutePlan → ℕ → List (List String)
planned plan q =
    at host_bypass_priority (bypass_rule ∷ []) q
    ++ at mesh_preserve_priority (mesh_rule ∷ []) q
    ++ at exclusion_priority (map exclusion_rule plan.exclusions) q
    ++ at container_route_priority (map container_rule plan.containers) q

module _ {r : Runner} {text : Text} (k : Kernel r text) where
  open r use {World}

  -- The rules that a step adds: all of them when it succeeds.
  pub record Adds (added : ℕ → List (List String)) (w : World)
      (out : World × Result RouteError (Unit {0})) : Type 0 where
    pub all_added : out.1 ≡ ok tt → (q : ℕ) → k.rules out.0 q ≡ k.rules w q ++ added q
    pub bounded : (q : ℕ) → length (k.rules out.0 q) ≤ length (k.rules w q) + length (added q)
    pub others : (q : ℕ) → added q ≡ [] → k.rules out.0 q ≡ k.rules w q

  nothing_added :
      (added : ℕ → List (List String)) (w w' : World) (e : RouteError)
      → k.rules w' ≡ k.rules w
      → Adds added w (w', err e)
  nothing_added added w w' e h = record {
    all_added = λ n. absurd (ground (arith, n));
    bounded = λ q. let l = ap (λ f. length (f q)) h in omega (arith, l);
    others = λ q n. ap (λ f. f q) h;
  }

  nothing_more : (w : World) → Adds (λ q. []) w (w, ok tt)
  nothing_more w = record {
    all_added = λ h q. sym (append-nil _);
    bounded = λ q. omega arith;
    others = λ q n. refl;
  }

  add_rule-Adds :
      (rule : List String) (p : ℕ) (wrong : String → String → RouteError) (w : World)
      → Adds (at p (rule ∷ [])) w (add_rule r text rule p wrong w)
  unfolding add_rule
  add_rule-Adds rule p wrong w = elim (Option-cases (failure r (add_args text rule p) w)) [
    | inl done ↦
        rw (done, add_rule)
          (record {
            all_added =
                λ h q. ap (λ f. f q) (k.added w rule p done) ∙ put_append p q rule (k.rules w);
            bounded = λ q.
                let e =
                  ap (λ f. length (f q)) (k.added w rule p done)
                  ∙ ap (λ l. length l) (put_append p q rule (k.rules w)) in
                omega (arith, e, length-append (k.rules w q) (at p (rule ∷ []) q));
            others = λ q n.
                ap (λ f. f q) (k.added w rule p done)
                ∙ (put_append p q rule (k.rules w) ∙ (ap (λ l. k.rules w q ++ l) n ∙ append-nil _));
          })
    | inr (e, f) ↦ rw (f, add_rule) (nothing_added _ w _ _ (k.failed w (add_args text rule p) f))
  ]

  resume-Adds :
      (a b : ℕ → List (List String)) (w : World) (m : World × Result RouteError (Unit {0}))
      (next : Step World RouteError (Unit {0}))
      → Adds a w m
      → ((w1 : World) → Adds b w1 (next w1))
      → Adds (λ q. a q ++ b q) w (resume m (λ _. next))
  resume-Adds a b w (w1, ok done) next h g = record {
    all_added = λ e q.
        (g w1).all_added e q
        ∙ (ap (λ l. l ++ b q) (h.all_added refl q) ∙ append_assoc (k.rules w q) (a q) (b q));
    bounded = λ q.
        let one = h.bounded q in
        let two = (g w1).bounded q in omega (arith, one, two, length-append (a q) (b q));
    others = λ q n. let (x, y) = both_nil (a q) (b q) n in (g w1).others q y ∙ h.others q x;
  }
  resume-Adds a b w (w1, err e) next h g = record {
    all_added = λ n. absurd (ground (arith, n));
    bounded = λ q. let one = h.bounded q in omega (arith, one, length-append (a q) (b q));
    others = λ q n. h.others q (both_nil (a q) (b q) n).0;
  }

  adding_as :
      (a b : ℕ → List (List String)) (w : World) (out : World × Result RouteError (Unit {0}))
      → ((q : ℕ) → a q ≡ b q)
      → Adds a w out
      → Adds b w out
  adding_as a b w out e h = record {
    all_added = λ o q. h.all_added o q ∙ ap (λ l. k.rules w q ++ l) (e q);
    bounded = λ q. let l = ap (λ l. length l) (e q) in let m = h.bounded q in omega (arith, l, m);
    others = λ q n. h.others q (e q ∙ n);
  }

  add_exclusions-Adds :
      (es : List Exclusion) (w : World)
      → Adds (at exclusion_priority (map exclusion_rule es)) w (add_exclusions r text es w)
  unfolding add_exclusions
  add_exclusions-Adds [] w = adding_as (λ q. []) _ w _ (λ q. sym (if_same _ [])) (nothing_more w)
  add_exclusions-Adds (e ∷ es) w =
      adding_as _ _ w _ (at-cons exclusion_priority (exclusion_rule e) (map exclusion_rule es)) (
        resume-Adds _ _ w _ (add_exclusions r text es)
          (add_rule-Adds (exclusion_rule e) exclusion_priority (install_exclusion e.prefix) w)
          (add_exclusions-Adds es))

  add_containers-Adds :
      (cs : List ContainerRoute) (w : World)
      → Adds (at container_route_priority (map container_rule cs)) w (add_containers r text cs w)
  unfolding add_containers
  add_containers-Adds [] w = adding_as (λ q. []) _ w _ (λ q. sym (if_same _ [])) (nothing_more w)
  add_containers-Adds (c ∷ cs) w =
      adding_as _ _ w _
        (at-cons container_route_priority (container_rule c) (map container_rule cs))
        (resume-Adds _ _ w _ (add_containers r text cs)
          (add_rule-Adds (container_rule c) container_route_priority (install_container c.prefix) w)
          (add_containers-Adds cs))

  pub install-Adds : (plan : RoutePlan) (w : World) → Adds (planned plan) w (install r text plan w)
  unfolding install
  install-Adds plan w =
      resume-Adds _ _ w _ _
        (resume-Adds _ _ w _ _
          (resume-Adds _ _ w _ _ (add_rule-Adds bypass_rule host_bypass_priority install_bypass w)
            (add_rule-Adds mesh_rule mesh_preserve_priority install_mesh))
          (add_exclusions-Adds plan.exclusions))
        (add_containers-Adds plan.containers)
