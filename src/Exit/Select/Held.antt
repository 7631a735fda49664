-- ===== src/Exit/Select/Held.antt =====
-- That what has to stay outside the tunnel does so behind UseExit of internal/vpn/usexit.go.
use aw_remote_host.Common.{
  [], ok, String, ◌≡◌, refl, sym, subst, inl, inr, Bool, true, false, Option, none, some, List, ◌∷◌,
  arith, str_eq, eq_iff, if◌then◌else◌, ap, ◌∙◌, ◌||◌,
}
use aw_remote_host.Runner.{Runner}
use aw_remote_host.Exit.Outcome.{Meets}
use aw_remote_host.Exit.Rules.{Text, mesh_prefix, Exclusion}
use aw_remote_host.Exit.Plan.{Net, has}
use aw_remote_host.Exit.Prepare.{
  UseExitPlan, UseExitSpec, Surroundings, with_defaults, plan_use_exit, Refusal,
}
use aw_remote_host.Exit.Select.{unless_refused, use_exit, Host, use_planned}
use aw_remote_host.Exit.Rules.Kernel.{Kernel}
use aw_remote_host.Exit.Rules.Routed.{chosen, any, covers}
use aw_remote_host.Exit.Plan.Extended.{member}
use aw_remote_host.Exit.Plan.Excluded.{wanted}
use aw_remote_host.Exit.Prepare.Sound.{IsSound, plan_use_exit-IsSound}
use aw_remote_host.Exit.Rules.Cleared.{or_cases}
use aw_remote_host.Exit.Select.Routing.{AreReserved, chosen-use_planned}

or_right : (a b : Bool) → b ≡ true → (a || b) ≡ true
or_right true b h = refl
or_right false b h = h

excluded_covers :
    {Address : Type 0} (inside : String → Address → Bool) (q : String) (target : Address)
    (es : List Exclusion)
    → has q es ≡ true
    → covers inside q target ≡ true
    → any (λ (e : Exclusion). covers inside e.prefix target) es ≡ true
excluded_covers inside q target [] h c = absurd (ground (arith, h))
excluded_covers inside q target (e ∷ es) h c = elim (or_cases (str_eq e.prefix q) (has q es) h) [
  | inl same ↦
      let f = subst (λ p. covers inside p target ≡ true) (sym ((eq_iff e.prefix q).0 same)) c in
      rw f refl
  | inr later ↦
      let f = excluded_covers inside q target es later c in
      or_right (covers inside e.prefix target) _ f
]

module _ {r : Runner} {text : Text} (k : Kernel r text) (reserved : AreReserved r text k) where
  open r use {World}

  unrefused :
      (exists : World → Bool) (spec : UseExitSpec) (m : Meets) (s : Host r text exists)
      (plan : UseExitPlan) (x : Option Refusal)
      → (unless_refused r text exists spec plan m s x).1.confirmed ≡ true
      → x ≡ none
  unrefused exists spec m s plan none h = refl
  unrefused exists spec m s plan (some x) h = absurd (ground (arith, h))

  held_by_plan :
      {Address : Type 0} (inside : String → Address → Bool) (exists : World → Bool) (net : Net)
      (env : Surroundings) (spec : UseExitSpec) (m : Meets) (s : Host r text exists)
      (plan : UseExitPlan) (q : String) (source target : Address)
      → (plan.refusal ≡ none → IsSound net env spec plan)
      → (use_planned r text exists spec m s (ok plan)).1.confirmed ≡ true
      → member q (wanted net plan.exclusions.control_plane_ips env.locals spec.exclude) ≡ true
      → covers inside q target ≡ true
      → covers inside mesh_prefix target ≡ false
      → chosen inside source target (k.rules (use_planned r text exists spec m s (ok plan)).0.world)
        ≡ some "main"
  unfolding use_planned
  held_by_plan inside exists net env spec m s plan q source target sound h w c away =
      let good = sound (unrefused exists spec m s plan plan.refusal h) in
      let listed : has q plan.routes.exclusions ≡ true =
        ap (has q) good.excluded ∙ (good.complete.excludes q ∙ w) in
      let out = excluded_covers inside q target plan.routes.exclusions listed c in
      chosen-use_planned k reserved inside exists spec m s plan source target h
      ∙ by_tests _ _ _ away out
    where
      by_tests :
          (a b : Bool) (x : String)
          → a ≡ false
          → b ≡ true
          → some (if a then "52" else (if b then "main" else x)) ≡ some "main"
      by_tests a b x f g = ground (arith, f, g)

  -- Behind a confirmed UseExit, every packet to an address of the control plane, an attached network,
  -- a private block, or what the operator excluded is routed by the main table, wherever it is from,
  -- unless it is for the mesh. It is assumed that no command but ip changes the rules at the four
  -- priorities.
  pub use_exit-held :
      {Address : Type 0} (inside : String → Address → Bool) (exists : World → Bool) (net : Net)
      (env : Surroundings) (spec : UseExitSpec) (m : Meets) (s : Host r text exists)
      (plan : UseExitPlan) (q : String) (source target : Address)
      → plan_use_exit net env (with_defaults spec) ≡ ok plan
      → (use_exit r text exists net env spec m s).1.confirmed ≡ true
      → member q (wanted net plan.exclusions.control_plane_ips env.locals spec.exclude) ≡ true
      → covers inside q target ≡ true
      → covers inside mesh_prefix target ≡ false
      → chosen inside source target (k.rules (use_exit r text exists net env spec m s).0.world)
        ≡ some "main"
  unfolding use_exit
  use_exit-held inside exists net env spec m s plan q source target made h w c away =
      subst
        (λ p.
          chosen inside source target
            (k.rules (use_planned r text exists (with_defaults spec) m s p).0.world)
          ≡ some "main")
        (sym made)
        (held_by_plan inside exists net env (with_defaults spec) m s plan q source target
          (plan_use_exit-IsSound net env (with_defaults spec) plan made)
          (subst (λ p. (use_planned r text exists (with_defaults spec) m s p).1.confirmed ≡ true)
            made h)
          w c away)
