-- ===== src/Exit/Plan/Excluded.antt =====
-- Which prefixes PlanExclusions of internal/vpn/exit.go keeps outside the tunnel.
use aw_remote_host.Common.{
  [], if◌then◌else◌, ok_injective, bind-ok, Result, ok, err, String, ◌≡◌, refl, ap, ◌∙◌, subst, ◌≢◌,
  Bool, true, false, Option, none, some, List, ◌∷◌, ◌++◌, map, arith, str_eq,
}
use aw_remote_host.Exit.Rules.{Exclusion}
use aw_remote_host.Exit.Plan.{
  Net, private_v4_blocks, has, normalise_prefix, host_of, resolved, literal_or_resolved,
  resolve_control_plane, add_normalised, add_extras, with_exclusions, plan_around, plan_exclusions,
  LocalPrefix, ExclusionPlan, PlanError, no_control_plane_host,
}
use aw_remote_host.Exit.Plan.Extended.{
  Extended, member, IsDistinct, nothing_more, add_then, addresses, add_addresses-Extended,
  add_locals-Extended, add_blocks-Extended, chain,
}

-- The prefixes of the operator's own list that can be read.
abbrev pub readable : Result PlanError String → List String
readable (ok p) = p ∷ []
readable (err e) = []

module _ (net : Net) where
  abbrev pub requested : List String → List String
  requested [] = []
  requested (raw ∷ raws) =
      (if str_eq (net.trim raw) "" then [] else readable (normalise_prefix net (net.trim raw)))
      ++ requested raws

  add_one-Extended :
      (r : Result PlanError String) (es es' : List Exclusion)
      → add_normalised net es r ≡ ok es'
      → Extended (readable r) es es'
  add_one-Extended (err e) es es' h = absurd (ground (arith, h))
  add_one-Extended (ok p) es es' h =
      let e = ok_injective _ _ h in
      subst (Extended (p ∷ []) es) e (add_then p _ [] es _ (nothing_more _))

  by_blank :
      (b : Bool) (r : Result PlanError String) (es es' : List Exclusion)
      → (if b then ok es else add_normalised net es r) ≡ ok es'
      → Extended (if b then [] else readable r) es es'
  by_blank true r es es' h = subst (Extended [] es) (ok_injective _ _ h) (nothing_more es)
  by_blank false r es es' h = add_one-Extended r es es' h

  add_extras-Extended :
      (raws : List String) (es es' : List Exclusion)
      → add_extras net raws es ≡ ok es'
      → Extended (requested raws) es es'
  unfolding add_extras
  add_extras-Extended [] es es' h = subst (Extended [] es) (ok_injective _ _ h) (nothing_more es)
  add_extras-Extended (raw ∷ raws) es es' h =
      let (mid, one, rest) =
        bind-ok
          (if str_eq (net.trim raw) ""
            then ok es
            else add_normalised net es (normalise_prefix net (net.trim raw)))
          (add_extras net raws) es' h in
      chain _ (requested raws) es mid es'
        (by_blank (str_eq (net.trim raw) "") (normalise_prefix net (net.trim raw)) es mid one)
        (add_extras-Extended raws mid es' rest)

  -- The prefixes that have to stay outside, in the order in which they are added.
  abbrev pub wanted : List String → List LocalPrefix → List String → List String
  wanted ips locals extra =
      addresses ips
      ++ map (λ (l : LocalPrefix). l.prefix) locals
      ++ private_v4_blocks
      ++ requested extra

  -- A plan that excludes what is wanted, nothing else and nothing twice, with the control plane among it.
  pub record IsComplete (locals : List LocalPrefix) (extra : List String) (plan : ExclusionPlan)
      : Type 0 where
    pub excludes :
        (q : String) → has q plan.exclusions ≡ member q (wanted plan.control_plane_ips locals extra)
    pub distinct : IsDistinct plan.exclusions
    pub known : plan.control_plane_ips ≢ []

  built :
      (host : String) (ips : List String) (locals : List LocalPrefix) (extra : List String)
      (r : Result PlanError (List Exclusion)) (plan : ExclusionPlan)
      → ips ≢ []
      → ((es : List Exclusion) → r ≡ ok es → Extended (wanted ips locals extra) [] es)
      → with_exclusions net host ips r ≡ ok plan
      → IsComplete locals extra plan
  built host ips locals extra (err e) plan n x h = absurd (ground (arith, h))
  built host ips locals extra (ok es) plan n x h =
      let y = x es refl in
      subst (IsComplete locals extra) (ok_injective _ _ h)
        (record { excludes = y.holds; distinct = y.distinct tt; known = n })

  resolved-known :
      (host : String) (answer : Result String (List String)) (found : String × List String)
      → resolved net host answer ≡ ok found
      → found.1 ≢ []
  resolved-known host (err e) found h = absurd (ground (arith, h))
  resolved-known host (ok []) found h = absurd (ground (arith, h))
  resolved-known host (ok (ip ∷ ips)) found h =
      let e = ap (λ (f : String × List String). f.1) (ok_injective _ _ h) in
      λ n. absurd (let z = e ∙ n in ground (arith, z))

  literal_or_resolved-known :
      (host : String) (ip : Option String) (answer : Result String (List String))
      (found : String × List String)
      → literal_or_resolved net host ip answer ≡ ok found
      → found.1 ≢ []
  literal_or_resolved-known host none answer found h = resolved-known host answer found h
  literal_or_resolved-known host (some ip) answer found h =
      let e = ap (λ (f : String × List String). f.1) (ok_injective _ _ h) in
      λ n. absurd (let z = e ∙ n in ground (arith, z))

  resolve_control_plane-known :
      (control_plane : String) (resolve : String → Result String (List String))
      (found : String × List String)
      → resolve_control_plane net control_plane resolve ≡ ok found
      → found.1 ≢ []
  unfolding resolve_control_plane
  resolve_control_plane-known control_plane resolve found =
      by_host (str_eq (host_of net control_plane) "")
    where
      by_host :
          (b : Bool)
          → (if b
              then err (no_control_plane_host control_plane)
              else literal_or_resolved net
                  (host_of net control_plane)
                  (net.to4 (host_of net control_plane))
                  (resolve (host_of net control_plane)))
            ≡ ok found
          → found.1 ≢ []
      by_host true h = absurd (ground (arith, h))
      by_host false h = literal_or_resolved-known _ _ _ found h

  -- A plan of PlanExclusions knows at least one address of the control plane, and excludes exactly
  -- those addresses, the attached networks, the private blocks and what the operator asked for, with
  -- no prefix twice.
  pub plan_exclusions-IsComplete :
      (control_plane : String) (locals : List LocalPrefix) (extra : List String)
      (resolve : String → Result String (List String)) (plan : ExclusionPlan)
      → plan_exclusions net control_plane locals extra resolve ≡ ok plan
      → IsComplete locals extra plan
  unfolding plan_exclusions
  plan_exclusions-IsComplete control_plane locals extra resolve plan =
      around (resolve_control_plane net control_plane resolve) refl
    where
      around :
          (r : Result PlanError (String × List String))
          → resolve_control_plane net control_plane resolve ≡ r
          → plan_around net locals extra r ≡ ok plan
          → IsComplete locals extra plan
      around (err e) f h = absurd (ground (arith, h))
      around (ok (host, ips)) f h =
          built host ips locals extra _ plan
            (resolve_control_plane-known control_plane resolve (host, ips) f)
            (λ es e.
              chain _ (requested extra) [] _ es
                (chain _ private_v4_blocks [] _ _
                  (chain _ _ [] _ _ (add_addresses-Extended host ips [])
                    (add_locals-Extended locals _))
                  (add_blocks-Extended private_v4_blocks _))
                (add_extras-Extended extra _ es e))
            h
