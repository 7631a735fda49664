-- ===== src/Firewall/Iptables/Rebuild.antt =====
-- Apply of internal/firewall/iptables.go sets the whole state of both chains: what they held before
-- does not matter, and the hooks gain at most the jump.
use aw_remote_host.Common.{
  String, ◌≡◌, inl, inr, some, [], ◌∷◌, ok, Option-cases, ap, ◌∙◌, ◌⊎◌, Bool, none, List, ◌++◌, map,
  arith, true, false, refl, Option, eq_iff, eq_refl, str_eq,
}
use aw_remote_host.Common.Int.{ℤ}
use mathlib.Core.Path.{fun_ext, subst}
use mathlib.Core.List.{append-nil, append_assoc}
use aw_remote_host.Runner.{Runner, >>=-ok}
use aw_remote_host.Firewall.{ChainRule, Rule, build_ruleset}
use aw_remote_host.Firewall.Iptables.{
  ensure_chain, rule_spec, ensure_jump, apply_rules, fill_chain, chain_in, chain_fwd, forward_hook,
  apply,
}
use aw_remote_host.Firewall.Iptables.Kernel.{Kernel, put, failure, after, Chains, add_first, jump}

put-put :
    (c : String) (a b : Option (List (List String))) (chains : Chains)
    → put c a (put c b chains) ≡ put c a chains
put-put c a b chains = fun_ext λ d. ground arith

module _ (r : Runner) (itoa : ℤ → String) (k : Kernel r) where
  open k use {chains}

  ensure_chain-chains :
      (c : String) (w : r.World)
      → (ensure_chain r itoa c w).1 ≡ ok tt
      → chains (ensure_chain r itoa c w).0 ≡ put c (some []) (chains w)
  unfolding ensure_chain
  ensure_chain-chains c w h = elim (Option-cases (failure r ("-N" ∷ c ∷ []) w)) [
    | inl e ↦ rw e (k.created w c e)
    | inr (x, e) ↦ flush x e (Option-cases (failure r ("-F" ∷ c ∷ []) (after r ("-N" ∷ c ∷ []) w)))
  ]
    where
      w1 : r.World
      w1 = after r ("-N" ∷ c ∷ []) w

      flush :
          (x : String)
          → failure r ("-N" ∷ c ∷ []) w ≡ some x
          → (failure r ("-F" ∷ c ∷ []) w1 ≡ none)
            ⊎ ((y : String) × (failure r ("-F" ∷ c ∷ []) w1 ≡ some y))
          → chains (ensure_chain r itoa c w).0 ≡ put c (some []) (chains w)
      flush x e (inl f) =
          rw e (k.flushed w1 c f ∙ ap (put c (some [])) (k.failed w ("-N" ∷ c ∷ []) e))
      flush x e (inr (y, f)) = absurd (ground (arith, h))

  -- The jump was there, or it is put in front; no other chain changes.
  abbrev Hooked : String → String → Chains → Chains → Type 0
  Hooked hook c old new = (new ≡ old) ⊎ (new ≡ put hook (add_first (jump c) (old hook)) old)

  ensure_jump-chains :
      (hook c : String) (head : Bool) (w : r.World)
      → (ensure_jump r itoa hook c head w).1 ≡ ok tt
      → Hooked hook c (chains w) (chains (ensure_jump r itoa hook c head w).0)
  unfolding ensure_jump
  ensure_jump-chains hook c true w h =
      let w1 = after r ("-C" ∷ hook ∷ jump c) w in
      ground (arith, k.checked w (hook ∷ jump c), k.inserted_at_one w1 hook c)
  ensure_jump-chains hook c false w h =
      let w1 = after r ("-C" ∷ hook ∷ jump c) w in
      ground (arith, k.checked w (hook ∷ jump c), k.inserted w1 hook c)

  apply_rules-chains :
      (c : String) (cs : List ChainRule) (w : r.World) {old : List (List String)}
      → (apply_rules r itoa c cs w).1 ≡ ok tt
      → chains w c ≡ some old
      → chains (apply_rules r itoa c cs w).0
        ≡ put c (some (old ++ map (rule_spec itoa) cs)) (chains w)
  unfolding apply_rules
  apply_rules-chains c [] w {old} h o = rw append-nil (fun_ext λ d. ground (arith, eq_iff c d))
  apply_rules-chains c (x ∷ cs) w {old} h o =
      elim (Option-cases (failure r ("-A" ∷ c ∷ rule_spec itoa x) w)) [
        | inl e ↦
            let w1 = after r ("-A" ∷ c ∷ rule_spec itoa x) w in
            let new : chains w1 ≡ put c (some (old ++ rule_spec itoa x ∷ [])) (chains w) =
              k.appended w c (rule_spec itoa x) e ∙ rw o refl in
            let here : chains w1 c ≡ some (old ++ rule_spec itoa x ∷ []) =
              rw new (rw (eq_refl c) refl) in
            let added : Option (List (List String)) = some (old ++ rule_spec itoa x ∷ []) in
            let full : Option (List (List String)) = some (old ++ map (rule_spec itoa) (x ∷ cs)) in
            let rest : chains (apply_rules r itoa c cs w1).0 ≡ put c full (chains w1) =
              rw append_assoc at (apply_rules-chains c cs w1 (rw e at h) here) in
            rw e (rest ∙ (ap (put c full) new ∙ put-put c full added (chains w)))
        | inr (y, e) ↦ absurd (ground (arith, h))
      ]

  Hooked-other :
      (hook c d : String) {old new : Chains}
      → str_eq hook d ≡ false
      → Hooked hook c old new
      → new d ≡ old d
  Hooked-other hook c d ne (inl e) = rw e refl
  Hooked-other hook c d ne (inr e) = rw e (rw ne refl)

  -- One half of Apply: the chain holds exactly the given rules, the hook at most gains the jump.
  fill_chain-chains :
      (hook c : String) (head : Bool) (cs : List ChainRule) (w : r.World)
      → str_eq hook c ≡ false
      → (fill_chain r itoa hook c head cs w).1 ≡ ok tt
      → (hooked : Chains) × Hooked hook c (put c (some []) (chains w)) hooked
        × (chains (fill_chain r itoa hook c head cs w).0
            ≡ put c (some (map (rule_spec itoa) cs)) hooked)
  unfolding fill_chain
  fill_chain-chains hook c head cs w ne h =
      let (_, made, h1, e1) = >>=-ok (ensure_chain r itoa c) _ w h in
      let w1 = (ensure_chain r itoa c w).0 in
      let (_, hooked, h2, e2) = >>=-ok (ensure_jump r itoa hook c head) _ w1 h1 in
      let w2 = (ensure_jump r itoa hook c head w1).0 in
      let jumped : Hooked hook c (put c (some []) (chains w)) (chains w2) =
        subst (λ old. Hooked hook c old (chains w2)) (ensure_chain-chains c w made)
          (ensure_jump-chains hook c head w1 hooked) in
      let empty : chains w2 c ≡ some [] = Hooked-other hook c c ne jumped ∙ rw (eq_refl c) refl in
      (chains w2, jumped, ap chains (e1 ∙ e2) ∙ apply_rules-chains c cs w2 h2 empty)

  fill_chain_self :
      (hook c : String) (head : Bool) (cs : List ChainRule) (w : r.World)
      → str_eq hook c ≡ false
      → (fill_chain r itoa hook c head cs w).1 ≡ ok tt
      → chains (fill_chain r itoa hook c head cs w).0 c ≡ some (map (rule_spec itoa) cs)
  fill_chain_self hook c head cs w ne h =
      let (hooked, _, e) = fill_chain-chains hook c head cs w ne h in rw e (rw (eq_refl c) refl)

  fill_chain-other :
      (hook c d : String) (head : Bool) (cs : List ChainRule) (w : r.World)
      → str_eq hook c ≡ false
      → str_eq hook d ≡ false
      → str_eq c d ≡ false
      → (fill_chain r itoa hook c head cs w).1 ≡ ok tt
      → chains (fill_chain r itoa hook c head cs w).0 d ≡ chains w d
  fill_chain-other hook c d head cs w ne nh nc h =
      let (hooked, j, e) = fill_chain-chains hook c head cs w ne h in
      rw e (rw nc (Hooked-other hook c d nh j ∙ rw nc refl))

  forward_hook-chains : (w : r.World) → chains (forward_hook r itoa w).0 ≡ chains w
  unfolding forward_hook
  forward_hook-chains w = k.listed w ("DOCKER-USER" ∷ [])

  abbrev IsHook : String → Type 0
  IsHook hook = (hook ≡ "DOCKER-USER") ⊎ (hook ≡ "FORWARD")

  forward_hook-IsHook : (w : r.World) → IsHook (forward_hook r itoa w).1
  unfolding forward_hook
  forward_hook-IsHook w = ground arith

  -- A text that neither hook of the second chain is.
  IsHook-ne :
      (hook d : String)
      → str_eq "DOCKER-USER" d ≡ false
      → str_eq "FORWARD" d ≡ false
      → IsHook hook
      → str_eq hook d ≡ false
  IsHook-ne hook d nd nf (inl e) = rw e nd
  IsHook-ne hook d nd nf (inr e) = rw e nf

  -- What Apply went through when it succeeded.
  abbrev Halves : List Rule → Bool → r.World → Type 0
  Halves rules lockdown w =
      let cs = build_ruleset rules lockdown in
      let w1 = (fill_chain r itoa "INPUT" chain_in false cs w).0 in
      let (w2, hook) = forward_hook r itoa w1 in
      ((fill_chain r itoa "INPUT" chain_in false cs w).1 ≡ ok tt)
      × ((fill_chain r itoa hook chain_fwd true cs w2).1 ≡ ok tt)
      × ((apply r itoa rules lockdown w).0 ≡ (fill_chain r itoa hook chain_fwd true cs w2).0)

  apply-Halves :
      (rules : List Rule) (lockdown : Bool) (w : r.World)
      → (apply r itoa rules lockdown w).1 ≡ ok tt
      → Halves rules lockdown w
  unfolding apply
  apply-Halves rules lockdown w h =
      let cs = build_ruleset rules lockdown in
      let (_, h1, h2, e) = >>=-ok (fill_chain r itoa "INPUT" chain_in false cs) _ w h in (h1, h2, e)

  -- When Apply succeeds, AW-FW-IN and AW-FW-FWD each hold exactly the built rule list, in order,
  -- whatever any chain held before.
  pub apply-chains :
      (rules : List Rule) (lockdown : Bool) (w : r.World)
      → (apply r itoa rules lockdown w).1 ≡ ok tt
      → let installed = some (map (rule_spec itoa) (build_ruleset rules lockdown)) in
        (chains (apply r itoa rules lockdown w).0 chain_in ≡ installed)
        × (chains (apply r itoa rules lockdown w).0 chain_fwd ≡ installed)
  apply-chains rules lockdown w h =
      let cs = build_ruleset rules lockdown in
      let (h1, h2, e) = apply-Halves rules lockdown w h in
      let w1 = (fill_chain r itoa "INPUT" chain_in false cs w).0 in
      let w2 = (forward_hook r itoa w1).0 in
      let hook = (forward_hook r itoa w1).1 in
      let is_hook = forward_hook-IsHook w1 in
      let ne = IsHook-ne hook chain_fwd refl refl is_hook in
      (
        ap (λ u. chains u chain_in) e
            ∙ (fill_chain-other hook chain_fwd chain_in true cs w2 ne
                  (IsHook-ne hook chain_in refl refl is_hook) refl h2
                ∙ (ap (λ (f : Chains). f chain_in) (forward_hook-chains w1)
                    ∙ fill_chain_self "INPUT" chain_in false cs w refl h1)),
        ap (λ u. chains u chain_fwd) e ∙ fill_chain_self hook chain_fwd true cs w2 ne h2,
      )

  -- When Apply succeeds, every chain but the two it owns, INPUT, DOCKER-USER and FORWARD is as it
  -- was.
  pub apply-other_chains :
      (rules : List Rule) (lockdown : Bool) (w : r.World) (d : String)
      → (apply r itoa rules lockdown w).1 ≡ ok tt
      → str_eq chain_in d ≡ false
      → str_eq chain_fwd d ≡ false
      → str_eq "INPUT" d ≡ false
      → str_eq "DOCKER-USER" d ≡ false
      → str_eq "FORWARD" d ≡ false
      → chains (apply r itoa rules lockdown w).0 d ≡ chains w d
  apply-other_chains rules lockdown w d h n1 n2 n3 n4 n5 =
      let cs = build_ruleset rules lockdown in
      let (h1, h2, e) = apply-Halves rules lockdown w h in
      let w1 = (fill_chain r itoa "INPUT" chain_in false cs w).0 in
      let w2 = (forward_hook r itoa w1).0 in
      let hook = (forward_hook r itoa w1).1 in
      let is_hook = forward_hook-IsHook w1 in
      let ne = IsHook-ne hook chain_fwd refl refl is_hook in
      ap (λ u. chains u d) e
      ∙ (fill_chain-other hook chain_fwd d true cs w2 ne (IsHook-ne hook d n4 n5 is_hook) n2 h2
          ∙ (ap (λ (f : Chains). f d) (forward_hook-chains w1)
              ∙ fill_chain-other "INPUT" chain_in d false cs w refl n3 n1 h1))
