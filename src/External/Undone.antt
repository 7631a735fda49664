-- ===== src/External/Undone.antt =====
-- What a revert of internal/vpn/externalroute.go without an error has seen of the rule.
use aw_remote_host.Common.{
  [], ok, err, ℕ, zero, suc, ◌≡◌, refl, sym, ap, subst, true, false, Option, none, some, arith,
  some_injective, ◌∙◌,
}
use aw_remote_host.Runner.{Runner}
use aw_remote_host.Deadman.{disarm, DisarmCalls}
use aw_remote_host.External.{
  Words, ExternalPlan, ExternalError, rule_args, Reading, rule_installed, attempt,
  revert_tunnel_dns, after_removal, if_installed, remove_rule, remove_exclusions,
  revert_external_route, rule_not_removed, first_error, for_servers, closing, behind_dns, unrouted,
  external_unroute, Machine,
}

module _ (r : Runner) (t : Words) where
  open r use {World}

  -- The ways in which the loop of revertExternalRoute ends without an error, and the world behind it:
  -- the rule was seen to be absent, the rules could not be read, or the turns were spent.
  pub data Removal (p : ExternalPlan) : ℕ → World → World → Type 0 where
    absent :
        (turns : ℕ) (w : World)
        → (rule_installed r t p w).1 ≡ ok false
        → Removal p (suc turns) w (rule_installed r t p w).0
    unread :
        (turns : ℕ) (w : World) (e : ExternalError)
        → (rule_installed r t p w).1 ≡ err e
        → Removal p (suc turns) w (rule_installed r t p w).0
    spent : (w : World) → Removal p 0 w w
    deleted :
        (turns : ℕ) (w w' : World)
        → (rule_installed r t p w).1 ≡ ok true
        → Removal p turns
            (attempt r t rule_not_removed "ip" (rule_args t p "del") (rule_installed r t p w).0).0
            w'
        → Removal p (suc turns) w w'

  abbrev Seen : ExternalPlan → ℕ → World → World × Option ExternalError → Type 0
  Seen p turns w out = out.1 ≡ none → Removal p turns w out.0

  turn-Seen :
      (p : ExternalPlan) (turns : ℕ) (w : World) (seen : Reading r t)
      (gone rest : World × Option ExternalError)
      → rule_installed r t p w ≡ seen
      → attempt r t rule_not_removed "ip" (rule_args t p "del") (rule_installed r t p w).0 ≡ gone
      → Seen p turns gone.0 rest
      → Seen p (suc turns) w (if_installed r t seen (after_removal r t gone rest))
  turn-Seen p turns w (w1, ok false) gone rest s a ih h =
      subst (Removal p (suc turns) w) (ap (λ x. x.0) s) (absent turns w (ap (λ x. x.1) s))
  turn-Seen p turns w (w1, err e) gone rest s a ih h =
      subst (Removal p (suc turns) w) (ap (λ x. x.0) s) (unread turns w e (ap (λ x. x.1) s))
  turn-Seen p turns w (w1, ok true) (w2, some e) rest s a ih h = absurd (ground (arith, h))
  turn-Seen p turns w (w1, ok true) (w2, none) rest s a ih h =
      deleted turns w rest.0 (ap (λ x. x.1) s)
        (subst (λ v. Removal p turns v rest.0) (ap (λ x. x.0) (sym a)) (ih h))

  -- However its commands answer, the loop of revertExternalRoute that removes the rule ends without an
  -- error only when it saw no rule, when it could not read the rules, or behind as many deletions as it
  -- has turns.
  pub remove_rule-Removal :
      (p : ExternalPlan) (turns : ℕ) (w : World)
      → (remove_rule r t p turns w).1 ≡ none
      → Removal p turns w (remove_rule r t p turns w).0
  unfolding remove_rule
  remove_rule-Removal p zero w h = spent w
  remove_rule-Removal p (suc turns) w h =
      turn-Seen p turns w _ _ _ refl refl (remove_rule-Removal p turns _) h

  unread_rule :
      (p : ExternalPlan) (turns : ℕ) (w : World) (e : ExternalError)
      → (rule_installed r t p w).1 ≡ err e
      → remove_rule r t p (suc turns) w ≡ ((rule_installed r t p w).0, none)
  unfolding remove_rule
  unread_rule p turns w e h = by_reading (rule_installed r t p w) _ h
    where
      by_reading :
          (seen : Reading r t) (removed : World × Option ExternalError)
          → seen.1 ≡ err e
          → if_installed r t seen removed ≡ (seen.0, none)
      by_reading (w1, ok b) removed h = absurd (ground (arith, h))
      by_reading (w1, err x) removed h = refl

  unread_revert :
      (p : ExternalPlan) (w : World) (e : ExternalError)
      → revert_tunnel_dns r t p w ≡ (w, none)
      → (rule_installed r t p w).1 ≡ err e
      → (remove_exclusions r t p p.exclusions (rule_installed r t p w).0).1 ≡ none
      → revert_external_route r t p w
        ≡ ((remove_exclusions r t p p.exclusions (rule_installed r t p w).0).0, none)
  unfolding revert_external_route
  unread_revert p w e d u x =
      ap (behind_dns r t p) d
      ∙ (ap (closing r t p none) (unread_rule p 7 w e u) ∙ ap (λ f. (left, first_error none f)) x)
    where
      left : World
      left = (remove_exclusions r t p p.exclusions (rule_installed r t p w).0).0

  no_servers :
      (p : ExternalPlan) (w : World) → p.dns_servers ≡ [] → revert_tunnel_dns r t p w ≡ (w, none)
  unfolding revert_tunnel_dns
  no_servers p w h = ap (λ ss. for_servers r t p ss w) h

  -- When the rules of the host cannot be read, ExternalUnroute of a route without tunnelled DNS whose
  -- exclusions can be removed never tries to delete the rule, and still reports that it reverted the
  -- route, stands the dead-man's switch down and forgets the route.
  pub external_unroute-unread :
      (calls : DisarmCalls) (s : Machine r t) (p : ExternalPlan) (e : ExternalError)
      → s.recorded ≡ some p
      → p.dns_servers ≡ []
      → (rule_installed r t p s.world).1 ≡ err e
      → (remove_exclusions r t p p.exclusions (rule_installed r t p s.world).0).1 ≡ none
      → external_unroute r t calls none s ≡ (
        record {
          world = (remove_exclusions r t p p.exclusions (rule_installed r t p s.world).0).0;
          switches = (disarm calls s.switches).0;
          recorded = none;
        },
        true,
        none,
      )
  unfolding external_unroute
  external_unroute-unread calls s p e known d u x =
      by_record s.recorded known
      ∙ ap (unrouted r t calls none s) (unread_revert p s.world e (no_servers p s.world d) u x)
    where
      by_record :
          (o : Option ExternalPlan)
          → o ≡ some p
          → (elim o [
            | none ↦ (s, true, none)
            | some q ↦ unrouted r t calls none s (revert_external_route r t q s.world)
          ])
            ≡ unrouted r t calls none s (revert_external_route r t p s.world)
      by_record none h = absurd (ground (arith, h))
      by_record (some q) h =
          ap (λ z. unrouted r t calls none s (revert_external_route r t z s.world))
            (some_injective q p h)
