-- ===== src/Exit/Rules/Enough.antt =====
-- That the turns of clearRulesAtPriority are enough.
use aw_remote_host.Common.{
  [], ◌==◌, if◌then◌else◌, Option-cases, length, ℕ, zero, suc, ◌<◌, String, ◌≡◌, refl, sym, ap, ◌∙◌,
  subst, inl, inr, Bool, true, false, none, some, List, ◌∷◌, arith, drop, length-drop, ◌↔◌,
}
use aw_remote_host.Runner.{Runner}
use aw_remote_host.Exit.Rules.{
  Text, del_args, is_no_such_rule, clear_turns, clear_rules_at_priority, clear_each, RouteError,
  mem,
}
use aw_remote_host.Exit.Rules.Kernel.{Kernel, after, failure, output}
use aw_remote_host.Exit.Rules.Cleared.{clear_turns-Removed}

-- Deletions are permitted: one fails only for want of a rule.
abbrev pub IsPermitted : (r : Runner) → Text → Type 0
IsPermitted r text =
    (w : r.World) (p : ℕ) (e : String)
    → failure r (del_args text p) w ≡ some e
    → is_no_such_rule text (output r (del_args text p) w) ≡ true

true→none : (b : Bool) (e : RouteError) → b ≡ true → (if b then none else some e) ≡ none
true→none true e h = refl
true→none false e h = absurd (ground (arith, h))

same_priority : (p : ℕ) (x y : List (List String)) → (if p == p then x else y) ≡ x
same_priority p x y = ground arith

cut_shorter :
    (b : Bool) (n m : ℕ) (xs : List (List String))
    → length xs < m
    → length (if b then drop n xs else xs) < m
cut_shorter true n m xs h = omega (arith, h, length-drop n xs)
cut_shorter false n m xs h = h

module _ {r : Runner} {text : Text} (k : Kernel r text) (may : IsPermitted r text) where
  open r use {World}

  fewer :
      (p n : ℕ) (w : World)
      → failure r (del_args text p) w ≡ none
      → length (k.rules w p) < suc n
      → length (k.rules (after r (del_args text p) w) p) < n
  fewer p n w gone h =
      let (rule, rest, had, now) = k.deleted w p gone in
      let shorter : length rest < n = (let l = ap length had in omega (arith, l, h)) in
      let here : k.rules (after r (del_args text p) w) p ≡ rest =
        ap (λ f. f p) now ∙ same_priority p rest (k.rules w p) in
      subst (λ l. length l < n) (sym here) shorter

  clear_turns-none :
      (turns removed p : ℕ) (w : World)
      → length (k.rules w p) < turns
      → (clear_turns r text turns removed p w).2 ≡ none
  unfolding clear_turns
  clear_turns-none zero removed p w h = absurd (omega (arith, h))
  clear_turns-none (suc turns) removed p w h = elim (Option-cases (failure r (del_args text p) w)) [
    | inl gone ↦
        rw (gone, clear_turns) (clear_turns-none turns (suc removed) p _ (fewer p turns w gone h))
    | inr (e, f) ↦ rw (f, clear_turns) (true→none _ _ (may w p e f))
  ]

  turn_goes :
      (turns removed p : ℕ) (w : World)
      → failure r (del_args text p) w ≡ none
      → clear_turns r text (suc turns) removed p w
        ≡ clear_turns r text turns (suc removed) p (after r (del_args text p) w)
  unfolding clear_turns
  turn_goes turns removed p w gone = rw (gone, clear_turns) refl

  needs :
      (turns removed p : ℕ) (w : World)
      → (clear_turns r text turns removed p w).2 ≡ none
      → length (k.rules w p) < turns
  unfolding clear_turns
  needs zero removed p w h = absurd (ground (arith, h))
  needs (suc turns) removed p w h = elim (Option-cases (failure r (del_args text p) w)) [
    | inl gone ↦
        let (rule, rest, had, now) = k.deleted w p gone in
        let here : k.rules (after r (del_args text p) w) p ≡ rest =
          ap (λ f. f p) now ∙ same_priority p rest (k.rules w p) in
        let h' : (clear_turns r text turns (suc removed) p (after r (del_args text p) w)).2 ≡ none =
          sym (ap (λ o. o.2) (turn_goes turns removed p w gone)) ∙ h in
        let l = needs turns (suc removed) p _ h' in
        let l' = subst (λ xs. length xs < turns) here l in
        subst (λ xs. length xs < suc turns) (sym had) (omega (arith, l'))
    | inr (e, f) ↦
        subst (λ xs. length xs < suc turns) (sym (k.no_such w p f (may w p e f))) (omega arith)
  ]

  -- Where a deletion fails only for want of a rule, clearing a priority succeeds exactly when it has
  -- fewer than 64 rules.
  pub clear_rules_at_priority-none_iff :
      (p : ℕ) (w : World)
      → ((clear_rules_at_priority r text p w).2 ≡ none) ↔ (length (k.rules w p) < 64)
  unfolding clear_rules_at_priority
  clear_rules_at_priority-none_iff p w =
      ((λ h. needs 64 0 p w h), (λ h. clear_turns-none 64 0 p w h))

  pub clear_each-none :
      (ps : List ℕ) (total : ℕ) (w : World)
      → ((q : ℕ) → mem q ps ≡ true → length (k.rules w q) < 64)
      → (clear_each r text ps total w).2 ≡ none
  unfolding clear_each clear_rules_at_priority
  clear_each-none [] total w h = refl
  clear_each-none (p ∷ ps) total w h =
      let done = clear_turns-none 64 0 p w (h p (ground arith)) in
      rw (done, clear_each)
        (clear_each-none ps _ _ (λ q m.
          let cut = clear_turns-Removed k 64 0 p w in
          let had = h q (ground (arith, m)) in
          subst (λ l. length l < 64) (sym (cut.remaining q)) (cut_shorter (p == q) _ _ _ had)))
