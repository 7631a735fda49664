-- ===== src/Exit/Rules/Cleared.antt =====
-- What the clearing of internal/vpn/exit.go's rules leaves and counts.
use aw_remote_host.Common.{
  [], ◌==◌, if◌then◌else◌, ==_iff, Bool-cases, if_same, drop, ℕ, suc, ◌+◌, ◌≡◌, sym, ap, ◌∙◌, inl,
  inr, Option, none, arith, Option-cases, zero, String, refl, Bool, true, false, List, ◌∷◌, some,
  ◌||◌, ◌⊎◌,
}
use aw_remote_host.Runner.{Runner}
use aw_remote_host.Exit.Rules.{
  Text, del_args, RouteError, clear_turns, mem, clear_rules_at_priority, clear_each,
}
use aw_remote_host.Exit.Rules.Kernel.{Kernel, after, failure}

-- One rule of a priority fewer, and then `n` more, or none at another priority.
one_more :
    (b : Bool) (n : ℕ) (rule : List String) (rest old mid new : List (List String))
    → (b ≡ true → old ≡ rule ∷ rest)
    → mid ≡ (if b then rest else old)
    → new ≡ (if b then drop n mid else mid)
    → new ≡ (if b then drop (suc n) old else old)
one_more true n rule rest old mid new had step left =
    left ∙ ap (drop n) step ∙ sym (ap (drop (suc n)) (had refl))
one_more false n rule rest old mid new had step left = left ∙ step

none→true : (b : Bool) (e : RouteError) → (if b then none else some e) ≡ none → b ≡ true
none→true true e h = refl
none→true false e h = absurd (ground (arith, h))

choose_else : {A : Type 0} (b : Bool) (x y : A) → b ≡ false → (if b then x else y) ≡ y
choose_else true x y h = absurd (ground (arith, h))
choose_else false x y h = refl

pub or_false : (a b : Bool) → (a || b) ≡ false → (a ≡ false) × (b ≡ false)
or_false a b h = (ground (arith, h), ground (arith, h))

pub or_cases : (a b : Bool) → (a || b) ≡ true → (a ≡ true) ⊎ (b ≡ true)
or_cases true b h = inl refl
or_cases false b h = inr h

or_true : (a b : Bool) → b ≡ false → (a || b) ≡ true → a ≡ true
or_true a b f h = ground (arith, f, h)

module _ {r : Runner} {text : Text} (k : Kernel r text) where
  open r use {World}

  -- The rules that went from one priority, which `removed'` counts on from `removed`.
  pub record Removed (p removed : ℕ) (w : World) (out : World × ℕ × Option RouteError)
      : Type 0 where
    pub count : ℕ
    pub counted : out.1 ≡ removed + count
    pub remaining :
        (q : ℕ) → k.rules out.0 q ≡ (if p == q then drop count (k.rules w q) else k.rules w q)
    pub none_left : out.2 ≡ none → k.rules out.0 p ≡ []

  unchanged :
      (p : ℕ) (w w' : World)
      → k.rules w' ≡ k.rules w
      → (q : ℕ) → k.rules w' q ≡ (if p == q then drop 0 (k.rules w q) else k.rules w q)
  unchanged p w w' e q = ap (λ f. f q) e ∙ sym (if_same (p == q) (k.rules w q))

  after_deletion :
      (p removed : ℕ) (w : World)
      → failure r (del_args text p) w ≡ none
      → (out : World × ℕ × Option RouteError)
      → Removed p (suc removed) (after r (del_args text p) w) out
      → Removed p removed w out
  after_deletion p removed w gone out ih = record {
    count = suc ih.count;
    counted = ih.counted ∙ omega arith;
    remaining = left;
    none_left = ih.none_left;
  }
    where
      left :
          (q : ℕ)
          → k.rules out.0 q ≡ (if p == q then drop (suc ih.count) (k.rules w q) else k.rules w q)
      left q =
          let (rule, rest, had, now) = k.deleted w p gone in
          one_more (p == q) ih.count rule rest (k.rules w q)
            (k.rules (after r (del_args text p) w) q) (k.rules out.0 q)
            (λ same. ap (k.rules w) (sym ((==_iff p q).0 same)) ∙ had) (ap (λ f. f q) now)
            (ih.remaining q)

  stopped :
      (p removed : ℕ) (w w' : World) (failed : Option RouteError)
      → k.rules w' ≡ k.rules w
      → (failed ≡ none → k.rules w p ≡ [])
      → Removed p removed w (w', removed, failed)
  stopped p removed w w' failed e h = record {
    count = 0;
    counted = omega arith;
    remaining = unchanged p w w' e;
    none_left = λ n. ap (λ f. f p) e ∙ h n;
  }

  pub clear_turns-Removed :
      (turns removed p : ℕ) (w : World) → Removed p removed w (clear_turns r text turns removed p w)
  unfolding clear_turns
  clear_turns-Removed zero removed p w =
      stopped p removed w w _ refl (λ n. absurd (ground (arith, n)))
  clear_turns-Removed (suc turns) removed p w =
      elim (Option-cases (failure r (del_args text p) w)) [
        | inl gone ↦
            rw (gone, clear_turns)
              (after_deletion p removed w gone _ (clear_turns-Removed turns (suc removed) p _))
        | inr (e, f) ↦
            rw (f, clear_turns)
              (stopped p removed w _ _ (k.failed w (del_args text p) f)
                (λ n. k.no_such w p f (none→true _ _ n)))
      ]

  -- What a run over several priorities leaves.
  pub record Swept (ps : List ℕ) (w : World) (out : World × ℕ × Option RouteError) : Type 0 where
    pub others : (q : ℕ) → mem q ps ≡ false → k.rules out.0 q ≡ k.rules w q
    pub gone : out.2 ≡ none → (q : ℕ) → mem q ps ≡ true → k.rules out.0 q ≡ []

  left_alone :
      (p removed q : ℕ) (w : World) (out : World × ℕ × Option RouteError)
      → Removed p removed w out
      → (p == q) ≡ false
      → k.rules out.0 q ≡ k.rules w q
  left_alone p removed q w out d other = d.remaining q ∙ choose_else (p == q) _ _ other

  over_one_more :
      (p : ℕ) (ps : List ℕ) (w : World) (mid out : World × ℕ × Option RouteError)
      → Removed p 0 w mid
      → mid.2 ≡ none
      → Swept ps mid.0 out
      → Swept (p ∷ ps) w out
  over_one_more p ps w mid out here e rest = record {
    others = λ q h.
        let (not_here, not_later) = or_false (p == q) (mem q ps) h in
        rest.others q not_later ∙ left_alone p 0 q w mid here not_here;
    gone = λ n q h. elim (Bool-cases (mem q ps)) [
      | inl later ↦ rest.gone n q later
      | inr once ↦
          let same = or_true (p == q) (mem q ps) once h in
          rest.others q once ∙ (ap (k.rules mid.0) (sym ((==_iff p q).0 same)) ∙ here.none_left e)
    ];
  }

  over_either :
      (p : ℕ) (ps : List ℕ) (total : ℕ) (w : World) (f : Option RouteError)
      → (clear_rules_at_priority r text p w).2 ≡ f
      → (let mid = clear_rules_at_priority r text p w in
          Swept ps mid.0 (clear_each r text ps (total + mid.1) mid.0))
      → Swept (p ∷ ps) w (clear_each r text (p ∷ ps) total w)
  unfolding clear_each clear_rules_at_priority
  over_either p ps total w none e rest =
      rw (e, clear_each) (over_one_more p ps w _ _ (clear_turns-Removed 64 0 p w) e rest)
  over_either p ps total w (some x) e rest =
      rw (e, clear_each)
        (record {
          others = λ q h.
              left_alone p 0 q w _ (clear_turns-Removed 64 0 p w)
                (or_false (p == q) (mem q ps) h).0;
          gone = λ n. absurd (ground (arith, n));
        })

  pub clear_each-Swept :
      (ps : List ℕ) (total : ℕ) (w : World) → Swept ps w (clear_each r text ps total w)
  unfolding clear_each clear_rules_at_priority
  clear_each-Swept [] total w = record {
    others = λ q h. refl;
    gone = λ n q h. absurd (ground (arith, h));
  }
  clear_each-Swept (p ∷ ps) total w = over_either p ps total w _ refl (clear_each-Swept ps _ _)
