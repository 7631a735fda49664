-- ===== src/Healer/Repair.antt =====
-- That the loop of internal/vpn/selfheal.go does re-dial a broken tunnel.
use aw_remote_host.Common.{
  [], if◌then◌else◌, Option-cases, All, Result, ok, ℕ, ◌+◌, ◌≤◌, String, ◌≡◌, refl, sym, ap, ◌∙◌,
  subst, inl, inr, Bool, true, false, Option, none, some, List, ◌∷◌, arith,
}
use aw_remote_host.Healer.{
  Healer, heal_backoff_max, heal_tunnel_plan, fresh, leave, is_due, decide_due, decide,
  next_backoff, repaired, has_dialled, act, planned, pass, broken, Observation, not_due,
  re_dialling, left_alone,
}
use aw_remote_host.Healer.Effects.{
  Effect, IsSane, next_backoff-bounds, pass-Effect, repaired-IsSane, dials, after, rested,
  recovered, dialled_again,
}

abbrev NotLate : ℕ → Option ℕ → Type 0
NotLate now none = Unit
NotLate now (some t) = t ≤ now

abbrev Past : ℕ → List ℕ → Type 0
Past now ts = All (λ t. t + heal_backoff_max ≤ now) ts

pass-NotLate :
    (o : Observation) (os : List Observation) (h : Healer) (now : ℕ)
    → IsSane h.backoff
    → NotLate now h.next_repair_at
    → ((h' : Healer)
        → IsSane h'.backoff
        → Past now (dials os h')
        → NotLate now h'.next_repair_at
        → NotLate now (after os h').next_repair_at)
    → {h' : Healer} {d : Bool} → Effect o h h' d
    → Past now (if d then o.now ∷ dials os h' else dials os h')
    → NotLate now (after os h').next_repair_at
unfolding repaired
pass-NotLate o os h now s k ih (rested h' b n) past =
    ih h' (subst IsSane (sym b) s) past (subst (NotLate now) (sym n) k)
pass-NotLate o os h now s k ih (recovered e) past = ih fresh tt past tt
pass-NotLate o os h now s k ih (dialled_again due) (p, past) =
    let most : next_backoff h.backoff ≤ heal_backoff_max = (next_backoff-bounds h.backoff s).1 in
    ih (repaired o.now h) (repaired-IsSane o.now h s) past (omega (arith, most, p))

after-NotLate :
    (os : List Observation) (h : Healer) (now : ℕ)
    → IsSane h.backoff
    → Past now (dials os h)
    → NotLate now h.next_repair_at
    → NotLate now (after os h).next_repair_at
unfolding dials after
after-NotLate [] h now s past k = k
after-NotLate (o ∷ os) h now s past k =
    pass-NotLate o os h now s k (λ h'. after-NotLate os h' now) (pass-Effect o h) past

NotLate-is_due : (now : ℕ) (t : Option ℕ) → NotLate now t → is_due t now ≡ true
NotLate-is_due now none k = refl
NotLate-is_due now (some t) k = ground (arith, k)

act_due :
    (o : Observation) (h : Healer) (due : Bool)
    → due ≡ true
    → has_dialled
        (act o
          (if due then (h, record { repair = true; note = re_dialling }) else (h, leave not_due))).1
      ≡ true
unfolding act
act_due o h false e = ground (arith, e)
act_due o h true e = elim (Option-cases o.applied) [ inl x ↦ rw x refl | inr (y, x) ↦ rw x refl ]

planned-dials :
    (plan : Result String Bool) (o : Observation) (h : Healer)
    → plan ≡ ok true
    → o.deadman_pending ≡ false
    → (heal_tunnel_plan o).verdict ≡ broken
    → NotLate o.now h.next_repair_at
    → has_dialled (planned plan o h).1 ≡ true
unfolding planned decide decide_due
planned-dials plan o h p d v k =
    ap (λ x. has_dialled (planned x o h).1) p
    ∙ (ap
          (λ b.
            has_dialled
              (if b
                then (h, left_alone)
                else act o (decide (heal_tunnel_plan o).verdict o.now h)).1)
          d
        ∙ (ap (λ x. has_dialled (act o (decide x o.now h)).1) v
            ∙ act_due o (record h { consecutive_stale = 0 }) (is_due h.next_repair_at o.now)
                (NotLate-is_due o.now h.next_repair_at k)))

-- A pass that finds the tunnel broken at least thirty minutes after every re-dial so far re-dials
-- it, whatever the passes before it read. It is assumed that the tunnel is recorded and that no
-- dead-man's switch is pending.
pub broken-dials :
    (os : List Observation) (o : Observation)
    → o.plan ≡ ok true
    → o.deadman_pending ≡ false
    → (heal_tunnel_plan o).verdict ≡ broken
    → All (λ t. t + heal_backoff_max ≤ o.now) (dials os fresh)
    → has_dialled (pass o (after os fresh)).1 ≡ true
unfolding pass
broken-dials os o p d v past =
    planned-dials o.plan o (after os fresh) p d v (after-NotLate os fresh o.now tt past tt)
