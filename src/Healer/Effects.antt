-- ===== src/Healer/Effects.antt =====
-- What one pass of the loop of internal/vpn/selfheal.go makes of its healer.
use aw_remote_host.Common.{
  [], ltb, if◌then◌else◌, leb→le, Bool-cases, Option-cases, Result, ok, err, ℕ, zero, suc, ◌+◌, ◌≤◌,
  String, ◌≡◌, refl, inl, inr, Bool, true, false, Option, none, some, List, ◌∷◌, arith,
}
use aw_remote_host.Healer.{
  Healer, stale_repairs_after_passes, heal_backoff_min, heal_backoff_max, heal_tunnel_plan, fresh,
  is_due, decide_due, decide, next_backoff, repaired, has_dialled, act, planned, pass, Verdict,
  healthy, unknown, stale, broken, conf_gone, Observation, Decision, left_alone,
}

-- The first time a repair is allowed.
abbrev pub NotBefore : Option ℕ → ℕ → Type 0
NotBefore none now = Unit
NotBefore (some t) now = t ≤ now

-- The backoff is unset or at least the shortest one.
abbrev pub IsSane : ℕ → Type 0
IsSane zero = Unit
IsSane (suc b) = heal_backoff_min ≤ suc b

pub next_backoff-bounds :
    (b : ℕ) → IsSane b → (heal_backoff_min ≤ next_backoff b) × (next_backoff b ≤ heal_backoff_max)
unfolding next_backoff
next_backoff-bounds zero h = (omega arith, omega arith)
next_backoff-bounds (suc b) h = (omega (arith, h), omega arith)

-- What a pass makes of the healer `h`.
pub data Effect (o : Observation) (h : Healer) : Healer → Bool → Type 0 where
  rested :
      (h' : Healer)
      → h'.backoff ≡ h.backoff
      → h'.next_repair_at ≡ h.next_repair_at
      → Effect o h h' false
  recovered : (heal_tunnel_plan o).verdict ≡ healthy → Effect o h fresh false
  dialled_again : NotBefore h.next_repair_at o.now → Effect o h (repaired o.now h) true

is_due-NotBefore : (t : Option ℕ) (now : ℕ) → is_due t now ≡ true → NotBefore t now
is_due-NotBefore none now h = tt
is_due-NotBefore (some t) now h = leb→le t now h

abbrev pub Acted : Observation → Healer → Healer × Decision → Type 0
Acted o h p = Effect o h (act o p).0 (has_dialled (act o p).1)

decide_due-Effect :
    (o : Observation) (h : Healer) (n : ℕ)
    → Acted o h (decide_due (record h { consecutive_stale = n }) o.now)
unfolding act decide_due repaired
decide_due-Effect o h n = elim (Bool-cases (is_due h.next_repair_at o.now)) [
  | inl due ↦ rw due (elim (Option-cases o.applied) [
    | inl e ↦ rw e (dialled_again (is_due-NotBefore h.next_repair_at o.now due))
    | inr (x, e) ↦ rw e (dialled_again (is_due-NotBefore h.next_repair_at o.now due))
  ])
  | inr early ↦ rw early (rested _ refl refl)
]

decide-Effect :
    (o : Observation) (v : Verdict) (h : Healer)
    → (heal_tunnel_plan o).verdict ≡ v
    → Acted o h (decide v o.now h)
unfolding act decide
decide-Effect o healthy h e = recovered e
decide-Effect o unknown h e = rested _ refl refl
decide-Effect o conf_gone h e = rested _ refl refl
decide-Effect o stale h e =
    elim (Bool-cases (ltb (h.consecutive_stale + 1) stale_repairs_after_passes)) [
      | inl few ↦ rw few (rested _ refl refl)
      | inr enough ↦ rw enough (decide_due-Effect o h (h.consecutive_stale + 1))
    ]
decide-Effect o broken h e = decide_due-Effect o h 0

unless_pending-Effect :
    (pending : Bool) (o : Observation) (h : Healer) (p : Healer × Decision)
    → Acted o h p
    → Effect o h
        (if pending then (h, left_alone) else act o p).0
        (has_dialled (if pending then (h, left_alone) else act o p).1)
unless_pending-Effect true o h p e = rested h refl refl
unless_pending-Effect false o h p e = e

planned-Effect :
    (plan : Result String Bool) (o : Observation) (h : Healer)
    → Effect o h (planned plan o h).0 (has_dialled (planned plan o h).1)
unfolding planned
planned-Effect (err e) o h = rested h refl refl
planned-Effect (ok false) o h = rested h refl refl
planned-Effect (ok true) o h =
    unless_pending-Effect o.deadman_pending o h (decide (heal_tunnel_plan o).verdict o.now h)
      (decide-Effect o (heal_tunnel_plan o).verdict h refl)

pub pass-Effect :
    (o : Observation) (h : Healer) → Effect o h (pass o h).0 (has_dialled (pass o h).1)
unfolding pass
pass-Effect o h = planned-Effect o.plan o h

pub repaired-IsSane : (now : ℕ) (h : Healer) → IsSane h.backoff → IsSane (repaired now h).backoff
unfolding repaired
repaired-IsSane now h s = least_sane _ (next_backoff-bounds h.backoff s).0
  where
    least_sane : (b : ℕ) → heal_backoff_min ≤ b → IsSane b
    least_sane zero k = tt
    least_sane (suc b) k = k

-- The times at which a series of passes, the earliest first, re-dials.
unfoldable pub dials : List Observation → Healer → List ℕ
dials [] h = []
dials (o ∷ os) h =
    let (h', r) = pass o h in let rest = dials os h' in if has_dialled r then o.now ∷ rest else rest

-- The healer after a series of passes.
unfoldable pub after : List Observation → Healer → Healer
after [] h = h
after (o ∷ os) h = after os (pass o h).0
