-- ===== src/Healer/Confirm.antt =====
-- That the loop of internal/vpn/selfheal.go does not re-dial on one stale reading.
use aw_remote_host.Common.{
  [], ltb, if◌then◌else◌, Bool-cases, Result, ok, err, ◌+◌, String, ◌≡◌, refl, ap, ◌∙◌, ◌⊎◌, inl,
  inr, Bool, true, false, Option, none, some, List, ◌∷◌, arith,
}
use aw_remote_host.Healer.{
  Healer, stale_repairs_after_passes, heal_tunnel_plan, fresh, is_due, decide_due, decide, repaired,
  has_dialled, act, planned, pass, Verdict, healthy, unknown, stale, broken, conf_gone, Observation,
  left_alone,
}

-- What a pass read of the tunnel, if it looked at it.
abbrev pub reading : Result String Bool → Observation → Option Verdict
reading (ok true) o = if o.deadman_pending then none else some (heal_tunnel_plan o).verdict
reading _ o = none

-- The healer after a series of passes, the latest first.
unfoldable pub healer_after : List Observation → Healer
healer_after [] = fresh
healer_after (o ∷ os) = (pass o (healer_after os)).0

-- The newer reading, unless it told nothing.
abbrev pub newest : Option Verdict → Verdict → Verdict
newest none v = v
newest (some unknown) v = v
newest (some w) v = w

-- The latest reading that told something; `healthy` before the first.
unfoldable pub latest : List Observation → Verdict
latest [] = healthy
latest (o ∷ os) = newest (reading o.plan o) (latest os)

abbrev Confirmed : Healer → Verdict → Type 0
Confirmed h v = (h.consecutive_stale ≡ 0) ⊎ (v ≡ stale)

due-Confirmed :
    (o : Observation) (h : Healer) (v : Verdict)
    → h.consecutive_stale ≡ 0
    → Confirmed (act o (decide_due h o.now)).0 v
unfolding act decide_due repaired
due-Confirmed o h v z = elim (Bool-cases (is_due h.next_repair_at o.now)) [
  | inl due ↦ rw due (inl refl)
  | inr early ↦ rw early (inl z)
]

decide-Confirmed :
    (o : Observation) (w : Verdict) (h : Healer) (v : Verdict)
    → Confirmed h v
    → Confirmed (act o (decide w o.now h)).0 (newest (some w) v)
unfolding decide act
decide-Confirmed o healthy h v c = inl refl
decide-Confirmed o unknown h v c = c
decide-Confirmed o conf_gone h v c = inl refl
decide-Confirmed o stale h v c = inr refl
decide-Confirmed o broken h v c = due-Confirmed o (record h { consecutive_stale = 0 }) broken refl

looked-Confirmed :
    (pending : Bool) (o : Observation) (w : Verdict) (h : Healer) (v : Verdict)
    → Confirmed h v
    → Confirmed
        (if pending then (h, left_alone) else act o (decide w o.now h)).0
        (newest (if pending then none else some w) v)
looked-Confirmed true o w h v c = c
looked-Confirmed false o w h v c = decide-Confirmed o w h v c

planned-Confirmed :
    (plan : Result String Bool) (o : Observation) (h : Healer) (v : Verdict)
    → Confirmed h v
    → Confirmed (planned plan o h).0 (newest (reading plan o) v)
unfolding planned
planned-Confirmed (err e) o h v c = c
planned-Confirmed (ok false) o h v c = c
planned-Confirmed (ok true) o h v c =
    looked-Confirmed o.deadman_pending o (heal_tunnel_plan o).verdict h v c

healer_after-Confirmed : (os : List Observation) → Confirmed (healer_after os) (latest os)
unfolding healer_after latest pass
healer_after-Confirmed [] = inl refl
healer_after-Confirmed (o ∷ os) =
    planned-Confirmed o.plan o (healer_after os) (latest os) (healer_after-Confirmed os)

-- A stale reading does not dial when the count was zero.
first_stale :
    (pending : Bool) (o : Observation) (h : Healer)
    → h.consecutive_stale ≡ 0
    → has_dialled (if pending then (h, left_alone) else act o (decide stale o.now h)).1 ≡ false
unfolding act decide
first_stale true o h z = refl
first_stale false o h z =
    let few : ltb (h.consecutive_stale + 1) stale_repairs_after_passes ≡ true = ground (arith, z) in
    rw few refl

planned-first_stale :
    (plan : Result String Bool) (o : Observation) (h : Healer)
    → (heal_tunnel_plan o).verdict ≡ stale
    → h.consecutive_stale ≡ 0
    → has_dialled (planned plan o h).1 ≡ false
unfolding planned
planned-first_stale (err e) o h v z = refl
planned-first_stale (ok false) o h v z = refl
planned-first_stale (ok true) o h v z =
    ap
      (λ w. has_dialled (if o.deadman_pending then (h, left_alone) else act o (decide w o.now h)).1)
      v
    ∙ first_stale o.deadman_pending o h z

-- A pass that re-dials on a stale handshake follows a stale reading: the latest pass before it that
-- learned anything about the tunnel read `stale` too. So one stale reading never drops the tunnel.
pub stale-IsConfirmed :
    (os : List Observation) (o : Observation)
    → (heal_tunnel_plan o).verdict ≡ stale
    → has_dialled (pass o (healer_after os)).1 ≡ true
    → latest os ≡ stale
unfolding pass
stale-IsConfirmed os o v d = elim (healer_after-Confirmed os) [
  | inl z ↦ let rests = planned-first_stale o.plan o (healer_after os) v z in absurd (cc)
  | inr e ↦ e
]
