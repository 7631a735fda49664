-- ===== src/Healer/Pacing.antt =====
-- How often the loop of internal/vpn/selfheal.go re-dials.
use aw_remote_host.Common.{
  [], if◌then◌else◌, All, All-map, ℕ, ◌+◌, ◌≤◌, sym, subst, ◌≢◌, Bool, Option, none, some, List,
  ◌∷◌, arith,
}
use aw_remote_host.Healer.{
  Healer, heal_backoff_min, heal_tunnel_plan, fresh, next_backoff, repaired, healthy, Observation,
}
use aw_remote_host.Healer.Effects.{
  Effect, NotBefore, IsSane, next_backoff-bounds, pass-Effect, repaired-IsSane, dials, rested,
  recovered, dialled_again,
}

-- Each time is at least the shortest backoff after those before it.
abbrev pub IsSpaced : List ℕ → Type 0
IsSpaced [] = Unit
IsSpaced (t ∷ ts) = All (λ u. t + heal_backoff_min ≤ u) ts × IsSpaced ts

abbrev pub IsUnhealthy : Observation → Type 0
IsUnhealthy o = (heal_tunnel_plan o).verdict ≢ healthy

abbrev Paced : Option ℕ → List ℕ → Type 0
Paced first ts = All (NotBefore first) ts × IsSpaced ts

NotBefore-trans : (first : Option ℕ) (t u : ℕ) → NotBefore first t → t ≤ u → NotBefore first u
NotBefore-trans none t u h k = tt
NotBefore-trans (some f) t u h k = omega arith

-- A repair at `t` with the backoff `b`, in front of repairs that wait for it.
Paced-cons :
    (first : Option ℕ) (t b : ℕ) (ts : List ℕ)
    → heal_backoff_min ≤ b
    → NotBefore first t
    → Paced (some (t + b)) ts
    → Paced first (t ∷ ts)
Paced-cons first t b ts least due (waits, spaced) = (
  (due, All-map ts (λ u h. NotBefore-trans first t u due (omega arith)) waits),
  (All-map ts (λ u h. omega arith) waits, spaced),
)

-- One pass in front of passes that are paced from any healer.
pass-Paced :
    (o : Observation) (os : List Observation) (h : Healer)
    → IsSane h.backoff
    → IsUnhealthy o
    → ((h' : Healer) → IsSane h'.backoff → Paced h'.next_repair_at (dials os h'))
    → {h' : Healer} {d : Bool} → Effect o h h' d
    → Paced h.next_repair_at (if d then o.now ∷ dials os h' else dials os h')
unfolding repaired
pass-Paced o os h s u ih (rested h' b n) =
    subst (λ t. Paced t (dials os h')) n (ih h' (subst IsSane (sym b) s))
pass-Paced o os h s u ih (recovered e) = absurd (u e)
pass-Paced o os h s u ih (dialled_again due) =
    Paced-cons h.next_repair_at o.now (next_backoff h.backoff) (dials os (repaired o.now h))
      (next_backoff-bounds h.backoff s).0 due (ih (repaired o.now h) (repaired-IsSane o.now h s))

dials-Paced :
    (os : List Observation) (h : Healer)
    → IsSane h.backoff
    → All IsUnhealthy os
    → Paced h.next_repair_at (dials os h)
unfolding dials
dials-Paced [] h s u = (tt, tt)
dials-Paced (o ∷ os) h s (u, us) =
    pass-Paced o os h s u (λ h' s'. dials-Paced os h' s' us) (pass-Effect o h)

-- As long as no pass finds the tunnel healthy, any two re-dials are at least five minutes apart,
-- whatever the probes read, however the dials end and however fast the passes follow each other.
pub dials-IsSpaced : (os : List Observation) → All IsUnhealthy os → IsSpaced (dials os fresh)
dials-IsSpaced os u = (dials-Paced os fresh tt u).1
