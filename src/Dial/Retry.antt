-- ===== src/Dial/Retry.antt =====
-- What the retrying dial of internal/tunnelproxy/tunnelproxy.go guarantees.
use aw_remote_host.Common.{
  ℕ, Result, ok, err, zero, suc, ◌+◌, ◌≤◌, ◌<◌, String, ◌≡◌, refl, sym, ◌⊎◌, inl, inr, true, false,
  List, [], ◌∷◌, arith, All, ◌-◌, ◌*◌, ◌^◌, min, Bool,
}
use aw_remote_host.Common.Int.{ℤ, pos, double_i64_small, pos_part}
use native.Mathlib.Decide.{ℕ_discrete}
use mathlib.Core.Path.{subst}
use aw_remote_host.Dial.{
  next_backoff, Envelope, attempts, backoff_min, backoff_max, Network, Dialled, dial_loop,
  dial_context, after_attempt,
}

-- Attempt `k` failed and the pause after it ran out.
abbrev pub Failed {ℓ} : {Conn : Type ℓ} → Network Conn → ℕ → Type ℓ
Failed net k = (e : String) × (net.dial k ≡ err e) × (net.sleep_backoff k ≡ true)

-- Why the loop stopped: a connection, the last attempt, or a caller that hung up.
abbrev pub Stopped {ℓ} : {Conn : Type ℓ} → Network Conn → ℕ → ℕ → Type ℓ
Stopped net last final =
    ((conn : _) × (net.dial last ≡ ok conn)) ⊎ ((last ≡ final) ⊎ (net.sleep_backoff last ≡ false))

-- From attempt `n` up to `final`: the attempts made are consecutive, all but the last failed, and
-- the result is that of the last.
pub record IsRun {ℓ} {Conn : Type ℓ} (net : Network Conn) (n final : ℕ) (d : Dialled Conn)
    : Type ℓ where
  pub last : ℕ
  pub in_range : (n ≤ last) × (last ≤ final)
  pub counted : n + d.dials ≡ last + 1
  pub returned : d.result ≡ net.dial last
  pub retried : (k : ℕ) → n ≤ k → k < last → Failed net k
  pub stopped : Stopped net last final

module _ {ℓ} {Conn : Type ℓ} (net : Network Conn) (max : ℤ) where
  -- The loop that made one attempt only.
  IsRun-one :
      (n final : ℕ) (r : Result String Conn) (sleeps : List ℤ)
      → n ≤ final
      → r ≡ net.dial n
      → Stopped net n final
      → IsRun net n final (record { result = r; dials = 1; sleeps = sleeps })
  IsRun-one n final r sleeps h e st = record {
    last = n;
    in_range = (omega arith, h);
    counted = refl;
    returned = e;
    retried = λ k lo hi. absurd (omega arith);
    stopped = st;
  }

  -- One more attempt in front of a run.
  IsRun-more :
      (rest n : ℕ) (r : Result String Conn) (slept : Bool) (backoff : ℤ) (later : Dialled Conn)
      → net.dial n ≡ r
      → net.sleep_backoff n ≡ slept
      → IsRun net (n + 1) (n + 1 + rest) later
      → IsRun net n (n + suc rest) (after_attempt r slept backoff later)
  IsRun-more rest n (ok conn) slept backoff later e s ih =
      IsRun-one n (n + suc rest) (ok conn) [] (omega arith) (sym e) (inl (conn, e))
  IsRun-more rest n (err x) false backoff later e s ih =
      IsRun-one n (n + suc rest) (err x) (backoff ∷ []) (omega arith) (sym e) (inr (inr s))
  IsRun-more rest n (err x) true backoff later e s ih = record {
    last = ih.last;
    in_range = (omega (arith, ih.in_range), omega (arith, ih.in_range));
    counted = omega (arith, ih.counted);
    returned = ih.returned;
    retried = λ k lo hi. elim (ℕ_discrete k n) [
      | yes same ↦ rw same (x, e, s)
      | no other ↦ ih.retried k (omega arith) hi
    ];
    stopped =
        let final : n + 1 + rest ≡ n + suc rest = omega arith in
        subst (Stopped net ih.last) final ih.stopped;
  }

  dial_loop-IsRun :
      (rest n : ℕ) (backoff : ℤ) → IsRun net n (n + rest) (dial_loop net max rest n backoff)
  unfolding dial_loop
  dial_loop-IsRun zero n backoff =
      IsRun-one n (n + 0) (net.dial n) [] (omega arith) refl (inr (inl (omega arith)))
  dial_loop-IsRun (suc rest) n backoff =
      IsRun-more rest n (net.dial n) (net.sleep_backoff n) backoff _ refl refl
        (dial_loop-IsRun rest (n + 1) (next_backoff backoff max))

-- The dial makes consecutive attempts from the first to at most the configured number (three by
-- default), tries again only after a failed attempt and a full pause, stops at the first
-- connection, and returns the outcome of its last attempt.
pub dial_context-IsRun {ℓ} :
    {Conn : Type ℓ} (net : Network Conn) (h : Envelope)
    → IsRun net 1 (pos_part (attempts h)) (dial_context net h)
unfolding dial_context
dial_context-IsRun net h =
    let total : 1 + (pos_part (attempts h) - 1) ≡ pos_part (attempts h) = ground arith in
    subst (λ final. IsRun net 1 final (dial_context net h)) total
      (dial_loop-IsRun net (backoff_max h) (pos_part (attempts h) - 1) 1 (backoff_min h))

-- A backoff between 0 and the cap doubles, up to the cap, and never overflows an int64.
pub next_backoff-eq-min :
    (cur max : ℕ)
    → cur ≤ max
    → max < 2 ^ 62
    → next_backoff (pos cur) (pos max) ≡ pos (min (cur * 2) max)
unfolding next_backoff
next_backoff-eq-min cur max h lt = rw (double_i64_small cur (omega arith)) (ground arith)

-- A duration between the two bounds.
abbrev pub Between : ℕ → ℕ → ℤ → Type 0
Between low high d = (n : ℕ) × (d ≡ pos n) × (low ≤ n) × (n ≤ high)

module _ {ℓ} {Conn : Type ℓ} (net : Network Conn) (low max : ℕ) (fits : max < 2 ^ 62) where
  sleeps-after :
      (r : Result String Conn) (slept : Bool) (backoff : ℤ) (later : Dialled Conn)
      → Between low max backoff
      → All (Between low max) later.sleeps
      → All (Between low max) (after_attempt r slept backoff later).sleeps
  sleeps-after (ok conn) slept backoff later b h = tt
  sleeps-after (err x) true backoff later b h = (b, h)
  sleeps-after (err x) false backoff later b h = (b, tt)

  dial_loop-sleeps :
      (rest n : ℕ) (backoff : ℕ)
      → low ≤ backoff
      → backoff ≤ max
      → All (Between low max) (dial_loop net (pos max) rest n (pos backoff)).sleeps
  unfolding dial_loop
  dial_loop-sleeps zero n backoff lo hi = tt
  dial_loop-sleeps (suc rest) n backoff lo hi =
      sleeps-after (net.dial n) (net.sleep_backoff n) (pos backoff) _ (backoff, refl, lo, hi)
        (rw (next_backoff-eq-min backoff max hi fits)
          (dial_loop-sleeps rest (n + 1) (min (backoff * 2) max) (omega arith) (omega arith)))

-- Where the envelope's bounds are ordered and far below the int64 range, every pause of a dial lies
-- between them.
pub dial_context-sleeps {ℓ} :
    {Conn : Type ℓ} (net : Network Conn) (h : Envelope) (low high : ℕ)
    → backoff_min h ≡ pos low
    → backoff_max h ≡ pos high
    → low ≤ high
    → high < 2 ^ 62
    → All (Between low high) (dial_context net h).sleeps
unfolding dial_context
dial_context-sleeps net h low high lo hi le fits =
    rw (lo, hi)
      (dial_loop-sleeps net low high fits (pos_part (attempts h) - 1) 1 low (omega arith) le)
