-- ===== src/Dial.antt =====
-- internal/tunnelproxy/tunnelproxy.go: the dial with retries, and the backoff step that
-- internal/link/link.go has too. A time.Duration is an int64 of nanoseconds.
pub mod Retry
mod Tests
use aw_remote_host.Common.{
  ℕ, if◌then◌else◌, Result, ok, err, zero, suc, ◌+◌, ◌-◌, ◌*◌, String, Bool, List, [], ◌∷◌, true,
  false,
}
use aw_remote_host.Common.Int.{ℤ, pos, ltb_ℤ, double_i64, pos_part}

-- nextBackoff.
unfoldable pub next_backoff : ℤ → ℤ → ℤ
next_backoff cur max = let next = double_i64 cur in if ltb_ℤ max next then max else next

-- The fields of a Handler that set the envelope; zero means the constant.
pub record Envelope : Type 0 where
  pub dial_attempts : ℤ
  pub dial_timeout : ℤ
  pub dial_backoff_min : ℤ
  pub dial_backoff_max : ℤ

abbrev pub millisecond : ℕ
millisecond = 1_000_000

abbrev or_default : ℤ → ℤ → ℤ
or_default given standard = if ltb_ℤ (pos 0) given then given else standard

-- attempts, perAttemptTimeout, backoffMin, backoffMax.
abbrev pub attempts : Envelope → ℤ
attempts h = or_default h.dial_attempts (pos 3)

abbrev pub per_attempt_timeout : Envelope → ℤ
per_attempt_timeout h = or_default h.dial_timeout (pos (2000 * millisecond))

abbrev pub backoff_min : Envelope → ℤ
backoff_min h = or_default h.dial_backoff_min (pos (50 * millisecond))

abbrev pub backoff_max : Envelope → ℤ
backoff_max h = or_default h.dial_backoff_max (pos (200 * millisecond))

-- What the rest of the world answers: dial attempt `n`, and whether the sleep after it ran out (and
-- was not cut short by the caller hanging up).
pub record Network {ℓ} (Conn : Type ℓ) : Type ℓ where
  pub dial : ℕ → Result String Conn
  pub sleep_backoff : ℕ → Bool

-- A returned connection or the last error, with the dials made and the sleeps asked for, in order.
pub record Dialled {ℓ} (Conn : Type ℓ) : Type ℓ where
  pub result : Result String Conn
  pub dials : ℕ
  pub sleeps : List ℤ

-- The end of one turn of the loop: the attempt's outcome, whether the sleep ran out, the backoff,
-- and what the later attempts come to.
abbrev pub after_attempt {ℓ} :
    {Conn : Type ℓ} → Result String Conn → Bool → ℤ → Dialled Conn → Dialled Conn
after_attempt (ok conn) slept backoff later = record { result = ok conn; dials = 1; sleeps = [] }
after_attempt (err e) true backoff later = record later {
  dials = later.dials + 1;
  sleeps = backoff ∷ later.sleeps;
}
after_attempt (err e) false backoff later = record {
  result = err e;
  dials = 1;
  sleeps = backoff ∷ [];
}

module _ {ℓ} {Conn : Type ℓ} (net : Network Conn) (max : ℤ) where
  -- The loop from attempt `n`, with `rest` attempts behind this one.
  unfoldable pub dial_loop : ℕ → ℕ → ℤ → Dialled Conn
  dial_loop zero n backoff = record { result = net.dial n; dials = 1; sleeps = [] }
  dial_loop (suc rest) n backoff =
      after_attempt (net.dial n) (net.sleep_backoff n) backoff
        (dial_loop rest (n + 1) (next_backoff backoff max))

-- dialContext. `attempts` is at least one.
unfoldable pub dial_context {ℓ} : {Conn : Type ℓ} → Network Conn → Envelope → Dialled Conn
dial_context net h = dial_loop net (backoff_max h) (pos_part (attempts h) - 1) 1 (backoff_min h)
