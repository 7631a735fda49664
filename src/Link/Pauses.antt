-- ===== src/Link/Pauses.antt =====
-- The backoff of Run in internal/link/link.go over any number of turns.
use aw_remote_host.Common.{
  ℕ, Bool-cases, All, Result, ok, err, ◌*◌, ◌^◌, ◌≤◌, ◌<◌, min, String, ◌≡◌, inl, inr, arith,
  str_eq,
}
use aw_remote_host.Common.Int.{ℤ, pos}
use aw_remote_host.Dial.{next_backoff}
use aw_remote_host.Dial.Retry.{Between, next_backoff-eq-min}
use aw_remote_host.Link.{
  Reply, ConnectError, Client, World, Session, effective_min, effective_max, connect, may_retry,
  fall_back, choose_token, is_refused, connect_or_fall_back, back_off, after_connect, turn, run,
}
use aw_remote_host.Link.Reconnect.{connect-same, session_of, run_induction}

-- The two bounds of a client's backoff.
pub record HasBounds (c : Client) (low high : ℕ) : Type 0 where
  pub lower : effective_min c ≡ pos low
  pub upper : effective_max c ≡ pos high
  pub ordered : low ≤ high
  pub fits : high < 2 ^ 62

abbrev pub IsPaced : ℕ → ℕ → Session → Type 0
IsPaced low high s = Between low high s.backoff × All (Between low high) s.waits

module _ (w : World) (c : Client) (low high : ℕ) (b : HasBounds c low high) where
  next_backoff-Between :
      (d : ℤ) → Between low high d → Between low high (next_backoff d (effective_max c))
  next_backoff-Between d (n, e, lo, hi) = (
    min (n * 2) high,
    rw (e, b.upper) (next_backoff-eq-min n high hi b.fits),
    omega (arith, b.ordered),
    omega arith,
  )

  back_off-IsPaced :
      (n : ℕ) (s : Session) → IsPaced low high s → IsPaced low high (session_of (back_off w c n s))
  unfolding back_off
  back_off-IsPaced n s (h, hs) = elim (Bool-cases (w.slept n)) [
    | inl e ↦ rw e (next_backoff-Between s.backoff h, (h, hs))
    | inr e ↦ rw e (h, (h, hs))
  ]

  after_connect-IsPaced :
      (n : ℕ) (s : Session) (r : Result ConnectError Reply)
      → IsPaced low high s
      → IsPaced low high (session_of (after_connect w c n s r))
  unfolding after_connect
  after_connect-IsPaced n s (err e) h = elim (Bool-cases (is_refused e)) [
    | inl f ↦ rw f h
    | inr f ↦ rw f (back_off-IsPaced n s h)
  ]
  after_connect-IsPaced n s (ok r) h =
      let reset : Between low high (effective_min c) = (low, b.lower, omega arith, b.ordered) in
      elim (Bool-cases (w.cancelled_after n)) [
        | inl f ↦ rw f (reset, h.1)
        | inr f ↦ rw f (back_off-IsPaced n (record s { backoff = effective_min c }) (reset, h.1))
      ]

  connect-IsPaced :
      (token : String) (s : Session) → IsPaced low high s → IsPaced low high (connect w token s).0
  connect-IsPaced token s h =
      let (_, waits, backoff) = connect-same w token s in rw (backoff, waits) h

  fall_back-IsPaced :
      (token : String) (s : Session) (r : Result ConnectError Reply)
      → IsPaced low high s
      → IsPaced low high (fall_back w c token s r).0
  unfolding fall_back
  fall_back-IsPaced token s (ok r) h = h
  fall_back-IsPaced token s (err e) h = elim (Bool-cases (may_retry c token e)) [
    | inl f ↦ rw f (connect-IsPaced c.token s h)
    | inr f ↦ rw f h
  ]

  turn-IsPaced :
      (n : ℕ) (s : Session) → IsPaced low high s → IsPaced low high (session_of (turn w c n s))
  unfolding turn
  turn-IsPaced n s h =
      let s0 = record s { creds = w.outside n s.creds } in
      let token = choose_token c s0.creds in
      let (s1, r) = connect_or_fall_back w c token s0 in
      elim (Bool-cases (w.cancelled n)) [
        | inl e ↦ rw e h
        | inr e ↦ rw e (elim (Bool-cases (str_eq token "")) [
          | inl f ↦ rw f h
          | inr f ↦ rw f (
              after_connect-IsPaced n s1 r (
                fall_back-IsPaced token (connect w token s0).0 (connect w token s0).1
                  (connect-IsPaced token s0 h)))
        ])
      ]

-- Whatever the network and the caller do, and however many turns have passed: the next pause and
-- every pause taken lie between the client's two bounds.
pub run-IsPaced :
    (w : World) (c : Client) (low high fuel n : ℕ) (s : Session)
    → HasBounds c low high
    → IsPaced low high s
    → IsPaced low high (session_of (run w c fuel n s))
run-IsPaced w c low high fuel n s b h =
    run_induction w c (IsPaced low high) (λ k t. turn-IsPaced w c low high b k t) fuel n s h
