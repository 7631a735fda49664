-- ===== src/Link/Reconnect.antt =====
-- What the reconnect loop of internal/link/link.go guarantees about tokens, credentials and pauses.
use aw_remote_host.Common.{
  ℕ, Result, err, String, ◌≡◌, ◌⊎◌, false, Option, List, ◌∷◌, arith, str_eq, Bool-cases, ok, refl,
  sym, inl, inr, true, ap, ◌∙◌, zero, suc, ◌+◌,
}
use mathlib.Core.Path.{subst}
use aw_remote_host.Link.{
  Reply, ConnectError, Client, World, Session, persist, connect, choose_token, is_refused,
  connect_or_fall_back, Turn, stop, again, back_off, after_connect, turn, run, may_retry, fall_back,
  resume,
}

persist-same :
    (saved : Option String) (r : Reply) (s : Session)
    → ((persist saved r s).0.tokens ≡ s.tokens)
      × ((persist saved r s).0.waits ≡ s.waits)
      × ((persist saved r s).0.backoff ≡ s.backoff)
unfolding persist
persist-same saved r s = ground arith

pub connect-same :
    (w : World) (token : String) (s : Session)
    → ((connect w token s).0.tokens ≡ token ∷ s.tokens)
      × ((connect w token s).0.waits ≡ s.waits)
      × ((connect w token s).0.backoff ≡ s.backoff)
unfolding connect
connect-same w token s = ground arith

-- The first connect failed, and not because the control plane refused the registration.
abbrev pub MayRetry : Result ConnectError Reply → Type 0
MayRetry r = (e : ConnectError) × (r ≡ err e) × (is_refused e ≡ false)

-- One token was presented, or the operator's after it, where Run allows that.
abbrev pub Presented : World → Client → String → Session → List String → Type 0
Presented w c token s after =
    (after ≡ token ∷ s.tokens)
    ⊎ ((after ≡ c.token ∷ token ∷ s.tokens)
        × (str_eq c.token "" ≡ false)
        × (str_eq c.token token ≡ false)
        × MayRetry (connect w token s).1)

may_retry-parts :
    (c : Client) (token : String) (e : ConnectError)
    → may_retry c token e ≡ true
    → (str_eq c.token "" ≡ false) × (str_eq c.token token ≡ false) × (is_refused e ≡ false)
unfolding may_retry
may_retry-parts c token e h = ground arith

fall_back-Presented :
    (w : World) (c : Client) (token : String) (s : Session) (r : Result ConnectError Reply)
    → (connect w token s).1 ≡ r
    → Presented w c token s (fall_back w c token (connect w token s).0 r).0.tokens
unfolding fall_back
fall_back-Presented w c token s (ok r) first = inl (connect-same w token s).0
fall_back-Presented w c token s (err e) first = elim (Bool-cases (may_retry c token e)) [
  | inl yes_retry ↦
      let (given, other, kind) = may_retry-parts c token e yes_retry in
      rw yes_retry (
        inr (
          (connect-same w c.token (connect w token s).0).0
              ∙ ap (λ ts. c.token ∷ ts) (connect-same w token s).0,
          given,
          other,
          (e, first, kind),
        ))
  | inr no_retry ↦ rw no_retry (inl (connect-same w token s).0)
]

abbrev pub session_of : Turn → Session
session_of (stop why s) = s
session_of (again s) = s

module _ {ℓ} (w : World) (c : Client) (P : Session → Type ℓ) where
  resume_induction :
      (t : Turn) (k : Session → Turn)
      → P (session_of t)
      → ((s : Session) → P s → P (session_of (k s)))
      → P (session_of (resume t k))
  resume_induction (stop why s) k h step = h
  resume_induction (again s) k h step = step s h

  -- What every turn keeps, any number of turns keeps.
  pub run_induction :
      ((n : ℕ) (s : Session) → P s → P (session_of (turn w c n s)))
      → (fuel n : ℕ) (s : Session) → P s
      → P (session_of (run w c fuel n s))
  unfolding run
  run_induction step zero n s h = h
  run_induction step (suc fuel) n s h =
      resume_induction (turn w c n s) _ (step n s h)
        (λ s' h'. run_induction step fuel (n + 1) s' h')

back_off-tokens :
    (w : World) (c : Client) (n : ℕ) (s : Session)
    → (session_of (back_off w c n s)).tokens ≡ s.tokens
unfolding back_off
back_off-tokens w c n s = ground arith

after_connect-tokens :
    (w : World) (c : Client) (n : ℕ) (s : Session) (r : Result ConnectError Reply)
    → (session_of (after_connect w c n s r)).tokens ≡ s.tokens
unfolding after_connect
after_connect-tokens w c n s (ok r) = ground arith
after_connect-tokens w c n s (err e) = ground arith

-- What a turn finds in the credentials file.
abbrev pub before : World → ℕ → Session → Session
before w n s = record s { creds = w.outside n s.creds }

-- A turn that is not cancelled presents the token that it chooses, if there is one.
pub turn-presents :
    (w : World) (c : Client) (n : ℕ) (s : Session)
    → w.cancelled n ≡ false
    → str_eq (choose_token c (before w n s).creds) "" ≡ false
    → Presented w c
        (choose_token c (before w n s).creds)
        (before w n s)
        (session_of (turn w c n s)).tokens
unfolding turn
turn-presents w c n s goes given =
    let s0 = before w n s in
    let token = choose_token c s0.creds in
    let (s', r) = connect_or_fall_back w c token s0 in
    rw (goes, given)
      (subst (Presented w c token s0) (sym (after_connect-tokens w c n s' r))
        (fall_back-Presented w c token s0 _ refl))

-- A turn presents no token, or the stored credential (the operator's token if there is none), or
-- after that the operator's token; the last only if it is another one and the first connect failed
-- without being refused. So a refusal never costs the operator's single-use token.
pub turn-Presented :
    (w : World) (c : Client) (n : ℕ) (s : Session)
    → ((session_of (turn w c n s)).tokens ≡ s.tokens)
      ⊎ Presented w c
          (choose_token c (before w n s).creds)
          (before w n s)
          (session_of (turn w c n s)).tokens
unfolding turn
turn-Presented w c n s =
    let s0 = before w n s in
    let token = choose_token c s0.creds in
    let (s', r) = connect_or_fall_back w c token s0 in
    elim (Bool-cases (w.cancelled n)) [
      | inl e ↦ rw e (inl refl)
      | inr e ↦ rw e (elim (Bool-cases (str_eq token "")) [
        | inl f ↦ rw f (inl refl)
        | inr f ↦ rw f (
            inr (
              subst (Presented w c token s0) (sym (after_connect-tokens w c n s' r))
                (fall_back-Presented w c token s0 _ refl)))
      ])
    ]
