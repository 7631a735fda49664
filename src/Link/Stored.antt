-- ===== src/Link/Stored.antt =====
-- The durable credential of internal/link/credentials.go over any number of turns of Run.
use aw_remote_host.Common.{
  ℕ, Bool-cases, Result, ok, err, ◌+◌, String, ◌≡◌, refl, sym, inl, inr, false, Option, none, some,
  ◌∷◌, arith, str_eq,
}
use mathlib.Core.Path.{subst}
use aw_remote_host.Link.{
  Credentials, Reply, ConnectError, Client, World, Session, register, persist, connect, may_retry,
  fall_back, choose_token, connect_or_fall_back, back_off, after_connect, turn, run,
  save_credentials,
}
use aw_remote_host.Link.Reconnect.{session_of, before, run_induction, Presented, turn-presents}

-- The file holds a credential.
abbrev pub Stored : Option Credentials → Type 0
Stored o = (x : Credentials) × (o ≡ some x) × (str_eq x.host_credential "" ≡ false)

-- No other process takes the credential away.
abbrev pub KeepsFile : World → Type 0
KeepsFile w = (n : ℕ) (o : Option Credentials) → Stored o → Stored (w.outside n o)

persist-Stored :
    (saved : Option String) (r : Reply) (s : Session)
    → Stored s.creds
    → Stored (persist saved r s).0.creds
unfolding persist
persist-Stored saved r s h = elim (Bool-cases (str_eq r.host_credential "")) [
  | inl e ↦ rw e h
  | inr e ↦ rw e (save saved e)
]
  where
    save :
        (saved : Option String)
        → str_eq r.host_credential "" ≡ false
        → Stored
            (save_credentials saved
              (record { remote_host_id = r.remote_host_id; host_credential = r.host_credential })
              s).0.creds
    save none e = (_, refl, e)
    save (some x) e = h

connect-keeps_Stored :
    (w : World) (token : String) (s : Session) → Stored s.creds → Stored (connect w token s).0.creds
unfolding connect
connect-keeps_Stored w token s h = go (register (w.exchange s.connects token))
  where
    s' : Session
    s' = record s { connects = s.connects + 1; tokens = token ∷ s.tokens }

    go :
        (r : Result ConnectError Reply)
        → Stored (
            let p : Session × Result ConnectError Reply = elim r [
              | err e ↦ (s', err e)
              | ok x ↦ persist (w.save s.connects) x s'
            ] in
            p.0.creds)
    go (err e) = h
    go (ok r) = persist-Stored (w.save s.connects) r s' h

back_off-creds :
    (w : World) (c : Client) (n : ℕ) (s : Session) → (session_of (back_off w c n s)).creds ≡ s.creds
unfolding back_off
back_off-creds w c n s = ground arith

after_connect-creds :
    (w : World) (c : Client) (n : ℕ) (s : Session) (r : Result ConnectError Reply)
    → (session_of (after_connect w c n s r)).creds ≡ s.creds
unfolding after_connect
after_connect-creds w c n s (ok r) = ground arith
after_connect-creds w c n s (err e) = ground arith

fall_back-Stored :
    (w : World) (c : Client) (token : String) (s : Session) (r : Result ConnectError Reply)
    → Stored s.creds
    → Stored (fall_back w c token s r).0.creds
unfolding fall_back
fall_back-Stored w c token s (ok r) h = h
fall_back-Stored w c token s (err e) h = elim (Bool-cases (may_retry c token e)) [
  | inl f ↦ rw f (connect-keeps_Stored w c.token s h)
  | inr f ↦ rw f h
]

turn-Stored :
    (w : World) (c : Client) (n : ℕ) (s : Session)
    → KeepsFile w
    → Stored s.creds
    → Stored (session_of (turn w c n s)).creds
unfolding turn
turn-Stored w c n s keeps h =
    let s0 = before w n s in
    let token = choose_token c s0.creds in
    let (s1, r) = connect_or_fall_back w c token s0 in
    let kept = keeps n s.creds h in
    elim (Bool-cases (w.cancelled n)) [
      | inl e ↦ rw e h
      | inr e ↦ rw e (elim (Bool-cases (str_eq token "")) [
        | inl f ↦ rw f kept
        | inr f ↦ rw f (
            subst Stored (sym (after_connect-creds w c n s1 r)) (
              fall_back-Stored w c token (connect w token s0).0 (connect w token s0).1
                (connect-keeps_Stored w token s0 kept)))
      ])
    ]

choose_token-Stored :
    (c : Client) (o : Option Credentials) (h : Stored o) → choose_token c o ≡ h.0.host_credential
unfolding choose_token
choose_token-Stored c o (x, e, given) = rw e (rw given)

persist-ok_Stored :
    (saved : Option String) (r q : Reply) (s : Session)
    → (persist saved r s).1 ≡ ok q
    → str_eq q.host_credential "" ≡ false
    → Stored (persist saved r s).0.creds
unfolding persist
persist-ok_Stored none r q s e given = elim (Bool-cases (str_eq r.host_credential "")) [
  | inl f ↦ absurd (ground (arith, e, f, given))
  | inr f ↦ rw f (_, refl, f)
]
persist-ok_Stored (some x) r q s e given = absurd (ground (arith, e, given))

connect-ok_Stored :
    (w : World) (token : String) (s : Session) (q : Reply)
    → (connect w token s).1 ≡ ok q
    → str_eq q.host_credential "" ≡ false
    → Stored (connect w token s).0.creds
unfolding connect
connect-ok_Stored w token s q = go (register (w.exchange s.connects token))
  where
    s' : Session
    s' = record s { connects = s.connects + 1; tokens = token ∷ s.tokens }

    go :
        (r : Result ConnectError Reply)
        → (let p : Session × Result ConnectError Reply = elim r [
          | err e ↦ (s', err e)
          | ok x ↦ persist (w.save s.connects) x s'
        ] in
            p.1)
          ≡ ok q
        → str_eq q.host_credential "" ≡ false
        → Stored (
            let p : Session × Result ConnectError Reply = elim r [
              | err e ↦ (s', err e)
              | ok x ↦ persist (w.save s.connects) x s'
            ] in
            p.0.creds)
    go (err e) h given = cc
    go (ok r) h given = persist-ok_Stored (w.save s.connects) r q s' h given

-- Once a connect has redeemed a token for a credential, every later turn that is not cancelled,
-- however many come before it and however they end, finds a credential in the file and presents it
-- first; the operator's token comes at most behind it, if it is another one and the connect with the
-- credential failed without being refused. It is assumed that no other process removes the
-- credential from the file.
pub redeemed-credential_first :
    (w : World) (c : Client) (token : String) (s : Session) (q : Reply) (fuel n m : ℕ)
    → KeepsFile w
    → (connect w token s).1 ≡ ok q
    → str_eq q.host_credential "" ≡ false
    → w.cancelled m ≡ false
    → let s' = session_of (run w c fuel n (connect w token s).0) in
      (x : Credentials) × ((before w m s').creds ≡ some x)
      × (str_eq x.host_credential "" ≡ false)
      × Presented w c x.host_credential (before w m s') (session_of (turn w c m s')).tokens
redeemed-credential_first w c token s q fuel n m keeps e given goes =
    let s1 = (connect w token s).0 in
    let stored =
      run_induction w c (λ t. Stored t.creds) (λ k t. turn-Stored w c k t keeps) fuel n s1
        (connect-ok_Stored w token s q e given) in
    let s' = session_of (run w c fuel n s1) in
    let found = keeps m s'.creds stored in
    let chosen = choose_token-Stored c (before w m s').creds found in
    let other = subst (λ x. str_eq x "" ≡ false) (sym chosen) found.2 in
    (
      found.0,
      found.1,
      found.2,
      subst (λ x. Presented w c x (before w m s') (session_of (turn w c m s')).tokens) chosen
          (turn-presents w c m s' goes other),
    )
