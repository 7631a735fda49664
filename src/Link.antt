-- ===== src/Link.antt =====
-- internal/link/link.go and credentials.go: dialling, registering and the reconnect loop of Run.
-- The network, the clock, the caller's context and other processes are the record World.
pub mod Reconnect
pub mod Pauses
pub mod Stored
mod Tests
use aw_remote_host.Common.{
  ℕ, if◌then◌else◌, Result, ok, err, zero, suc, ◌+◌, ◌*◌, String, Bool, true, false, not, ◌&&◌,
  Option, none, some, List, [], ◌∷◌, str_eq,
}
use aw_remote_host.Common.Int.{ℤ, pos, ltb_ℤ}
use aw_remote_host.Dial.{next_backoff}

-- Credentials.
pub record Credentials : Type 0 where
  pub remote_host_id : String
  pub host_credential : String

-- RegisteredReply, as far as Run reads it.
pub record Reply : Type 0 where
  pub op : String
  pub code : String
  pub message : String
  pub remote_host_id : String
  pub host_credential : String

-- What one dial and register exchange comes to: an error of the socket or of the JSON, or a reply.
pub data Exchange : Type 0 where
  failed : String → Exchange
  replied : Reply → Exchange

pub data ConnectError : Type 0 where
  exchange_failed : String → ConnectError
  refused : String → String → ConnectError
  unexpected_op : String → ConnectError
  persist_failed : String → ConnectError

-- Client, as far as Run reads it.
pub record Client : Type 0 where
  pub token : String
  pub min_backoff : ℤ
  pub max_backoff : ℤ

-- minBackoff and maxBackoff.
abbrev pub second : ℕ
second = 1_000_000_000

abbrev pub effective_min : Client → ℤ
effective_min c = if ltb_ℤ (pos 0) c.min_backoff then c.min_backoff else pos second

abbrev pub effective_max : Client → ℤ
effective_max c = if ltb_ℤ (pos 0) c.max_backoff then c.max_backoff else pos (60 * second)

-- What the outside answers: by turn of the loop, or by connect since the start.
pub record World : Type 0 where
  -- ctx.Err() at the top of a turn, and after the connection of that turn dropped
  pub cancelled : ℕ → Bool
  pub cancelled_after : ℕ → Bool
  -- did the sleep of the turn run out?
  pub slept : ℕ → Bool
  -- the exchange of a connect that presents a token
  pub exchange : ℕ → String → Exchange
  -- the error of SaveCredentials, if any
  pub save : ℕ → Option String
  -- what other processes made of the credentials file before a turn
  pub outside : ℕ → Option Credentials → Option Credentials

-- The state of Run; `creds` is the credentials file, `none` if it is missing or unreadable. The
-- last three count the connects and list the tokens presented and the sleeps, the last one first.
pub record Session : Type 0 where
  pub creds : Option Credentials
  pub backoff : ℤ
  pub connects : ℕ
  pub tokens : List String
  pub waits : List ℤ

-- register.
unfoldable pub register : Exchange → Result ConnectError Reply
register (failed e) = err (exchange_failed e)
register (replied r) =
    if str_eq r.op "register_error"
    then err (refused r.code r.message)
    else (if str_eq r.op "registered" then ok r else err (unexpected_op r.op))

-- SaveCredentials with its outcome.
unfoldable pub save_credentials :
    Option String → Credentials → Session → Session × Option ConnectError
save_credentials (some e) creds s = (s, some (persist_failed e))
save_credentials none creds s = (record s { creds = some creds }, none)

abbrev pub or_error : Option ConnectError → Reply → Result ConnectError Reply
or_error none r = ok r
or_error (some e) r = err e

-- The part of Connect behind a successful register: a fresh credential is persisted.
unfoldable pub persist : Option String → Reply → Session → Session × Result ConnectError Reply
unfolding save_credentials
persist saved r s =
    if str_eq r.host_credential ""
    then (s, ok r)
    else (let creds : Credentials = record {
      remote_host_id = r.remote_host_id;
      host_credential = r.host_credential;
    } in
        let (s', e) = save_credentials saved creds s in (s', or_error e r))

-- Connect with `token`.
unfoldable pub connect : World → String → Session → Session × Result ConnectError Reply
unfolding register persist
connect w token s =
    let s' = record s { connects = s.connects + 1; tokens = token ∷ s.tokens } in
    elim (register (w.exchange s.connects token)) [
      | err e ↦ (s', err e)
      | ok r ↦ persist (w.save s.connects) r s'
    ]

-- The token that a turn presents first.
unfoldable pub choose_token : Client → Option Credentials → String
choose_token c none = c.token
choose_token c (some creds) =
    if str_eq creds.host_credential "" then c.token else creds.host_credential

-- errors.Is(err, ErrRegisterRefused).
abbrev pub is_refused : ConnectError → Bool
is_refused (refused code message) = true
is_refused _ = false

-- Does Run fall back to the operator's token after `e`?
unfoldable pub may_retry : Client → String → ConnectError → Bool
may_retry c token e = not (is_refused e) && (not (str_eq c.token "") && not (str_eq c.token token))

unfoldable pub fall_back :
    World
    → Client
    → String
    → Session
    → Result ConnectError Reply
    → Session × Result ConnectError Reply
fall_back w c token s (ok r) = (s, ok r)
fall_back w c token s (err e) = if may_retry c token e then connect w c.token s else (s, err e)

-- The first connect of a turn and, where Run allows it, the second with the operator's token.
abbrev pub connect_or_fall_back :
    World → Client → String → Session → Session × Result ConnectError Reply
connect_or_fall_back w c token s =
    let (s1, first) = connect w token s in fall_back w c token s1 first

-- Why Run returned.
pub data Stop : Type 0 where
  context_error : Stop
  no_token : Stop
  register_refused : ConnectError → Stop

pub data Turn : Type 0 where
  stop : Stop → Session → Turn
  again : Session → Turn

-- sleepBackoff, then nextBackoff and the next turn.
unfoldable pub back_off : World → Client → ℕ → Session → Turn
back_off w c n s =
    let s' = record s { waits = s.backoff ∷ s.waits } in
    if w.slept n
    then again (record s' { backoff = next_backoff s.backoff (effective_max c) })
    else stop context_error s'

-- The part of a turn behind the connects. The pump runs until the connection drops.
unfoldable pub after_connect : World → Client → ℕ → Session → Result ConnectError Reply → Turn
unfolding back_off
after_connect w c n s (err e) =
    if is_refused e then stop (register_refused e) s else back_off w c n s
after_connect w c n s (ok r) =
    let s' = record s { backoff = effective_min c } in
    if w.cancelled_after n then stop context_error s' else back_off w c n s'

-- One turn of the loop of Run.
unfoldable pub turn : World → Client → ℕ → Session → Turn
turn w c n s0 =
    let s = record s0 { creds = w.outside n s0.creds } in
    let token = choose_token c s.creds in
    if w.cancelled n
    then stop context_error s0
    else (if str_eq token ""
        then stop no_token s
        else (let (s', r) = connect_or_fall_back w c token s in after_connect w c n s' r))

abbrev pub resume : Turn → (Session → Turn) → Turn
resume (stop why s) k = stop why s
resume (again s) k = k s

-- The first `fuel` turns of Run, from turn `n`: it goes on until it is told to stop.
unfoldable pub run : World → Client → ℕ → ℕ → Session → Turn
run w c zero n s = again s
run w c (suc fuel) n s = resume (turn w c n s) (λ s'. run w c fuel (n + 1) s')

-- The state that Run starts with.
abbrev pub fresh : Client → Option Credentials → Session
fresh c creds = record {
  creds = creds;
  backoff = effective_min c;
  connects = 0;
  tokens = [];
  waits = [];
}
