-- ===== src/WsProxy.antt =====
-- The websocket half of internal/tunnelproxy/tunnelproxy.go. Sockets are numbered in the order they
-- were dialled. The end of a read loop changes nothing and is not modelled.
use aw_remote_host.Common.{
  [], ◌==◌, if◌then◌else◌, All, Result, ok, err, ℕ, ◌+◌, String, ◌≡◌, refl, ◌∙◌, Bool, true, false,
  Option, none, some, List, ◌∷◌, arith, Bool-cases, ap, inl, inr, str_eq, eq_refl,
}
use aw_remote_host.Common.Assoc.{Assoc, lookup, insert, erase, lookup-insert_self}

pub record WsProxy : Type 0 where
  pub ws_conns : Assoc ℕ
  pub opened : ℕ
  pub closed : ℕ → Bool

pub data WsError : Type 0 where
  dial_failed : String → WsError
  no_session : String → WsError
  write_failed : String → WsError

abbrev pub new : WsProxy
new = record { ws_conns = []; opened = 0; closed = λ h. false }

abbrev pub mark : ℕ → Bool → (ℕ → Bool) → ℕ → Bool
mark h b closed k = if k == h then b else closed k

-- OpenWS; `dialled` is the outcome of the dial.
unfoldable pub open_ws : String → Result String (Unit {0}) → WsProxy → WsProxy × Result WsError ℕ
open_ws id (err e) p = (p, err (dial_failed e))
open_ws id (ok _) p = (
  record p {
    ws_conns = insert id p.opened p.ws_conns;
    opened = p.opened + 1;
    closed = mark p.opened false p.closed;
  },
  ok p.opened,
)

-- WSMessage: the socket that is written to; `write` is the outcome of its WriteMessage.
unfoldable pub ws_message :
    String → List ℕ → (ℕ → List ℕ → Option String) → WsProxy → Result WsError ℕ
ws_message id bytes write p = elim (lookup id p.ws_conns) [
  | none ↦ err (no_session id)
  | some h ↦ elim (write h bytes) [ none ↦ ok h | some e ↦ err (write_failed e) ]
]

abbrev pub close_found : Option ℕ → (ℕ → Bool) → ℕ → Bool
close_found none closed = closed
close_found (some h) closed = mark h true closed

-- CloseWS.
unfoldable pub close_ws : String → WsProxy → WsProxy
close_ws id p = record p {
  ws_conns = erase id p.ws_conns;
  closed = close_found (lookup id p.ws_conns) p.closed;
}

-- The loop of CloseAllWS.
unfoldable pub close_each : Assoc ℕ → (ℕ → Bool) → ℕ → Bool
close_each [] closed = closed
close_each ((id, h) ∷ conns) closed = close_each conns (mark h true closed)

-- CloseAllWS.
unfoldable pub close_all_ws : WsProxy → WsProxy
close_all_ws p = record p { ws_conns = []; closed = close_each p.ws_conns p.closed }

close_each-other :
    (conns : Assoc ℕ) (closed : ℕ → Bool) (h : ℕ)
    → All (λ c. (c.1 == h) ≡ false) conns
    → close_each conns closed h ≡ closed h
unfolding close_each
close_each-other [] closed h others = refl
close_each-other ((id, g) ∷ conns) closed h (other, others) =
    close_each-other conns (mark g true closed) h others ∙ ground (arith, other)

abbrev Others : ℕ → Assoc ℕ → Type 0
Others h conns = All (λ c. (c.1 == h) ≡ false) conns

erase-Others : (id : String) (h : ℕ) (conns : Assoc ℕ) → Others h conns → Others h (erase id conns)
unfolding erase
erase-Others id h [] o = tt
erase-Others id h ((j, g) ∷ conns) (other, others) = elim (Bool-cases (str_eq j id)) [
  | inl same ↦ rw same (erase-Others id h conns others)
  | inr new ↦ rw new (other, erase-Others id h conns others)
]

erase-insert :
    (id : String) (g : ℕ) (conns : Assoc ℕ)
    → erase id (insert id g conns) ≡ erase id (erase id conns)
unfolding insert erase
erase-insert id g conns = rw (eq_refl id) refl

-- When the id of a running session is opened again, no later CloseWS of that id and no CloseAllWS
-- reaches the first socket: it stays open. It is assumed that sockets are numbered in the order they
-- were dialled.
pub open_ws-orphans :
    (id : String) (p : WsProxy)
    → Others p.opened p.ws_conns
    → (close_all_ws (close_ws id (open_ws id (ok tt) (open_ws id (ok tt) p).0).0)).closed p.opened
      ≡ false
unfolding open_ws close_ws close_all_ws
open_ws-orphans id p fresh =
    let first = insert id p.opened p.ws_conns in
    let left : erase id (insert id (p.opened + 1) first)
        ≡ erase id (erase id (erase id p.ws_conns)) =
      erase-insert id (p.opened + 1) first ∙ ap (erase id) (erase-insert id p.opened p.ws_conns) in
    let others =
      erase-Others id p.opened _
        (erase-Others id p.opened _ (erase-Others id p.opened p.ws_conns fresh)) in
    rw left (
      rw (lookup-insert_self id (p.opened + 1) first)
        (close_each-other _ _ p.opened others ∙ ground arith))
