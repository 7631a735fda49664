-- ===== src/TcpProxy.antt =====
-- internal/tcpproxy/tcpproxy.go: the TCP sessions of one /link connection. A socket is a number, in
-- the order of the dials; what the dialer and a write answer are arguments. Each operation under the
-- mutex is one step, and each turn of a read loop is another.
pub mod Sessions
pub mod Late
mod Tests
use aw_remote_host.Common.{
  ℕ, ◌==◌, if◌then◌else◌, length, Result, ok, err, ◌+◌, String, Bool, true, false, not, ◌||◌,
  Option, none, some, List, [], ◌∷◌, str_eq,
}
use aw_remote_host.Common.Int.{ℤ, pos, ltb_ℤ}
use aw_remote_host.Common.Assoc.{Assoc, lookup, insert, erase}

-- What is sent to the control plane: a chunk, and the end of a session with its reason.
pub data Frame : Type 0 where
  tcp_data : String → List ℕ → Frame
  tcp_close : String → String → Frame

pub data OpenError : Type 0 where
  invalid_target : String → ℤ → OpenError
  dial_failed : String → OpenError

pub data SendError : Type 0 where
  no_session : String → SendError
  write_failed : String → SendError

pub record Proxy : Type 0 where
  -- h.conns
  pub conns : Assoc ℕ
  -- how many sockets were dialled: the next one's number
  pub opened : ℕ
  -- the sockets on which Close was called
  pub closed : ℕ → Bool
  -- the id that the read loop of a socket was started with
  pub owner : ℕ → String
  -- the frames sent, the last one first
  pub sent : List Frame

abbrev pub new : Proxy
new = record { conns = []; opened = 0; closed = λ h. false; owner = λ h. ""; sent = [] }

-- A socket fresh from the dialer is open.
abbrev pub open_socket : ℕ → (ℕ → Bool) → ℕ → Bool
open_socket h closed k = if k == h then false else closed k

-- conn.Close().
abbrev pub close_socket : ℕ → (ℕ → Bool) → ℕ → Bool
close_socket h closed k = if k == h then true else closed k

abbrev pub close_previous : Option ℕ → (ℕ → Bool) → ℕ → Bool
close_previous none closed = closed
close_previous (some h) closed = close_socket h closed

abbrev pub valid_target : String → ℤ → Bool
valid_target host port = not (str_eq host "" || not (ltb_ℤ (pos 0) port) || ltb_ℤ (pos 65535) port)

-- OpenTCP; `dialled` is the outcome of the dial.
unfoldable pub open_tcp :
    String → String → ℤ → Result String (Unit {0}) → Proxy → Proxy × Result OpenError ℕ
open_tcp id host port dialled p =
    if valid_target host port then connect dialled else (p, err (invalid_target host port))
  where
    connect : Result String (Unit {0}) → Proxy × Result OpenError ℕ
    connect (err e) = (p, err (dial_failed e))
    connect (ok _) = (
      record p {
        conns = insert id p.opened p.conns;
        opened = p.opened + 1;
        closed = open_socket p.opened (close_previous (lookup id p.conns) p.closed);
        owner = λ k. if k == p.opened then id else p.owner k;
      },
      ok p.opened,
    )

-- One turn of the read loop of socket `h` that got `chunk`; an empty chunk is not relayed.
unfoldable pub read_chunk : ℕ → List ℕ → Proxy → Proxy
read_chunk h [] p = p
read_chunk h (b ∷ bs) p = record p { sent = tcp_data (p.owner h) (b ∷ bs) ∷ p.sent }

-- The turn of the read loop of socket `h` that got an error.
unfoldable pub read_end : ℕ → String → Proxy → Proxy
read_end h reason p =
    let id = p.owner h in
    let current = lookup id p.conns in
    record p {
      conns = elim current [
        | none ↦ p.conns
        | some c ↦ if c == h then erase id p.conns else p.conns
      ];
      closed = close_socket h p.closed;
      sent = elim current [ none ↦ p.sent | some c ↦ tcp_close id reason ∷ p.sent ];
    }

-- SendTCP: the socket that is written to; `write` is the outcome of its Write.
unfoldable pub send_tcp :
    String → List ℕ → (ℕ → List ℕ → Option String) → Proxy → Result SendError ℕ
send_tcp id bytes write p = elim (lookup id p.conns) [
  | none ↦ err (no_session id)
  | some h ↦ elim (write h bytes) [ none ↦ ok h | some e ↦ err (write_failed e) ]
]

-- CloseTCP.
unfoldable pub close_tcp : String → Proxy → Proxy
close_tcp id p = record p {
  conns = erase id p.conns;
  closed = close_previous (lookup id p.conns) p.closed;
}

-- The loop of CloseAllTCP.
unfoldable pub close_each : Assoc ℕ → (ℕ → Bool) → ℕ → Bool
close_each [] closed = closed
close_each ((id, h) ∷ conns) closed = close_each conns (close_socket h closed)

-- CloseAllTCP.
unfoldable pub close_all_tcp : Proxy → Proxy
close_all_tcp p = record p { conns = []; closed = close_each p.conns p.closed }

-- OpenCount.
unfoldable pub open_count : Proxy → ℕ
open_count p = length p.conns
