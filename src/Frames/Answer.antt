-- ===== src/Frames/Answer.antt =====
-- What it means that a frame of internal/link/link.go is answered.
use aw_remote_host.Common.{
  ◌≡◌, String, true, false, Option, none, some, List, [], ◌∷◌, ◌++◌, str_eq, Result, ok, err, ◌||◌,
}
use aw_remote_host.Headers.{wire_legacy, wire_multi}
use aw_remote_host.Frames.{
  Codec, Present, Out, pong, pty_close, activity, cmd_ok, cmd_failed, ws_open_ok, ws_msg, ws_close,
  tcp_open_ok, tcp_close, tcp_data, http_resp_head, http_resp_chunk, http_resp_end,
}
use aw_remote_host.Frames.Course.{
  Outcome, WsEvent, opened, received, TcpEvent, read_data, ended, HttpEvent, head, chunk, finish,
}

-- The frames of a list of events, one for each and in their order.
abbrev pub Each : {A : Type 0} → (A → Out → Type 0) → List A → List Out → Type 0
Each R [] [] = Unit
Each R [] (y ∷ ys) = ⊥
Each R (x ∷ xs) [] = ⊥
Each R (x ∷ xs) (y ∷ ys) = R x y × Each R xs ys

abbrev pub IsActivity : String × String × String → Out → Type 0
IsActivity (level, phase, message) out = out ≡ activity level phase message

-- The result of the command with this id.
abbrev pub IsResult : String → Result String String → Out → Type 0
IsResult id (ok value) out = out ≡ cmd_ok id value
IsResult id (err e) out = out ≡ cmd_failed id e

-- One frame that closes if the opening failed, and else nothing.
abbrev pub IsClosed : (String → Out) → Option String → List Out → Type 0
IsClosed close none out = out ≡ []
IsClosed close (some e) out = out ≡ close e ∷ []

-- The frame that says whether the socket is open.
abbrev pub IsOpened : String → Option String → Out → Type 0
IsOpened id none out = out ≡ tcp_open_ok id
IsOpened id (some e) out = out ≡ tcp_close id e

abbrev pub IsTcp : Codec → TcpEvent → Out → Type 0
IsTcp c (read_data id b) out = out ≡ tcp_data id (c.encode b)
IsTcp c (ended id reason) out = out ≡ tcp_close id reason

abbrev pub IsWs : Codec → String → WsEvent → Out → Type 0
IsWs c asked opened out = out ≡ ws_open_ok asked
IsWs c asked (received id b true) out = out ≡ ws_msg id (c.encode b) "text"
IsWs c asked (received id b false) out = out ≡ ws_msg id (c.encode b) "binary"

abbrev pub IsHttp : Codec → HttpEvent → Out → Type 0
IsHttp c (head id status h) out = out ≡ http_resp_head id status (wire_legacy h) (wire_multi h)
IsHttp c (chunk id b) out = out ≡ http_resp_chunk id (c.encode b)
IsHttp c (finish id) out = out ≡ http_resp_end id

-- What is sent in the end for a message with this op and id, by what the goroutine has met.
pub record IsAnswered (c : Codec) (p : Present) (o : Outcome) (op id : String) (out : List Out)
    : Type 0 where
  pub alive : op ≡ "ping" → out ≡ pong ∷ []
  pub command :
      op ≡ "cmd"
      → p.handler ≡ true
      → (acts : List Out) × (r : Out) × (out ≡ acts ++ (r ∷ []))
        × Each IsActivity o.emitted acts
        × IsResult id o.result r
  pub no_command :
      op ≡ "cmd"
      → p.handler ≡ false
      → out ≡ cmd_failed id "no command handler registered on this host" ∷ []
  pub shell : op ≡ "pty_open" → p.shell ≡ true → IsClosed (pty_close id) o.open_error out
  pub no_shell :
      op ≡ "pty_open"
      → p.shell ≡ false
      → out ≡ pty_close id "no shell manager registered on this host" ∷ []
  pub socket :
      op ≡ "tcp_open"
      → p.tcp ≡ true
      → (before : List Out) × (x : Out) × (after : List Out) × (out ≡ before ++ (x ∷ after))
        × Each (IsTcp c) o.tcp_before before
        × IsOpened id o.open_error x
        × Each (IsTcp c) o.tcp_after after
  pub no_socket :
      op ≡ "tcp_open"
      → p.tcp ≡ false
      → out ≡ tcp_close id "no tcp proxy registered on this host" ∷ []
  pub web :
      op ≡ "ws_open"
      → p.proxy ≡ true
      → (events : List Out) × (last : List Out) × (out ≡ events ++ last)
        × Each (IsWs c id) o.ws events
        × IsClosed (ws_close id) o.open_error last
  pub no_web :
      op ≡ "ws_open"
      → p.proxy ≡ false
      → out ≡ ws_close id "no tunnel proxy registered on this host" ∷ []
  pub http : op ≡ "http_req" → p.proxy ≡ true → Each (IsHttp c) o.http out
  pub silent :
      (str_eq op "ping"
          || (str_eq op "cmd"
              || (str_eq op "pty_open"
                  || (str_eq op "http_req" || (str_eq op "ws_open" || str_eq op "tcp_open")))))
        ≡ false
      → out ≡ []
