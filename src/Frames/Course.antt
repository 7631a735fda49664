-- ===== src/Frames/Course.antt =====
-- pump of internal/link/link.go over the frames that it reads, and what the goroutines send that the
-- frames start.
use aw_remote_host.Common.{
  map, if◌then◌else◌, ℕ, Result, ok, err, String, Bool, Option, none, some, List, [], ◌∷◌, ◌++◌,
  str_eq,
}
use aw_remote_host.Headers.{Header, wire_legacy, wire_multi}
use aw_remote_host.Frames.{
  Bytes, Codec, Present, Message, Out, Call, Effect, dispatch, op_of, pong, pty_close, activity,
  cmd_ok, cmd_failed, http_resp_head, http_resp_chunk, http_resp_end, ws_open_ok, ws_msg, ws_close,
  tcp_open_ok, tcp_data, tcp_close, open_shell, run_command, serve_http, open_ws, open_tcp, send,
  call,
}

-- What ServeHTTP calls back.
pub data HttpEvent : Type 0 where
  head : String → ℕ → Header → HttpEvent
  chunk : String → Bytes → HttpEvent
  finish : String → HttpEvent

-- What OpenWS calls back.
pub data WsEvent : Type 0 where
  opened : WsEvent
  received : String → Bytes → Bool → WsEvent

-- What OpenTCP calls back: what the socket sends, and its end.
pub data TcpEvent : Type 0 where
  read_data : String → Bytes → TcpEvent
  ended : String → String → TcpEvent

-- What the goroutine of a call meets: the events on its way and its end. The read loop of a socket
-- runs beside the goroutine that opened it, so its events come before or after what that one sends.
pub record Outcome : Type 0 where
  pub emitted : List (String × String × String)
  pub result : Result String String
  pub open_error : Option String
  pub http : List HttpEvent
  pub ws : List WsEvent
  pub tcp_before : List TcpEvent
  pub tcp_after : List TcpEvent

module _ (c : Codec) where
  abbrev pub activity_of : String × String × String → Out
  activity_of (level, phase, message) = activity level phase message

  abbrev pub result_of : String → Result String String → Out
  result_of id (ok value) = cmd_ok id value
  result_of id (err e) = cmd_failed id e

  abbrev pub http_out : HttpEvent → Out
  http_out (head id status h) = http_resp_head id status (wire_legacy h) (wire_multi h)
  http_out (chunk id b) = http_resp_chunk id (c.encode b)
  http_out (finish id) = http_resp_end id

  abbrev pub ws_out : String → WsEvent → Out
  ws_out asked opened = ws_open_ok asked
  ws_out asked (received id b is_text) =
      ws_msg id (c.encode b) (if is_text then "text" else "binary")

  abbrev pub tcp_out : TcpEvent → Out
  tcp_out (read_data id b) = tcp_data id (c.encode b)
  tcp_out (ended id reason) = tcp_close id reason

  abbrev pub failure_of : (String → Out) → Option String → List Out
  failure_of f none = []
  failure_of f (some e) = f e ∷ []

  abbrev pub tcp_opened : String → Option String → Out
  tcp_opened id none = tcp_open_ok id
  tcp_opened id (some e) = tcp_close id e

  -- The frames that the goroutine of a call sends; the other calls have none.
  unfoldable pub finished : Call → Outcome → List Out
  finished (open_shell id cols rows target) o = failure_of (pty_close id) o.open_error
  finished (run_command id verb args) o = map activity_of o.emitted ++ (result_of id o.result ∷ [])
  finished (serve_http id method path h b) o = map http_out o.http
  finished (open_ws id path h) o = map (ws_out id) o.ws ++ failure_of (ws_close id) o.open_error
  finished (open_tcp id host port) o =
      map tcp_out o.tcp_before ++ (tcp_opened id o.open_error ∷ map tcp_out o.tcp_after)
  finished _ o = []

  -- What is sent for a frame in the end, by the loop and by the goroutine that it started.
  unfoldable pub answers : List Effect → Outcome → List Out
  answers [] o = []
  answers (send out ∷ es) o = out ∷ answers es o
  answers (call k ∷ es) o = finished k o ++ answers es o

-- One turn of the loop of pump: setting the deadline, reading, and sending a pong if it comes to it.
-- A message that is no JSON object is `none`.
pub record Turn : Type 0 where
  pub deadline_error : Option String
  pub read : Result String (Option Message)
  pub pong_error : Option String

pub data Closing : Type 0 where
  close_all_ws : Closing
  close_all_shells : Closing

module _ (c : Codec) (notice : Bytes) (p : Present) where
  -- The effects in order, and the error of the loop.
  abbrev pub Course : Type 0
  Course = List Effect × Option String

  abbrev pub before : List Effect → Course → Course
  before es (later, e) = (es ++ later, e)

  abbrev pub after_pong : Option String → Course → Course
  after_pong (some e) rest = (send pong ∷ [], some e)
  after_pong none rest = before (send pong ∷ []) rest

  abbrev pub handled : Option String → Message → Course → Course
  handled pong_error m rest =
      if str_eq (op_of m) "ping"
      then after_pong pong_error rest
      else before (dispatch c notice p m) rest

  abbrev pub read_turn : Option String → Result String (Option Message) → Course → Course
  read_turn pong_error (err e) rest = ([], some e)
  read_turn pong_error (ok none) rest = rest
  read_turn pong_error (ok (some m)) rest = handled pong_error m rest

  abbrev pub take_turn : Turn → Course → Course
  take_turn t rest = elim t.deadline_error [
    | some e ↦ ([], some e)
    | none ↦ read_turn t.pong_error t.read rest
  ]

  -- The loop of pump; with no turn left it still reads.
  unfoldable pub pump : List Turn → Course
  pump [] = ([], none)
  pump (t ∷ ts) = take_turn t (pump ts)

  -- What is deferred: the proxy's sessions are closed first, then the shells.
  abbrev pub closings : List Closing
  closings =
      (if p.proxy then close_all_ws ∷ [] else []) ++ (if p.shell then close_all_shells ∷ [] else [])
