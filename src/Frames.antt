-- ===== src/Frames.antt =====
-- The frames of internal/link/link.go: what pump does with each frame that it reads, what the
-- goroutines that a frame starts send, and how the loop ends. A message is its JSON object as far
-- as the type assertions can tell; base64, http.Header's spelling of names and the conversion of a
-- number to a uint16 or an int are parameters (Codec). The heartbeat file and the announcements of
-- LAN addresses are other parts.
pub mod Course
pub mod Answer
pub mod Answered
mod Tests
use aw_remote_host.Common.{
  if◌then◌else◌, ℕ, String, Bool, Option, none, some, List, [], ◌∷◌, str_eq,
}
use aw_remote_host.Common.Int.{ℤ, pos}
use aw_remote_host.Common.Assoc.{Assoc, lookup}
use aw_remote_host.Headers.{Header, Field, Scalar, headers_from_frame, wire_legacy, wire_multi}

pub data Json : Type 0 where
  str : String → Json
  num : String → Json
  object : String → Json
  other_json : Json

-- The object of a frame, with its two header fields.
pub record Message : Type 0 where
  pub fields : Assoc Json
  pub headers_multi : Field
  pub headers : List (String × Scalar)

abbrev pub Bytes : Type 0
Bytes = List ℕ

pub record Codec : Type 0 where
  pub decode : String → Option Bytes
  pub encode : Bytes → String
  pub canon : String → String
  pub to_uint16 : String → ℕ
  pub to_int : String → ℤ

-- Which handlers the connection has.
pub record Present : Type 0 where
  pub shell : Bool
  pub proxy : Bool
  pub tcp : Bool
  pub handler : Bool

-- A frame that the host sends.
pub data Out : Type 0 where
  pong : Out
  pty_close : String → String → Out
  activity : String → String → String → Out
  cmd_ok : String → String → Out
  cmd_failed : String → String → Out
  http_resp_head : String → ℕ → List (String × String) → List (String × String) → Out
  http_resp_chunk : String → String → Out
  http_resp_end : String → Out
  ws_open_ok : String → Out
  ws_msg : String → String → String → Out
  ws_close : String → String → Out
  tcp_open_ok : String → Out
  tcp_data : String → String → Out
  tcp_close : String → String → Out

-- A call that a frame leads to. The first four are made in goroutines of their own.
pub data Call : Type 0 where
  open_shell : String → ℕ → ℕ → String → Call
  run_command : String → String → String → Call
  serve_http : String → String → String → Header → Bytes → Call
  open_ws : String → String → Header → Call
  open_tcp : String → String → ℤ → Call
  shell_input : String → Bytes → Call
  shell_resize : String → ℕ → ℕ → Call
  shell_close : String → Call
  ws_message : String → Bytes → Bool → Call
  close_ws : String → Call
  send_tcp : String → Bytes → Call
  close_tcp : String → Call

pub data Effect : Type 0 where
  send : Out → Effect
  call : Call → Effect

-- msg[name].(string), empty if it is not one.
abbrev pub as_string : Option Json → String
as_string (some (str s)) = s
as_string _ = ""

abbrev pub as_object : Option Json → String
as_object (some (object o)) = o
as_object _ = ""

abbrev pub text_of : String → Message → String
text_of name m = as_string (lookup name m.fields)

abbrev pub id_of : Message → String
id_of m = text_of "id" m

abbrev pub op_of : Message → String
op_of m = text_of "op" m

abbrev pub when : Bool → List Effect → List Effect
when b es = if b then es else []

module _ (c : Codec) where
  abbrev pub as_uint16 : Option Json → ℕ
  as_uint16 (some (num n)) = c.to_uint16 n
  as_uint16 _ = 0

  abbrev pub as_int : Option Json → ℤ
  as_int (some (num n)) = c.to_int n
  as_int _ = pos 0

  -- The body of an http_req: nothing if it is not base64.
  abbrev pub body_of : Option Bytes → Bytes
  body_of none = []
  body_of (some b) = b

  -- What is decoded leads to a call; what is not is dropped.
  abbrev pub decoded : (Bytes → Call) → Option Bytes → List Effect
  decoded f none = []
  decoded f (some b) = call (f b) ∷ []

  -- handlePTYOpen with ptyDims and ptyTarget.
  unfoldable pub handle_pty_open : Present → Message → List Effect
  handle_pty_open p m =
      if p.shell
      then call (
          open_shell (id_of m) (as_uint16 (lookup "cols" m.fields))
            (as_uint16 (lookup "rows" m.fields)) (text_of "target" m))
        ∷ []
      else send (pty_close (id_of m) "no shell manager registered on this host") ∷ []

  -- handlePTYInput.
  unfoldable pub handle_pty_input : Present → Message → List Effect
  handle_pty_input p m =
      when p.shell (decoded (shell_input (id_of m)) (c.decode (text_of "data" m)))

  -- handlePTYResize.
  unfoldable pub handle_pty_resize : Present → Message → List Effect
  handle_pty_resize p m = when p.shell (
      call (
        shell_resize (id_of m) (as_uint16 (lookup "cols" m.fields))
          (as_uint16 (lookup "rows" m.fields)))
      ∷ [])

  -- handlePTYClose.
  unfoldable pub handle_pty_close : Present → Message → List Effect
  handle_pty_close p m = when p.shell (call (shell_close (id_of m)) ∷ [])

  -- handleCmd.
  unfoldable pub handle_cmd : Present → Message → List Effect
  handle_cmd p m =
      if p.handler
      then call (run_command (id_of m) (text_of "verb" m) (as_object (lookup "args" m.fields))) ∷ []
      else send (cmd_failed (id_of m) "no command handler registered on this host") ∷ []

  abbrev pub plain_text : Header
  plain_text = ("Content-Type", "text/plain" ∷ []) ∷ []

  -- handleHTTPReq; `message` is the text of the answer that no proxy is there.
  unfoldable pub handle_http_req : Bytes → Present → Message → List Effect
  handle_http_req message p m =
      if p.proxy
      then call (
          serve_http (id_of m) (text_of "method" m) (text_of "path" m)
            (headers_from_frame c.canon m.headers_multi m.headers)
            (if str_eq (text_of "body" m) "" then [] else body_of (c.decode (text_of "body" m))))
        ∷ []
      else send (http_resp_head (id_of m) 502 (wire_legacy plain_text) (wire_multi plain_text))
        ∷ send (http_resp_chunk (id_of m) (c.encode message))
        ∷ send (http_resp_end (id_of m))
        ∷ []

  -- handleWSOpen.
  unfoldable pub handle_ws_open : Present → Message → List Effect
  handle_ws_open p m =
      if p.proxy
      then call (
          open_ws (id_of m) (text_of "path" m)
            (headers_from_frame c.canon m.headers_multi m.headers))
        ∷ []
      else send (ws_close (id_of m) "no tunnel proxy registered on this host") ∷ []

  -- handleWSMsg.
  unfoldable pub handle_ws_msg : Present → Message → List Effect
  handle_ws_msg p m = when p.proxy (
      decoded (λ b. ws_message (id_of m) b (str_eq (text_of "dir" m) "text"))
        (c.decode (text_of "data" m)))

  -- handleWSClose.
  unfoldable pub handle_ws_close : Present → Message → List Effect
  handle_ws_close p m = when p.proxy (call (close_ws (id_of m)) ∷ [])

  -- handleTCPOpen.
  unfoldable pub handle_tcp_open : Present → Message → List Effect
  handle_tcp_open p m =
      if p.tcp
      then call (open_tcp (id_of m) (text_of "host" m) (as_int (lookup "port" m.fields))) ∷ []
      else send (tcp_close (id_of m) "no tcp proxy registered on this host") ∷ []

  -- handleTCPData.
  unfoldable pub handle_tcp_data : Present → Message → List Effect
  handle_tcp_data p m = when p.tcp (decoded (send_tcp (id_of m)) (c.decode (text_of "data" m)))

  -- handleTCPClose.
  unfoldable pub handle_tcp_close : Present → Message → List Effect
  handle_tcp_close p m = when p.tcp (call (close_tcp (id_of m)) ∷ [])

  -- The cases of pump, by the op of the message.
  unfoldable pub dispatch_op : Bytes → Present → String → Message → List Effect
  dispatch_op notice p op m =
      if str_eq op "ping"
      then send pong ∷ []
      else (if str_eq op "cmd"
          then handle_cmd p m
          else (if str_eq op "pty_open"
              then handle_pty_open p m
              else (if str_eq op "pty_input"
                  then handle_pty_input p m
                  else (if str_eq op "pty_resize"
                      then handle_pty_resize p m
                      else (if str_eq op "pty_close"
                          then handle_pty_close p m
                          else (if str_eq op "http_req"
                              then handle_http_req notice p m
                              else (if str_eq op "ws_open"
                                  then handle_ws_open p m
                                  else (if str_eq op "ws_msg"
                                      then handle_ws_msg p m
                                      else (if str_eq op "ws_close"
                                          then handle_ws_close p m
                                          else (if str_eq op "tcp_open"
                                              then handle_tcp_open p m
                                              else (if str_eq op "tcp_data"
                                                  then handle_tcp_data p m
                                                  else (if str_eq op "tcp_close"
                                                      then handle_tcp_close p m
                                                      else []))))))))))))

  abbrev pub dispatch : Bytes → Present → Message → List Effect
  dispatch notice p m = dispatch_op notice p (op_of m) m
