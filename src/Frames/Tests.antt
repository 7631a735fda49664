-- ===== src/Frames/Tests.antt =====
-- The frames of a connection with all handlers: an unknown verb, and a ping that cannot be answered.
use aw_remote_host.Common.{◌≡◌, refl, String, true, Option, none, some, [], ◌∷◌, ok, err}
use aw_remote_host.Common.Int.{pos}
use aw_remote_host.Common.Assoc.{lookup}
use aw_remote_host.Headers.{other_field}
use aw_remote_host.Frames.{
  Codec, Present, Message, dispatch_op, handle_cmd, str, pong, activity, cmd_failed, send,
}
use aw_remote_host.Frames.Course.{Outcome, Turn, answers, finished, pump}

abbrev codec : Codec
codec = record {
  decode = λ s. none;
  encode = λ b. "";
  canon = λ s. s;
  to_uint16 = λ n. 80;
  to_int = λ n. pos 0;
}

abbrev present : Present
present = record { shell = true; proxy = true; tcp = true; handler = true }

abbrev message : String → Message
message op = record {
  fields = ("op", str op) ∷ ("id", str "r7") ∷ ("verb", str "dance") ∷ [];
  headers_multi = other_field;
  headers = [];
}

abbrev outcome : Outcome
outcome = record {
  emitted = ("info", "dance", "starting") ∷ [];
  result = err "unknown verb";
  open_error = none;
  http = [];
  ws = [];
  tcp_before = [];
  tcp_after = [];
}

refused_verb :
    answers codec (dispatch_op codec [] present "cmd" (message "cmd")) outcome
    ≡ activity "info" "dance" "starting" ∷ cmd_failed "r7" "unknown verb" ∷ []
unfolding dispatch_op handle_cmd answers finished lookup
refused_verb = refl

abbrev turn_of : String → Option String → Turn
turn_of op pong_error = record {
  deadline_error = none;
  read = ok (some (message op));
  pong_error = pong_error;
}

-- The loop goes on behind an op that it does not know, and ends with the pong that it cannot send.
lost_pong :
    pump codec [] present (
      turn_of "dance" none
      ∷ turn_of "ping" none
      ∷ turn_of "ping" (some "broken pipe")
      ∷ turn_of "cmd" none
      ∷ [])
    ≡ (send pong ∷ send pong ∷ [], some "broken pipe")
unfolding pump dispatch_op lookup
lost_pong = refl
