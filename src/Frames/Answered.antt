-- ===== src/Frames/Answered.antt =====
-- How the frames of internal/link/link.go are answered.
use aw_remote_host.Common.{List}
use aw_remote_host.Frames.{Bytes, Codec, Present, Message, Out, Effect}
use aw_remote_host.Frames.Course.{Outcome, answers}

module _ (c : Codec) (notice : Bytes) (p : Present) (m : Message) (o : Outcome) where
  abbrev Out_of : List Effect → List Out
  Out_of es = answers c es o
