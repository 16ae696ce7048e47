-- ===== src/DataWriter/Handlers/Errors.antt =====
-- The archive messages that are refused, and what every handler commits.
use nimbus_io.Prelude.{
  ◌≡◌, ◌≢◌, Option, none, some, [], ◌∷◌, ◌++◌, Bytes, text_eq_iff, length, arith,
}
use nimbus_io.Prelude.Exec.{ok}
use nimbus_io.Tools.Timestamp.{Timestamp}
use nimbus_io.DataWriter.Message.{
  Message, ReplyType, Outcome, size_mismatch, md5_mismatch, archive_key_start_reply,
  archive_key_next_reply, archive_key_final_reply,
}
use nimbus_io.DataWriter.Writer.{Env}
use nimbus_io.DataWriter.Handlers.{
  State, reply_to, send_reply, push_error, check_segment, handle_archive_key_entire,
  handle_archive_key_start, handle_archive_key_next, handle_archive_key_final, MessageType,
  archive_key_entire, archive_key_start, archive_key_next, archive_key_final, handle,
}

-- the type of the reply to an archive message
abbrev pub archive_reply : MessageType → Option ReplyType
archive_reply archive_key_entire = some archive_key_final_reply
archive_reply archive_key_start = some archive_key_start_reply
archive_reply archive_key_next = some archive_key_next_reply
archive_reply archive_key_final = some archive_key_final_reply
archive_reply _ = none

-- An error that is told in one reply and one event, with nothing written.
abbrev pub refused : ReplyType → Message → Outcome → State → State
refused t m e s = record s {
  replies = s.replies ++ reply_to t m e ∷ [];
  events = s.events ++ e ∷ [];
}

-- Why a message is refused: its size first, then its digest.
abbrev pub Fault : Env → Message → Bytes → Outcome → Type 0
Fault env m content size_mismatch = length content ≢ m.segment_size
Fault env m content md5_mismatch =
    (length content ≡ m.segment_size)
    × (digest : Bytes) × (env.b64decode m.segment_md5_digest ≡ some digest)
    × (env.md5 content ≢ digest)
Fault env m content _ = ⊥

module _ (env : Env) (now : Timestamp) (m : Message) (content : Bytes) (s : State) where
  check_segment-Fault :
      (rt : ReplyType) (e : Outcome)
      → Fault env m content e
      → check_segment env now rt m content s ≡ (ok none, refused rt m e s)
  unfolding check_segment push_error send_reply
  check_segment-Fault rt size_mismatch h = ground arith
  check_segment-Fault rt md5_mismatch h =
      ground (arith, h.2, h.3, text_eq_iff (env.md5 content) h.1)
  check_segment-Fault rt _ h = absurd h

  -- Any of the four archive messages whose content has another size than it tells, or the right
  -- size and another digest, is refused: one reply and one event tell the fault, and the writer is
  -- left as it was.
  pub handle-refuses :
      (t : MessageType) (rt : ReplyType) (e : Outcome)
      → archive_reply t ≡ some rt
      → Fault env m content e
      → handle env now t m content s ≡ (ok tt, refused rt m e s)
  unfolding handle handle_archive_key_entire handle_archive_key_start handle_archive_key_next
      handle_archive_key_final
  handle-refuses archive_key_entire rt e is h =
      rw (check_segment-Fault archive_key_final_reply e h) (ground arith)
  handle-refuses archive_key_start rt e is h =
      rw (check_segment-Fault archive_key_start_reply e h) (ground arith)
  handle-refuses archive_key_next rt e is h =
      rw (check_segment-Fault archive_key_next_reply e h) (ground arith)
  handle-refuses archive_key_final rt e is h =
      rw (check_segment-Fault archive_key_final_reply e h) (ground arith)
  handle-refuses _ rt e is h = cc
