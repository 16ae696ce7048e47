-- ===== src/HandoffServer/Forwarder.antt =====
-- handoff_server/forwarder_coroutine.py: the coroutine that reads a segment from this node and archives
-- it on its destination. A value that it is sent is an argument of `resume`; what it queues for its
-- two clients is a list. A failed assertion is an exception.
pub mod Protocol
use nimbus_io.Prelude.{
  ℕ, ◌+◌, Bool, true, false, Option, none, some, List, [], ◌∷◌, ◌++◌, if◌then◌else◌, Text, Bytes,
}
use nimbus_io.Prelude.Exec.{
  Exec, Result, ok, err, pure, modify, raise, assertion_error, type_error, key_error,
  stop_iteration, ◌>>=◌, ◌>>◌,
}
use nimbus_io.Database.{ℤ}
use nimbus_io.DataWriter.Message.{Message}
use nimbus_io.DataWriter.Handlers.{
  MessageType, archive_key_entire, archive_key_start, archive_key_next, archive_key_final,
}

-- What is read of the row of the segment: `repr` of its timestamp; the base64 of its hash, unless that is
-- null; and the name of its source node, if the node is known.
pub record Segment : Type 0 where
  pub collection_id : ℕ
  pub key : Text
  pub unified_id : ℕ
  pub conjoined_part : ℕ
  pub timestamp_repr : Text
  pub segment_num : ℕ
  pub file_size : ℕ
  pub file_adler32 : ℤ
  pub file_hash : Option Text
  pub source_node_name : Option Text

-- a reply of the reader, or of the writer, which has only a result
pub record Reply : Type 0 where
  pub success : Bool
  pub completed : Bool
  pub segment_size : ℕ
  pub zfec_padding_size : ℕ
  pub segment_adler32 : ℤ
  pub segment_md5_digest : Text
  pub content : Bytes

pub data Outgoing : Type 0 where
  retrieve_start retrieve_next : Outgoing
  archive : MessageType → Message → Bytes → Outgoing

-- where the coroutine waits
pub data Phase : Type 0 where
  reading_first : Phase
  archiving_first : (completed : Bool) → Phase
  reading : (sequence : ℕ) → Phase
  archiving : (sequence : ℕ) → (completed : Bool) → Phase
  finished : Phase

pub record Forwarder : Type 0 where
  pub phase : Phase
  pub outgoing : List Outgoing

-- to its first yield
abbrev pub new_forwarder : Forwarder
new_forwarder = record { phase = reading_first; outgoing = retrieve_start ∷ [] }

module _ (row : Segment) where
  -- the message without the fields of the last one
  abbrev pub sequence_message : Text → ℕ → Reply → Message
  sequence_message source_node_name sequence reply = record {
    client_tag = [];
    message_id = [];
    collection_id = row.collection_id;
    key = row.key;
    unified_id = row.unified_id;
    unified_id_to_delete = none;
    timestamp_repr = row.timestamp_repr;
    conjoined_part = row.conjoined_part;
    segment_num = row.segment_num;
    segment_size = reply.segment_size;
    zfec_padding_size = reply.zfec_padding_size;
    segment_md5_digest = reply.segment_md5_digest;
    segment_adler32 = reply.segment_adler32;
    sequence_num = sequence;
    file_size = 0;
    file_adler32 = row.file_adler32;
    file_hash = [];
    source_node_name = source_node_name;
    handoff_node_name = none;
    handoff_node_id = 0;
    entries = [];
  }

  abbrev pub last_message : Text → Text → ℕ → Reply → Message
  last_message file_hash source_node_name sequence reply =
      record (sequence_message source_node_name sequence reply) {
        file_size = row.file_size;
        file_hash = file_hash;
      }

  -- The base64 of null is a TypeError, and the name of an unknown node a KeyError, in this order.
  abbrev pub build_last : MessageType → ℕ → Reply → Option Text → Option Text → Result Outgoing
  build_last message_type sequence reply none name = err type_error
  build_last message_type sequence reply (some hash) none = err key_error
  build_last message_type sequence reply (some hash) (some name) =
      ok (archive message_type (last_message hash name sequence reply) reply.content)

  abbrev pub build : MessageType → ℕ → Reply → Option Text → Result Outgoing
  build message_type sequence reply none = err key_error
  build message_type sequence reply (some name) =
      ok (archive message_type (sequence_message name sequence reply) reply.content)

  abbrev pub queue : Phase → List Outgoing → Exec Forwarder (Unit {0})
  queue phase messages f = (ok tt, record { phase = phase; outgoing = f.outgoing ++ messages })

  abbrev pub queue_built : Phase → Result Outgoing → Exec Forwarder (Unit {0})
  queue_built phase (ok message) f = queue phase (message ∷ []) f
  queue_built phase (err e) f = (err e, f)

  abbrev pub first_message : Bool → Reply → Option Text → Option Text → Result Outgoing
  first_message completed reply hash name =
      if completed
      then build_last archive_key_entire 0 reply hash name
      else build archive_key_start 1 reply name

  abbrev pub next_message : Bool → ℕ → Reply → Option Text → Option Text → Result Outgoing
  next_message completed sequence reply hash name =
      if completed
      then build_last archive_key_final sequence reply hash name
      else build archive_key_next sequence reply name

  abbrev pub assert_success : Bool → Exec Forwarder (Unit {0}) → Exec Forwarder (Unit {0})
  assert_success true run = run
  assert_success false run = raise assertion_error

  -- After the last message of a loop, the coroutine yields the row and the sources. The reply to an
  -- `entire` is not looked at here: the handler of the replies has checked it.
  abbrev pub continue_at : Phase → Reply → Exec Forwarder (Unit {0})
  continue_at reading_first reply = assert_success reply.success (
      queue_built (archiving_first reply.completed)
        (first_message reply.completed reply row.file_hash row.source_node_name))
  continue_at (archiving_first true) reply = queue finished []
  continue_at (archiving_first false) reply =
      assert_success reply.success (queue (reading 2) (retrieve_next ∷ []))
  continue_at (reading sequence) reply = assert_success reply.success (
      queue_built (archiving sequence reply.completed)
        (next_message reply.completed sequence reply row.file_hash row.source_node_name))
  continue_at (archiving sequence true) reply = assert_success reply.success (queue finished [])
  continue_at (archiving sequence false) reply =
      assert_success reply.success (queue (reading (sequence + 1)) (retrieve_next ∷ []))
  continue_at finished reply = raise stop_iteration

  unfoldable pub resume : Reply → Exec Forwarder (Unit {0})
  resume reply f = continue_at f.phase reply f

  unfoldable pub resume_all : List Reply → Exec Forwarder (Unit {0})
  resume_all [] = pure tt
  resume_all (reply ∷ replies) = resume reply >> resume_all replies
