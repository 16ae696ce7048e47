-- ===== src/DataWriter/Handlers.antt =====
-- The message handlers of data_writer/data_writer_main.py. Statistics and log lines are left out.
-- A reply is appended to `replies`, an event to `events`.
pub mod Open
pub mod OneMessage
pub mod Archive
pub mod Errors
pub mod ReadBack
pub mod Restart
use nimbus_io.Prelude.{
  ℕ, not, Option, none, some, List, [], ◌∷◌, ◌++◌, ◌==◌, if◌then◌else◌, Text, Bytes, text_eq,
  length,
}
use nimbus_io.Prelude.Exec.{
  Exec, ok, pure, gets, modify, or_raise, zoom, key_error, type_error, value_error, ◌>>=◌, ◌>>◌,
}
use nimbus_io.Tools.Timestamp.{Timestamp, parse_timestamp_repr}
use nimbus_io.DataWriter.Message.{
  Message, ReplyType, Outcome, success, size_mismatch, md5_mismatch, Reply, archive_key_start_reply,
  archive_key_next_reply, archive_key_final_reply, destroy_key_reply, start_conjoined_archive_reply,
  abort_conjoined_archive_reply, finish_conjoined_archive_reply, extract_meta,
}
use nimbus_io.DataWriter.Writer.{
  Writer, Env, start_new_segment, store_sequence, finish_new_segment, set_tombstone,
  cancel_active_archives_from_node, cancel_active_archive, purge_handoff, start_conjoined_archive,
  abort_conjoined_archive, finish_conjoined_archive,
}

pub record State : Type 0 where
  pub writer : Writer
  pub node_id_dict : List (Text × ℕ)
  pub replies : List Reply
  pub events : List Outcome

abbrev pub on_writer : {A : Type 0} → Exec Writer A → Exec State A
on_writer = zoom (λ s. s.writer) (λ w s. record s { writer = w })

unfoldable pub find_node : Text → List (Text × ℕ) → Option ℕ
find_node name [] = none
find_node name ((n, id) ∷ nodes) = if text_eq n name then some id else find_node name nodes

abbrev pub reply_to : ReplyType → Message → Outcome → Reply
reply_to t m r = record {
  message_type = t;
  client_tag = m.client_tag;
  message_id = m.message_id;
  result = r;
}

unfoldable pub send_reply : ReplyType → Message → Outcome → Exec State (Unit {0})
send_reply t m r = modify (λ s. record s { replies = s.replies ++ reply_to t m r ∷ [] })

-- `event-push-client.error`
unfoldable pub push_error : Outcome → Exec State (Unit {0})
push_error e = modify (λ s. record s { events = s.events ++ e ∷ [] })

-- The node ids of a message: `node-id-dict[name]`, a KeyError where the name is unknown.
unfoldable pub node_id : Text → Exec State ℕ
node_id name = do nodes ← gets (λ s. s.node_id_dict); or_raise (find_node name nodes) key_error

unfoldable pub handoff_id : Option Text → Exec State (Option ℕ)
handoff_id none = pure none
handoff_id (some name) = do id ← node_id name; pure (some id)

-- the calls of the writer, with the fields that they take
unfoldable pub start_segment : Message → Exec State (Unit {0})
start_segment m = do
  source_node_id ← node_id m.source_node_name
  handoff_node_id ← handoff_id m.handoff_node_name
  on_writer (
      start_new_segment m.collection_id m.key m.unified_id m.timestamp_repr m.conjoined_part
        m.segment_num source_node_id handoff_node_id)

module _ (env : Env) (now : Timestamp) where
  -- The tests that open the four archive handlers: the size, and then the digest of the segment. A
  -- failure is replied and ends the handler; otherwise the decoded digest goes on.
  unfoldable pub check_segment : ReplyType → Message → Bytes → Exec State (Option Bytes)
  check_segment t m content s =
      if not (length content == m.segment_size)
      then (do push_error size_mismatch; send_reply t m size_mismatch; pure none) s
      else (do
        expected ← or_raise (env.b64decode m.segment_md5_digest) type_error
        λ s'.
            if not (text_eq (env.md5 content) expected)
            then (do push_error md5_mismatch; send_reply t m md5_mismatch; pure none) s'
            else (ok (some expected), s'))
          s

  -- The rest of a handler, where the tests have passed.
  abbrev when_valid : Option Bytes → (Bytes → Exec State (Unit {0})) → Exec State (Unit {0})
  when_valid none k = pure tt
  when_valid (some expected) k = k expected

  unfoldable pub store_segment : Message → Bytes → ℕ → Bytes → Exec State (Unit {0})
  store_segment m expected sequence_num content = on_writer (
      store_sequence env now m.collection_id m.unified_id m.conjoined_part m.segment_num
        m.segment_size m.zfec_padding_size expected m.segment_adler32 sequence_num content)

  -- `b64decode` raises TypeError
  unfoldable pub finish_segment : Message → Exec State (Unit {0})
  finish_segment m = do
    file_hash ← or_raise (env.b64decode m.file_hash) type_error
    on_writer (
        finish_new_segment m.collection_id m.unified_id m.timestamp_repr m.conjoined_part
          m.segment_num m.file_size m.file_adler32 file_hash (extract_meta m.entries))

  unfoldable pub handle_archive_key_entire : Message → Bytes → Exec State (Unit {0})
  handle_archive_key_entire m content = do
    checked ← check_segment archive_key_final_reply m content
    when_valid checked (λ expected. do
      start_segment m
      store_segment m expected 0 content
      finish_segment m
      send_reply archive_key_final_reply m success)

  unfoldable pub handle_archive_key_start : Message → Bytes → Exec State (Unit {0})
  handle_archive_key_start m content = do
    checked ← check_segment archive_key_start_reply m content
    when_valid checked (λ expected. do
      start_segment m
      store_segment m expected m.sequence_num content
      send_reply archive_key_start_reply m success)

  unfoldable pub handle_archive_key_next : Message → Bytes → Exec State (Unit {0})
  handle_archive_key_next m content = do
    checked ← check_segment archive_key_next_reply m content
    when_valid checked (λ expected. do
      store_segment m expected m.sequence_num content
      send_reply archive_key_next_reply m success)

  unfoldable pub handle_archive_key_final : Message → Bytes → Exec State (Unit {0})
  handle_archive_key_final m content = do
    checked ← check_segment archive_key_final_reply m content
    when_valid checked (λ expected. do
      store_segment m expected m.sequence_num content
      finish_segment m
      send_reply archive_key_final_reply m success)

unfoldable pub handle_archive_key_cancel : Message → Exec State (Unit {0})
handle_archive_key_cancel m =
    on_writer (cancel_active_archive m.unified_id m.conjoined_part m.segment_num)

unfoldable pub handle_destroy_key : Message → Exec State (Unit {0})
handle_destroy_key m = do
  timestamp ← or_raise (parse_timestamp_repr m.timestamp_repr) value_error
  source_node_id ← node_id m.source_node_name
  handoff_node_id ← handoff_id m.handoff_node_name
  on_writer (
      set_tombstone m.collection_id m.key m.unified_id_to_delete m.unified_id timestamp
        m.segment_num source_node_id handoff_node_id)
  send_reply destroy_key_reply m success

unfoldable pub handle_purge_handoff_source : Message → Exec State (Unit {0})
handle_purge_handoff_source m =
    on_writer (purge_handoff m.collection_id m.unified_id m.handoff_node_id)

unfoldable pub handle_start_conjoined_archive : Message → Exec State (Unit {0})
handle_start_conjoined_archive m = do
  timestamp ← or_raise (parse_timestamp_repr m.timestamp_repr) value_error
  on_writer (start_conjoined_archive m.collection_id m.key m.unified_id timestamp)
  send_reply start_conjoined_archive_reply m success

unfoldable pub handle_abort_conjoined_archive : Message → Exec State (Unit {0})
handle_abort_conjoined_archive m = do
  timestamp ← or_raise (parse_timestamp_repr m.timestamp_repr) value_error
  on_writer (abort_conjoined_archive m.collection_id m.key m.unified_id timestamp)
  send_reply abort_conjoined_archive_reply m success

unfoldable pub handle_finish_conjoined_archive : Message → Exec State (Unit {0})
handle_finish_conjoined_archive m = do
  timestamp ← or_raise (parse_timestamp_repr m.timestamp_repr) value_error
  on_writer (finish_conjoined_archive m.collection_id m.key m.unified_id timestamp)
  send_reply finish_conjoined_archive_reply m success

unfoldable pub handle_web_server_start : Message → Exec State (Unit {0})
handle_web_server_start m = do
  source_node_id ← node_id m.source_node_name
  timestamp ← or_raise (parse_timestamp_repr m.timestamp_repr) value_error
  on_writer (cancel_active_archives_from_node source_node_id timestamp)

-- the keys of `_dispatch_table`
pub data MessageType : Type 0 where
  archive_key_entire archive_key_start archive_key_next archive_key_final : MessageType
  archive_key_cancel destroy_key purge_handoff_source start_conjoined : MessageType
  abort_conjoined finish_conjoined web_server_start : MessageType

unfoldable pub handle : Env → Timestamp → MessageType → Message → Bytes → Exec State (Unit {0})
handle env now archive_key_entire m content = handle_archive_key_entire env now m content
handle env now archive_key_start m content = handle_archive_key_start env now m content
handle env now archive_key_next m content = handle_archive_key_next env now m content
handle env now archive_key_final m content = handle_archive_key_final env now m content
handle env now archive_key_cancel m content = handle_archive_key_cancel m
handle env now destroy_key m content = handle_destroy_key m
handle env now purge_handoff_source m content = handle_purge_handoff_source m
handle env now start_conjoined m content = handle_start_conjoined_archive m
handle env now abort_conjoined m content = handle_abort_conjoined_archive m
handle env now finish_conjoined m content = handle_finish_conjoined_archive m
handle env now web_server_start m content = handle_web_server_start m

-- Messages that are dispatched in turn (`DequeDispatcher.run` of tools/deque_dispatcher.py); an
-- exception ends the process.
unfoldable pub dispatch_all :
    Env → Timestamp → List (MessageType × Message × Bytes) → Exec State (Unit {0})
dispatch_all env now [] = pure tt
dispatch_all env now ((t, m, content) ∷ messages) =
    handle env now t m content >> dispatch_all env now messages
