-- ===== src/HandoffServer/Server.antt =====
-- The handlers of handoff_server/handoff_server_main.py, and the two actions of its time queue,
-- handoff_starter.py and handoff_requestor.py. An exception that leaves a handler ends the process. The
-- times, the identifiers and the pickling of messages are left out.
pub mod Completion
pub mod Purges
use nimbus_io.Prelude.{
  ℕ, Bool, true, false, not, ◌&&◌, Option, none, some, List, [], ◌∷◌, ◌++◌, ltb, ◌==◌,
  if◌then◌else◌, Text, Bytes, opt_eq, map, length,
}
use nimbus_io.Prelude.Tables.{select_where, order_by}
use nimbus_io.Prelude.Exec.{
  Exec, Error, Result, ok, err, pure, key_error, index_error, type_error, value_error,
  attribute_error, handoff_error, ◌>>=◌, ◌>>◌,
}
use nimbus_io.Tools.Timestamp.{Timestamp, before}
use nimbus_io.Database.{ℤ, pos, SegmentRow}
use nimbus_io.HandoffServer.PendingHandoffs.{Handoff, PendingHandoffs, push, pop}
use nimbus_io.HandoffServer.Forwarder.{
  Segment, Reply, Outgoing, Phase, reading_first, archiving_first, reading, archiving, finished,
  Forwarder, new_forwarder, resume,
}

-- The name of this node, the dictionaries of the nodes' names and ids, the clients of the other handoff
-- servers, whether a node has clients for its reader and its writer, and the libraries' `repr` and
-- base64.
pub record Env : Type 0 where
  pub local_node_name : Text
  pub node_id_of : Text → Option ℕ
  pub node_name_of : ℕ → Option Text
  pub handoff_server_clients : List Text
  pub has_clients : Text → Bool
  pub repr : Timestamp → Text
  pub b64encode : Bytes → Text

-- The coroutine at work, with its arguments.
pub record Running : Type 0 where
  pub segment_row : SegmentRow
  pub source_node_names : List Text
  pub coroutine : Forwarder

-- purge-handoff-source, to the writer of a node
pub record Purge : Type 0 where
  pub node_name : Text
  pub collection_id : ℕ
  pub unified_id : ℕ
  pub handoff_node_id : Option ℕ

pub data HandoffsReply : Type 0 where
  segments : List SegmentRow → HandoffsReply

-- `requested` are the servers that were sent a request, `purges` what was queued for the writers, and
-- `handed_off` the rows that were handed off with what their coroutines sent.
pub record State : Type 0 where
  pub segment : List SegmentRow
  pub pending_handoffs : PendingHandoffs
  pub forwarder : Option Running
  pub requested : List Text
  pub replies : List HandoffsReply
  pub purges : List Purge
  pub handed_off : List (SegmentRow × List Outgoing)

-- how a reader or a writer answers
pub data Outcome : Type 0 where
  success no_sequence_rows failure : Outcome

abbrev pub is_success : Outcome → Bool
is_success success = true
is_success no_sequence_rows = false
is_success failure = false

-- A row without a checksum has no hash either, and no message with its checksum is built.
abbrev pub checksum_of : Option ℤ → ℤ
checksum_of none = pos 0
checksum_of (some n) = n

abbrev pub encoded : (Bytes → Text) → Option Bytes → Option Text
encoded b64encode none = none
encoded b64encode (some bytes) = some (b64encode bytes)

abbrev pub is_at_end : Phase → Bool
is_at_end finished = true
is_at_end reading_first = false
is_at_end (archiving_first completed) = false
is_at_end (reading sequence) = false
is_at_end (archiving sequence completed) = false

-- whether the coroutine waits for a reply of the reader
abbrev pub waits_for_reader : Phase → Bool
waits_for_reader reading_first = true
waits_for_reader (reading sequence) = true
waits_for_reader (archiving_first completed) = false
waits_for_reader (archiving sequence completed) = false
waits_for_reader finished = false

abbrev pub purge_of : SegmentRow → Text → Purge
purge_of row name = record {
  node_name = name;
  collection_id = row.collection_id;
  unified_id = row.unified_id;
  handoff_node_id = row.handoff_node_id;
}

-- `_retrieve_handoffs_for_node`
unfoldable pub retrieve_handoffs_for_node : List SegmentRow → ℕ → List SegmentRow
retrieve_handoffs_for_node rows node_id =
    order_by (λ a b. before b.timestamp a.timestamp)
      (select_where (λ r. opt_eq r.handoff_node_id (some node_id)) rows)

module _ (env : Env) where
  -- what the coroutine reads of the row
  abbrev pub segment_of : SegmentRow → Segment
  segment_of row = record {
    collection_id = row.collection_id;
    key = row.key;
    unified_id = row.unified_id;
    conjoined_part = row.conjoined_part;
    timestamp_repr = env.repr row.timestamp;
    segment_num = row.segment_num;
    file_size = row.file_size;
    file_adler32 = checksum_of row.file_adler32;
    file_hash = encoded env.b64encode row.file_hash;
    source_node_name = env.node_name_of row.source_node_id;
  }

  abbrev pub reply_with : Option ℕ → Exec State (Unit {0})
  reply_with none s = (err key_error, s)
  reply_with (some node_id) s = (
    ok tt,
    record s {
      replies = s.replies ++ segments (retrieve_handoffs_for_node s.segment node_id) ∷ [];
    },
  )

  unfoldable pub handle_request_handoffs : Text → Exec State (Unit {0})
  handle_request_handoffs node_name s = reply_with (env.node_id_of node_name) s

  abbrev pub put_pending : Result (Unit {0}) × PendingHandoffs → Exec State (Unit {0})
  put_pending (r, p) s = (r, record s { pending_handoffs = p })

  unfoldable pub push_all : Text → List SegmentRow → Exec State (Unit {0})
  push_all source [] = pure tt
  push_all source (row ∷ rows) =
      (λ s. put_pending (push row source s.pending_handoffs) s) >> push_all source rows

  unfoldable pub handle_request_handoffs_reply :
      Bool → Text → List SegmentRow → Exec State (Unit {0})
  handle_request_handoffs_reply succeeded node_name rows s =
      if succeeded then push_all node_name rows s else (ok tt, s)

  -- the coroutine after a reply of the reader
  abbrev pub after_reader : Running → Result (Unit {0}) × Forwarder → Exec State (Unit {0})
  after_reader run (ok _, f) s =
      (ok tt, record s { forwarder = some (record run { coroutine = f }) })
  after_reader run (err e, f) s = (err e, s)

  -- A coroutine that waits for the writer takes the pair of a reply and its data for a reply.
  abbrev pub send_read : Reply → Option Running → Exec State (Unit {0})
  send_read reply none s = (err attribute_error, s)
  send_read reply (some run) s =
      if waits_for_reader run.coroutine.phase
      then after_reader run (resume (segment_of run.segment_row) reply run.coroutine) s
      else (err type_error, s)

  unfoldable pub handle_retrieve_key_reply : Outcome → Reply → Exec State (Unit {0})
  handle_retrieve_key_reply no_sequence_rows reply s = (ok tt, record s { forwarder = none })
  handle_retrieve_key_reply failure reply s = (err handoff_error, s)
  handle_retrieve_key_reply success reply s = send_read reply s.forwarder s

  -- the purge of the sources, in turn
  unfoldable pub purge_all : SegmentRow → List Text → Exec State (Unit {0})
  purge_all row [] s = (ok tt, s)
  purge_all row (name ∷ names) s =
      if env.has_clients name
      then purge_all row names (record s { purges = s.purges ++ purge_of row name ∷ [] })
      else (err key_error, s)

  abbrev pub hand_off : Running → Forwarder → Exec State (Unit {0})
  hand_off run f s = purge_all run.segment_row run.source_node_names (record s {
    forwarder = none;
    handed_off = s.handed_off ++ (run.segment_row, f.outgoing) ∷ [];
  })

  -- the coroutine after a reply of the writer
  abbrev pub after_writer : Running → Result (Unit {0}) × Forwarder → Exec State (Unit {0})
  after_writer run (ok _, f) s =
      if is_at_end f.phase
      then hand_off run f s
      else (ok tt, record s { forwarder = some (record run { coroutine = f }) })
  after_writer run (err e, f) s = (err e, s)

  -- A coroutine that waits for the reader unpacks the reply as a pair.
  abbrev pub send_archived : Reply → Option Running → Exec State (Unit {0})
  send_archived reply none s = (err attribute_error, s)
  send_archived reply (some run) s =
      if waits_for_reader run.coroutine.phase
      then (err value_error, s)
      else after_writer run (resume (segment_of run.segment_row) reply run.coroutine) s

  unfoldable pub handle_archive_reply : Outcome → Reply → Exec State (Unit {0})
  handle_archive_reply outcome reply s =
      if is_success outcome then send_archived reply s.forwarder s else (err handoff_error, s)

  -- only logged
  abbrev pub handle_purge_key_reply : Outcome → Exec State (Unit {0})
  handle_purge_key_reply outcome = pure tt

  -- the reader of the first source, and the writer of this node
  abbrev pub start_with_row : SegmentRow → List Text → Exec State (Unit {0})
  start_with_row row [] s = (err index_error, s)
  start_with_row row (source ∷ sources) s =
      if env.has_clients source && env.has_clients env.local_node_name
      then (
        ok tt,
        record s {
          forwarder = some (record {
            segment_row = row;
            source_node_names = source ∷ sources;
            coroutine = new_forwarder;
          });
        },
      )
      else (err key_error, s)

  -- An IndexError of pop is that nothing is pending.
  abbrev pub caught : Error → Result (Unit {0})
  caught index_error = ok tt
  caught e = err e

  abbrev pub start_popped : Result Handoff × PendingHandoffs → Exec State (Unit {0})
  start_popped (err e, p) s = (caught e, record s { pending_handoffs = p })
  start_popped (ok (row, names), p) s = start_with_row row names (record s { pending_handoffs = p })

  abbrev pub start_if_idle : Option Running → Exec State (Unit {0})
  start_if_idle (some run) s = (ok tt, s)
  start_if_idle none s = start_popped (pop s.pending_handoffs) s

  -- `HandoffStarter.run`
  unfoldable pub run_starter : Exec State (Unit {0})
  run_starter s = start_if_idle s.forwarder s

  -- `HandoffRequestor.run`
  unfoldable pub run_requestor : Exec State (Unit {0})
  run_requestor s =
      if ltb 0 (length s.pending_handoffs.heap)
      then (ok tt, s)
      else (ok tt, record s { requested = s.requested ++ env.handoff_server_clients })

-- what the dispatcher and the time queue run
pub data Event : Type 0 where
  handoffs_requested : Text → Event
  handoffs_replied : Bool → Text → List SegmentRow → Event
  key_retrieved : Outcome → Reply → Event
  key_archived : Outcome → Reply → Event
  key_purged : Outcome → Event
  starter_run requestor_run : Event

unfoldable pub serve : Env → Event → Exec State (Unit {0})
serve env (handoffs_requested node_name) = handle_request_handoffs env node_name
serve env (handoffs_replied succeeded node_name rows) =
    handle_request_handoffs_reply env succeeded node_name rows
serve env (key_retrieved outcome reply) = handle_retrieve_key_reply env outcome reply
serve env (key_archived outcome reply) = handle_archive_reply env outcome reply
serve env (key_purged outcome) = handle_purge_key_reply env outcome
serve env starter_run = run_starter env
serve env requestor_run = run_requestor env

unfoldable pub serve_all : Env → List Event → Exec State (Unit {0})
serve_all env [] = pure tt
serve_all env (event ∷ events) = serve env event >> serve_all env events
