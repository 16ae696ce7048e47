-- ===== src/HandoffServer/Server/Completion.antt =====
-- A whole handoff by the server: from the pending segment to the purge of its sources.
use nimbus_io.Prelude.{◌≡◌, ap, true, none, some, List, [], ◌∷◌, ◌++◌, Text, Bytes, map, All}
use nimbus_io.Database.{SegmentRow}
use nimbus_io.DataWriter.Handlers.{archive_key_start}
use nimbus_io.HandoffServer.PendingHandoffs.{PendingHandoffs}
use nimbus_io.HandoffServer.Forwarder.{
  Segment, Reply, Outgoing, retrieve_start, retrieve_next, archive, Phase,
}
use nimbus_io.HandoffServer.Forwarder.Protocol.{message_of, sent_from, at}
use nimbus_io.HandoffServer.Server.{
  Env, Running, State, success, Purge, encoded, checksum_of, segment_of, Event, key_retrieved,
  key_archived,
}

-- A reply of the reader, and then the one of the writer.
abbrev pub events_of : Reply → List Reply → List Event
events_of done [] = []
events_of done (reply ∷ replies) =
    key_retrieved success reply ∷ key_archived success done ∷ events_of done replies

-- what a source is sent of the row of the segment
abbrev pub purge_for : SegmentRow → Text → Purge
purge_for row name = record {
  node_name = name;
  collection_id = row.collection_id;
  unified_id = row.unified_id;
  handoff_node_id = row.handoff_node_id;
}

-- what the coroutine reads of a row with a hash and a source that is known
abbrev pub described : Env → Bytes → Text → SegmentRow → Segment
described env bytes name row = record {
  collection_id = row.collection_id;
  key = row.key;
  unified_id = row.unified_id;
  conjoined_part = row.conjoined_part;
  timestamp_repr = env.repr row.timestamp;
  segment_num = row.segment_num;
  file_size = row.file_size;
  file_adler32 = checksum_of row.file_adler32;
  file_hash = some (env.b64encode bytes);
  source_node_name = some name;
}

-- What is sent to the writer and the reader for a row that is read in the replies.
abbrev pub sent_for : Env → Bytes → Text → SegmentRow → Reply → Reply → List Reply → List Outgoing
sent_for env bytes name row first second replies =
    let segment : Segment = described env bytes name row in
    retrieve_start
    ∷ archive archive_key_start (message_of segment name 1 first) first.content
    ∷ retrieve_next
    ∷ sent_from segment (env.b64encode bytes) name 2 second replies

module _ (env : Env) where
  module _ (row : SegmentRow) (sources : List Text)
      (known : All (λ name. env.has_clients name ≡ true) sources) (bytes : Bytes) (name : Text)
      (hashed : row.file_hash ≡ some bytes)
      (named : env.node_name_of row.source_node_id ≡ some name) (done : Reply)
      (succeeded : done.success ≡ true) (s : State) where
    abbrev hashed' : (segment_of env row).file_hash ≡ some (env.b64encode bytes)
    hashed' = ap (encoded env.b64encode) hashed

    -- with the coroutine at work, and when it has ended
    abbrev during : Phase → List Outgoing → State
    during phase sent = record s {
      forwarder =
          some
            (record { segment_row = row; source_node_names = sources; coroutine = at phase sent });
    }

    abbrev completed_with : List Outgoing → State
    completed_with sent = record s {
      forwarder = none;
      purges = s.purges ++ map (purge_for row) sources;
      handed_off = s.handed_off ++ (row, sent) ∷ [];
    }

    abbrev run_at : Phase → List Outgoing → Running
    run_at phase sent = record {
      segment_row = row;
      source_node_names = sources;
      coroutine = at phase sent;
    }
