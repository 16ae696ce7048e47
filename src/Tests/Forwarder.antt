-- ===== src/Tests/Forwarder.antt =====
-- A segment of three sequences is handed off, and one of a single sequence.
use nimbus_io.Prelude.{some, ◌≡◌, refl, Bool, true, false, [], ◌∷◌, Bytes, codes, length}
use nimbus_io.Prelude.Exec.{ok}
use nimbus_io.Database.{pos}
use nimbus_io.DataWriter.Handlers.{archive_key_start, archive_key_entire}
use nimbus_io.HandoffServer.Forwarder.{
  Segment, Reply, retrieve_start, retrieve_next, archive, finished, new_forwarder, last_message,
  resume_all, resume,
}
use nimbus_io.HandoffServer.Forwarder.Protocol.{
  with_writer, message_of, sent_from, forwarder-protocol,
}

abbrev segment : Segment
segment = record {
  collection_id = 1001;
  key = codes "a";
  unified_id = 55;
  conjoined_part = 0;
  timestamp_repr = codes "datetime.datetime(2012, 3, 1, 9, 0, 0, 5)";
  segment_num = 2;
  file_size = 5;
  file_adler32 = pos 1;
  file_hash = some (codes "0123456789abcdef");
  source_node_name = some (codes "node01");
}

abbrev reply : Bool → Bool → Bytes → Reply
reply success completed content = record {
  success = success;
  completed = completed;
  segment_size = length content;
  zfec_padding_size = 0;
  segment_adler32 = pos 1;
  segment_md5_digest = codes "0123456789abcdef";
  content = content;
}

abbrev pub one : Reply
one = reply true false (codes "xy")

abbrev pub two : Reply
two = reply true false (codes "zz")

abbrev pub three : Reply
three = reply true true (codes "w")

abbrev pub stored : Reply
stored = reply true false []

forwarder-protocol_example :
    resume_all segment (with_writer stored (one ∷ two ∷ three ∷ [])) new_forwarder ≡ (
      ok tt,
      record {
        phase = finished;
        outgoing =
            retrieve_start
            ∷ archive archive_key_start (message_of segment (codes "node01") 1 one) (codes "xy")
            ∷ retrieve_next
            ∷ sent_from segment (codes "0123456789abcdef") (codes "node01") 2 two (three ∷ []);
      },
    )
forwarder-protocol_example =
    forwarder-protocol segment (codes "0123456789abcdef") (codes "node01") refl refl stored refl one
      two (three ∷ []) refl refl (refl, refl, (refl, refl))

-- The reply to an entire is not looked at by the coroutine: its caller has checked it.
single_sequence : resume_all segment (three ∷ reply false false [] ∷ []) new_forwarder ≡ (
  ok tt,
  record {
    phase = finished;
    outgoing =
        retrieve_start
        ∷ archive archive_key_entire
            (last_message segment (codes "0123456789abcdef") (codes "node01") 0 three)
            (codes "w")
        ∷ [];
  },
)
unfolding resume_all resume
single_sequence = refl
