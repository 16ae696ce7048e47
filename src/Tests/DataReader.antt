-- ===== src/Tests/DataReader.antt =====
-- A data reader that delivers a segment of two sequences.
use nimbus_io.Prelude.{
  ℕ, ◌≡◌, refl, none, some, [], ◌∷◌, ◌++◌, ◌==◌, if◌then◌else◌, Text, Bytes, codes, take, length,
}
use nimbus_io.Prelude.Tables.{select_where}
use nimbus_io.Prelude.Exec.{ok, ◌>>◌}
use nimbus_io.Database.{pos, final, SegmentRow, SequenceRow}
use nimbus_io.DataReader.Reader.{
  insert_sequence, order_sequences, sequences_of, all_sequence_rows_for_segment, read_sequence,
}
use nimbus_io.DataReader.Handlers.{Message, State, find_request, handle_retrieve_key_start}
use nimbus_io.DataReader.Handlers.Retrieve.{handle_nexts, delivered, retrieve-delivers}
use nimbus_io.DataReader.Handlers.Valid.{started, asked_start, IsValid, Reachable-IsValid}

-- Padding to 16 bytes stands for md5, and nothing for base64.
abbrev md5 : Bytes → Bytes
md5 content = take 16 (content ++ codes "................")

abbrev b64encode : Bytes → Text
b64encode content = content

abbrev segment_row : SegmentRow
segment_row = record {
  id = 1;
  collection_id = 1;
  key = codes "k";
  status = final;
  unified_id = 55;
  timestamp = record {
    year = 2012;
    month = 3;
    day = 1;
    hour = 9;
    minute = 0;
    second = 0;
    microsecond = 0;
  };
  segment_num = 2;
  conjoined_part = 0;
  file_size = 5;
  file_adler32 = some (pos 1);
  file_hash = some (codes "0123456789abcdef");
  file_tombstone_unified_id = none;
  source_node_id = 1;
  handoff_node_id = none;
}

abbrev sequence_row : ℕ → ℕ → Bytes → SequenceRow
sequence_row number offset content = record {
  collection_id = 1;
  segment_id = 1;
  zfec_padding_size = 0;
  value_file_id = 1;
  sequence_num = number;
  value_file_offset = offset;
  size = length content;
  hash = md5 content;
  adler32 = pos 1;
}

abbrev one : SequenceRow
one = sequence_row 0 0 (codes "xy")

abbrev two : SequenceRow
two = sequence_row 1 2 (codes "zz")

abbrev state : State
state = record {
  active_requests = [];
  tables = record {
    segment = segment_row ∷ [];
    segment_sequence = two ∷ one ∷ [];
    value_file = [];
    conjoined = [];
    meta = [];
  };
  disk = λ i. if i == 1 then some (codes "xyzz") else none;
  replies = [];
  md5_mismatches = 0;
}

abbrev message : Message
message = record {
  client_tag = codes "web";
  message_id = codes "m";
  unified_id = 55;
  conjoined_part = 0;
  segment_num = 2;
}

retrieve-delivers_example :
    (handle_retrieve_key_start md5 b64encode 100 message
        >> handle_nexts md5 b64encode message (codes "n" ∷ []))
      state
    ≡ (
      ok tt,
      record state {
        replies =
            delivered md5 b64encode message 2 1
              (codes "m" ∷ codes "n" ∷ [])
              (one ∷ two ∷ [])
              (codes "xy" ∷ codes "zz" ∷ []);
      },
    )
unfolding find_request all_sequence_rows_for_segment sequences_of order_sequences insert_sequence
    select_where read_sequence
retrieve-delivers_example =
    retrieve-delivers md5 b64encode 100 message (codes "n" ∷ []) (one ∷ two ∷ [])
      (codes "xy" ∷ codes "zz" ∷ []) state refl refl (refl, refl, (refl, refl, tt)) refl

Reachable-IsValid_example :
    IsValid (handle_retrieve_key_start md5 b64encode 100 message state).1.active_requests
Reachable-IsValid_example =
    Reachable-IsValid md5 b64encode (handle_retrieve_key_start md5 b64encode 100 message state).1
      (asked_start 100 message state (started state refl))
