-- ===== src/Tests/DataWriter.antt =====
-- A data writer at work: a node with one known peer archives a file of three sequences.
use nimbus_io.Prelude.{
  ℕ, ◌≤◌, ◌≡◌, refl, none, some, List, [], ◌∷◌, ◌++◌, map, ◌==◌, if◌then◌else◌, Bytes, codes, take,
  length, arith, text_eq,
}
use nimbus_io.Prelude.Exec.{ok}
use nimbus_io.Tools.Timestamp.{Timestamp, parse_timestamp_repr}
use nimbus_io.Prelude.Tables.{select_where, update_where}
use nimbus_io.Database.{pos, SegmentRow, SequenceRow, Tables}
use nimbus_io.DataReader.Reader.{all_sequence_rows_for_segment}
use nimbus_io.DataWriter.Sql.{finalized, cancel}
use nimbus_io.DataWriter.Message.{Message, size_mismatch, archive_key_final_reply}
use nimbus_io.DataWriter.Writer.{SegmentKey, Writer, Env, find_segment, store_sequence}
use nimbus_io.DataWriter.Writer.Sound.{IsSound}
use nimbus_io.DataWriter.Writer.Store.{numbered, stored, store_sequence-stores}
use nimbus_io.DataWriter.Writer.Segments.{rows_with}
use nimbus_io.DataWriter.Writer.Segments.Start.{started_row, start, start_new_segment-starts}
use nimbus_io.DataWriter.Writer.Segments.Finish.{finish, finish_new_segment-finishes}
use nimbus_io.DataWriter.Writer.Segments.Cancel.{
  cancelling, cancel_active_archive-cancels, cancel-finish,
}
use nimbus_io.DataWriter.Writer.Limits.{store_sequence-le_limit}
use nimbus_io.DataWriter.Handlers.{
  State, find_node, handoff_id, archive_key_start, archive_key_final, handle, dispatch_all,
  handle_web_server_start,
}
use nimbus_io.DataWriter.Handlers.Open.{IsIntact, IsFirst, IsFinal}
use nimbus_io.DataWriter.Handlers.Archive.{nexts, archive-stores}
use nimbus_io.DataWriter.Handlers.Errors.{refused, handle-refuses}
use nimbus_io.DataWriter.Handlers.Restart.{handle_web_server_start-cancels}
use nimbus_io.DataWriter.Handlers.ReadBack.{archive-read_back}

-- Padding to 16 bytes stands for md5, and nothing for base64.
abbrev pub env : Env
env = record {
  max_value_file_size = 4;
  md5 = λ content. take 16 (content ++ codes "................");
  b64decode = λ t. some t;
}

abbrev pub now : Timestamp
now = record { year = 2012; month = 3; day = 1; hour = 9; minute = 0; second = 0; microsecond = 5 }

abbrev no_rows : Tables
no_rows = record { segment = []; segment_sequence = []; value_file = []; conjoined = []; meta = [] }

abbrev new_writer : Writer
new_writer = record {
  storage = record {
    connection = record {
      current = no_rows;
      durable = no_rows;
      segment_id_seq = 1;
      value_file_id_seq = 2;
      conjoined_id_seq = 1;
    };
    disk = λ i. if i == 1 then some [] else none;
  };
  active_segments = [];
  value_file = record {
    value_file_id = 1;
    creation_time = now;
    size = 0;
    md5_input = [];
    segment_sequence_count = 0;
    min_segment_id = none;
    max_segment_id = none;
    collection_ids = [];
  };
}

pub new_writer-IsSound : IsSound new_writer
new_writer-IsSound = record {
  opened = refl;
  sized = refl;
  known = omega arith;
  fresh = λ i h. ground arith;
  rows = tt;
}

abbrev pub node : State
node = record {
  writer = new_writer;
  node_id_dict = (codes "node01", 7) ∷ [];
  replies = [];
  events = [];
}

abbrev message : ℕ → Bytes → Message
message n content = record {
  client_tag = codes "web";
  message_id = codes "m";
  collection_id = 1001;
  key = codes "a";
  unified_id = 55;
  unified_id_to_delete = none;
  timestamp_repr = codes "datetime.datetime(2012, 3, 1, 9, 0, 0, 5)";
  conjoined_part = 0;
  segment_num = 2;
  segment_size = length content;
  zfec_padding_size = 0;
  segment_md5_digest = take 16 (content ++ codes "................");
  segment_adler32 = pos 1;
  sequence_num = n;
  file_size = 5;
  file_adler32 = pos 1;
  file_hash = codes "0123456789abcdef";
  source_node_name = codes "node01";
  handoff_node_name = none;
  handoff_node_id = 0;
  entries = [];
}

abbrev one : Bytes
one = codes "xy"

abbrev two : Bytes
two = codes "zz"

abbrev three : Bytes
three = codes "w"

intact :
    (n : ℕ) (content : Bytes)
    → length (take 16 (content ++ codes "................")) ≡ 16
    → IsIntact env (message n content) content
intact n content h = record { size = refl; digest = refl; sixteen = h }

opening-IsFirst : IsFirst (message 0 one) node now 7 none
unfolding find_segment parse_timestamp_repr find_node text_eq handoff_id
opening-IsFirst = record {
  sound = new_writer-IsSound;
  numbered = record { segments = tt; sequences = tt };
  unknown = refl;
  unread = tt;
  parsed = refl;
  sender = refl;
  receiver = refl;
}

closing-IsFinal : IsFinal env (message 2 three) (codes "0123456789abcdef")
unfolding parse_timestamp_repr
closing-IsFinal = record {
  timestamp = now;
  parsed = refl;
  positive = omega arith;
  decoded = refl;
  sixteen = refl;
}

abbrev middle : List (Message × Bytes)
middle = (message 1 two, two) ∷ []

abbrev finished : Writer
finished =
    (dispatch_all env now
      ((archive_key_start, message 0 one, one)
        ∷ (nexts middle ++ (archive_key_final, message 2 three, three) ∷ []))
      node).1.writer

archive-stores_example : stored finished 1 ≡ (0, some one) ∷ (1, some two) ∷ (2, some three) ∷ []
archive-stores_example =
    (archive-stores env now (message 0 one) (message 2 three) middle one three
      (codes "0123456789abcdef") node now 7 none opening-IsFirst (intact 0 one refl)
      ((refl, intact 1 two refl), tt) refl (intact 2 three refl) closing-IsFinal).4

archive-read_back_example :
    (rows : List SequenceRow) × (all_sequence_rows_for_segment finished.storage.connection.durable
        55 0 2
      ≡ ok rows)
    × (map (numbered finished.storage.disk) rows
        ≡ (0, some one) ∷ (1, some two) ∷ (2, some three) ∷ [])
archive-read_back_example =
    archive-read_back env now (message 0 one) (message 2 three) middle one three
      (codes "0123456789abcdef") node now 7 none opening-IsFirst (intact 0 one refl)
      ((refl, intact 1 two refl), tt) refl (intact 2 three refl) closing-IsFinal (omega arith)

abbrev key : SegmentKey
key = record { unified_id = 55; conjoined_part = 0; segment_num = 2 }

-- the writer in which one segment is active
abbrev active_writer : Writer
active_writer = record new_writer { active_segments = (key, 1) ∷ [] }

active_writer-IsSound : IsSound active_writer
active_writer-IsSound = record {
  opened = refl;
  sized = refl;
  known = omega arith;
  fresh = λ i h. ground arith;
  rows = tt;
}

abbrev digest : Bytes
digest = codes "0123456789abcdef"

store_sequence-stores_example :
    let (r, w') = store_sequence env now 1001 55 0 2 2 0 digest (pos 1) 0 one active_writer in
    (r ≡ ok tt)
    × IsSound w'
    × ((j : ℕ)
        → stored w' j ≡ stored active_writer j ++ (if 1 == j then (0, some one) ∷ [] else []))
    × (w'.active_segments ≡ active_writer.active_segments)
    × (w'.storage.connection.current.segment ≡ [])
    × (w'.storage.connection.durable ≡ w'.storage.connection.current)
unfolding find_segment
store_sequence-stores_example =
    store_sequence-stores env now 1001 key 2 0 digest (pos 1) 0 one active_writer 1
      active_writer-IsSound refl refl refl

store_sequence-le_limit_example :
    (store_sequence env now 1001 55 0 2 2 0 digest (pos 1) 0 one active_writer).1.value_file.size
    ≤ 4
store_sequence-le_limit_example =
    store_sequence-le_limit env now 1001 key 2 0 digest (pos 1) 0 one active_writer refl
      (omega arith) (omega arith)

handle-refuses_example :
    handle env now archive_key_final (message 3 one) three node
    ≡ (ok tt, refused archive_key_final_reply (message 3 one) size_mismatch node)
handle-refuses_example =
    handle-refuses env now (message 3 one) three node archive_key_final archive_key_final_reply
      size_mismatch refl (omega arith)

abbrev text : Bytes
text = codes "datetime.datetime(2012, 3, 1, 9, 0, 0, 5)"

start_new_segment-starts_example : (start 1001 (codes "a") key text 7 none new_writer).0 ≡ ok tt
unfolding find_segment parse_timestamp_repr
start_new_segment-starts_example =
    (start_new_segment-starts 1001 (codes "a") key text 7 none new_writer now new_writer-IsSound
      (record { segments = tt; sequences = tt }) refl refl).0

abbrev row : SegmentRow
row = started_row 1 1001 (codes "a") key now 7 none

-- the writer in which one segment is active, with its row
abbrev row_writer : Writer
row_writer = record active_writer {
  storage = record (new_writer.storage) {
    connection = record (new_writer.storage.connection) {
      current = record no_rows { segment = row ∷ [] };
      durable = record no_rows { segment = row ∷ [] };
    };
  };
}

row_writer-IsSound : IsSound row_writer
row_writer-IsSound = record {
  opened = refl;
  sized = refl;
  known = omega arith;
  fresh = λ i h. ground arith;
  rows = tt;
}

finish_new_segment-finishes_example :
    rows_with (finish 1001 key text 5 (pos 1) digest [] row_writer).1 1
    ≡ finalized 5 (pos 1) digest row ∷ []
unfolding find_segment parse_timestamp_repr select_where
finish_new_segment-finishes_example =
    (finish_new_segment-finishes 1001 key text 5 (pos 1) digest [] row_writer 1 now
        row_writer-IsSound refl refl (omega arith) refl).3
      1

cancel_active_archive-cancels_example : rows_with (cancelling key row_writer).1 1 ≡ cancel row ∷ []
unfolding find_segment select_where update_where
cancel_active_archive-cancels_example = (cancel_active_archive-cancels key row_writer 1 refl).2 1

cancel-finish_example :
    cancelling key (finish 1001 key text 5 (pos 1) digest [] row_writer).1
    ≡ (ok tt, (finish 1001 key text 5 (pos 1) digest [] row_writer).1)
cancel-finish_example = cancel-finish 1001 key text 5 (pos 1) digest [] row_writer

-- the node with an upload under way
abbrev busy : State
busy = record node { writer = row_writer }

handle_web_server_start-cancels_example : (handle_web_server_start (message 0 one) busy).0 ≡ ok tt
unfolding find_node parse_timestamp_repr text_eq
handle_web_server_start-cancels_example =
    (handle_web_server_start-cancels (message 0 one) busy 7 now refl refl).0
