-- ===== src/Tools/OutputValueFile.antt =====
-- tools/output_value_file.py: a value file for what is moved out of others. Its fields and its writes are
-- those of the data writer's value file; its row is inserted when it is closed. `expected_size` is left
-- out, which only the rewriting of value files uses.
use nimbus_io.Prelude.{ℕ, ◌+◌, Option, none, some, [], ◌∷◌, ◌++◌, Bytes, length}
use nimbus_io.Prelude.Exec.{Exec, ok, modify, pure, ◌>>=◌, ◌>>◌}
use nimbus_io.Tools.Timestamp.{Timestamp}
use nimbus_io.Repository.{update_file}
use nimbus_io.Database.{ValueFileRow, Connection}
use nimbus_io.DataWriter.ValueFile.{OutputValueFile, Storage, on_connection, sorted}

abbrev pub get_next_value_file_id : Exec Connection ℕ
get_next_value_file_id c =
    (ok c.value_file_id_seq, record c { value_file_id_seq = c.value_file_id_seq + 1 })

-- O_WRONLY and O_CREAT: a file that exists keeps its content.
abbrev pub created : Option Bytes → Option Bytes
created none = some []
created (some content) = some content

abbrev pub empty_output : ℕ → Timestamp → OutputValueFile
empty_output id now = record {
  value_file_id = id;
  creation_time = now;
  size = 0;
  md5_input = [];
  segment_sequence_count = 0;
  min_segment_id = none;
  max_segment_id = none;
  collection_ids = [];
}

unfoldable pub new_output : Timestamp → Exec Storage OutputValueFile
new_output now = do
  id ← on_connection get_next_value_file_id
  modify (λ s. record s { disk = update_file s.disk id (created (s.disk id)) })
  pure (empty_output id now)

-- `value_file_template` as close fills it
abbrev pub output_row : (Bytes → Bytes) → Timestamp → OutputValueFile → ValueFileRow
output_row md5 now f = record {
  id = f.value_file_id;
  creation_time = f.creation_time;
  close_time = some now;
  size = some f.size;
  hash = some (md5 f.md5_input);
  segment_sequence_count = some f.segment_sequence_count;
  min_segment_id = f.min_segment_id;
  max_segment_id = f.max_segment_id;
  distinct_collection_count = some (length f.collection_ids);
  collection_ids = some (sorted f.collection_ids);
}

unfoldable pub close_output_file :
    (Bytes → Bytes) → Timestamp → OutputValueFile → Exec Storage (Unit {0})
close_output_file md5 now f = on_connection (
    modify (λ c. record c {
      current = record (c.current) {
        value_file = c.current.value_file ++ output_row md5 now f ∷ [];
      };
    }))
