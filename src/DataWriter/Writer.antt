-- ===== src/DataWriter/Writer.antt =====
-- The class `Writer` of data_writer/writer.py. `now` is the clock's reading during a call.
pub mod Sound
pub mod Store
pub mod Segments
pub mod Limits
use nimbus_io.Prelude.{
  ℕ, ◌+◌, Bool, true, false, ◌&&◌, Option, none, some, List, [], ◌∷◌, map, ltb, ◌==◌, if◌then◌else◌,
  Text, Bytes,
}
use nimbus_io.Prelude.Tables.{delete_where}
use nimbus_io.Prelude.Exec.{
  Exec, ok, gets, modify, or_raise, raise_if, zoom, key_error, value_error, ◌>>=◌, ◌>>◌,
}
use nimbus_io.Tools.Timestamp.{Timestamp, parse_timestamp_repr}
use nimbus_io.Database.{ℤ, SequenceRow, MetaRow, Connection}
use nimbus_io.DataWriter.Sql.{
  insert_conjoined_row, set_conjoined_abort_timestamp, set_conjoined_complete_timestamp,
  insert_new_segment_row, finalize_segment_row, insert_segment_tombstone_row, cancel_segment_rows,
  cancel_segment_row, insert_segment_sequence_row, purge_handoff_source,
}
use nimbus_io.DataWriter.ValueFile.{
  OutputValueFile, Storage, on_connection, new_value_file, write_data_for_one_sequence, close,
}

-- unified_id, conjoined_part and segment_num
pub record SegmentKey : Type 0 where
  pub unified_id : ℕ
  pub conjoined_part : ℕ
  pub segment_num : ℕ

abbrev pub key_eq : SegmentKey → SegmentKey → Bool
key_eq a b =
    (a.unified_id == b.unified_id)
    && (a.conjoined_part == b.conjoined_part)
    && (a.segment_num == b.segment_num)

-- The dictionary of active segments, with the id of the row of each.
abbrev pub Actives : Type 0
Actives = List (SegmentKey × ℕ)

unfoldable pub find_segment : SegmentKey → Actives → Option ℕ
find_segment k [] = none
find_segment k ((j, id) ∷ actives) = if key_eq j k then some id else find_segment k actives

abbrev pub forget : SegmentKey → Actives → Actives
forget k = delete_where (λ e. key_eq e.0 k)

pub record Writer : Type 0 where
  pub storage : Storage
  pub active_segments : Actives
  pub value_file : OutputValueFile

abbrev pub on_storage : {A : Type 0} → Exec Storage A → Exec Writer A
on_storage = zoom (λ w. w.storage) (λ s w. record w { storage = s })

abbrev pub on_database : {A : Type 0} → Exec Connection A → Exec Writer A
on_database m = on_storage (on_connection m)

-- What the process is given: the environment variable NIMBUS_IO_MAX_VALUE_FILE_SIZE and the
-- library's md5 and base64.
pub record Env : Type 0 where
  pub max_value_file_size : ℕ
  pub md5 : Bytes → Bytes
  pub b64decode : Text → Option Bytes

unfoldable pub start_new_segment :
    ℕ → Text → ℕ → Text → ℕ → ℕ → ℕ → Option ℕ → Exec Writer (Unit {0})
start_new_segment collection_id key unified_id timestamp_repr conjoined_part segment_num
      source_node_id handoff_node_id =
    do
      let k : SegmentKey = record {
        unified_id = unified_id;
        conjoined_part = conjoined_part;
        segment_num = segment_num;
      }
      found ← gets (λ w. find_segment k w.active_segments)
      raise_if (elim found [ none ↦ false | some _ ↦ true ]) value_error
      timestamp ← or_raise (parse_timestamp_repr timestamp_repr) value_error
      id ← on_database (
          insert_new_segment_row collection_id unified_id key timestamp conjoined_part segment_num
            source_node_id handoff_node_id)
      modify (λ w. record w { active_segments = (k, id) ∷ w.active_segments })

-- The rollover: a write that would pass the size limit goes to a new value file.
unfoldable pub roll_over : Env → Timestamp → ℕ → Exec Writer (Unit {0})
roll_over env now segment_size w =
    if ltb env.max_value_file_size (w.value_file.size + segment_size)
    then (do
      on_storage (close env.md5 now w.value_file)
      f ← on_storage (new_value_file now)
      modify (λ w. record w { value_file = f }))
        w
    else (ok tt, w)

-- `self._value_file.write_data_for_one_sequence(...)`
unfoldable pub write_data : ℕ → ℕ → Bytes → Exec Writer (Unit {0})
write_data collection_id segment_id content = do
  f ← gets (λ w. w.value_file)
  f' ← on_storage (write_data_for_one_sequence f collection_id segment_id content)
  modify (λ w. record w { value_file = f' })

-- The row for the bytes that are about to be written at the end of the value file.
abbrev pub sequence_row : OutputValueFile → ℕ → ℕ → ℕ → ℕ → Bytes → ℤ → ℕ → SequenceRow
sequence_row f collection_id segment_id segment_size zfec_padding_size segment_md5_digest
      segment_adler32 sequence_num =
    record {
      collection_id = collection_id;
      segment_id = segment_id;
      zfec_padding_size = zfec_padding_size;
      value_file_id = f.value_file_id;
      sequence_num = sequence_num;
      value_file_offset = f.size;
      size = segment_size;
      hash = segment_md5_digest;
      adler32 = segment_adler32;
    }

unfoldable pub store_sequence :
    Env → Timestamp → ℕ → ℕ → ℕ → ℕ → ℕ → ℕ → Bytes → ℤ → ℕ → Bytes → Exec Writer (Unit {0})
store_sequence env now collection_id unified_id conjoined_part segment_num segment_size
      zfec_padding_size segment_md5_digest segment_adler32 sequence_num content =
    do
      let k : SegmentKey = record {
        unified_id = unified_id;
        conjoined_part = conjoined_part;
        segment_num = segment_num;
      }
      found ← gets (λ w. find_segment k w.active_segments)
      segment_id ← or_raise found key_error
      roll_over env now segment_size
      f ← gets (λ w. w.value_file)
      write_data collection_id segment_id content
      on_database (
          insert_segment_sequence_row (
            sequence_row f collection_id segment_id segment_size zfec_padding_size
              segment_md5_digest segment_adler32 sequence_num))

abbrev pub meta_row : ℕ → ℕ → Timestamp → Text × Text → MetaRow
meta_row collection_id segment_id timestamp (meta_key, meta_value) = record {
  collection_id = collection_id;
  segment_id = segment_id;
  meta_key = meta_key;
  meta_value = meta_value;
  timestamp = timestamp;
}

unfoldable pub finish_new_segment :
    ℕ → ℕ → Text → ℕ → ℕ → ℕ → ℤ → Bytes → List (Text × Text) → Exec Writer (Unit {0})
finish_new_segment collection_id unified_id timestamp_repr conjoined_part segment_num file_size
      file_adler32 file_hash meta_dict =
    do
      let k : SegmentKey = record {
        unified_id = unified_id;
        conjoined_part = conjoined_part;
        segment_num = segment_num;
      }
      found ← gets (λ w. find_segment k w.active_segments)
      segment_id ← or_raise found key_error
      modify (λ w. record w { active_segments = forget k w.active_segments })
      timestamp ← or_raise (parse_timestamp_repr timestamp_repr) value_error
      on_database (
          finalize_segment_row segment_id file_size file_adler32 file_hash
            (map (meta_row collection_id segment_id timestamp) meta_dict))

unfoldable pub set_tombstone :
    ℕ → Text → Option ℕ → ℕ → Timestamp → ℕ → ℕ → Option ℕ → Exec Writer (Unit {0})
set_tombstone collection_id key unified_id_to_delete unified_id timestamp segment_num source_node_id
      handoff_node_id =
    on_database (
      insert_segment_tombstone_row collection_id key unified_id timestamp segment_num
        unified_id_to_delete source_node_id handoff_node_id)

unfoldable pub cancel_active_archives_from_node : ℕ → Timestamp → Exec Writer (Unit {0})
cancel_active_archives_from_node source_node_id timestamp =
    on_database (cancel_segment_rows source_node_id timestamp)

-- An archive that is not active is left alone.
unfoldable pub cancel_active_archive : ℕ → ℕ → ℕ → Exec Writer (Unit {0})
cancel_active_archive unified_id conjoined_part segment_num w =
    let k : SegmentKey = record {
      unified_id = unified_id;
      conjoined_part = conjoined_part;
      segment_num = segment_num;
    } in
    elim (find_segment k w.active_segments) [
      | none ↦ (ok tt, w)
      | some id ↦
          on_database (cancel_segment_row id)
            (record w { active_segments = forget k w.active_segments })
    ]

unfoldable pub purge_handoff : ℕ → ℕ → ℕ → Exec Writer (Unit {0})
purge_handoff collection_id unified_id handoff_node_id =
    on_database (purge_handoff_source collection_id unified_id handoff_node_id)

unfoldable pub start_conjoined_archive : ℕ → Text → ℕ → Timestamp → Exec Writer (Unit {0})
start_conjoined_archive collection_id key unified_id timestamp =
    on_database (insert_conjoined_row collection_id key unified_id timestamp)

unfoldable pub abort_conjoined_archive : ℕ → Text → ℕ → Timestamp → Exec Writer (Unit {0})
abort_conjoined_archive collection_id key unified_id timestamp =
    on_database (set_conjoined_abort_timestamp collection_id key unified_id timestamp)

unfoldable pub finish_conjoined_archive : ℕ → Text → ℕ → Timestamp → Exec Writer (Unit {0})
finish_conjoined_archive collection_id key unified_id timestamp =
    on_database (set_conjoined_complete_timestamp collection_id key unified_id timestamp)
