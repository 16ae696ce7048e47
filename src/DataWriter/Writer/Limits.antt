-- ===== src/DataWriter/Writer/Limits.antt =====
-- The size limit of value files, and what a call of the writer has committed when it returns.
use nimbus_io.Prelude.{ℕ, ◌+◌, ◌≤◌, ◌≡◌, refl, Bytes, length, arith, Option-cases, inl, inr}
use nimbus_io.Tools.Timestamp.{Timestamp}
use nimbus_io.Database.{ℤ, commit}
use nimbus_io.DataWriter.Sql.{insert_segment_sequence_row}
use nimbus_io.DataWriter.ValueFile.{
  insert_value_file_default_row, open_value_file, new_value_file, write_data_for_one_sequence,
  close, update_value_file_row,
}
use nimbus_io.DataWriter.Writer.{
  SegmentKey, Writer, Env, write_data, roll_over, store_sequence, find_segment,
}
use nimbus_io.DataWriter.Writer.Sound.{roll_over_total, write_data-keeps}

module _ (env : Env) (now : Timestamp) (segment_size : ℕ) (w : Writer) where
  roll_over_room :
      segment_size ≤ env.max_value_file_size
      → (roll_over env now segment_size w).1.value_file.size + segment_size
        ≤ env.max_value_file_size
  unfolding roll_over close new_value_file open_value_file insert_value_file_default_row
      update_value_file_row commit
  roll_over_room h = ground arith

size-write_data :
    (collection_id segment_id : ℕ) (content : Bytes) (w : Writer)
    → (write_data collection_id segment_id content w).1.value_file.size
      ≡ w.value_file.size + length content
unfolding write_data write_data_for_one_sequence
size-write_data collection_id segment_id content w = refl

-- A value file never grows past the limit, as long as no single sequence is larger than it: after
-- `store_sequence`, whether it returns or raises, the size of the open file is within the limit if
-- it was before.
pub store_sequence-le_limit :
    (env : Env) (now : Timestamp) (collection_id : ℕ) (k : SegmentKey)
    (segment_size zfec_padding_size : ℕ) (digest : Bytes) (segment_adler32 : ℤ) (sequence_num : ℕ)
    (content : Bytes) (w : Writer)
    → length content ≡ segment_size
    → segment_size ≤ env.max_value_file_size
    → w.value_file.size ≤ env.max_value_file_size
    → (store_sequence env now collection_id k.unified_id k.conjoined_part k.segment_num segment_size
        zfec_padding_size digest segment_adler32 sequence_num content w).1.value_file.size
      ≤ env.max_value_file_size
unfolding store_sequence insert_segment_sequence_row
store_sequence-le_limit env now c k size pad digest adler n content w whole fits before =
    elim (Option-cases (find_segment k w.active_segments)) [
      | inl missing ↦ rw missing before
      | inr (id, found) ↦
          rw
            (
              found,
              roll_over_total env now size w,
              (write_data-keeps c id content (roll_over env now size w).1).0,
            )
            (ground (
              arith,
              roll_over_room env now size w fits,
              size-write_data c id content (roll_over env now size w).1,
            ))
    ]
