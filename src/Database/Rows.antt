-- ===== src/Database/Rows.antt =====
-- The rows of the tables. Widths of columns (int4, varchar(1024)) are not modelled.
use nimbus_io.Prelude.{
  ℕ, Bool, true, false, ◌&&◌, ◌||◌, not, Option, none, some, List, ltb, ◌==◌, Text, Bytes, length,
  is_none,
}
use nimbus_io.Tools.Timestamp.{Timestamp}

-- A checksum of zlib.adler32, which is signed in Python 2; `negsuc n` is -(n + 1).
pub data ℤ : Type 0 where
  pos : ℕ → ℤ
  negsuc : ℕ → ℤ

-- the letters "A", "C", "F" and "T"
pub data Status : Type 0 where
  active cancelled final tombstone : Status

abbrev pub is_active : Status → Bool
is_active active = true
is_active _ = false

abbrev pub is_cancelled : Status → Bool
is_cancelled cancelled = true
is_cancelled _ = false

abbrev pub is_final : Status → Bool
is_final final = true
is_final _ = false

abbrev pub is_tombstone : Status → Bool
is_tombstone tombstone = true
is_tombstone _ = false

pub record SegmentRow : Type 0 where
  pub id : ℕ
  pub collection_id : ℕ
  pub key : Text
  pub status : Status
  pub unified_id : ℕ
  pub timestamp : Timestamp
  pub segment_num : ℕ
  pub conjoined_part : ℕ
  pub file_size : ℕ
  pub file_adler32 : Option ℤ
  pub file_hash : Option Bytes
  pub file_tombstone_unified_id : Option ℕ
  pub source_node_id : ℕ
  pub handoff_node_id : Option ℕ

pub record SequenceRow : Type 0 where
  pub collection_id : ℕ
  pub segment_id : ℕ
  pub zfec_padding_size : ℕ
  pub value_file_id : ℕ
  pub sequence_num : ℕ
  pub value_file_offset : ℕ
  pub size : ℕ
  pub hash : Bytes
  pub adler32 : ℤ

-- The columns that are null from the row's insertion at open to its update at close are options;
-- the estimates and check times that only other programs write are left out.
pub record ValueFileRow : Type 0 where
  pub id : ℕ
  pub creation_time : Timestamp
  pub close_time : Option Timestamp
  pub size : Option ℕ
  pub hash : Option Bytes
  pub segment_sequence_count : Option ℕ
  pub min_segment_id : Option ℕ
  pub max_segment_id : Option ℕ
  pub distinct_collection_count : Option ℕ
  pub collection_ids : Option (List ℕ)

pub record ConjoinedRow : Type 0 where
  pub id : ℕ
  pub collection_id : ℕ
  pub key : Text
  pub unified_id : ℕ
  pub create_timestamp : Timestamp
  pub abort_timestamp : Option Timestamp
  pub complete_timestamp : Option Timestamp
  pub delete_timestamp : Option Timestamp

pub record MetaRow : Type 0 where
  pub collection_id : ℕ
  pub segment_id : ℕ
  pub meta_key : Text
  pub meta_value : Text
  pub timestamp : Timestamp

-- hash_length, file_hash_length
unfoldable pub hash_check : Option Bytes → Bool
hash_check none = true
hash_check (some h) = length h == 16

-- The constraints of the table segment. possible_status and segment_num_not_null hold by the
-- types.
unfoldable pub segment_check : SegmentRow → Bool
unfolding hash_check
segment_check r =
    (not (is_tombstone r.status) || (r.file_size == 0))
    && (not (is_final r.status) || ltb 0 r.file_size)
    && (not (is_final r.status) || not (is_none r.file_adler32))
    && (not (is_final r.status) || not (is_none r.file_hash))
    && hash_check r.file_hash
