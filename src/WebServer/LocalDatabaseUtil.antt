-- ===== src/WebServer/LocalDatabaseUtil.antt =====
-- web_server/local_database_util.py: the queries for the status of a key and of a version, over a join of
-- the segment rows with the conjoined rows of their unified ids.
use nimbus_io.Prelude.{
  ℕ, Bool, ◌&&◌, ◌||◌, Option, none, some, List, [], ◌∷◌, ◌++◌, ltb, ◌==◌, if◌then◌else◌, Bytes,
  Text, text_eq,
}
use nimbus_io.Prelude.Tables.{select_where, order_by}
use nimbus_io.Tools.Timestamp.{Timestamp}
use nimbus_io.Database.{Status, SegmentRow, ConjoinedRow, Tables}

pub record StatusRow : Type 0 where
  pub con_create_timestamp : Option Timestamp
  pub con_complete_timestamp : Option Timestamp
  pub seg_id : ℕ
  pub seg_status : Status
  pub seg_unified_id : ℕ
  pub seg_conjoined_part : ℕ
  pub seg_timestamp : Timestamp
  pub seg_file_size : ℕ
  pub seg_file_hash : Option Bytes

abbrev pub create_timestamp_of : Option ConjoinedRow → Option Timestamp
create_timestamp_of none = none
create_timestamp_of (some con) = some con.create_timestamp

abbrev pub complete_timestamp_of : Option ConjoinedRow → Option Timestamp
complete_timestamp_of none = none
complete_timestamp_of (some con) = con.complete_timestamp

abbrev pub status_row : Option ConjoinedRow → SegmentRow → StatusRow
status_row con seg = record {
  con_create_timestamp = create_timestamp_of con;
  con_complete_timestamp = complete_timestamp_of con;
  seg_id = seg.id;
  seg_status = seg.status;
  seg_unified_id = seg.unified_id;
  seg_conjoined_part = seg.conjoined_part;
  seg_timestamp = seg.timestamp;
  seg_file_size = seg.file_size;
  seg_file_hash = seg.file_hash;
}

-- a right outer join: every row of the segments, with each conjoined row of its unified id
abbrev pub joined_with : SegmentRow → List ConjoinedRow → List StatusRow
joined_with seg [] = status_row none seg ∷ []
joined_with seg (con ∷ []) = status_row (some con) seg ∷ []
joined_with seg (con ∷ next ∷ conjoined) =
    status_row (some con) seg ∷ joined_with seg (next ∷ conjoined)

abbrev pub right_outer_join : List ConjoinedRow → List SegmentRow → List StatusRow
right_outer_join conjoined [] = []
right_outer_join conjoined (seg ∷ segments) =
    joined_with seg (select_where (λ con. con.unified_id == seg.unified_id) conjoined)
    ++ right_outer_join conjoined segments

-- strictly before: the greater unified id, and then the smaller part
abbrev pub before_in_key : StatusRow → StatusRow → Bool
before_in_key a b =
    ltb b.seg_unified_id a.seg_unified_id
    || ((a.seg_unified_id == b.seg_unified_id) && ltb a.seg_conjoined_part b.seg_conjoined_part)

abbrev pub before_in_version : StatusRow → StatusRow → Bool
before_in_version a b = ltb a.seg_conjoined_part b.seg_conjoined_part

unfoldable pub key_query : Tables → ℕ → Text → List StatusRow
key_query t collection_id key = order_by before_in_key (
    right_outer_join t.conjoined
      (select_where (λ seg. (seg.collection_id == collection_id) && text_eq seg.key key) t.segment))

unfoldable pub version_query : Tables → ℕ → List StatusRow
version_query t version_id =
    order_by before_in_version
      (right_outer_join t.conjoined (select_where (λ seg. seg.unified_id == version_id) t.segment))

-- the loop, after its first row
unfoldable pub rows_of_newest : ℕ → List StatusRow → List StatusRow
rows_of_newest newest_unified_id [] = []
rows_of_newest newest_unified_id (row ∷ rows) =
    let rest = rows_of_newest newest_unified_id rows in
    if row.seg_unified_id == newest_unified_id then row ∷ rest else []

abbrev pub newest_rows : List StatusRow → List StatusRow
newest_rows [] = []
newest_rows (row ∷ rows) = row ∷ rows_of_newest row.seg_unified_id rows

abbrev pub current_status_of_key : Tables → ℕ → Text → List StatusRow
current_status_of_key t collection_id key = newest_rows (key_query t collection_id key)

abbrev pub current_status_of_version : Tables → ℕ → List StatusRow
current_status_of_version t version_id = version_query t version_id
