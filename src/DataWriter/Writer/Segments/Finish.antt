-- ===== src/DataWriter/Writer/Segments/Finish.antt =====
-- The end of a segment.
use nimbus_io.Prelude.{
  ℕ, ◌<◌, ◌≡◌, refl, Bool, true, not, ◌||◌, none, some, List, [], ◌∷◌, ◌++◌, map, ◌==◌,
  if◌then◌else◌, Text, Bytes, length, arith,
}
use nimbus_io.Prelude.Tables.{update_where, all_where}
use nimbus_io.Prelude.Exec.{Result, ok}
use nimbus_io.Tools.Timestamp.{Timestamp, parse_timestamp_repr}
use nimbus_io.Database.{ℤ, final, MetaRow, SegmentRow, Tables, commit, segment_check}
use nimbus_io.DataWriter.Sql.{finalize_segment_row}
use nimbus_io.DataWriter.Writer.{
  SegmentKey, key_eq, Writer, find_segment, forget, finish_new_segment,
}
use nimbus_io.DataWriter.Writer.Sound.{IsSound}
use nimbus_io.DataWriter.Writer.Store.{stored}
use nimbus_io.DataWriter.Writer.Segments.{rows_with, select-update, find-forget}

all_where-true :
    (p : SegmentRow → Bool) (rows : List SegmentRow)
    → ((r : SegmentRow) → p r ≡ true)
    → all_where p rows ≡ true
unfolding all_where
all_where-true p [] h = refl
all_where-true p (r ∷ rows) h = rw (h r, all_where-true p rows h)

-- the row of an item of the metadata
abbrev pub meta_of : ℕ → ℕ → Timestamp → Text × Text → MetaRow
meta_of collection_id segment_id timestamp item = record {
  collection_id = collection_id;
  segment_id = segment_id;
  meta_key = item.0;
  meta_value = item.1;
  timestamp = timestamp;
}

-- what `finish_new_segment` leaves in the database for an active segment
module _ (collection_id : ℕ) (k : SegmentKey) (timestamp_repr : Text) (file_size : ℕ)
    (file_adler32 : ℤ) (file_hash : Bytes) (meta_dict : List (Text × Text)) (w : Writer) where
  abbrev pub finish : Result (Unit {0}) × Writer
  finish =
      finish_new_segment collection_id k.unified_id timestamp_repr k.conjoined_part k.segment_num
        file_size file_adler32 file_hash meta_dict w

  abbrev finished : SegmentRow → SegmentRow
  finished r = record r {
    status = final;
    file_size = file_size;
    file_adler32 = some file_adler32;
    file_hash = some file_hash;
  }

  finished_check :
      0 < file_size → length file_hash ≡ 16 → (r : SegmentRow) → segment_check (finished r) ≡ true
  unfolding segment_check
  finished_check pos sixteen r = ground arith

  module _ (id : ℕ) (timestamp : Timestamp) where
    abbrev rows' : List SegmentRow
    rows' = update_where (λ r. r.id == id) finished w.storage.connection.current.segment

    abbrev tables' : Tables
    tables' = record (w.storage.connection.current) {
      segment = rows';
      meta =
          w.storage.connection.current.meta ++ map (meta_of collection_id id timestamp) meta_dict;
    }

    abbrev ended : Writer
    ended = record w {
      active_segments = forget k w.active_segments;
      storage = record (w.storage) {
        connection = record (w.storage.connection) { current = tables'; durable = tables' };
      };
    }

    finish_lem :
        find_segment k w.active_segments ≡ some id
        → parse_timestamp_repr timestamp_repr ≡ some timestamp
        → 0 < file_size
        → length file_hash ≡ 16
        → finish ≡ (ok tt, ended)
    unfolding finish_new_segment finalize_segment_row commit
    finish_lem found parsed pos sixteen = rw (
      found,
      parsed,
      all_where-true (λ r. not (r.id == id) || segment_check (finished r))
          w.storage.connection.current.segment (λ r. ground (arith, finished_check pos sixteen r)),
    )

    -- The segment's row becomes final with the size and the checksums of the file, the segment is
    -- not active any more while the others stay, no stored byte changes, the metadata is added,
    -- and all is committed. Nothing else changes: the other tables, the sequences of ids, the disk
    -- and the open value file.
    pub finish_new_segment-finishes :
        IsSound w
        → find_segment k w.active_segments ≡ some id
        → parse_timestamp_repr timestamp_repr ≡ some timestamp
        → 0 < file_size
        → length file_hash ≡ 16
        → let (r, w') = finish in
          (r ≡ ok tt)
          × IsSound w'
          × ((j : SegmentKey)
              → find_segment j w'.active_segments
                ≡ (if key_eq k j then none else find_segment j w.active_segments))
          × ((j : ℕ)
              → rows_with w' j ≡ (if id == j then map finished (rows_with w j) else rows_with w j))
          × ((j : ℕ) → stored w' j ≡ stored w j)
          × (w'.storage.connection.current.meta
              ≡ w.storage.connection.current.meta
                ++ map (meta_of collection_id id timestamp) meta_dict)
          × (w'.storage.connection.durable ≡ w'.storage.connection.current)
          × (w'.storage.connection.current.segment ≡ rows')
          × (w' ≡ record w {
            active_segments = w'.active_segments;
            storage = record (w.storage) {
              connection = record (w.storage.connection) {
                current = record (w.storage.connection.current) {
                  segment = w'.storage.connection.current.segment;
                  meta = w'.storage.connection.current.meta;
                };
                durable = w'.storage.connection.durable;
              };
            };
          })
    finish_new_segment-finishes s found parsed pos sixteen =
        rw (finish_lem found parsed pos sixteen) (
          refl,
          record {
            opened = s.opened;
            sized = s.sized;
            known = s.known;
            fresh = s.fresh;
            rows = s.rows;
          },
          λ j. find-forget k j w.active_segments,
          λ j. select-update id j finished w.storage.connection.current.segment (λ r. refl),
          λ j. refl,
          refl,
          refl,
          refl,
          refl,
        )
