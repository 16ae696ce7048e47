-- ===== src/DataWriter/Writer/Segments/Start.antt =====
-- The start of a segment.
use nimbus_io.Prelude.{
  ℕ, ◌+◌, ◌<◌, ◌≡◌, refl, false, Option, none, some, [], ◌∷◌, ◌++◌, ◌==◌, Text, arith, All, All-imp,
  All-append, ==-refl,
}
use nimbus_io.Prelude.Tables.{select_where, select_where-append, select_where-none}
use nimbus_io.Prelude.Exec.{Result, ok}
use nimbus_io.Tools.Timestamp.{Timestamp, parse_timestamp_repr}
use nimbus_io.Database.{active, SegmentRow}
use nimbus_io.DataWriter.Sql.{insert_new_segment_row}
use nimbus_io.DataWriter.Writer.{SegmentKey, Writer, find_segment, start_new_segment}
use nimbus_io.DataWriter.Writer.Sound.{IsSound}
use nimbus_io.DataWriter.Writer.Store.{stored}
use nimbus_io.DataWriter.Writer.Segments.{rows_with, key_eq_refl}

-- Ids below the next value of the sequence.
pub record IsNumbered (w : Writer) : Type 0 where
  pub segments :
      All (λ r. r.id < w.storage.connection.segment_id_seq) w.storage.connection.current.segment
  pub sequences :
      All
        (λ q. q.segment_id < w.storage.connection.segment_id_seq)
        w.storage.connection.current.segment_sequence

-- the row that `start_new_segment` inserts
abbrev pub started_row : ℕ → ℕ → Text → SegmentKey → Timestamp → ℕ → Option ℕ → SegmentRow
started_row id collection_id key k timestamp source_node_id handoff_node_id = record {
  id = id;
  collection_id = collection_id;
  key = key;
  status = active;
  unified_id = k.unified_id;
  timestamp = timestamp;
  segment_num = k.segment_num;
  conjoined_part = k.conjoined_part;
  file_size = 0;
  file_adler32 = none;
  file_hash = none;
  file_tombstone_unified_id = none;
  source_node_id = source_node_id;
  handoff_node_id = handoff_node_id;
}

module _ (collection_id : ℕ) (key : Text) (k : SegmentKey) (timestamp_repr : Text)
    (source_node_id : ℕ) (handoff_node_id : Option ℕ) (w : Writer) where
  abbrev pub start : Result (Unit {0}) × Writer
  start =
      start_new_segment collection_id key k.unified_id timestamp_repr k.conjoined_part k.segment_num
        source_node_id handoff_node_id w

  module _ (timestamp : Timestamp) where
    abbrev id : ℕ
    id = w.storage.connection.segment_id_seq

    abbrev new_row : SegmentRow
    new_row = started_row id collection_id key k timestamp source_node_id handoff_node_id

    abbrev started : Writer
    started = record w {
      active_segments = (k, id) ∷ w.active_segments;
      storage = record (w.storage) {
        connection = record (w.storage.connection) {
          segment_id_seq = id + 1;
          current = record (w.storage.connection.current) {
            segment = w.storage.connection.current.segment ++ new_row ∷ [];
          };
        };
      };
    }

    start_lem :
        find_segment k w.active_segments ≡ none
        → parse_timestamp_repr timestamp_repr ≡ some timestamp
        → start ≡ (ok tt, started)
    unfolding start_new_segment insert_new_segment_row
    start_lem fresh parsed = rw (fresh, parsed)

    started-IsSound : IsSound w → IsSound started
    started-IsSound s = record {
      opened = s.opened;
      sized = s.sized;
      known = s.known;
      fresh = s.fresh;
      rows = s.rows;
    }

    started-IsNumbered : IsNumbered w → IsNumbered started
    started-IsNumbered n = record {
      segments =
          All-append (λ r. r.id < id + 1) w.storage.connection.current.segment (new_row ∷ [])
            (All-imp (λ r. r.id < id) (λ r. r.id < id + 1) (λ r h. omega arith)
              w.storage.connection.current.segment n.segments)
            (omega arith, tt);
      sequences =
          All-imp (λ q. q.segment_id < id) (λ q. q.segment_id < id + 1) (λ q h. omega arith)
            w.storage.connection.current.segment_sequence n.sequences;
    }

    find-started : find_segment k started.active_segments ≡ some id
    unfolding find_segment
    find-started = rw (key_eq_refl k)

    rows-started : IsNumbered w → rows_with started id ≡ new_row ∷ []
    unfolding select_where
    rows-started n = rw (
      select_where-append (λ r. r.id == id) w.storage.connection.current.segment (new_row ∷ []),
      select_where-none (λ r. r.id == id) w.storage.connection.current.segment
          (All-imp (λ r. r.id < id) (λ r. (r.id == id) ≡ false) (λ r h. ground arith)
            w.storage.connection.current.segment n.segments),
      ==-refl id,
    )

    stored-started : IsNumbered w → stored started id ≡ []
    stored-started n = rw (
        select_where-none (λ q. q.segment_id == id) w.storage.connection.current.segment_sequence
          (All-imp (λ q. q.segment_id < id) (λ q. (q.segment_id == id) ≡ false)
            (λ q h. ground arith) w.storage.connection.current.segment_sequence n.sequences))

    -- Of a segment that is not active: a new active row with the next id of the sequence, which is
    -- the id of the active segment and has no sequence; no sequence of another changes.
    pub start_new_segment-starts :
        IsSound w
        → IsNumbered w
        → find_segment k w.active_segments ≡ none
        → parse_timestamp_repr timestamp_repr ≡ some timestamp
        → let (r, w') = start in
          (r ≡ ok tt)
          × IsSound w'
          × IsNumbered w'
          × (find_segment k w'.active_segments ≡ some id)
          × (rows_with w' id ≡ new_row ∷ [])
          × ((j : ℕ) → stored w' j ≡ stored w j)
          × (stored w' id ≡ [])
          × (w'.storage.connection.current.segment
              ≡ w.storage.connection.current.segment ++ new_row ∷ [])
    start_new_segment-starts s n fresh parsed = rw (start_lem fresh parsed) (
      refl,
      started-IsSound s,
      started-IsNumbered n,
      find-started,
      rows-started n,
      λ j. refl,
      stored-started n,
      refl,
    )
