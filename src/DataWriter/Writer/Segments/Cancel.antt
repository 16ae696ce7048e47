-- ===== src/DataWriter/Writer/Segments/Cancel.antt =====
-- The cancellation of a segment, also after its end.
use nimbus_io.Prelude.{
  ℕ, ◌≡◌, refl, ◌&&◌, none, some, List, ◌==◌, if◌then◌else◌, Text, Bytes, arith,
}
use nimbus_io.Prelude.Tables.{update_where}
use nimbus_io.Prelude.Exec.{Result, ok}
use nimbus_io.Database.{ℤ, cancelled, is_active, SegmentRow, Tables, commit}
use nimbus_io.DataWriter.Sql.{finalize_segment_row, cancel_segment_row, cancel}
use nimbus_io.DataWriter.Writer.{
  SegmentKey, key_eq, Writer, find_segment, forget, finish_new_segment, cancel_active_archive,
}
use nimbus_io.DataWriter.Writer.Store.{stored}
use nimbus_io.DataWriter.Writer.Segments.{rows_with, select-update_some, find-forget, key_eq_refl}
use nimbus_io.DataWriter.Writer.Segments.Finish.{finish}

module _ (k : SegmentKey) (w : Writer) where
  abbrev pub cancelling : Result (Unit {0}) × Writer
  cancelling = cancel_active_archive k.unified_id k.conjoined_part k.segment_num w

  cancel_unknown : find_segment k w.active_segments ≡ none → cancelling ≡ (ok tt, w)
  unfolding cancel_active_archive
  cancel_unknown missing = rw (missing, cancel_active_archive)

  abbrev cancelled_rows : ℕ → List SegmentRow
  cancelled_rows id =
      update_where (λ r. (r.id == id) && is_active r.status) cancel
        w.storage.connection.current.segment

  abbrev cancelled_tables : ℕ → Tables
  cancelled_tables id = record (w.storage.connection.current) { segment = cancelled_rows id }

  cancel_lem :
      (id : ℕ)
      → find_segment k w.active_segments ≡ some id
      → cancelling ≡ (
        ok tt,
        record w {
          active_segments = forget k w.active_segments;
          storage = record (w.storage) {
            connection = record (w.storage.connection) {
              current = cancelled_tables id;
              durable = cancelled_tables id;
            };
          };
        },
      )
  unfolding cancel_active_archive cancel_segment_row commit
  cancel_lem id found = rw (found, cancel_active_archive)

  -- The cancellation of an active segment: its row becomes cancelled if it is still active, no
  -- other row changes, the segment is forgotten, and what the segments have stored stays; all is
  -- committed. Nothing else changes: the other tables, the sequences of ids, the disk and the open
  -- value file.
  pub cancel_active_archive-cancels :
      (id : ℕ)
      → find_segment k w.active_segments ≡ some id
      → let (r, w') = cancelling in
        (r ≡ ok tt)
        × ((j : SegmentKey)
            → find_segment j w'.active_segments
              ≡ (if key_eq k j then none else find_segment j w.active_segments))
        × ((j : ℕ)
            → rows_with w' j ≡ (
                if id == j
                then update_where
                    (λ r. is_active r.status)
                    (λ r. record r { status = cancelled })
                    (rows_with w j)
                else rows_with w j))
        × ((j : ℕ) → stored w' j ≡ stored w j)
        × (w'.storage.connection.durable ≡ w'.storage.connection.current)
        × (w' ≡ record w {
          active_segments = w'.active_segments;
          storage = record (w.storage) {
            connection = record (w.storage.connection) {
              current = record (w.storage.connection.current) {
                segment = w'.storage.connection.current.segment;
              };
              durable = w'.storage.connection.durable;
            };
          };
        })
  cancel_active_archive-cancels id found = rw (cancel_lem id found) (
    refl,
    λ j. find-forget k j w.active_segments,
    λ j.
        select-update_some id j (λ r. is_active r.status) cancel
          w.storage.connection.current.segment (λ r. refl),
    λ j. refl,
    refl,
    refl,
  )

forgotten : (k : SegmentKey) (w : Writer) → find_segment k (forget k w.active_segments) ≡ none
forgotten k w = rw (find-forget k k w.active_segments, key_eq_refl k)

finish-forgets :
    (collection_id : ℕ) (k : SegmentKey) (timestamp_repr : Text) (file_size : ℕ) (file_adler32 : ℤ)
    (file_hash : Bytes) (meta_dict : List (Text × Text)) (w : Writer)
    → find_segment k
        (finish collection_id k timestamp_repr file_size file_adler32 file_hash meta_dict
          w).1.active_segments
      ≡ none
unfolding finish_new_segment finalize_segment_row commit
finish-forgets collection_id k timestamp_repr file_size file_adler32 file_hash meta_dict w =
    ground (arith, forgotten k w)

-- The race that the source names: a cancellation that arrives after the segment was finished, or
-- after a failed attempt to finish it, changes nothing.
pub cancel-finish :
    (collection_id : ℕ) (k : SegmentKey) (timestamp_repr : Text) (file_size : ℕ) (file_adler32 : ℤ)
    (file_hash : Bytes) (meta_dict : List (Text × Text)) (w : Writer)
    → let w' =
        (finish collection_id k timestamp_repr file_size file_adler32 file_hash meta_dict w).1 in
      cancelling k w' ≡ (ok tt, w')
cancel-finish collection_id k timestamp_repr file_size file_adler32 file_hash meta_dict w =
    cancel_unknown k
      (finish collection_id k timestamp_repr file_size file_adler32 file_hash meta_dict w).1
      (finish-forgets collection_id k timestamp_repr file_size file_adler32 file_hash meta_dict w)
